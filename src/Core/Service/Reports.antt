-- ===== src/Core/Service/Reports.antt =====
-- What a service reports: each component once, under its type, and an overall status that agrees
-- with the component statuses in the same report.
use mathlib.Core.List.{append-nil, append_assoc}
use go_healthcheck.Prelude.{
  ℕ, suc, ◌+◌, length, length-append, ◌≡◌, refl, sym, ◌||◌, List, [], ◌∷◌, ◌++◌, map, String, ◌==◌,
  if◌then◌else◌, arith, eq_iff, Bool-cases, inl, inr,
}
use go_healthcheck.Core.Types.{StatusEnum, status_fail, status_warn, ComponentHealth}
use go_healthcheck.Core.Interface.{ComponentApi}
use go_healthcheck.Core.Service.{
  Service, append_check, check_key, collect_checks, health, recalculate_status, statuses,
}
use go_healthcheck.Core.Service.Overall.{reports, worst, overall-worst}

-- checks[key], which is empty for a key that is missing.
abbrev pub checks_at : String → List (String × List ComponentHealth) → List ComponentHealth
checks_at key [] = []
checks_at key ((k, hs) ∷ checks) = if k == key then hs else checks_at key checks

checks_at-append_check :
    (j k : String) (h : ComponentHealth) (m : List (String × List ComponentHealth))
    → checks_at j (append_check k h m) ≡ (if k == j then checks_at j m ++ h ∷ [] else checks_at j m)
unfolding append_check
checks_at-append_check j k h [] = refl
checks_at-append_check j k h ((i, hs) ∷ m) =
    ground (arith, eq_iff k j, eq_iff i k, eq_iff i j, checks_at-append_check j k h m)

-- The statuses inside a map of checks.
abbrev pub health_statuses : List ComponentHealth → List StatusEnum
health_statuses hs = map (λ h. h.status) hs

abbrev pub check_statuses : List (String × List ComponentHealth) → List StatusEnum
check_statuses [] = []
check_statuses ((k, hs) ∷ checks) = health_statuses hs ++ check_statuses checks

reports-append :
    (s : StatusEnum) (xs ys : List StatusEnum)
    → reports s (xs ++ ys) ≡ (reports s xs || reports s ys)
unfolding reports
reports-append s [] ys = refl
reports-append s (x ∷ xs) ys = ground (arith, reports-append s xs ys)

reports-health_statuses :
    (s : StatusEnum) (hs : List ComponentHealth) (h : ComponentHealth)
    → reports s (health_statuses (hs ++ h ∷ []))
      ≡ (reports s (health_statuses hs) || (h.status == s))
unfolding reports
reports-health_statuses s [] h = ground arith
reports-health_statuses s (x ∷ hs) h = ground (arith, reports-health_statuses s hs h)

reports-append_check :
    (s : StatusEnum) (k : String) (h : ComponentHealth) (m : List (String × List ComponentHealth))
    → reports s (check_statuses (append_check k h m))
      ≡ (reports s (check_statuses m) || (h.status == s))
unfolding append_check
reports-append_check s k h [] = unfold reports in ground arith
reports-append_check s k h ((i, hs) ∷ m) = ground (
  arith,
  reports-append s (health_statuses (hs ++ h ∷ [])) (check_statuses m),
  reports-health_statuses s hs h,
  reports-append s (health_statuses hs) (check_statuses m),
  reports-append s (health_statuses hs) (check_statuses (append_check k h m)),
  reports-append_check s k h m,
)

-- How many reports a map of checks holds.
abbrev check_count : List (String × List ComponentHealth) → ℕ
check_count [] = 0
check_count ((k, hs) ∷ checks) = length hs + check_count checks

check_count-append_check :
    (k : String) (h : ComponentHealth) (m : List (String × List ComponentHealth))
    → check_count (append_check k h m) ≡ suc (check_count m)
unfolding append_check
check_count-append_check k h [] = omega arith
check_count-append_check k h ((i, hs) ∷ m) =
    ground (arith, length-append hs (h ∷ []), check_count-append_check k h m)

module _ {S : Type 0} ⦃api : ComponentApi S⦄ where
  -- The reports of the components whose type gives the key, in the order of the components.
  abbrev pub reports_under : String → List S → List ComponentHealth
  reports_under key [] = []
  reports_under key (c ∷ cs) =
      let rest = reports_under key cs in
      if check_key (api.descriptor c).component_type == key then api.health c ∷ rest else rest

  checks_at-collect_checks :
      (key : String) (m : List (String × List ComponentHealth)) (cs : List S)
      → checks_at key (collect_checks m cs) ≡ checks_at key m ++ reports_under key cs
  unfolding collect_checks
  checks_at-collect_checks key m [] = sym (append-nil _)
  checks_at-collect_checks key m (c ∷ cs) =
      let k : String = check_key (api.descriptor c).component_type in
      let h : ComponentHealth = api.health c in
      let ih = checks_at-collect_checks key (append_check k h m) cs in
      elim (Bool-cases (k == key)) [
        | inl hit ↦
            rw (ih, checks_at-append_check key k h m, hit)
              (append_assoc (checks_at key m) (h ∷ []) (reports_under key cs))
        | inr miss ↦ rw (ih, checks_at-append_check key k h m, miss) refl
      ]

  -- Health groups the components by type: under each key stand the reports of exactly the components
  -- of that type ("default" for a component without a type), in the order of the components.
  pub checks-reports_under :
      (s : Service S) (key : String)
      → checks_at key (health s).checks ≡ reports_under key s.components
  unfolding health
  checks-reports_under s key = checks_at-collect_checks key [] s.components

  reports-collect_checks :
      (x : StatusEnum) (m : List (String × List ComponentHealth)) (cs : List S)
      → reports x (check_statuses (collect_checks m cs))
        ≡ (reports x (check_statuses m) || reports x (statuses cs))
  unfolding collect_checks reports
  reports-collect_checks x m [] = ground arith
  reports-collect_checks x m (c ∷ cs) = ground (
    arith,
    reports-collect_checks x
        (append_check (check_key (api.descriptor c).component_type) (api.health c) m) cs,
    reports-append_check x (check_key (api.descriptor c).component_type) (api.health c) m,
    api.health_status c,
  )

  -- Right after recalculateStatus the report is consistent: its overall status is the worst of the
  -- statuses that stand in its checks.
  pub health-worst :
      (s : Service S)
      → let report = health (recalculate_status s) in
        report.status ≡ worst (check_statuses report.checks)
  unfolding health recalculate_status reports
  health-worst s = ground (
    arith,
    overall-worst (statuses s.components),
    reports-collect_checks status_fail [] s.components,
    reports-collect_checks status_warn [] s.components,
  )

  check_count-collect_checks :
      (m : List (String × List ComponentHealth)) (cs : List S)
      → check_count (collect_checks m cs) ≡ check_count m + length cs
  unfolding collect_checks
  check_count-collect_checks m [] = omega arith
  check_count-collect_checks m (c ∷ cs) =
      let k : String = check_key (api.descriptor c).component_type in
      omega (
        arith,
        check_count-collect_checks (append_check k (api.health c) m) cs,
        check_count-append_check k (api.health c) m,
      )

  -- Health reports as many components as the service has: none is lost or reported twice.
  check_count-health : (s : Service S) → check_count (health s).checks ≡ length s.components
  unfolding health
  check_count-health s = omega (arith, check_count-collect_checks [] s.components)
