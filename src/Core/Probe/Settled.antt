-- ===== src/Core/Probe/Settled.antt =====
-- The probe of a service whose goroutines and components have come to rest.
use go_healthcheck.Prelude.{
  ℕ, zero, suc, ◌≡◌, refl, sym, ap, ◌∙◌, ◌⊎◌, inl, inr, false, List, [], ◌∷◌, ◌++◌, some, map,
  if◌then◌else◌,
}
use mathlib.Core.Path.{fun_ext}
use mathlib.Core.List.{map-append}
use go_healthcheck.Core.Types.{StatusEnum, status_fail, zero_status, Descriptor}
use go_healthcheck.Core.Interface.{ComponentApi}
use go_healthcheck.Core.Publisher.{Publisher}
use go_healthcheck.Core.Service.{Service, statuses, recalculate_status, health}
use go_healthcheck.Core.Service.Prefixes.{first_statuses}
use go_healthcheck.Core.Service.Overall.{worst, reports, overall-worst}
use go_healthcheck.Core.Service.Composed.{Composed, Reach, Run, CanAct}
use go_healthcheck.Core.Service.Composed.Settling.{composed_settles}
use go_healthcheck.Core.Handler.{ready, new_writer}
use go_healthcheck.Core.Handler.Response.{ready_headers}
use go_healthcheck.Core.Probe.{ready-recalculate_status}

-- The components 0 … n - 1, in their order.
abbrev pub first_parts {ℓ} : {S : Type ℓ} → (ℕ → S) → ℕ → List S
first_parts f zero = []
first_parts f (suc n) = first_parts f n ++ f n ∷ []

map-first_parts :
    {A : Type 0} (g : A → StatusEnum) (f : ℕ → A) (n : ℕ)
    → map g (first_parts f n) ≡ first_statuses (λ i. g (f i)) n
map-first_parts g f zero = refl
map-first_parts g f (suc n) =
    rw (map-append g (first_parts f n) (f n ∷ []), map-first_parts g f n) refl

-- The service as Health() finds it.
abbrev pub service_of : {S : Type 0} → Descriptor → ℕ → Composed S → Service S
service_of descriptor n s = record {
  components = first_parts s.parts n;
  descriptor = descriptor;
  last_status = record zero_status { status = s.last };
  cancelled = false;
}

module _ {S : Type 0} (p : Publisher S) ⦃api : ComponentApi S⦄
    (shows : (s : S) → (api.status s).status ≡ (p.view s).status) where
  first_statuses-shows :
      (f : ℕ → S) (n : ℕ)
      → first_statuses (λ i. (p.view (f i)).status) n ≡ statuses (first_parts f n)
  first_statuses-shows f n =
      ap (λ g. first_statuses g n) (fun_ext (λ i. sym (shows (f i))))
      ∙ sym (map-first_parts (λ c. (api.status c).status) f n)

  -- From every state that a service of n components, their callers and their goroutines reach: if nobody
  -- calls a component any more, then whatever the goroutines do, some of them can act, or recalculateStatus
  -- would change nothing.
  pub settled_service :
      {n : ℕ} {s t : Composed S} {k : ℕ} (d : Descriptor)
      → Reach p n s
      → Run p n s t k
      → CanAct p n t ⊎ (recalculate_status (service_of d n t) ≡ service_of d n t)
  unfolding recalculate_status
  settled_service {n} {t = t} d r run = elim (composed_settles p r run).1 [
    | inl acts ↦ inl acts
    | inr right ↦
        let e =
          overall-worst (statuses (first_parts t.parts n))
          ∙ ap worst (sym (first_statuses-shows t.parts n))
          ∙ sym right.shows_worst in
        inr (
          ap (λ x. record (service_of d n t) { last_status = record zero_status { status = x } }) e)
  ]

  -- From every state that a service of n components, their callers and their goroutines reach: if nobody
  -- calls a component any more, then whatever the goroutines do, some of them can act, or the readiness
  -- probe sends 503 if some component has the status "fail", and 200 otherwise.
  pub settled_probe :
      {n : ℕ} {s t : Composed S} {k : ℕ} (d : Descriptor)
      → Reach p n s
      → Run p n s t k
      → CanAct p n t
        ⊎ ((ready (health (service_of d n t)) new_writer).sent
            ≡ some (
              if reports status_fail (statuses (service_of d n t).components) then 503 else 200,
              ready_headers,
            ))
  settled_probe {n} {t = t} d r run = elim (settled_service d r run) [
    | inl acts ↦ inl acts
    | inr same ↦ inr (
        ap (λ x. (ready (health x) new_writer).sent) (sym same)
        ∙ ready-recalculate_status (service_of d n t))
  ]
