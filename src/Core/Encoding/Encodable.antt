-- ===== src/Core/Encoding/Encodable.antt =====
-- When the encoder fails on a report.
use go_healthcheck.Prelude.{
  ℕ, ◌≡◌, ◌≢◌, ◌↔◌, refl, All, Bool, true, false, ◌&&◌, List, [], ◌∷◌, Option, none, some, String,
  arith,
}
use go_healthcheck.Json.{Json}
use go_healthcheck.Core.Types.{
  Value, nil_value, seconds, seconds_method, json_value, refused_value, Refusal, ComponentHealth,
  Health,
}
use go_healthcheck.Core.Encoding.{
  is_time_encodable, insert_entry, sort_entries, reading_members, component_members,
  component_items, check_members, health_json,
}
use go_healthcheck.Core.Encoding.Times.{IsWritable, is_time_encodable_iff}

abbrev is_some {ℓ} : {A : Type ℓ} → Option A → Bool
is_some (some a) = true
is_some none = false

-- The observed value is a value that has a JSON.
abbrev pub Plain : Value → Type 0
Plain v = ((n : ℕ) → v ≢ seconds_method n) × ((r : Refusal) → v ≢ refused_value r)

-- A component report has a time and an observed value that can be written.
abbrev pub Encodable : ComponentHealth → Type 0
Encodable h = IsWritable h.time × Plain h.observed_value

abbrev is_value_encodable : Value → Bool
is_value_encodable (seconds_method n) = false
is_value_encodable (refused_value r) = false
is_value_encodable _ = true

abbrev is_encodable : ComponentHealth → Bool
is_encodable h = is_time_encodable h.time && is_value_encodable h.observed_value

abbrev all_encodable : List ComponentHealth → Bool
all_encodable [] = true
all_encodable (h ∷ hs) = is_encodable h && all_encodable hs

abbrev all_checks_encodable : List (String × List ComponentHealth) → Bool
all_checks_encodable [] = true
all_checks_encodable ((k, hs) ∷ checks) = all_encodable hs && all_checks_encodable checks

component_members-is_some : (h : ComponentHealth) → is_some (component_members h) ≡ is_encodable h
unfolding component_members reading_members
component_members-is_some h = go h.observed_value refl
  where
    go : (v : Value) → h.observed_value ≡ v → is_some (component_members h) ≡ is_encodable h
    go nil_value e = ground arith
    go (seconds n) e = ground arith
    go (seconds_method n) e = ground arith
    go (json_value j) e = ground arith
    go (refused_value r) e = ground arith

component_items-is_some :
    (hs : List ComponentHealth) → is_some (component_items hs) ≡ all_encodable hs
unfolding component_items
component_items-is_some [] = refl
component_items-is_some (h ∷ hs) =
    ground (arith, component_members-is_some h, component_items-is_some hs)

check_members-is_some :
    (m : List (String × List ComponentHealth)) → is_some (check_members m) ≡ all_checks_encodable m
unfolding check_members
check_members-is_some [] = refl
check_members-is_some ((k, hs) ∷ m) =
    ground (arith, component_items-is_some hs, check_members-is_some m)

insert_entry-encodable :
    (k : String) (hs : List ComponentHealth) (m : List (String × List ComponentHealth))
    → all_checks_encodable (insert_entry (k, hs) m) ≡ (all_encodable hs && all_checks_encodable m)
unfolding insert_entry
insert_entry-encodable k hs [] = refl
insert_entry-encodable k hs ((j, gs) ∷ m) = ground (arith, insert_entry-encodable k hs m)

sort_entries-encodable :
    (m : List (String × List ComponentHealth))
    → all_checks_encodable (sort_entries m) ≡ all_checks_encodable m
unfolding sort_entries
sort_entries-encodable [] = refl
sort_entries-encodable ((k, hs) ∷ m) =
    ground (arith, insert_entry-encodable k hs (sort_entries m), sort_entries-encodable m)

health_json-all_encodable : (h : Health) → is_some (health_json h) ≡ all_checks_encodable h.checks
unfolding health_json
health_json-all_encodable h = go h.checks refl
  where
    go :
        (m : List (String × List ComponentHealth))
        → h.checks ≡ m
        → is_some (health_json h) ≡ all_checks_encodable h.checks
    go [] e = ground arith
    go (c ∷ cs) e =
        ground
          (arith, check_members-is_some (sort_entries (c ∷ cs)), sort_entries-encodable (c ∷ cs))

and_iff {ℓ κ} :
    {P : Type ℓ} {Q : Type κ} (a b : Bool)
    → (a ≡ true) ↔ P
    → (b ≡ true) ↔ Q
    → ((a && b) ≡ true) ↔ (P × Q)
and_iff a b f g = (
  λ e. (f.0 (ground (arith, e)), g.0 (ground (arith, e))),
  λ (p, q). let x = f.1 p in let y = g.1 q in ground (arith, x, y),
)

is_value_encodable-Plain : (v : Value) → (is_value_encodable v ≡ true) ↔ Plain v
is_value_encodable-Plain nil_value = (λ _. (λ n e. absurd (cc), λ r e. absurd (cc)), λ _. refl)
is_value_encodable-Plain (seconds m) = (λ _. (λ n e. absurd (cc), λ r e. absurd (cc)), λ _. refl)
is_value_encodable-Plain (json_value j) = (λ _. (λ n e. absurd (cc), λ r e. absurd (cc)), λ _. refl)
is_value_encodable-Plain (seconds_method m) =
    (λ e. absurd (cc), λ (no_method, _). absurd (no_method m refl))
is_value_encodable-Plain (refused_value r) =
    (λ e. absurd (cc), λ (_, no_refusal). absurd (no_refusal r refl))

all_encodable_iff : (hs : List ComponentHealth) → (all_encodable hs ≡ true) ↔ All Encodable hs
all_encodable_iff [] = (λ _. tt, λ _. refl)
all_encodable_iff (h ∷ hs) =
    and_iff (is_encodable h) (all_encodable hs)
      (and_iff (is_time_encodable h.time) (is_value_encodable h.observed_value)
        (is_time_encodable_iff h.time) (is_value_encodable-Plain h.observed_value))
      (all_encodable_iff hs)

all_checks_encodable_iff :
    (m : List (String × List ComponentHealth))
    → (all_checks_encodable m ≡ true) ↔ All (λ c. All Encodable c.1) m
all_checks_encodable_iff [] = (λ _. tt, λ _. refl)
all_checks_encodable_iff ((k, hs) ∷ m) =
    and_iff (all_encodable hs) (all_checks_encodable m) (all_encodable_iff hs)
      (all_checks_encodable_iff m)

is_some_iff {ℓ} : {A : Type ℓ} (o : Option A) → (is_some o ≡ true) ↔ ((a : A) × (o ≡ some a))
is_some_iff (some a) = (λ _. (a, refl), λ _. refl)
is_some_iff none = (λ e. absurd (cc), λ (a, e). absurd (cc))

-- A report is encoded exactly if each component report in it can be: its time is in one of the
-- years 0 to 9999 of the calendar, in a zone less than a day from UTC, and its observed value is
-- neither the method value of a duration nor a value of a caller's that encoding/json refuses.
pub health_json_iff :
    (h : Health) → ((j : Json) × (health_json h ≡ some j)) ↔ All (λ c. All Encodable c.1) h.checks
health_json_iff h =
    let some_iff = is_some_iff (health_json h) in
    let all_iff = all_checks_encodable_iff h.checks in
    (
      λ w. all_iff.0 (rw (← health_json-all_encodable h) (some_iff.1 w)),
      λ w. some_iff.0 (rw (health_json-all_encodable h) (all_iff.1 w)),
    )
