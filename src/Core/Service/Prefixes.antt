-- ===== src/Core/Service/Prefixes.antt =====
-- The overall status over the first components, which recalculateStatus has when it has read them.
use native.Mathlib.Decide.{dec_le}
use go_healthcheck.Prelude.{
  ◌||◌, ℕ, zero, suc, ◌≤◌, ◌≡◌, refl, inl, inr, Bool, true, false, ◌==◌, if◌then◌else◌, List, [],
  ◌∷◌, ◌++◌, arith, eq_iff, Bool-cases,
}
use go_healthcheck.Core.Types.{StatusEnum, status_pass, status_fail, status_warn}
use go_healthcheck.Core.Service.{merge}
use go_healthcheck.Core.Service.Overall.{worst, reports}

-- The overall status over some components and one more, with the status `s`.
abbrev pub add_status : StatusEnum → StatusEnum → StatusEnum
add_status before s =
    if before == status_fail
    then status_fail
    else if s == status_fail
    then status_fail
    else merge before s

-- The overall status over the components 0 … k - 1.
unfoldable pub overall_of : (ℕ → StatusEnum) → ℕ → StatusEnum
overall_of f zero = status_pass
overall_of f (suc k) = add_status (overall_of f k) (f k)

pub overall_of-fail :
    (f : ℕ → StatusEnum) (k n : ℕ)
    → overall_of f k ≡ status_fail
    → k ≤ n
    → overall_of f n ≡ status_fail
unfolding overall_of
overall_of-fail f zero n h le = absurd (ground (arith, eq_iff status_pass status_fail))
overall_of-fail f (suc k) zero h le = absurd (omega arith)
overall_of-fail f (suc k) (suc n) h le = elim (dec_le (suc k) n) [
  | yes below ↦ rw (overall_of-fail f (suc k) n h below) refl
  | no last ↦ let e : k ≡ n = omega arith in rw (← e) h
]

pub overall_of_hit :
    (f : ℕ → StatusEnum) (k : ℕ) → (f k == status_fail) ≡ true → overall_of f (suc k) ≡ status_fail
unfolding overall_of
overall_of_hit f k h = ground arith

pub overall_of_miss :
    (f : ℕ → StatusEnum) (k : ℕ)
    → (f k == status_fail) ≡ false
    → overall_of f (suc k) ≡ merge (overall_of f k) (f k)
unfolding overall_of
overall_of_miss f k h = elim (Bool-cases (overall_of f k == status_fail)) [
  | inl failed ↦ rw ((eq_iff (overall_of f k) status_fail).0 failed) (ground arith)
  | inr going ↦ ground arith
]

-- The statuses of the components 0 … n - 1, in their order.
abbrev pub first_statuses : (ℕ → StatusEnum) → ℕ → List StatusEnum
first_statuses f zero = []
first_statuses f (suc n) = first_statuses f n ++ f n ∷ []

reports-snoc :
    (s : StatusEnum) (xs : List StatusEnum) (x : StatusEnum)
    → reports s (xs ++ x ∷ []) ≡ (reports s xs || (x == s))
unfolding reports
reports-snoc s [] x = ground arith
reports-snoc s (y ∷ xs) x = ground (arith, reports-snoc s xs x)

add_status-worst :
    (fails warns : Bool) (s : StatusEnum)
    → add_status (if fails then status_fail else if warns then status_warn else status_pass) s ≡ (
        if fails || (s == status_fail)
        then status_fail
        else if warns || (s == status_warn)
        then status_warn
        else status_pass)
add_status-worst true warns s = refl
add_status-worst false true s = ground arith
add_status-worst false false s = ground arith

pub overall_of-worst : (f : ℕ → StatusEnum) (n : ℕ) → overall_of f n ≡ worst (first_statuses f n)
unfolding overall_of
overall_of-worst f zero = unfold reports in refl
overall_of-worst f (suc n) =
    rw
      (
        overall_of-worst f n,
        reports-snoc status_fail (first_statuses f n) (f n),
        reports-snoc status_warn (first_statuses f n) (f n),
      )
      (add_status-worst (reports status_fail (first_statuses f n))
        (reports status_warn (first_statuses f n)) (f n))
