-- ===== src/Prelude/Points.antt =====
-- Functions on the numbers, changed at one point.
use Prim.Native.Nat.{ℕ}
use mathlib.Core.Path.{◌≡◌, sym, ap, ◌∙◌, subst, fun_ext}
use mathlib.Core.Logic.{◌≢◌}
use native.Mathlib.Decide.{ℕ_discrete}
use native.Mathlib.Omega.{arith}
use go_healthcheck.Prelude.Tests.{nat_eq, if◌then◌else◌}

abbrev pub update {ℓ} : {A : Type ℓ} → (ℕ → A) → ℕ → A → ℕ → A
update f i a j = if nat_eq i j then a else f j

pub update_other : {A : Type 0} (f : ℕ → A) (i j : ℕ) (a : A) → i ≢ j → update f i a j ≡ f j
update_other f i j a h = ground arith

pub update_self : {A : Type 0} (f : ℕ → A) (i : ℕ) (a : A) → update f i a i ≡ a
update_self f i a = ground arith

-- What holds of the new value, and of the others where they stand, holds of every value.
pub update_elim {κ} :
    {A : Type 0} (P : A → Type κ) (f : ℕ → A) (i j : ℕ) (a : A)
    → P a
    → (i ≢ j → P (f j))
    → P (update f i a j)
update_elim P f i j a h k = elim (ℕ_discrete i j) [
  | yes e ↦ subst P (sym (ap (update f i a) (sym e) ∙ update_self f i a)) h
  | no ne ↦ subst P (sym (update_other f i j a ne)) (k ne)
]

-- Equations between changed functions.
module _ {A : Type 0} where
  pub update_same : (f : ℕ → A) (i : ℕ) → update f i (f i) ≡ f
  update_same f i = fun_ext (λ j. elim (ℕ_discrete i j) [
    | yes e ↦ rw (← e) (update_self f i (f i))
    | no ne ↦ update_other f i j (f i) ne
  ])

  pub update_twice : (f : ℕ → A) (i : ℕ) (a b : A) → update (update f i a) i b ≡ update f i b
  update_twice f i a b = fun_ext (λ j. ground arith)

pub update_map :
    {A : Type 0} {B : Type 0} (g : A → B) (f : ℕ → A) (i : ℕ) (a : A)
    → (λ j. g (update f i a j)) ≡ update (λ j. g (f j)) i (g a)
update_map g f i a = fun_ext (λ j. ground arith)
