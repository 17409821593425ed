-- ===== src/Core/Service/Overall.antt =====
-- The overall status of a service against what it means: the worst status of any component.
use mathlib.Core.List.{Perm, Permᴰ}
use mathlib.Core.Logic.{∥∥₁_elim}
use mathlib.Core.Bool.{Bool-set}
use go_healthcheck.Prelude.{
  ◌∙◌, ◌≡◌, refl, Bool, false, ◌||◌, List, [], ◌∷◌, ◌==◌, if◌then◌else◌, arith, eq_iff,
}
use go_healthcheck.Core.Types.{StatusEnum, status_pass, status_fail, status_warn}
use go_healthcheck.Core.Service.{overall_from}

-- Some component has the status `s`.
unfoldable pub reports : StatusEnum → List StatusEnum → Bool
reports s [] = false
reports s (t ∷ ts) = t == s || reports s ts

-- "fail" if any component fails, else "warn" if any warns, else "pass".
abbrev pub worst : List StatusEnum → StatusEnum
worst ss =
    if reports status_fail ss
    then status_fail
    else if reports status_warn ss
    then status_warn
    else status_pass

overall_from_warn :
    (ss : List StatusEnum)
    → overall_from status_warn ss ≡ (if reports status_fail ss then status_fail else status_warn)
unfolding overall_from reports
overall_from_warn [] = refl
overall_from_warn (s ∷ ss) = ground (arith, overall_from_warn ss)

-- recalculateStatus, with its early exit, computes the worst status: any number of components, in
-- any order, with any strings as statuses.
pub overall-worst : (ss : List StatusEnum) → overall_from status_pass ss ≡ worst ss
unfolding overall_from reports
overall-worst [] = refl
overall-worst (s ∷ ss) =
    ground
      (arith, overall-worst ss, overall_from_warn ss, eq_iff s status_fail, eq_iff s status_warn)

reports-Permᴰ :
    (s : StatusEnum) {xs ys : List StatusEnum} → Permᴰ xs ys → reports s xs ≡ reports s ys
unfolding reports
reports-Permᴰ s Permᴰ.nil = refl
reports-Permᴰ s (Permᴰ.cons e p) = ground (arith, e, reports-Permᴰ s p)
reports-Permᴰ s (Permᴰ.swap e f) = ground (arith, e, f)
reports-Permᴰ s (Permᴰ.trans p q) = reports-Permᴰ s p ∙ reports-Permᴰ s q

reports-perm : (s : StatusEnum) {xs ys : List StatusEnum} → Perm xs ys → reports s xs ≡ reports s ys
reports-perm s {xs} {ys} p = ∥∥₁_elim p (Bool-set (reports s xs) (reports s ys)) (reports-Permᴰ s)

-- The overall status does not depend on the order of the components.
overall-perm :
    {xs ys : List StatusEnum}
    → Perm xs ys
    → overall_from status_pass xs ≡ overall_from status_pass ys
overall-perm {xs} {ys} p =
    rw (overall-worst xs, overall-worst ys, reports-perm status_fail p, reports-perm status_warn p)
      refl
