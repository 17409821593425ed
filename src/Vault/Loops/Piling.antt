-- ===== src/Vault/Loops/Piling.antt =====
-- Disable and Enable while the loops are at their checks: each then waits on the new context.
use go_healthcheck.Prelude.{
  ℕ, zero, suc, ◌≤◌, ◌<◌, ◌≡◌, refl, ◌∙◌, true, false, arith, update_other, update_elim,
}
use go_healthcheck.Vault.Loops.{
  waiting, checking, Loops, init, cancel, move, restart, disable, enable, await, Reach, start, next,
}

-- `n + 1` loops are at their checks, and no context from the current one on is cancelled.
record AllCheck (n : ℕ) (s : Loops) : Type 0 where
  reached : Reach init s
  on : s.disabled ≡ false
  many : s.count ≡ suc n
  fresh : (g : ℕ) → s.context ≤ g → s.is_cancelled g ≡ false
  check : (i : ℕ) → i < s.count → s.phase i ≡ checking

-- Disable and then Enable.
abbrev switched : Loops → Loops
switched s = restart (cancel (record s { disabled = true }))

switched-AllCheck : (n : ℕ) (s : Loops) → AllCheck n s → AllCheck (suc n) (switched s)
switched-AllCheck n s v = record {
  reached = next (next v.reached (disable v.on)) (enable refl);
  on = refl;
  many = omega (arith, v.many);
  fresh =
      λ g le. update_other s.is_cancelled s.context g true (omega arith) ∙ v.fresh g (omega arith);
  check = λ j lt.
      update_elim (λ p. p ≡ checking) s.phase s.count j checking refl
        (λ ne. v.check j (omega arith));
}

all_check : (n : ℕ) → (s : Loops) × AllCheck n s
all_check zero = (
  init,
  record { reached = start; on = refl; many = refl; fresh = λ g le. refl; check = λ i lt. refl },
)
all_check (suc n) = let (s, v) = all_check n in (switched s, switched-AllCheck n s v)

-- The loops below `k` have come to their select statement, the others are at their checks.
record Waits (k n : ℕ) (s : Loops) : Type 0 where
  reached : Reach init s
  on : s.disabled ≡ false
  many : s.count ≡ suc n
  live : s.is_cancelled s.context ≡ false
  wait : (i : ℕ) → i < k → s.phase i ≡ waiting s.context
  check : (i : ℕ) → k ≤ i → i < s.count → s.phase i ≡ checking

one_more :
    (k n : ℕ) (s : Loops) → k < suc n → Waits k n s → Waits (suc k) n (move k (waiting s.context) s)
one_more k n s lt v = record {
  reached =
      next v.reached
        (await k (omega (arith, v.many)) (v.check k (omega arith) (omega (arith, v.many))));
  on = v.on;
  many = v.many;
  live = v.live;
  wait = λ i below.
      update_elim (λ p. p ≡ waiting s.context) s.phase k i (waiting s.context) refl
        (λ ne. v.wait i (omega arith));
  check = λ i le below.
      update_other s.phase k i (waiting s.context) (omega arith) ∙ v.check i (omega arith) below;
}

all_wait : (k n : ℕ) → k ≤ suc n → (s : Loops) × Waits k n s
all_wait zero n le =
    let (s, v) = all_check n in
    (
      s,
      record {
        reached = v.reached;
        on = v.on;
        many = v.many;
        live = v.fresh s.context (omega arith);
        wait = λ i lt. absurd (omega arith);
        check = λ i le' lt. v.check i lt;
      },
    )
all_wait (suc k) n le =
    let (s, v) = all_wait k n (omega arith) in
    (move k (waiting s.context) s, one_more k n s (omega arith) v)

-- For every n there is a state that an enabled Vault checker reaches in which it has n + 1 loops, and each
-- waits at its select statement on the current context, which is not done: n pairs of Disable and Enable
-- have ended no loop.
pub loops_pile_up :
    (n : ℕ)
    → (s : Loops) × Reach init s
      × (s.disabled ≡ false)
      × (s.is_cancelled s.context ≡ false)
      × (s.count ≡ suc n)
      × ((i : ℕ) → i < suc n → s.phase i ≡ waiting s.context)
loops_pile_up n =
    let (s, v) = all_wait (suc n) n (omega arith) in (s, v.reached, v.on, v.live, v.many, v.wait)
