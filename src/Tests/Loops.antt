-- ===== src/Tests/Loops.antt =====
-- A Vault checker that is disabled during its first check, and one that is switched twice.
use go_healthcheck.Prelude.{ℕ, ◌<◌, ◌≡◌, refl, inl, true, false, arith}
use go_healthcheck.Vault.Loops.{
  Loops, Reach, init, cancel, disable, await, start, next, move, waiting,
}
use go_healthcheck.Vault.Loops.Ending.{IsLeaving, all_leave}
use go_healthcheck.Vault.Loops.Piling.{loops_pile_up}

-- The loop comes to its select statement after Disable.
abbrev stopped : Loops
stopped = move 0 (waiting 0) (cancel (record init { disabled = true }))

stopped-Reach : Reach init stopped
stopped-Reach = next (next start (disable refl)) (await 0 (omega arith) refl)

all_leave_example : IsLeaving stopped (waiting 0)
all_leave_example = all_leave 0 stopped-Reach (inl refl) (omega arith)

loops_pile_up_example :
    (s : Loops) × Reach init s
    × (s.disabled ≡ false)
    × (s.is_cancelled s.context ≡ false)
    × (s.count ≡ 3)
    × ((i : ℕ) → i < 3 → s.phase i ≡ waiting s.context)
loops_pile_up_example = loops_pile_up 2
