-- ===== src/Vault/Loops.antt =====
-- The check loops of one Vault checker beside each other: startHealthCheckLoop evaluates v.ctx anew
-- whenever it comes to its select statement, and Disable and Enable replace that context meanwhile. What a
-- check publishes is left out. Every action is one step, in any interleaving.
pub mod Ending
pub mod Piling
use go_healthcheck.Prelude.{ℕ, suc, ◌+◌, ◌<◌, ◌≡◌, Bool, true, false, update}

-- Where a loop is: in its select statement, with the Done channel of a context; in performHealthCheck; or it
-- has returned.
pub data Phase : Type 0 where
  waiting : ℕ → Phase
  checking : Phase
  ended : Phase

-- The contexts are numbered in the order in which they are made.
pub record Loops : Type 0 where
  -- v.ctx
  pub context : ℕ
  pub is_cancelled : ℕ → Bool
  pub disabled : Bool
  -- how many loops have been started, and where each is
  pub count : ℕ
  pub phase : ℕ → Phase

-- newVaultCheckerInternal has made the first context and started a loop, which begins with a check.
abbrev pub init : Loops
init = record {
  context = 0;
  is_cancelled = λ _. false;
  disabled = false;
  count = 1;
  phase = λ _. checking;
}

-- cancelFunc()
abbrev pub cancel : Loops → Loops
cancel s = record s { is_cancelled = update s.is_cancelled s.context true }

abbrev pub move : ℕ → Phase → Loops → Loops
move i p s = record s { phase = update s.phase i p }

-- Enable: a new context and a new loop.
abbrev pub restart : Loops → Loops
restart s = record s {
  context = suc s.context;
  disabled = false;
  count = suc s.count;
  phase = update s.phase s.count checking;
}

pub data Step (s : Loops) : Loops → Type 0 where
  disable : s.disabled ≡ false → Step s (cancel (record s { disabled = true }))
  enable : s.disabled ≡ true → Step s (restart s)
  close : Step s (cancel s)
  -- the check is over, and the loop comes to its select statement
  await : (i : ℕ) → i < s.count → s.phase i ≡ checking → Step s (move i (waiting s.context) s)
  tick : (i g : ℕ) → i < s.count → s.phase i ≡ waiting g → Step s (move i checking s)
  leave :
      (i g : ℕ)
      → i < s.count
      → s.phase i ≡ waiting g
      → s.is_cancelled g ≡ true
      → Step s (move i ended s)

-- From one state to another by any number of steps.
pub data Reach (s : Loops) : Loops → Type 0 where
  start : Reach s s
  next : {t u : Loops} → Reach s t → Step t u → Reach s u
