-- ===== src/Vault/Loops/Ending.antt =====
-- Disable and Close reach every loop that has been started.
use native.Mathlib.Decide.{dec_lt}
use go_healthcheck.Prelude.{◌⊎◌, inl, inr, ℕ, ◌≤◌, ◌<◌, ◌≡◌, true, arith, update_self, update_elim}
use go_healthcheck.Vault.Loops.{
  Phase, waiting, checking, ended, Loops, init, cancel, move, restart, Step, disable, enable, close,
  await, tick, leave, Reach, start, next,
}

-- Where a loop may be: it waits on the current context, or on a cancelled one.
abbrev IsKnown : Loops → Phase → Type 0
IsKnown s (waiting g) = g ≤ s.context
IsKnown s _ = Unit {0}

-- The contexts before the current one are cancelled, and so is that of a disabled checker.
record Inv (s : Loops) : Type 0 where
  old : (g : ℕ) → g < s.context → s.is_cancelled g ≡ true
  off : s.disabled ≡ true → s.is_cancelled s.context ≡ true
  known : (i : ℕ) → i < s.count → IsKnown s (s.phase i)

init-Inv : Inv init
init-Inv = record { old = λ g h. absurd (omega arith); off = λ h. absurd (cc); known = λ i h. tt }

cancel-Inv : (s : Loops) → Inv s → Inv (cancel s)
cancel-Inv s v = record {
  old = λ g h. ground (arith, v.old g h);
  off = λ h. update_self s.is_cancelled s.context true;
  known = v.known;
}

move-Inv : (s : Loops) (i : ℕ) (p : Phase) → IsKnown s p → Inv s → Inv (move i p s)
move-Inv s i p h v = record {
  old = v.old;
  off = v.off;
  known = λ j lt. update_elim (IsKnown s) s.phase i j p h (λ ne. v.known j lt);
}

grown-IsKnown : (s : Loops) (p : Phase) → IsKnown s p → IsKnown (restart s) p
grown-IsKnown s (waiting g) h = omega arith
grown-IsKnown s checking h = tt
grown-IsKnown s ended h = tt

restart-Inv : (s : Loops) → s.disabled ≡ true → Inv s → Inv (restart s)
restart-Inv s h v = record {
  old = λ g lt. elim (dec_lt g s.context) [
    | yes below ↦ v.old g below
    | no above ↦ let e : g ≡ s.context = omega arith in rw e (v.off h)
  ];
  off = λ e. absurd (cc);
  known = λ j lt.
      update_elim (IsKnown (restart s)) s.phase s.count j checking tt
        (λ ne. grown-IsKnown s (s.phase j) (v.known j (omega arith)));
}

Step-Inv : {s t : Loops} → Step s t → Inv s → Inv t
Step-Inv {s} (disable h) v = record {
  old = λ g lt. ground (arith, v.old g lt);
  off = λ e. update_self s.is_cancelled s.context true;
  known = v.known;
}
Step-Inv {s} (enable h) v = restart-Inv s h v
Step-Inv {s} close v = cancel-Inv s v
Step-Inv {s} (await i lt e) v = move-Inv s i (waiting s.context) (omega arith) v
Step-Inv {s} (tick i g lt e) v = move-Inv s i checking tt v
Step-Inv {s} (leave i g lt e d) v = move-Inv s i ended tt v

Reach-Inv : {s t : Loops} → Reach s t → Inv s → Inv t
Reach-Inv start v = v
Reach-Inv (next r st) v = Step-Inv st (Reach-Inv r v)

-- The loop has returned, or its next visit to the select statement finds a context that is done.
abbrev pub IsLeaving : Loops → Phase → Type 0
IsLeaving s (waiting g) = s.is_cancelled g ≡ true
IsLeaving s checking = s.is_cancelled s.context ≡ true
IsLeaving s ended = Unit {0}

known_leaves :
    (s : Loops) (p : Phase) → Inv s → s.is_cancelled s.context ≡ true → IsKnown s p → IsLeaving s p
known_leaves s ended v h k = tt
known_leaves s checking v h k = h
known_leaves s (waiting g) v h k = elim (dec_lt g s.context) [
  | yes below ↦ v.old g below
  | no above ↦ let e : g ≡ s.context = omega arith in rw e h
]

-- In every state that the calls and the loops of a Vault checker reach, in any interleaving: while the
-- checker is disabled, or its context is cancelled, each of its loops has returned, waits on a context
-- that is done, or is at a check behind which it waits on one.
pub all_leave :
    {s : Loops} (i : ℕ)
    → Reach init s
    → (s.disabled ≡ true) ⊎ (s.is_cancelled s.context ≡ true)
    → i < s.count
    → IsLeaving s (s.phase i)
all_leave {s} i r h lt =
    let v = Reach-Inv r init-Inv in
    let cancelled : s.is_cancelled s.context ≡ true = elim h [ inl off ↦ v.off off | inr c ↦ c ] in
    known_leaves s (s.phase i) v cancelled (v.known i lt)
