-- ===== src/Builtin/HttpChecker/Senders.antt =====
-- updateStatus of the HTTP checker in several goroutines: in start, which is the goroutine 0, and in callers
-- of Disable and the checks that Enable starts. The statuses are left out; every action is one step.
use go_healthcheck.Prelude.{
  sym, ap, ◌∙◌, ℕ, ◌<◌, ◌≡◌, ◌≢◌, ◌↔◌, refl, Bool, true, false, arith, update, update_other,
  update_elim,
}

-- Where a goroutine is in updateStatus: outside; behind its test of the context; behind the drain.
pub data Phase : Type 0 where
  outside tested drained : Phase

pub record Senders : Type 0 where
  -- the context is done
  pub cancelled : Bool
  -- observerChange is closed, and it is full
  pub is_closed : Bool
  pub is_full : Bool
  pub phase : ℕ → Phase
  -- a send has panicked
  pub panicked : Bool

abbrev pub init : Senders
init = record {
  cancelled = false;
  is_closed = false;
  is_full = false;
  phase = λ _. outside;
  panicked = false;
}

abbrev pub move : ℕ → Phase → Senders → Senders
move i p s = record s { phase = update s.phase i p }

-- `n` goroutines. The last select statement of updateStatus has the cases `send` and `abort`.
pub data Step (n : ℕ) (s : Senders) : Senders → Type 0 where
  test : (i : ℕ) → i < n → s.phase i ≡ outside → s.cancelled ≡ false → Step n s (move i tested s)
  drain :
      (i : ℕ)
      → i < n
      → s.phase i ≡ tested
      → Step n s (move i drained (record s { is_full = false }))
  send :
      (i : ℕ)
      → i < n
      → s.phase i ≡ drained
      → s.is_closed ≡ false
      → s.is_full ≡ false
      → Step n s (move i outside (record s { is_full = true }))
  abort : (i : ℕ) → i < n → s.phase i ≡ drained → s.cancelled ≡ true → Step n s (move i outside s)
  send_closed :
      (i : ℕ)
      → i < n
      → s.phase i ≡ drained
      → s.is_closed ≡ true
      → Step n s (record s { panicked = true })
  -- an observer receives
  observe : s.is_full ≡ true → Step n s (record s { is_full = false })
  -- Close
  cancel : Step n s (record s { cancelled = true })
  -- start sees that the context is done, and closes the channel as it returns
  finish :
      s.phase 0 ≡ outside
      → s.cancelled ≡ true
      → s.is_closed ≡ false
      → Step n s (record s { is_closed = true })

pub data Reach (n : ℕ) : Senders → Type 0 where
  start : Reach n init
  next : {s t : Senders} → Reach n s → Step n s t → Reach n t

-- What the closed channel and a panic imply.
record Inv (n : ℕ) (s : Senders) : Type 0 where
  closed_cancelled : s.is_closed ≡ true → s.cancelled ≡ true
  closed_outside : s.is_closed ≡ true → s.phase 0 ≡ outside
  beside : s.panicked ≡ true → 1 < n

-- A goroutine that is inside is not start, if start is outside.
beside_start :
    (s : Senders) (i : ℕ) (p : Phase) → s.phase i ≡ p → p ≢ outside → s.phase 0 ≡ outside → i ≢ 0
beside_start s i p e inside h zero_here = inside (sym e ∙ ap s.phase zero_here ∙ h)

tested-outside : tested ≢ outside
tested-outside e = cc

drained-outside : drained ≢ outside
drained-outside e = cc

Step-Inv : {n : ℕ} {s t : Senders} → Step n s t → Inv n s → Inv n t
Step-Inv (test i lt e c) v = record {
  closed_cancelled = v.closed_cancelled;
  closed_outside = λ h. absurd (ground (arith, c, v.closed_cancelled h));
  beside = v.beside;
}
Step-Inv {s = s} (drain i lt e) v = record {
  closed_cancelled = v.closed_cancelled;
  closed_outside = λ h.
      let h0 = v.closed_outside h in
      update_other s.phase i 0 drained (beside_start s i tested e tested-outside h0) ∙ h0;
  beside = v.beside;
}
Step-Inv (send i lt e c f) v = record {
  closed_cancelled = v.closed_cancelled;
  closed_outside = λ h. absurd (ground (arith, c, h));
  beside = v.beside;
}
Step-Inv {s = s} (abort i lt e c) v = record {
  closed_cancelled = v.closed_cancelled;
  closed_outside =
      λ h. update_elim (λ p. p ≡ outside) s.phase i 0 outside refl (λ ne. v.closed_outside h);
  beside = v.beside;
}
Step-Inv {s = s} (send_closed i lt e c) v = record {
  closed_cancelled = v.closed_cancelled;
  closed_outside = v.closed_outside;
  beside = λ h.
      let ne = beside_start s i drained e drained-outside (v.closed_outside c) in
      omega (arith, ne, lt);
}
Step-Inv (observe f) v = record {
  closed_cancelled = v.closed_cancelled;
  closed_outside = v.closed_outside;
  beside = v.beside;
}
Step-Inv cancel v = record {
  closed_cancelled = λ h. refl;
  closed_outside = v.closed_outside;
  beside = v.beside;
}
Step-Inv (finish e c o) v = record {
  closed_cancelled = λ h. c;
  closed_outside = λ h. e;
  beside = v.beside;
}

Reach-Inv : {n : ℕ} {s : Senders} → Reach n s → Inv n s
Reach-Inv start = record {
  closed_cancelled = λ h. absurd (cc);
  closed_outside = λ h. refl;
  beside = λ h. absurd (cc);
}
Reach-Inv (next r st) = Step-Inv st (Reach-Inv r)

-- Goroutine 1 has drained the channel when the checker is closed and start returns.
abbrev pub overtaken : Senders
overtaken = record (move 1 drained (record (move 1 tested init) { is_full = false })) {
  cancelled = true;
  is_closed = true;
  panicked = true;
}

overtaken-Reach : (n : ℕ) → 1 < n → Reach n overtaken
overtaken-Reach n lt =
    next
      (next (next (next (next start (test 1 lt refl refl)) (drain 1 lt refl)) cancel)
        (finish refl refl refl))
      (send_closed 1 lt refl refl)

-- With n goroutines that may be in updateStatus, start among them, in every interleaving with Close and with
-- observers: some state is reachable in which a send has panicked exactly if n is at least 2. So the checks
-- of start alone never panic, and one check of Enable beside them, or one Disable, can.
pub panic_iff : (n : ℕ) → ((s : Senders) × Reach n s × (s.panicked ≡ true)) ↔ (1 < n)
panic_iff n =
    (λ found. (Reach-Inv found.1).beside found.2, λ lt. (overtaken, overtaken-Reach n lt, refl))
