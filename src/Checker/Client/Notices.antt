-- ===== src/Checker/Client/Notices.antt =====
-- What a listener can count on: a change that nobody has read leaves something to read.
use go_healthcheck.Prelude.{
  ap, ◌<◌, ◌≡◌, refl, ◌⊎◌, inl, inr, Bool, true, false, ◌||◌, List, [], ◌∷◌, Option, none, some,
  arith, length,
}
use go_healthcheck.Channel.{done}
use go_healthcheck.Core.Types.{ComponentStatus, status_fail, status_warn}
use go_healthcheck.Checker.{Checker, plain_status}
use go_healthcheck.Checker.Switching.{disabled_status}
use go_healthcheck.Checker.Client.{
  Template, Call, changes, checks, disables, enables, receives, run, Mailbox, kept, tell, respond,
  replay,
}
use go_healthcheck.Checker.Client.Refinement.{run-Becomes}
use go_healthcheck.Checker.Client.Views.{first, is_some, IsMailbox, view}

abbrev pub is_receipt : {A : Type 0} → Call A → Bool
is_receipt receives = true
is_receipt _ = false

abbrev pub has_receipt : {A : Type 0} → List (Call A) → Bool
has_receipt [] = false
has_receipt (x ∷ xs) = is_receipt x || has_receipt xs

-- The mailbox still shows `s`, or there is something to read.
abbrev Told : ComponentStatus → Mailbox → Type 0
Told s m = (m.shown ≡ s) ⊎ (is_some m.unread ≡ true)

Told-same : {s : ComponentStatus} {m n : Mailbox} → m ≡ n → Told s n → Told s m
Told-same {s} e h = rw (ap (Told s) e) h

kept-is_some : (s : ComponentStatus) (o : Option ComponentStatus) → is_some (kept s o) ≡ true
kept-is_some s none = refl
kept-is_some s (some old) = refl

tell-Told : (s u : ComponentStatus) (m : Mailbox) → Told s m → Told s (tell u m)
tell-Told s u m h = ground (arith, kept-is_some u m.unread)

module _ {A K C : Type 0} (t : Template A K C) where
  respond-Told :
      (x : Call A) (s : ComponentStatus) (m : Mailbox)
      → is_receipt x ≡ false
      → Told s m
      → Told s (respond t x m)
  unfolding respond
  respond-Told (changes u) s m n h = tell-Told s u m h
  respond-Told (checks a) s m n h =
      ground (
        arith,
        tell-Told s (t.verdict a) m h,
        tell-Told s (plain_status status_fail t.nil_text) m h,
      )
  respond-Told (disables now) s m n h =
      ground (arith, kept-is_some (disabled_status t.disabled_text now) m.unread)
  respond-Told enables s m n h =
      ground (arith, kept-is_some (plain_status status_warn t.enabled_text) m.unread)
  respond-Told receives s m n h = absurd (cc)

  replay-Told :
      (xs : List (Call A)) (s : ComponentStatus) (m : Mailbox)
      → has_receipt xs ≡ false
      → Told s m
      → Told s (replay t xs m)
  unfolding replay
  replay-Told [] s m n h = h
  replay-Told (x ∷ xs) s m n h =
      replay-Told xs s (respond t x m) (ground (arith, n))
        (respond-Told x s m (ground (arith, n)) h)

  some_nonempty : (xs : List ComponentStatus) → is_some (first xs) ≡ true → 0 < length xs
  some_nonempty [] h = absurd (cc)
  some_nonempty (x ∷ xs) h = omega arith

  -- On a checker with an open channel of capacity 1 and a configuration that its checks can work with, any sequence of status changes, checks and switches
  -- in which nobody receives from the channel returns. If the checker then has another status than before,
  -- there is something to receive.
  pub run_notifies :
      (xs : List (Call A)) (c : Checker K C)
      → IsMailbox c.status_change
      → t.fits c.config ≡ true
      → has_receipt xs ≡ false
      → (d : Checker K C) × (run t xs c ≡ done d)
        × ((d.current_status ≡ c.current_status) ⊎ (0 < length d.status_change.buffer))
  run_notifies xs c v f n =
      let e = run-Becomes t xs c v f in
      let told = Told-same e.looks (replay-Told xs c.current_status (view c) n (inl refl)) in
      (
        e.checker,
        e.returns,
        elim told [
          | inl same ↦ inl same
          | inr more ↦ inr (some_nonempty e.checker.status_change.buffer more)
        ],
      )
