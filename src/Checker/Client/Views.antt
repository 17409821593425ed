-- ===== src/Checker/Client/Views.antt =====
-- What clients see of a checker after each operation of the template.
use go_healthcheck.Prelude.{
  ◌≤◌, ◌<◌, ◌≡◌, refl, Bool, true, false, List, [], ◌∷◌, ◌++◌, Option, none, some, String, arith,
  length, if◌then◌else◌,
}
use go_healthcheck.Json.{Time}
use go_healthcheck.Channel.{make, Chan, drain, drop_first, IsOpen, offered, offered-IsOpen}
use go_healthcheck.Core.Types.{ComponentStatus, status_warn}
use go_healthcheck.Checker.{Checker, Task, plain_status}
use go_healthcheck.Checker.Updates.{announced, updated}
use go_healthcheck.Checker.Switching.{disabled_status, switched_off, switched_on}
use go_healthcheck.Checker.Client.{Mailbox, kept, post, tell}

-- What a listener receives next.
abbrev pub first : {A : Type 0} → List A → Option A
first [] = none
first (x ∷ xs) = some x

abbrev pub is_some : {A : Type 0} → Option A → Bool
is_some none = false
is_some (some x) = true

-- The channel is open and has room for one status.
pub record IsMailbox {A : Type 0} (c : Chan A) : Type 0 where
  pub open_channel : IsOpen c
  pub single : c.capacity ≡ 1

offered-IsMailbox : {A : Type 0} (a : A) (c : Chan A) → IsMailbox c → IsMailbox (offered a c)
offered-IsMailbox a c v = record {
  open_channel = offered-IsOpen a c v.open_channel;
  single = ground (arith, v.single);
}

first-append :
    (a : ComponentStatus) (xs : List ComponentStatus) → first (xs ++ a ∷ []) ≡ kept a (first xs)
first-append a [] = refl
first-append a (x ∷ xs) = refl

full_keeps :
    (a : ComponentStatus) (xs : List ComponentStatus) → 0 < length xs → first xs ≡ kept a (first xs)
full_keeps a [] h = absurd (omega arith)
full_keeps a (x ∷ xs) h = refl

first-offered :
    (a : ComponentStatus) (c : Chan ComponentStatus)
    → IsMailbox c
    → first (offered a c).buffer ≡ kept a (first c.buffer)
first-offered a c v = ground (arith, v.single, first-append a c.buffer, full_keeps a c.buffer)

drop_first_short : {A : Type 0} (xs : List A) → length xs ≤ 1 → drop_first xs ≡ []
drop_first_short [] h = refl
drop_first_short (x ∷ []) h = refl
drop_first_short (x ∷ y ∷ xs) h = absurd (omega arith)

pub drain_lem : {A : Type 0} (c : Chan A) → IsMailbox c → drain c ≡ (record c { buffer = [] })
unfolding drain
drain_lem c v = rw (drop_first_short c.buffer (omega (arith, v.open_channel.fits, v.single))) refl

pub drain-IsMailbox : {A : Type 0} (c : Chan A) → IsMailbox c → IsMailbox (drain c)
drain-IsMailbox c v = rw (drain_lem c v) (record {
  open_channel = record {
    not_closed = v.open_channel.not_closed;
    room = v.open_channel.room;
    fits = omega arith;
  };
  single = v.single;
})

-- A new channel with room for one status.
pub make-IsMailbox : {A : Type 0} → IsMailbox (make {A = A} 1)
make-IsMailbox = record {
  open_channel = record { not_closed = refl; room = omega arith; fits = omega arith };
  single = refl;
}

-- What clients see of a checker.
abbrev pub view : {K C : Type 0} → Checker K C → Mailbox
view c = record {
  is_off = c.disabled;
  has_client = is_some c.client;
  shown = c.current_status;
  unread = first c.status_change.buffer;
}

module _ {K C : Type 0} where
  pub view-announced :
      (s : ComponentStatus) (c : Checker K C)
      → IsMailbox c.status_change
      → view (announced s c) ≡ post s (view c)
  view-announced s c v = rw (first-offered s c.status_change v) refl

  pub view-updated :
      (s : ComponentStatus) (c : Checker K C)
      → IsMailbox c.status_change
      → view (updated s c) ≡ tell s (view c)
  view-updated s c v = ground (arith, view-announced s c v)

  pub view-drain :
      (c : Checker K C)
      → IsMailbox c.status_change
      → view (record c { status_change = drain c.status_change })
        ≡ record (view c) { unread = none }
  view-drain c v = rw (drain_lem c.status_change v) refl

  pub view-switched_off :
      (output : String) (now : Time) (c : Checker K C)
      → IsMailbox c.status_change
      → view (switched_off output now c) ≡ (
          if c.disabled
          then view c
          else post (disabled_status output now) (record (view c) { is_off = true }))
  view-switched_off output now c v =
      ground (arith, view-announced (disabled_status output now) (record c { disabled = true }) v)

  pub view-switched_on :
      (output : String) (started : List Task) (c : Checker K C)
      → IsMailbox c.status_change
      → view (switched_on output started c) ≡ (
          if c.disabled
          then post (plain_status status_warn output) (record (view c) { is_off = false })
          else view c)
  view-switched_on output started c v =
      ground
        (arith, view-announced (plain_status status_warn output) (record c { disabled = false }) v)

  pub switched_off-IsMailbox :
      (output : String) (now : Time) (c : Checker K C)
      → IsMailbox c.status_change
      → IsMailbox (switched_off output now c).status_change
  switched_off-IsMailbox output now c v =
      ground (arith, offered-IsMailbox (disabled_status output now) c.status_change v)

  pub switched_on-IsMailbox :
      (output : String) (started : List Task) (c : Checker K C)
      → IsMailbox c.status_change
      → IsMailbox (switched_on output started c).status_change
  switched_on-IsMailbox output started c v =
      ground (arith, offered-IsMailbox (plain_status status_warn output) c.status_change v)

  pub updated-IsMailbox :
      (s : ComponentStatus) (c : Checker K C)
      → IsMailbox c.status_change
      → IsMailbox (updated s c).status_change
  updated-IsMailbox s c v = ground (arith, offered-IsMailbox s c.status_change v)
