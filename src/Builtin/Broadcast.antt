-- ===== src/Builtin/Broadcast.antt =====
-- updateStatus of src/builtin/uptime.go and http_checker.go, while nobody calls Close: the goroutine stores the
-- status under the mutex, drains the observers' channel and sends, and others may run between those sections.
pub mod History
pub mod Publishing
use go_healthcheck.Prelude.{
  ◌≡◌, ◌++◌, List, [], ◌∷◌, Option, none, some, length, ltb, if◌then◌else◌,
}
use go_healthcheck.Channel.{Chan, drain}
use go_healthcheck.Core.Types.{ComponentStatus}

-- Where the goroutine stands.
pub data Phase : Type 0 where
  -- outside updateStatus
  waiting : Phase
  -- behind the mutex
  stored : ComponentStatus → Phase
  -- at the send
  drained : ComponentStatus → Phase

-- The fields of a component that updateStatus reads and writes.
pub record Fields (S : Type 0) : Type 0 where
  pub status : S → ComponentStatus
  pub channel : S → Chan ComponentStatus
  pub put : ComponentStatus → Chan ComponentStatus → S → S
  pub status-put :
      (s : ComponentStatus) (ch : Chan ComponentStatus) (c : S) → status (put s ch c) ≡ s
  pub channel-put :
      (s : ComponentStatus) (ch : Chan ComponentStatus) (c : S) → channel (put s ch c) ≡ ch

-- A component, and its one goroutine that updates the status.
pub record Broadcaster (S : Type 0) : Type 0 where
  pub component : S
  pub phase : Phase

module _ {S : Type 0} (f : Fields S) where
  -- The section under the mutex, on a new status; `none` while the goroutine is in an update.
  unfoldable pub store_at : Phase → ComponentStatus → S → Option (Broadcaster S)
  store_at waiting s c = some (record { component = f.put s (f.channel c) c; phase = stored s })
  store_at (stored t) s c = none
  store_at (drained t) s c = none

  unfoldable pub store : ComponentStatus → Broadcaster S → Option (Broadcaster S)
  unfolding store_at
  store s b = store_at b.phase s b.component

  -- The next section; `none` means that the goroutine waits.
  unfoldable pub advance_at : Phase → S → Option (Broadcaster S)
  unfolding drain
  advance_at waiting c = none
  advance_at (stored s) c =
      some (record { component = f.put (f.status c) (drain (f.channel c)) c; phase = drained s })
  advance_at (drained s) c =
      let channel = f.channel c in
      if ltb (length channel.buffer) channel.capacity
      then some (record {
        component = f.put (f.status c) (record channel { buffer = channel.buffer ++ s ∷ [] }) c;
        phase = waiting;
      })
      else none

  unfoldable pub advance : Broadcaster S → Option (Broadcaster S)
  unfolding advance_at
  advance b = advance_at b.phase b.component

  abbrev pub then_advance : Option (Broadcaster S) → Option (Broadcaster S)
  then_advance none = none
  then_advance (some b) = advance b

  abbrev pub settled_component : Option (Broadcaster S) → Option S
  settled_component none = none
  settled_component (some b) = some b.component

  -- All sections of one update, with nobody between them; `none`: it waits at the send.
  unfoldable pub broadcast : ComponentStatus → S → Option S
  unfolding store advance
  broadcast s c =
      settled_component
        (then_advance (then_advance (store s (record { component = c; phase = waiting }))))
