-- ===== src/Checker/Client.antt =====
-- The checker as its clients see it: a status, a switch, and a mailbox for one status that nobody has
-- read yet. A checker of this kind does each call as its template does.
pub mod Views
pub mod Refinement
pub mod Notices
pub mod Publishing
use go_healthcheck.Prelude.{
  ◌≡◌, Bool, true, false, not, List, [], ◌∷◌, Option, none, some, String, if◌then◌else◌,
}
use go_healthcheck.Json.{Time}
use go_healthcheck.Channel.{Outcome, done, drain, ◌>>=◌}
use go_healthcheck.Core.Types.{ComponentStatus, status_fail, status_warn, zero_status}
use go_healthcheck.Checker.{
  Checker, Task, plain_status, differs, utc, update_status, disable_with, enable_with, perform_with,
}

-- The operations of a checker with the answers `A`, and their texts: each is the template's.
pub record Template (A K C : Type 0) : Type 0 where
  pub disabled_text : String
  pub enabled_text : String
  pub nil_text : String
  pub started : List Task
  pub verdict : A → ComponentStatus
  -- what a check needs of the configuration
  pub fits : Option K → Bool
  pub change_status : ComponentStatus → Checker K C → Outcome (Checker K C)
  pub check : A → Checker K C → Outcome (Checker K C)
  pub disable : Time → Checker K C → Outcome (Checker K C)
  pub enable : Checker K C → Outcome (Checker K C)
  pub change_status_lem :
      (s : ComponentStatus) (c : Checker K C) → change_status s c ≡ update_status s c
  pub check_lem :
      (a : A) (c : Checker K C)
      → fits c.config ≡ true
      → check a c ≡ perform_with nil_text (verdict a) c
  pub disable_lem :
      (now : Time) (c : Checker K C) → disable now c ≡ disable_with disabled_text now c
  pub enable_lem : (c : Checker K C) → enable c ≡ enable_with enabled_text started c

-- What happens to a checker: the calls, a check on an answer, and a listener that takes a status if there
-- is one.
pub data Call (A : Type 0) : Type 0 where
  changes : ComponentStatus → Call A
  checks : A → Call A
  disables : Time → Call A
  enables : Call A
  receives : Call A

module _ {A K C : Type 0} (t : Template A K C) where
  unfoldable pub step : Call A → Checker K C → Outcome (Checker K C)
  unfolding drain
  step (changes s) c = t.change_status s c
  step (checks a) c = t.check a c
  step (disables now) c = t.disable now c
  step enables c = t.enable c
  step receives c = done (record c { status_change = drain c.status_change })

  unfoldable pub run : List (Call A) → Checker K C → Outcome (Checker K C)
  unfolding step
  run [] c = done c
  run (x ∷ xs) c = step x c >>= λ d. run xs d

-- The specification: `unread` is what a listener gets next.
pub record Mailbox : Type 0 where
  pub is_off : Bool
  pub has_client : Bool
  pub shown : ComponentStatus
  pub unread : Option ComponentStatus

-- The status to read after an announcement.
abbrev pub kept : ComponentStatus → Option ComponentStatus → Option ComponentStatus
kept s none = some s
kept s (some old) = some old

-- A status is shown; a status that has not been read stays the one to read.
abbrev pub post : ComponentStatus → Mailbox → Mailbox
post s m = record m { shown = s; unread = kept s m.unread }

abbrev pub tell : ComponentStatus → Mailbox → Mailbox
tell s m = if differs m.shown s then post s m else m

module _ {A K C : Type 0} (t : Template A K C) where
  unfoldable pub respond : Call A → Mailbox → Mailbox
  respond (changes s) m = tell s m
  respond (checks a) m =
      if m.is_off
      then m
      else if m.has_client
      then tell (t.verdict a) m
      else tell (plain_status status_fail t.nil_text) m
  respond (disables now) m =
      if m.is_off
      then m
      else post
          (record zero_status { status = status_warn; time = utc now; output = t.disabled_text })
          (record m { is_off = true })
  respond enables m =
      if m.is_off
      then post (plain_status status_warn t.enabled_text) (record m { is_off = false })
      else m
  respond receives m = record m { unread = none }

  unfoldable pub replay : List (Call A) → Mailbox → Mailbox
  unfolding respond
  replay [] m = m
  replay (x ∷ xs) m = replay xs (respond x m)
