-- ===== src/Checker/Reporting.antt =====
-- What a check loop reports while nobody disables or closes the checker.
use go_healthcheck.Prelude.{◌≡◌, refl, true, false, List, [], ◌∷◌, map, Option, some, String, arith}
use go_healthcheck.Prelude.Int.{is_positive}
use go_healthcheck.Channel.{Outcome, done, IsOpen}
use go_healthcheck.Core.Types.{ComponentStatus}
use go_healthcheck.Checker.{Checker, perform_with}
use go_healthcheck.Checker.Updates.{updated, update_status_returns, updated-IsOpen, updated_same}
use go_healthcheck.Checker.Loop.{tick, new_ticker, run_events, run_loop}

-- The last of some answers.
abbrev pub last_of : {A : Type 0} → A → List A → A
last_of a [] = a
last_of a (b ∷ bs) = last_of b bs

-- The checker is enabled, with the configuration, the client `k` and an open channel.
pub record IsActive {K C : Type 0} (config : Option K) (k : C) (c : Checker K C) : Type 0 where
  pub open_channel : IsOpen c.status_change
  pub enabled : c.disabled ≡ false
  pub has_config : c.config ≡ config
  pub has_client : c.client ≡ some k

-- The checker shows the status and the output of `s`.
abbrev pub Shows : {K C : Type 0} → ComponentStatus → Checker K C → Type 0
Shows s c = (c.current_status.status ≡ s.status) × (c.current_status.output ≡ s.output)

-- A check of an active checker publishes the verdict.
pub perform_returns :
    {K C : Type 0} (nil_output : String) (s : ComponentStatus) {config : Option K} {k : C}
    (c : Checker K C)
    → IsActive config k c
    → perform_with nil_output s c ≡ done (updated s c)
unfolding perform_with
perform_returns nil_output s c v =
    ground (arith, v.enabled, v.has_client, update_status_returns s c v.open_channel)

pub updated-IsActive :
    {K C : Type 0} (s : ComponentStatus) {config : Option K} {k : C} (c : Checker K C)
    → IsActive config k c
    → IsActive config k (updated s c)
updated-IsActive s c v = record {
  open_channel = updated-IsOpen s c v.open_channel;
  enabled = ground (arith, v.enabled);
  has_config = ground (arith, v.has_config);
  has_client = ground (arith, v.has_client);
}

-- `check` publishes `verdict` on an active checker, as `returns` says.
module _ {K C A : Type 0} (verdict : A → ComponentStatus) (config : Option K) (k : C)
    (check : A → Checker K C → Outcome (Checker K C)) (leave : Checker K C → Outcome (Checker K C))
    (returns : (a : A) (c : Checker K C)
      → IsActive config k c
      → check a c ≡ done (updated (verdict a) c)) where
  ticks_report :
      (a : A) (as' : List A) (c : Checker K C)
      → IsActive config k c
      → Shows (verdict a) c
      → (d : Checker K C) × (run_events check leave (map tick as') c ≡ done (d, true))
        × IsActive config k d
        × Shows (verdict (last_of a as')) d
  unfolding run_events
  ticks_report a [] c v h = (c, refl, v, h)
  ticks_report a (b ∷ bs) c v h =
      let c' = updated (verdict b) c in
      let v' = updated-IsActive (verdict b) c v in
      let (d, runs, w, shows) = ticks_report b bs c' v' (updated_same (verdict b) c) in
      (d, rw (returns b c v) runs, w, shows)

  -- The loop of an active checker with a positive interval does not panic or block: after the first
  -- check and any number of ticks it goes on, the checker is still active, and Status() shows the status
  -- and the output of the verdict on the last answer.
  pub run_loop_reports :
      (a : A) (as' : List A) (c : Checker K C)
      → IsActive config k c
      → is_positive c.check_interval ≡ true
      → (d : Checker K C) × (run_loop check leave a (map tick as') c ≡ done (d, true))
        × IsActive config k d
        × Shows (verdict (last_of a as')) d
  unfolding run_loop new_ticker
  run_loop_reports a as' c v pos =
      let c' = updated (verdict a) c in
      let (d, runs, w, shows) =
        ticks_report a as' c' (updated-IsActive (verdict a) c v) (updated_same (verdict a) c) in
      (d, rw (pos, returns a c v) runs, w, shows)
