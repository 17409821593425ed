-- ===== src/Mongodb/Client.antt =====
-- The MongoDB checker as a checker of the template, as its clients see it.
use go_healthcheck.Prelude.{true, refl, [], ◌∷◌, Option, String}
use go_healthcheck.Checker.{one_check, new_with, dummy_with, Opened, refused, opened}
use go_healthcheck.Prelude.Int.{ℤ}
use go_healthcheck.Core.Types.{Descriptor}
use go_healthcheck.Checker.Client.{Template}
use go_healthcheck.Checker.Client.Views.{IsMailbox, make-IsMailbox}
use go_healthcheck.Checker.Loop.{Answer}
use go_healthcheck.Mongodb.{
  Driver, new_with_open, new_checker, new_mongo_checker_with_options, verdict, update_status,
  change_status, disable, enable, perform_health_check,
}

unfoldable pub template : {K C : Type 0} → Template (Answer (Option String)) K C
unfolding change_status update_status disable enable perform_health_check
template = record {
  disabled_text = "MongoDB checker disabled";
  enabled_text = "MongoDB checker enabled, re-initializing...";
  nil_text = "MongoDB client is nil";
  started = one_check ∷ [];
  verdict = verdict;
  fits = λ config. true;
  change_status = change_status;
  check = perform_health_check;
  disable = disable;
  enable = enable;
  change_status_lem = λ s c. refl;
  check_lem = λ a c f. refl;
  disable_lem = λ now c. refl;
  enable_lem = λ c. refl;
}

pub new_with_open-IsMailbox :
    {K C : Type 0} (descriptor : Descriptor) (interval timeout : ℤ) (config : Option K)
    (client : Opened C)
    → IsMailbox (new_with_open descriptor interval timeout config client).status_change
unfolding new_with_open new_checker new_with dummy_with
new_with_open-IsMailbox descriptor interval timeout config (refused err) = make-IsMailbox
new_with_open-IsMailbox descriptor interval timeout config (opened client) = make-IsMailbox

-- A checker that the constructor makes, whether the client can be opened or not.
new_mongo_checker_with_options-IsMailbox :
    {O C : Type 0} (driver : Driver O C) (descriptor : Descriptor) (interval timeout : ℤ)
    (options : O)
    → IsMailbox
        (new_mongo_checker_with_options driver descriptor interval timeout options).status_change
unfolding new_mongo_checker_with_options
new_mongo_checker_with_options-IsMailbox driver descriptor interval timeout options =
    new_with_open-IsMailbox descriptor interval timeout _ _
