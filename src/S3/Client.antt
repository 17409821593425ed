-- ===== src/S3/Client.antt =====
-- The S3 checker of one configuration as a checker of the template, as its clients see it.
use go_healthcheck.Prelude.{
  ◌∙◌, refl, ap, true, false, [], ◌∷◌, ◌≡◌, Option, none, some, String, Bool, ◌==◌, arith, eq_iff,
}
use go_healthcheck.Checker.{Checker, one_check, perform_with}
use go_healthcheck.Checker.Client.{Template}
use go_healthcheck.Checker.Loop.{Answer}
use go_healthcheck.S3.{
  Config, HeadResult, verdict, change_status, update_status, disable, enable, perform_health_check,
}

-- There is a configuration, and its bucket has the name.
abbrev pub names : String → Option Config → Bool
names bucket none = false
names bucket (some config) = config.bucket_name == bucket

pub with_config :
    {C : Type 0} (config : Config) (a : Answer HeadResult) (c : Checker Config C)
    → c.config ≡ some config
    → perform_health_check a c
      ≡ perform_with "S3 client or configuration is nil" (verdict config.bucket_name a) c
unfolding perform_health_check
with_config config a c e = ground (arith, e)

pub check_lem :
    {C : Type 0} (bucket : String) (config : Option Config) (a : Answer HeadResult)
    (c : Checker Config C)
    → c.config ≡ config
    → names bucket config ≡ true
    → perform_health_check a c
      ≡ perform_with "S3 client or configuration is nil" (verdict bucket a) c
check_lem bucket none a c e f = absurd (cc)
check_lem bucket (some config) a c e f =
    with_config config a c e
    ∙ ap (λ (b : String). perform_with "S3 client or configuration is nil" (verdict b a) c)
        ((eq_iff config.bucket_name bucket).0 f)

unfoldable pub template : {C : Type 0} → String → Template (Answer HeadResult) Config C
unfolding change_status update_status disable enable
template bucket = record {
  disabled_text = "S3 checker disabled";
  enabled_text = "S3 checker enabled, re-initializing...";
  nil_text = "S3 client or configuration is nil";
  started = one_check ∷ [];
  verdict = verdict bucket;
  fits = names bucket;
  change_status = change_status;
  check = perform_health_check;
  disable = disable;
  enable = enable;
  change_status_lem = λ s c. refl;
  check_lem = λ a c f. check_lem bucket c.config a c refl f;
  disable_lem = λ now c. refl;
  enable_lem = λ c. refl;
}
