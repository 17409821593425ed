-- ===== src/S3/Publishing.antt =====
-- The S3 checker as a service relies on it; it has a configuration, which names any bucket.
use go_healthcheck.Prelude.{◌≡◌, refl, true, false, Bool, Option, none, some, [], ◌∷◌}
use go_healthcheck.Channel.{IsOpen}
use go_healthcheck.Checker.{Checker, one_check}
use go_healthcheck.Checker.Loop.{Answer}
use go_healthcheck.Checker.Announcing.{
  same, Tells, update_status-Tells, perform_with-Tells, disable_with-Tells, enable_with-Tells,
}
use go_healthcheck.Checker.Speaking.{Speaker}
use go_healthcheck.S3.{
  Config, HeadResult, verdict, change_status, update_status, disable, enable, perform_health_check,
}
use go_healthcheck.S3.Client.{with_config}

abbrev pub has_config : Option Config → Bool
has_config none = false
has_config (some config) = true

module _ {C : Type 0} where
  pub perform_health_check-Tells :
      (k : Option Config) (a : Answer HeadResult) (c : Checker Config C)
      → c.config ≡ k
      → IsOpen c.status_change
      → has_config k ≡ true
      → Tells c (perform_health_check a c)
  perform_health_check-Tells none a c e v f = absurd (cc)
  perform_health_check-Tells (some config) a c e v f =
      rw (with_config config a c e)
        (perform_with-Tells "S3 client or configuration is nil" (verdict config.bucket_name a) c v)

  unfoldable pub s3_speaker : Speaker (Answer HeadResult) Config C
  unfolding change_status update_status disable enable
  s3_speaker = record {
    fits = has_config;
    change_status = change_status;
    check = perform_health_check;
    disable = disable;
    enable = enable;
    change_status-Tells = λ s c v. update_status-Tells s c same v;
    check-Tells = λ a c v f. perform_health_check-Tells c.config a c refl v f;
    disable-Tells = disable_with-Tells "S3 checker disabled";
    enable-Tells = enable_with-Tells "S3 checker enabled, re-initializing..." (one_check ∷ []);
  }
