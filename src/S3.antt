-- ===== src/S3.antt =====
-- src/s3/checker.go: the Amazon S3 checker.
pub mod Reports
pub mod Client
pub mod Publishing
use go_healthcheck.Prelude.{
  ◌⊎◌, inl, inr, ◌==◌, ℕ, ◌+◌, ◌≡◌, refl, Bool, true, false, List, [], ◌∷◌, Option, none, some,
  String, ◌<>◌, show_int, if◌then◌else◌, nat_eq,
}
use go_healthcheck.Prelude.Int.{ℤ, pos, negsuc}
use go_healthcheck.Json.{Time}
use go_healthcheck.Channel.{Chan, Outcome, done, panics, ◌>>=◌}
use go_healthcheck.Core.Types.{
  status_pass, status_fail, ComponentStatus, Descriptor, ComponentHealth,
}
use go_healthcheck.Core.Interface.{ComponentApi}
use go_healthcheck.Checker.{
  Checker, Task, check_loop, one_check, Opened, refused, opened, measured_status, plain_status,
  differs, update_status as publish, disable_with, enable_with, new_with, dummy_with, perform_with,
  stop, cancel, close_client, short_health, full_health,
}
use go_healthcheck.Checker.Loop.{Answer, Event, run_loop}

pub record Config : Type 0 where
  pub endpoint_url : String
  pub region : String
  pub bucket_name : String
  pub access_key_id : String
  pub secret_access_key : String
  pub disable_ssl : Bool
  pub s3_force_path_style : Bool

-- The struct; `C` is the client.
abbrev pub S3Checker : Type 0 → Type 0
S3Checker C = Checker Config C

-- What HeadBucket returns: no error, an error that is a types.NotFound, or another one.
pub data HeadResult : Type 0 where
  found : HeadResult
  not_found : String → HeadResult
  head_error : String → HeadResult

-- The status that performHealthCheck builds for the bucket.
unfoldable pub verdict : String → Answer HeadResult → ComponentStatus
verdict bucket a = elim a.result [
  | not_found err ↦
      measured_status status_fail
        ("S3 bucket '" <> bucket <> "' not found or not accessible: " <> err) a.start a.elapsed
  | head_error err ↦
      measured_status status_fail
        ("S3 HeadBucket operation failed for bucket '" <> bucket <> "': " <> err) a.start a.elapsed
  | found ↦
      measured_status status_pass ("S3 bucket '" <> bucket <> "' is accessible") a.start a.elapsed
]

-- newS3CheckerInternal
unfoldable pub new_checker :
    {C : Type 0} → Descriptor → ℤ → ℤ → Option Config → Option C → Checker Config C
unfolding new_with
new_checker descriptor interval timeout config client =
    new_with 1 "S3 checker initializing..." (check_loop ∷ []) descriptor interval timeout config
      client

-- The constructor, on what the function that opens the client returned.
unfoldable pub new_with_open :
    {C : Type 0} → Descriptor → ℤ → ℤ → Option Config → Opened C → Checker Config C
unfolding new_checker dummy_with
new_with_open descriptor interval timeout config (refused err) =
    dummy_with 1 ("Failed to create S3 client: " <> err) config descriptor
new_with_open descriptor interval timeout config (opened client) =
    new_checker descriptor interval timeout config client

-- The options of the SDK's client that the program sets.
pub record ClientOptions : Type 0 where
  pub use_path_style : Bool
  pub base_endpoint : Option String

-- The function that newRealS3Client hands to s3.NewFromConfig.
abbrev pub set_options : Config → ClientOptions → ClientOptions
set_options cfg o = record {
  use_path_style = cfg.s3_force_path_style;
  base_endpoint = if cfg.endpoint_url == "" then o.base_endpoint else some cfg.endpoint_url;
}

-- newRealS3Client; `load` is config.LoadDefaultConfig on the region, the key and its secret, and
-- `new_client` is s3.NewFromConfig. A nil configuration is dereferenced.
unfoldable pub new_real_s3_client :
    {A C : Type 0}
    → (String → String → String → String ⊎ A)
    → (A → (ClientOptions → ClientOptions) → C)
    → Option Config
    → Outcome (Opened C)
new_real_s3_client load new_client none = panics "nil pointer dereference"
new_real_s3_client load new_client (some cfg) =
    done (elim (load cfg.region cfg.access_key_id cfg.secret_access_key) [
      | inl err ↦ refused ("failed to load AWS config: " <> err)
      | inr aws_cfg ↦ opened (some (new_client aws_cfg (set_options cfg)))
    ])

-- NewS3Checker
unfoldable pub new_s3_checker :
    {A C : Type 0}
    → (String → String → String → String ⊎ A)
    → (A → (ClientOptions → ClientOptions) → C)
    → Descriptor
    → ℤ
    → ℤ
    → Option Config
    → Outcome (Checker Config C)
unfolding new_with_open new_real_s3_client
new_s3_checker load new_client descriptor interval timeout config =
    new_real_s3_client load new_client config >>= λ client.
    done (new_with_open descriptor interval timeout config client)

module _ {C : Type 0} where
  unfoldable pub update_status : ComponentStatus → Checker Config C → Outcome (Checker Config C)
  unfolding publish
  update_status status c = publish status c

  unfoldable pub change_status : ComponentStatus → Checker Config C → Outcome (Checker Config C)
  unfolding update_status
  change_status status c = update_status status c

  unfoldable pub disable : Time → Checker Config C → Outcome (Checker Config C)
  unfolding disable_with
  disable now c = disable_with "S3 checker disabled" now c

  unfoldable pub enable : Checker Config C → Outcome (Checker Config C)
  unfolding enable_with
  enable c = enable_with "S3 checker enabled, re-initializing..." (one_check ∷ []) c

  unfoldable pub status : Checker Config C → ComponentStatus
  status c = c.current_status

  unfoldable pub descriptor : Checker Config C → Descriptor
  descriptor c = c.descriptor

  unfoldable pub status_change : Checker Config C → Chan ComponentStatus
  status_change c = c.status_change

  unfoldable pub health : Checker Config C → ComponentHealth
  health c = full_health c.current_status c.descriptor

  -- The bucket's name is read before anything is tested, so a nil configuration panics.
  unfoldable pub perform_health_check :
      Answer HeadResult → Checker Config C → Outcome (Checker Config C)
  unfolding perform_with
  perform_health_check a c = elim c.config [
    | none ↦ panics "nil pointer dereference"
    | some config ↦
        perform_with "S3 client or configuration is nil" (verdict config.bucket_name a) c
  ]

  -- Close leaves the client alone.
  unfoldable pub close : Checker Config C → Outcome (Checker Config C × Option String)
  unfolding stop
  close c = stop c >>= λ d. done (d, none)

  -- The loop leaves without touching the client.
  unfoldable pub leave : Checker Config C → Outcome (Checker Config C)
  leave c = done c

  -- startHealthCheckLoop, on the answer to the first check and the cases that it takes.
  unfoldable pub start_health_check_loop :
      Answer HeadResult
      → List (Event (Answer HeadResult))
      → Checker Config C
      → Outcome (Checker Config C × Bool)
  unfolding run_loop perform_health_check leave
  start_health_check_loop first events c = run_loop perform_health_check leave first events c

  pub api_status : (c : Checker Config C) → (health c).status ≡ (status c).status
  unfolding health status
  api_status c = refl

  pub api_type : (c : Checker Config C) → (health c).component_type ≡ (descriptor c).component_type
  unfolding health descriptor
  api_type c = refl

  -- The checker as a component.
  abbrev pub api : ComponentApi (Checker Config C)
  api = record {
    status = status;
    descriptor = descriptor;
    health = health;
    close = close;
    health_status = api_status;
    health_type = api_type;
  }
