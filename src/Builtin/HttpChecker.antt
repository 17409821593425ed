-- ===== src/Builtin/HttpChecker.antt =====
-- src/builtin/http_checker.go: the HTTP checker. `none` in a result means that a select statement does
-- not have the case ready that it was to take.
pub mod Reports
pub mod Races
pub mod Senders
pub mod Broadcasting
use go_healthcheck.Prelude.{
  ℕ, ◌≡◌, refl, Bool, true, false, ◌&&◌, List, [], ◌∷◌, ◌++◌, Option, none, some, String, ◌<>◌,
  ◌==◌, show_nat, if◌then◌else◌, ◌⊎◌, inl, inr, ltb, leb, length,
}
use go_healthcheck.Prelude.Int.{ℤ, pos, is_positive}
use go_healthcheck.Json.{Time}
use go_healthcheck.Channel
use go_healthcheck.Channel.{Chan, Outcome, done, panics, ◌>>=◌, make, drain}
use go_healthcheck.Core.Types.{
  status_pass, status_fail, status_warn, StatusEnum, ComponentStatus, zero_status, Descriptor,
  zero_descriptor, ComponentHealth,
}
use go_healthcheck.Core.Interface.{ComponentApi}
use go_healthcheck.Checker.{Task, check_loop, one_check, full_health}
use go_healthcheck.Checker.Loop.{new_ticker}

pub record Options : Type 0 where
  pub url : String
  pub timeout : ℤ
  pub interval : ℤ

pub record HttpChecker : Type 0 where
  pub last_status : ComponentStatus
  pub observer_change : Chan ComponentStatus
  pub descriptor : Descriptor
  -- hc.ctx is done
  pub cancelled : Bool
  pub options : Options
  pub disabled : Bool
  -- the go statements that have been executed
  pub tasks : List Task

-- A positive duration, or five seconds.
abbrev pub or_default : ℤ → ℤ
or_default d = if is_positive d then d else pos 5000000000

-- The checker that is made with a URL that is not empty.
abbrev pub made : Options → HttpChecker
made options = record {
  last_status = zero_status;
  observer_change = make 1;
  descriptor = record zero_descriptor {
    component_id = "http-get-" <> options.url;
    component_type = "http";
    description = "Performs HTTP GET health check on " <> options.url;
    links = ("url", options.url) ∷ [];
  };
  cancelled = false;
  options = record {
    url = options.url;
    timeout = or_default options.timeout;
    interval = or_default options.interval;
  };
  disabled = false;
  tasks = check_loop ∷ [];
}

-- NewHTTPCheckerComponent: an error, or a checker.
unfoldable pub new : Options → String ⊎ HttpChecker
new options = if options.url == "" then inl "URL cannot be empty" else inr (made options)

-- The case that the select statement at the send takes, and the time that time.Now() gave before it.
pub data Choice : Type 0 where
  communicate : Choice
  done_case : Choice

pub record Moment : Type 0 where
  pub now : Time
  pub choice : Choice

-- select { case hc.observerChange <- status: case <-hc.ctx.Done(): }
unfoldable pub send : Choice → ComponentStatus → HttpChecker → Outcome (Option HttpChecker)
send communicate s c =
    if c.observer_change.is_closed
    then panics "send on closed channel"
    else if ltb (length c.observer_change.buffer) c.observer_change.capacity
    then done (
        some (record c {
          observer_change = record c.observer_change {
            buffer = c.observer_change.buffer ++ s ∷ [];
          };
        }))
    else done none
send done_case s c = done (if c.cancelled then some c else none)

-- updateStatus between its test of the context and its send: the status is stored, and an old one that
-- nobody has read is drained.
unfoldable pub store : ComponentStatus → HttpChecker → HttpChecker
unfolding drain
store s c = record c { last_status = s; observer_change = drain c.observer_change }

abbrev pub new_status : StatusEnum → Time → String → ComponentStatus
new_status status now output = record zero_status { status = status; time = now; output = output }

unfoldable pub update_status :
    Moment → StatusEnum → String → HttpChecker → Outcome (Option HttpChecker)
unfolding send store
update_status m status output c =
    if c.cancelled
    then done (some c)
    else send m.choice (new_status status m.now output) (store (new_status status m.now output) c)

-- What comes of a request: it cannot be made, it gets no response, or a response with a status code,
-- whose body is closed with or without an error.
pub data Reply : Type 0 where
  request_error : String → Reply
  do_error : String → Reply
  replied : ℕ → Option String → Reply

-- The status for a code.
abbrev pub code_status : ℕ → StatusEnum
code_status code = if leb 200 code && ltb code 300 then status_pass else status_fail

abbrev pub code_output : String → ℕ → String
code_output url code = "HTTP GET to " <> url <> " returned status " <> show_nat code

-- The deferred Body.Close(), after the update for the code.
unfoldable pub close_body :
    Moment → Option String → Outcome (Option HttpChecker) → Outcome (Option HttpChecker)
unfolding update_status
close_body m none updated = updated
close_body m (some err) updated = updated >>= λ o. elim o [
  | none ↦ done none
  | some c ↦ update_status m status_fail ("Failed to close HTTP response body: " <> err) c
]

-- performCheck from the request on; `last` is the moment of the deferred update.
unfoldable pub handle : Moment → Moment → Reply → HttpChecker → Outcome (Option HttpChecker)
unfolding update_status close_body
handle m last (request_error err) c =
    update_status m status_fail ("Failed to create HTTP request: " <> err) c
handle m last (do_error err) c = update_status m status_fail ("HTTP GET request failed: " <> err) c
handle m last (replied code close_error) c =
    close_body last close_error
      (update_status m (code_status code) (code_output c.options.url code) c)

unfoldable pub perform_check : Moment → Moment → Reply → HttpChecker → Outcome (Option HttpChecker)
unfolding handle
perform_check m last reply c =
    if c.cancelled
    then done (some c)
    else if c.disabled
    then done (some c)
    else handle m last reply c

-- What performCheck asks net/http for: a client with this timeout does a GET request of this URL.
pub record Request : Type 0 where
  pub timeout : ℤ
  pub url : String

unfoldable pub request : HttpChecker → Request
request c = record { timeout = c.options.timeout; url = c.options.url }

-- What start does before its loop: the ticker, and the first check, where net/http answers.
unfoldable pub start :
    Moment → Moment → (Request → Reply) → HttpChecker → Outcome (Option HttpChecker)
unfolding new_ticker perform_check request
start m last answer c =
    new_ticker c.options.interval >>= λ _. perform_check m last (answer (request c)) c

-- The end of start, where its loop sees that the context is done; `none` if it is not.
unfoldable pub finish : HttpChecker → Outcome (Option HttpChecker)
finish c =
    if c.cancelled
    then (Channel.close c.observer_change >>= λ channel.
        done (some (record c { observer_change = channel })))
    else done none

unfoldable pub close : HttpChecker → HttpChecker
close c = record c { cancelled = true }

unfoldable pub change_status : ComponentStatus → HttpChecker → HttpChecker
change_status s c = c

unfoldable pub disable : Moment → HttpChecker → Outcome (Option HttpChecker)
unfolding update_status
disable m c =
    if c.cancelled
    then done (some c)
    else if c.disabled
    then done (some c)
    else update_status m status_warn "health check disabled" (record c { disabled = true })

unfoldable pub enable : HttpChecker → HttpChecker
enable c =
    if c.cancelled
    then c
    else if c.disabled
    then record c { disabled = false; tasks = c.tasks ++ one_check ∷ [] }
    else c

unfoldable pub status : HttpChecker → ComponentStatus
status c = c.last_status

unfoldable pub health : HttpChecker → ComponentHealth
health c = full_health c.last_status c.descriptor

pub api_status : (c : HttpChecker) → (health c).status ≡ (status c).status
unfolding health status
api_status c = refl

pub api_type : (c : HttpChecker) → (health c).component_type ≡ c.descriptor.component_type
unfolding health
api_type c = refl

-- The checker as a component.
abbrev pub api : ComponentApi HttpChecker
api = record {
  status = status;
  descriptor = λ c. c.descriptor;
  health = health;
  close = λ c. done (close c, none);
  health_status = api_status;
  health_type = api_type;
}
