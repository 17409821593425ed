-- ===== src/Builtin/HttpChecker/Reports.antt =====
-- What the HTTP checker is made with, and what a check reports.
use go_healthcheck.Prelude.{
  ℕ, zero, suc, ◌≡◌, refl, ◌∙◌, ◌≢◌, ◌≤◌, Bool, true, false, ◌&&◌, List, [], ◌∷◌, none, some,
  String, ◌==◌, arith, eq_iff, ◌⊎◌, inl, inr, ltb, leb, length, if◌then◌else◌, nat_eq, ◌/◌, not,
  Bool-cases, ◌<>◌,
}
use go_healthcheck.Prelude.Int.{ℤ, pos, negsuc, is_positive}
use go_healthcheck.Channel.{done, drain, drop_first}
use go_healthcheck.Core.Types.{StatusEnum, ComponentStatus, status_pass, status_fail}
use go_healthcheck.Checker.Loop.{new_ticker}
use go_healthcheck.Builtin.HttpChecker.{
  Options, HttpChecker, or_default, new, communicate, Moment, send, store, new_status,
  update_status, Reply, request_error, do_error, replied, code_status, code_output, close_body,
  handle, perform_check, start, made, Request, request,
}

-- The checker has not been closed, and its channel is open and has its capacity of 1.
pub record IsListening (c : HttpChecker) : Type 0 where
  pub running : c.cancelled ≡ false
  pub not_closed : c.observer_change.is_closed ≡ false
  pub capacity_one : c.observer_change.capacity ≡ 1
  pub fits : length c.observer_change.buffer ≤ 1

-- The checker after a status has been stored and sent.
abbrev pub published : ComponentStatus → HttpChecker → HttpChecker
published s c = record c {
  last_status = s;
  observer_change = record c.observer_change { buffer = s ∷ [] };
}

drop_first-empty : (xs : List ComponentStatus) → length xs ≤ 1 → drop_first xs ≡ []
drop_first-empty [] h = refl
drop_first-empty (x ∷ []) h = refl
drop_first-empty (x ∷ y ∷ xs) h = absurd (ground arith)

pub update_status_returns :
    (m : Moment) (status : StatusEnum) (output : String) (c : HttpChecker)
    → IsListening c
    → m.choice ≡ communicate
    → update_status m status output c ≡ done (some (published (new_status status m.now output) c))
unfolding update_status send store drain
update_status_returns m status output c v h =
    rw
      (v.running, h, drop_first-empty c.observer_change.buffer v.fits, v.not_closed, v.capacity_one)
      refl

published-IsListening :
    (s : ComponentStatus) (c : HttpChecker) → IsListening c → IsListening (published s c)
published-IsListening s c v = record {
  running = v.running;
  not_closed = v.not_closed;
  capacity_one = v.capacity_one;
  fits = ground arith;
}

-- The replies that pass: a response of the 2xx class, whose body is closed without an error.
abbrev pub is_good : Reply → Bool
is_good (replied code none) = nat_eq (code / 100) 2
is_good _ = false

-- The checker shows the verdict on a reply, which is also what an observer will receive.
abbrev pub Shows : Reply → HttpChecker → Type 0
Shows r d =
    (d.observer_change.buffer ≡ d.last_status ∷ [])
    × ((d.last_status.status == status_pass) ≡ is_good r)
    × ((d.last_status.status == status_fail) ≡ not (is_good r))

code_status-is_good :
    (code : ℕ)
    → ((code_status code == status_pass) ≡ nat_eq (code / 100) 2)
      × ((code_status code == status_fail) ≡ not (nat_eq (code / 100) 2))
code_status-is_good code = rw (in_class code) (verdict_of (nat_eq (code / 100) 2))
  where
    in_class : (code : ℕ) → (leb 200 code && ltb code 300) ≡ nat_eq (code / 100) 2
    in_class code = ground arith

    verdict_of :
        (b : Bool)
        → (((if b then status_pass else status_fail) == status_pass) ≡ b)
          × (((if b then status_pass else status_fail) == status_fail) ≡ not b)
    verdict_of true = (refl, refl)
    verdict_of false = (refl, refl)

handle-Shows :
    (m last : Moment) (r : Reply) (c : HttpChecker)
    → IsListening c
    → m.choice ≡ communicate
    → last.choice ≡ communicate
    → (d : HttpChecker) × (handle m last r c ≡ done (some d)) × IsListening d × Shows r d
unfolding handle close_body
handle-Shows m last (request_error err) c v h k =
    let s = new_status status_fail m.now ("Failed to create HTTP request: " <> err) in
    (
      published s c,
      update_status_returns m status_fail ("Failed to create HTTP request: " <> err) c v h,
      published-IsListening s c v,
      (refl, refl, refl),
    )
handle-Shows m last (do_error err) c v h k =
    let s = new_status status_fail m.now ("HTTP GET request failed: " <> err) in
    (
      published s c,
      update_status_returns m status_fail ("HTTP GET request failed: " <> err) c v h,
      published-IsListening s c v,
      (refl, refl, refl),
    )
handle-Shows m last (replied code none) c v h k =
    let output = code_output c.options.url code in
    let s = new_status (code_status code) m.now output in
    (
      published s c,
      update_status_returns m (code_status code) output c v h,
      published-IsListening s c v,
      (refl, (code_status-is_good code).0, (code_status-is_good code).1),
    )
handle-Shows m last (replied code (some err)) c v h k =
    let output = code_output c.options.url code in
    let s = new_status (code_status code) m.now output in
    let failure = "Failed to close HTTP response body: " <> err in
    let t = new_status status_fail last.now failure in
    (
      published t (published s c),
      rw (update_status_returns m (code_status code) output c v h) (
          update_status_returns last status_fail failure (published s c)
            (published-IsListening s c v) k),
      published-IsListening t (published s c) (published-IsListening s c v),
      (refl, refl, refl),
    )

perform_check-handle :
    (m last : Moment) (r : Reply) (c : HttpChecker)
    → IsListening c
    → c.disabled ≡ false
    → perform_check m last r c ≡ handle m last r c
unfolding perform_check
perform_check-handle m last r c v e = ground (arith, v.running, e)

-- A check of an open, enabled checker that nobody interferes with returns: the status is "pass" if the
-- response is of the 2xx class and its body is closed without an error, and "fail" otherwise, and the
-- channel holds that status alone, whatever was unread before.
pub perform_check_lem :
    (m last : Moment) (r : Reply) (c : HttpChecker)
    → IsListening c
    → c.disabled ≡ false
    → m.choice ≡ communicate
    → last.choice ≡ communicate
    → (d : HttpChecker) × (perform_check m last r c ≡ done (some d)) × IsListening d × Shows r d
perform_check_lem m last r c v e h k =
    let (d, returns, w, shows) = handle-Shows m last r c v h k in
    (d, perform_check-handle m last r c v e ∙ returns, w, shows)

or_default-is_positive : (d : ℤ) → is_positive (or_default d) ≡ true
or_default-is_positive (pos n) = ground arith
or_default-is_positive (negsuc n) = ground arith

-- A duration as it is given, if that is at least a nanosecond; else five seconds.
abbrev pub Defaulted : ℤ → ℤ → Type 0
Defaulted (pos (suc n)) d = d ≡ pos (suc n)
Defaulted _ d = d ≡ pos 5000000000

or_default-Defaulted : (d : ℤ) → Defaulted d (or_default d)
or_default-Defaulted (pos zero) = refl
or_default-Defaulted (pos (suc n)) = ground arith
or_default-Defaulted (negsuc n) = refl

-- NewHTTPCheckerComponent fails exactly on an empty URL. Otherwise, with any timeout and interval, zero
-- and negative ones included, the new checker can be started: its ticker does not panic, and the first
-- check returns and shows the verdict on the answer of net/http to a GET request of the given URL.
-- The request's timeout and the ticker's interval are the given ones, or five seconds for one that is
-- not positive.
pub new-start :
    (options : Options) (m last : Moment) (answer : Request → Reply)
    → m.choice ≡ communicate
    → last.choice ≡ communicate
    → ((options.url ≡ "") × (new options ≡ inl "URL cannot be empty"))
      ⊎ ((options.url ≢ "")
          × ((c d : HttpChecker) × (timeout : ℤ) × (new options ≡ inr c)
              × Defaulted options.timeout timeout
              × Defaulted options.interval c.options.interval
              × (start m last answer c ≡ done (some d))
              × IsListening d
              × Shows (answer (record { timeout = timeout; url = options.url })) d))
unfolding new start new_ticker request
new-start options m last answer h k = elim (Bool-cases (options.url == "")) [
  | inl e ↦ inl (ground (arith, eq_iff options.url ""), ground arith)
  | inr e ↦
      let c = made options in
      let v : IsListening c = record {
        running = refl;
        not_closed = refl;
        capacity_one = refl;
        fits = omega arith;
      } in
      let (d, returns, w, shows) = perform_check_lem m last (answer (request c)) c v refl h k in
      inr (
        ground (arith, eq_iff options.url ""),
        (
          c,
          d,
          or_default options.timeout,
          rw e refl,
          or_default-Defaulted options.timeout,
          or_default-Defaulted options.interval,
          rw (or_default-is_positive options.interval) returns,
          w,
          shows,
        ),
      )
]
