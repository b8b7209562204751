-- ===== src/App/Drain.antt =====
-- internal/app/restart_handler.go and scheduler_config.go, with `WaitForIdle` of
-- internal/scheduler/scheduler.go. time.ParseDuration is an argument; a duration is a number of
-- nanoseconds.
use yaralpho.Base.{
  ℕ, ◌==◌, Bool, true, false, Option, none, some, List, [], ◌∷◌, String, Error, deadline_exceeded,
  wrap, ok, err, str_eq, if◌then◌else◌,
}
use yaralpho.Base.Int.{ℤ, pos, leb_ℤ}
use yaralpho.Base.Text.{trim_space, atoi, parse_bool}
use yaralpho.Scheduler.State.{Scheduler, State, Options, set_draining, active_count}
use yaralpho.Settings.Load.{
  Values, get, restart_wait_timeout_key, scheduler_interval_key, max_retries_key,
}
use yaralpho.App.Http.{Response, write_json, write_error, drain_state}

-- The state of a scheduler and of the application: `shutdown` says that it was asked to shut down.
pub record Server (W : Type 0) : Type 0 where
  pub state : State W
  pub shutdown : Bool

-- A moment of the select in `WaitForIdle`: the counter of the scheduler's WaitGroup, which `Wait` in
-- the other goroutine waits for to be 0, the error of the context when it is done, and which case the
-- select takes when both are ready.
pub record Moment : Type 0 where
  pub waiting : ℕ
  pub ctx_err : Option Error
  pub pick_ctx : Bool

-- `WaitForIdle`, over the moments of its wait; after them its context is done, with `cause`.
unfoldable pub wait_for_idle :
    {W : Type 0} → Option (Scheduler W) → List Moment → Error → Option Error
wait_for_idle none moments cause = none
wait_for_idle (some c) [] cause = some cause
wait_for_idle (some c) (m ∷ later) cause =
    let rest = wait_for_idle (some c) later cause in
    if m.waiting == 0
    then (if m.pick_ctx then m.ctx_err else none)
    else elim m.ctx_err [ some e ↦ some e | none ↦ rest ]

-- What goes on beside a call of `restartHandler`: the moments of its wait, the error that ends it at
-- the latest, and what the ticks, the workers and other requests do to the state until the wait is
-- over, and then between `requestShutdown` and the reading of the count.
pub record Beside (W : Type 0) : Type 0 where
  pub moments : List Moment
  pub cause : Error
  pub during : State W → State W
  pub before_count : State W → State W

-- errors.Is(err, context.DeadlineExceeded)
is_deadline : Error → Bool
is_deadline deadline_exceeded = true
is_deadline (wrap s e) = is_deadline e
is_deadline _ = false

-- `parseBool` of the query parameter; none when it is no boolean.
unfoldable pub wait_of : String → Option Bool
unfolding parse_bool
wait_of raw = if str_eq raw "" then some false else parse_bool raw

-- The answer after the wait; `requestShutdown` stops the scheduler and cancels the application's run.
unfoldable pub drained :
    {W : Type 0} → Scheduler W → Bool → Beside W → Option Error → State W → Response × Server W
unfolding is_deadline active_count set_draining
drained c shutdown beside (some e) s = (
  if is_deadline e
      then write_error 408 "drain wait timed out"
      else write_error 408 "drain wait canceled or timed out",
  record { state = s; shutdown = shutdown },
)
drained c shutdown beside none s =
    let s' = beside.before_count (set_draining true s) in
    (
      write_json 200 (drain_state "drained" (active_count (some c) s')),
      record { state = s'; shutdown = true },
    )

-- What follows the checks of the request.
unfoldable pub drain : {W : Type 0} → Scheduler W → Bool → Beside W → Server W → Response × Server W
unfolding set_draining active_count wait_for_idle drained
drain c wait beside v =
    let s = set_draining true v.state in
    if wait
    then (let e = wait_for_idle (some c) beside.moments beside.cause in
        drained c v.shutdown beside e (beside.during s))
    else (
      write_json 202 (drain_state "draining" (active_count (some c) s)),
      record { state = s; shutdown = v.shutdown },
    )

-- `restartHandler`
unfoldable pub restart_handler :
    {W : Type 0} → Option (Scheduler W) → String → Beside W → Server W → Response × Server W
unfolding wait_of drain
restart_handler none raw beside v = (write_error 503 "scheduler not configured", v)
restart_handler (some c) raw beside v = elim (wait_of raw) [
  | none ↦ (write_error 400 "wait must be boolean", v)
  | some wait ↦ drain c wait beside v
]

-- Twenty minutes.
abbrev pub default_restart_wait_timeout : ℤ
default_restart_wait_timeout = pos 1200000000000

-- A parsed duration where it is above 0.
unfoldable pub positive_or : ℤ → Option ℤ → ℤ
positive_or default none = default
positive_or default (some d) = if leb_ℤ d (pos 0) then default else d

-- `restartWaitTimeout`
unfoldable pub restart_wait_timeout : (String → Option ℤ) → Option Values → ℤ
unfolding get positive_or
restart_wait_timeout parse_duration none = default_restart_wait_timeout
restart_wait_timeout parse_duration (some cfg) = elim (get cfg restart_wait_timeout_key) [
  | err e ↦ default_restart_wait_timeout
  | ok value ↦
      if str_eq (trim_space value) ""
      then default_restart_wait_timeout
      else positive_or default_restart_wait_timeout (parse_duration value)
]

abbrev pub default_scheduler_interval : ℤ
default_scheduler_interval = pos 10000000000

abbrev pub default_scheduler_max_retries : ℤ
default_scheduler_max_retries = pos 5

-- A setting, trimmed and parsed, where it is there and above 0.
unfoldable pub setting_or : Values → String → (String → Option ℤ) → ℤ → ℤ
unfolding get positive_or
setting_or cfg key parse default = elim (get cfg key) [
  | err e ↦ default
  | ok value ↦ positive_or default (parse (trim_space value))
]

-- `schedulerOptionsFromConfig`
unfoldable pub scheduler_options_from_config : (String → Option ℤ) → Option Values → Options
unfolding setting_or atoi
scheduler_options_from_config parse_duration none = record {
  interval = default_scheduler_interval;
  draining = false;
  max_retries = default_scheduler_max_retries;
}
scheduler_options_from_config parse_duration (some cfg) = record {
  interval = setting_or cfg scheduler_interval_key parse_duration default_scheduler_interval;
  draining = false;
  max_retries = setting_or cfg max_retries_key atoi default_scheduler_max_retries;
}
