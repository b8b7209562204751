-- ===== src/App/Draining.antt =====
-- What the restart handler of internal/app/restart_handler.go brings about.
use yaralpho.Base.{
  ◌<◌, ◌==◌, ◌⊎◌, ◌↔◌, Bool-cases, ◌≡◌, refl, inl, inr, arith, Bool, true, false, Option, none,
  some, List, [], ◌∷◌, String, Error, Option-cases, Result-cases,
}
use yaralpho.Base.Int.{ℤ, pos, ◌<ℤ◌}
use yaralpho.Base.Text.{trim_space, atoi}
use yaralpho.Settings.Load.{Values, get, scheduler_interval_key, max_retries_key}
use yaralpho.Scheduler.State.{Scheduler, State, set_draining}
use yaralpho.Scheduler.Tick.{CtxErr, tick}
use yaralpho.App.Drain.{
  Server, Moment, Beside, wait_for_idle, wait_of, drained, drain, restart_handler, positive_or,
  setting_or, scheduler_options_from_config, default_scheduler_interval,
  default_scheduler_max_retries,
}

-- A wait that finds the runs ended: at its first moment with no run in flight the context is not done,
-- or the select takes the end of the runs; and at no moment before is the context done.
abbrev pub Drains : List Moment → Type 0
Drains [] = ⊥
Drains (m ∷ later) =
    ((m.waiting ≡ 0) × ((m.ctx_err ≡ none) ⊎ (m.pick_ctx ≡ false)))
    ⊎ ((0 < m.waiting) × (m.ctx_err ≡ none) × Drains later)

module _ {W : Type 0} (c : Scheduler W) where
  waits_iff :
      (moments : List Moment) (cause : Error)
      → (wait_for_idle (some c) moments cause ≡ none) ↔ Drains moments
  unfolding wait_for_idle
  waits_iff [] cause = (λ h. absurd (cc), λ h. absurd h)
  waits_iff (m ∷ later) cause =
      let ih = waits_iff later cause in
      elim (Bool-cases (m.waiting == 0)) [
        | inl z ↦ (λ h. inl (ground arith), λ h. ground arith)
        | inr z ↦ elim (Option-cases m.ctx_err) [
          | inl e ↦
              rw (wait_for_idle, z, e)
                (
                  λ h. inr (ground arith, refl, ih.0 h),
                  λ h. elim h [ inl (p, q) ↦ absurd (ground arith) | inr (p, q, r) ↦ ih.1 r ],
                )
          | inr (x, e) ↦
              rw (wait_for_idle, z, e)
                (
                  λ h. absurd (cc),
                  λ h. elim h [ inl (p, q) ↦ absurd (ground arith) | inr (p, q, r) ↦ absurd (cc) ],
                )
        ]
      ]

  drained-shutdown :
      (shutdown : Bool) (beside : Beside W) (e : Option Error) (s : State W)
      → shutdown ≡ false
      → let r = drained c shutdown beside e s in
        ((r.1.shutdown ≡ true) ↔ (e ≡ none)) × (e ≡ none → r.0.status ≡ 200)
  unfolding drained
  drained-shutdown shutdown beside (some e) s f =
      ((λ h. absurd (cc), λ h. absurd (cc)), λ h. absurd (cc))
  drained-shutdown shutdown beside none s f = ((λ h. refl, λ h. refl), λ h. refl)

  -- A restart request asks a server that was not shutting down to shut down exactly when it asks to
  -- wait and the wait drains: at a moment at which no run is in flight, before the context is done or
  -- with the select taking the end of the runs. It then answers 200.
  pub restart_handler-shutdown :
      (raw : String) (beside : Beside W) (v : Server W)
      → v.shutdown ≡ false
      → let r = restart_handler (some c) raw beside v in
        ((r.1.shutdown ≡ true) ↔ ((wait_of raw ≡ some true) × Drains beside.moments))
        × (r.1.shutdown ≡ true → r.0.status ≡ 200)
  unfolding restart_handler drain
  restart_handler-shutdown raw beside v f = elim (Option-cases (wait_of raw)) [
    | inl e ↦ rw (restart_handler, e) ((λ h. absurd (cc), λ (p, q). absurd (cc)), λ h. absurd (cc))
    | inr (false, e) ↦
        rw (restart_handler, e) ((λ h. absurd (cc), λ (p, q). absurd (cc)), λ h. absurd (cc))
    | inr (true, e) ↦
        let waits = waits_iff beside.moments beside.cause in
        let (ends, status) =
          drained-shutdown v.shutdown beside (wait_for_idle (some c) beside.moments beside.cause)
            (beside.during (set_draining true v.state)) f in
        rw (restart_handler, e)
          ((λ h. (refl, waits.0 (ends.0 h)), λ (p, q). ends.1 (waits.1 q)), λ h. status (ends.0 h))
  ]

  pub tick-draining :
      (ctx : CtxErr W) (s : State W) → s.draining ≡ true → tick ctx (some c) s ≡ (none, s)
  unfolding tick
  tick-draining ctx s h = ground arith

  -- After a restart request that does not wait, the server answers 202, it was not asked to shut down
  -- when it was not before, and a tick of the scheduler changes nothing.
  pub restart_handler-drains :
      (raw : String) (beside : Beside W) (v : Server W) (ctx : CtxErr W)
      → wait_of raw ≡ some false
      → ((restart_handler (some c) raw beside v).0.status ≡ 202)
        × ((restart_handler (some c) raw beside v).1.shutdown ≡ v.shutdown)
        × (tick ctx (some c) (restart_handler (some c) raw beside v).1.state
            ≡ (none, (restart_handler (some c) raw beside v).1.state))
  unfolding restart_handler drain set_draining
  restart_handler-drains raw beside v ctx e =
      rw (restart_handler, e) (refl, refl, tick-draining ctx (set_draining true v.state) refl)

positive_or-positive :
    (default : ℤ) (o : Option ℤ) → pos 0 <ℤ default → pos 0 <ℤ positive_or default o
unfolding positive_or
positive_or-positive default none h = h
positive_or-positive default (some d) h = ground arith

setting_or-positive :
    (cfg : Values) (key : String) (parse : String → Option ℤ) (default : ℤ)
    → pos 0 <ℤ default
    → pos 0 <ℤ setting_or cfg key parse default
unfolding setting_or
setting_or-positive cfg key parse default h = elim (Result-cases (get cfg key)) [
  | inl (v, e) ↦ rw (setting_or, e) (positive_or-positive default (parse (trim_space v)) h)
  | inr (x, e) ↦ rw (setting_or, e) h
]

-- Whatever the configuration holds and however a duration is parsed, the scheduler's interval and its
-- number of attempts are above 0, and it does not start out draining.
pub scheduler_options_from_config-positive :
    (parse_duration : String → Option ℤ) (cfg : Option Values)
    → (pos 0 <ℤ (scheduler_options_from_config parse_duration cfg).interval)
      × (pos 0 <ℤ (scheduler_options_from_config parse_duration cfg).max_retries)
      × ((scheduler_options_from_config parse_duration cfg).draining ≡ false)
unfolding scheduler_options_from_config
scheduler_options_from_config-positive parse_duration none = ground arith
scheduler_options_from_config-positive parse_duration (some cfg) = (
  setting_or-positive cfg scheduler_interval_key parse_duration default_scheduler_interval
      (omega arith),
  setting_or-positive cfg max_retries_key atoi default_scheduler_max_retries (omega arith),
  refl,
)
