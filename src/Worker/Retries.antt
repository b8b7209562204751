-- ===== src/Worker/Retries.antt =====
-- The attempts at a task (internal/consumer/worker.go): when another one is made, and how many there
-- are at most.
use yaralpho.Base.{
  ℕ, zero, suc, ◌+◌, ◌-◌, ◌≤◌, ◌<◌, ◌≡◌, ◌≢◌, refl, ap, ◌↔◌, ◌⊎◌, inl, inr, Bool-cases,
  Option-cases, true, false, Option, none, some, String, Error, str_eq, str_eq_iff, is_some, arith,
}
use yaralpho.Base.Int.{ℤ, pos, leb_ℤ, ◌<ℤ◌, pos_part}
use yaralpho.Storage.Models.{Batch, TaskRunStatus}
use yaralpho.Scheduler.State.{WorkItem}
use yaralpho.Worker.Env.{Env, Context, Client, State}
use yaralpho.Worker.Tasks.{Verified, is_succeeded}
use yaralpho.Worker.Attempts.{
  Verdict, again, finished, should_retry, succeed, judge, announce_attempt, run_item, attempt,
  attempt_loop,
}

-- The number of attempts that are enough.
abbrev pub attempts_allowed : Option ℤ → ℕ
attempts_allowed none = 1
attempts_allowed (some r) = suc (pos_part r - 1)

-- Another attempt is allowed after so many.
abbrev pub IsAllowed : ℕ → Option ℤ → Type 0
IsAllowed attempts none = ⊥
IsAllowed attempts (some r) = pos attempts <ℤ r

differs : (s : String) → str_eq s "failure" ≡ false → s ≢ "failure"
differs s f p = let q = (str_eq_iff s "failure").1 p in absurd (cc)

is_succeeded-true : (t : TaskRunStatus) → is_succeeded t ≡ true → t ≡ TaskRunStatus.succeeded
unfolding is_succeeded
is_succeeded-true TaskRunStatus.succeeded h = refl
is_succeeded-true TaskRunStatus.unset h = absurd (cc)
is_succeeded-true TaskRunStatus.running h = absurd (cc)
is_succeeded-true TaskRunStatus.failed h = absurd (cc)
is_succeeded-true TaskRunStatus.stopped h = absurd (cc)
is_succeeded-true TaskRunStatus.timed_out h = absurd (cc)
is_succeeded-true (TaskRunStatus.other s) h = absurd (cc)

is_succeeded-false : (t : TaskRunStatus) → is_succeeded t ≡ false → t ≢ TaskRunStatus.succeeded
unfolding is_succeeded
is_succeeded-false t h p = let q = ap is_succeeded p in absurd (cc)

IsAllowed_lem : (retries : Option ℤ) (n : ℕ) → IsAllowed n retries → n < attempts_allowed retries
IsAllowed_lem none n h = absurd h
IsAllowed_lem (some r) n h = ground arith

pub Verdict-cases : (v : Verdict) → (v ≡ again) ⊎ ((e : Option Error) × (v ≡ finished e))
Verdict-cases again = inl refl
Verdict-cases (finished e) = inr (e, refl)

module _ {W : Type 0} (env : Env W) (repo_path : String) (item : WorkItem) where
  should_retry_iff :
      (v : Verified W) (attempts : ℕ) (retries : Option ℤ) (s : State W)
      → ((should_retry env repo_path item v attempts retries s).0 ≡ true)
        ↔ IsAllowed attempts retries
  unfolding should_retry
  should_retry_iff v attempts none s = (λ h. absurd (cc), λ h. absurd h)
  should_retry_iff v attempts (some r) s = elim (Bool-cases (leb_ℤ r (pos attempts))) [
    | inl e ↦ rw (should_retry, e) (ground arith)
    | inr e ↦ rw (should_retry, e) (ground arith)
  ]

  judge-failed :
      (v : Verified W) (attempts : ℕ) (retries : Option ℤ) (s : State W) (e : Error)
      → v.error ≡ some e
      → (judge env repo_path item attempts retries v s).0 ≡ finished (some e)
  unfolding judge
  judge-failed v attempts retries s e h = rw (judge, h) refl

  -- Another attempt follows exactly when the execution and the verification ran without an error, the
  -- verification's response says "failure", the number of attempts is configured, and it is above the
  -- number of this one.
  pub judge-again :
      (v : Verified W) (attempts : ℕ) (retries : Option ℤ) (s : State W)
      → ((judge env repo_path item attempts retries v s).0 ≡ again)
        ↔ ((v.error ≡ none) × (v.response.status ≡ "failure") × IsAllowed attempts retries)
  unfolding judge succeed
  judge-again v attempts retries s = elim (Option-cases v.error) [
    | inr (x, h) ↦ rw (judge, h) (λ p. absurd (cc), λ (p, _, _). absurd (cc))
    | inl h ↦ elim (Bool-cases (str_eq v.response.status "failure")) [
      | inr f ↦ elim (Bool-cases (is_succeeded v.status)) [
        | inl t ↦ rw (judge, h, f, t) (λ p. absurd (cc), λ (_, p, _). absurd (differs _ f p))
        | inr t ↦ rw (judge, h, f, t) (λ p. absurd (cc), λ (_, p, _). absurd (differs _ f p))
      ]
      | inl f ↦ elim (Bool-cases (should_retry env repo_path item v attempts retries s).0) [
        | inl r ↦
            rw (judge, h, f, r)
              (
                λ _. (
                  refl,
                  (str_eq_iff v.response.status "failure").0 f,
                  (should_retry_iff v attempts retries s).0 r,
                ),
                λ _. refl,
              )
        | inr r ↦
            rw (judge, h, f, r)
              (
                λ p. absurd (cc),
                λ (_, _, a). let q = (should_retry_iff v attempts retries s).1 a in absurd (cc),
              )
      ]
    ]
  ]

  -- The loop ends with the item done exactly when the verification ran, did not say "failure", and
  -- its run succeeded.
  pub judge-finished :
      (v : Verified W) (attempts : ℕ) (retries : Option ℤ) (s : State W)
      → ((judge env repo_path item attempts retries v s).0 ≡ finished none) ↔ (
          (v.error ≡ none) × (v.response.status ≢ "failure") × (v.status ≡ TaskRunStatus.succeeded))
  unfolding judge succeed
  judge-finished v attempts retries s = elim (Option-cases v.error) [
    | inr (x, h) ↦ rw (judge, h) (λ p. absurd (cc), λ (p, _, _). absurd (cc))
    | inl h ↦ elim (Bool-cases (str_eq v.response.status "failure")) [
      | inr f ↦ elim (Bool-cases (is_succeeded v.status)) [
        | inl t ↦
            rw (judge, h, f, t) (λ _. (refl, differs _ f, is_succeeded-true v.status t), λ _. refl)
        | inr t ↦
            rw (judge, h, f, t)
              (λ p. absurd (cc), λ (_, _, p). absurd (is_succeeded-false v.status t p))
      ]
      | inl f ↦
          let same = (str_eq_iff v.response.status "failure").0 f in
          elim (Bool-cases (should_retry env repo_path item v attempts retries s).0) [
            | inl r ↦ rw (judge, h, f, r) (λ p. absurd (cc), λ (_, n, _). absurd (n same))
            | inr r ↦ rw (judge, h, f, r) (λ p. absurd (cc), λ (_, n, _). absurd (n same))
          ]
    ]
  ]

module _ {W : Type 0} (env : Env W) (client : Client W) (ctx : Context) (repo_path : String)
    (item : WorkItem) (retries : Option ℤ) where
  attempt-again :
      (n : ℕ) (batch : Batch) (s : State W)
      → (attempt env client ctx repo_path item n retries batch s).0 ≡ again
      → IsAllowed n retries
  unfolding attempt
  attempt-again n batch s h =
      let s1 = announce_attempt env repo_path item n s in
      let v = run_item env client ctx repo_path item batch s1 in
      ((judge-again env repo_path item v n retries (record s1 { world = v.world })).0 h).2

  -- So much fuel is enough.
  pub attempt_loop_ends :
      (fuel n : ℕ) (batch : Batch) (s : State W)
      → attempts_allowed retries ≤ n + fuel
      → n < attempts_allowed retries
      → is_some (attempt_loop env fuel client ctx repo_path item n retries batch s) ≡ true
  unfolding attempt_loop
  attempt_loop_ends zero n batch s a l = ground arith
  attempt_loop_ends (suc fuel) n batch s a l =
      elim (Verdict-cases (attempt env client ctx repo_path item (suc n) retries batch s).0) [
        | inl h ↦
            rw (attempt_loop, h)
              (attempt_loop_ends fuel (suc n) _ _ (ground arith)
                (IsAllowed_lem retries (suc n) (attempt-again (suc n) batch s h)))
        | inr (e, h) ↦ rw (attempt_loop, h) refl
      ]
