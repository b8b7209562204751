-- ===== src/App/Guards.antt =====
-- What the handlers of internal/app refuse, and the bounds of what they list.
use yaralpho.Base.{
  ◌≡◌, refl, ap, ◌∙◌, ◌≢◌, ◌⊎◌, inl, inr, arith, true, Option, none, some, List, String, ok, str_eq,
  str_eq_iff, length, length-take-le, Bool-cases, Option-cases,
}
use yaralpho.Base.Int.{ℤ, pos, pos_part, ◌<ℤ◌, ◌≤ℤ◌}
use yaralpho.Base.Text.{atoi}
use yaralpho.Storage.Models.{Agent, AgentStatus, Repository, Time, is_busy}
use yaralpho.Storage.Interface.{Storage, request}
use yaralpho.App.Http.{Handler, write_error, write_storage_error, parse_limit, after_read-ok}
use yaralpho.App.Agents.{
  AgentRequest, is_valid_runtime, normalize, missing, with_request, update_agent, change_agent,
  delete_agent, remove_agent,
}
use yaralpho.App.Repositories.{delete_repository, check_active, remove_repository}
use yaralpho.App.Reads.{cap_list}

module _ {W : Type 0} (st : Storage W) where
  change-busy :
      (now : Time) (body : Option AgentRequest) (a : Agent) (w : W)
      → is_busy a.status ≡ true
      → change_agent st now body a w ≡ (write_error 409 "agent is busy", w)
  unfolding change_agent
  change-busy now body a w h = ground arith

  remove-busy :
      (id : String) (a : Agent) (w : W)
      → is_busy a.status ≡ true
      → remove_agent st id a w ≡ (write_error 409 "agent is busy", w)
  unfolding remove_agent
  remove-busy id a w h = ground arith

  -- An agent that the storage reads as busy is neither changed nor deleted: both calls answer 409, and
  -- nothing is called after the read.
  pub busy_agent-kept :
      (now : Time) (id : String) (body : Option AgentRequest) (a : Agent) (w : W)
      → (st.get_agent request id w).0 ≡ ok a
      → a.status ≡ AgentStatus.busy
      → (update_agent st now id body w
          ≡ (write_error 409 "agent is busy", (st.get_agent request id w).1))
        × (delete_agent st id w ≡ (write_error 409 "agent is busy", (st.get_agent request id w).1))
  unfolding update_agent change_agent delete_agent remove_agent
  busy_agent-kept now id body a w h b = (
    after_read-ok missing (change_agent st now body) _ a h
        ∙ change-busy now body a _ (ap is_busy b),
    after_read-ok missing (remove_agent st id) _ a h ∙ remove-busy id a _ (ap is_busy b),
  )

  -- A repository that has active batches is not deleted: the call answers 409, and nothing is called
  -- after the two reads.
  pub active_repository-kept :
      (id : String) (r : Repository) (w : W)
      → (st.get_repository request id w).0 ≡ ok r
      → (st.repository_has_active_batches request id (st.get_repository request id w).1).0 ≡ ok true
      → delete_repository st id w ≡ (
        write_error 409 "repository has active batches",
        (st.repository_has_active_batches request id (st.get_repository request id w).1).1,
      )
  unfolding delete_repository check_active remove_repository
  active_repository-kept id r w h a =
      after_read-ok _ (check_active st id) _ r h
      ∙ after_read-ok write_storage_error (remove_repository st id) _ true a

valid-runtime : (t : String) → is_valid_runtime t ≡ true → (t ≡ "codex") ⊎ (t ≡ "copilot")
unfolding is_valid_runtime
valid-runtime t h = elim (Bool-cases (str_eq t "codex")) [
  | inl e ↦ inl ((str_eq_iff t "codex").0 e)
  | inr e ↦ inr ((str_eq_iff t "copilot").0 (rw (is_valid_runtime, e) at h))
]

-- A body is refused with 400 and the world as it was, or it is some request and goes on normalized,
-- and then it has a name, and its runtime is codex or copilot.
pub with_request-checks :
    {W : Type 0} (body : Option AgentRequest) (next : AgentRequest → Handler W) (w : W)
    → ((with_request body next w).0.status ≡ 400) × ((with_request body next w).1 ≡ w)
      ⊎ ((req : AgentRequest) × (body ≡ some req)
          × (with_request body next w ≡ next (normalize req) w)
          × ((normalize req).name ≢ "")
          × (((normalize req).runtime ≡ "codex") ⊎ ((normalize req).runtime ≡ "copilot")))
unfolding with_request
with_request-checks none next w = inl (refl, refl)
with_request-checks (some body) next w = elim (Bool-cases (str_eq (normalize body).name "")) [
  | inl e ↦ inl (rw (with_request, e) (refl, refl))
  | inr e ↦ elim (Bool-cases (is_valid_runtime (normalize body).runtime)) [
    | inr f ↦ inl (rw (with_request, e, f) (refl, refl))
    | inl f ↦ inr (
      body,
      refl,
      rw (with_request, e, f) refl,
      (λ q. let t = (str_eq_iff (normalize body).name "").1 q in cc),
      valid-runtime (normalize body).runtime f,
    )
  ]
]

-- A limit is between 1 and the maximum, whatever the query says, when the default is.
pub parse_limit-bounds :
    (raw : String) (default maximum : ℤ)
    → pos 0 <ℤ default
    → default ≤ℤ maximum
    → (pos 0 <ℤ parse_limit raw default maximum) × (parse_limit raw default maximum ≤ℤ maximum)
unfolding parse_limit
parse_limit-bounds raw default maximum h k = elim (Bool-cases (str_eq raw "")) [
  | inl e ↦ rw (parse_limit, e) (h, k)
  | inr e ↦ elim (Option-cases (atoi raw)) [
    | inl f ↦ rw (parse_limit, e, f) (h, k)
    | inr (v, f) ↦ rw (parse_limit, e, f) (ground arith)
  ]
]

cap_list-le :
    {A : Type 0} (limit : ℤ) (xs : List A)
    → pos 0 <ℤ limit
    → pos (length (cap_list limit xs)) ≤ℤ limit
unfolding cap_list
cap_list-le limit xs h = let l = length-take-le (pos_part limit) xs in ground arith

-- A list that is cut to the limit of a query is never longer than the maximum, whatever the query
-- says, when the default is between 1 and the maximum.
pub cap_list-parse_limit :
    {A : Type 0} (raw : String) (default maximum : ℤ) (xs : List A)
    → pos 0 <ℤ default
    → default ≤ℤ maximum
    → (pos (length (cap_list (parse_limit raw default maximum) xs)) ≤ℤ maximum)
cap_list-parse_limit raw default maximum xs h k =
    let (low, high) = parse_limit-bounds raw default maximum h k in
    let l = cap_list-le (parse_limit raw default maximum) xs low in omega (arith, high, l)
