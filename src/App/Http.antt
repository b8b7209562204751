-- ===== src/App/Http.antt =====
-- internal/app/errors.go, and what the handlers share: a handler is a function of its decoded
-- request and of the world behind the storage, to a response and the world after it. The route
-- variables and query parameters are arguments; a body that is no valid JSON is `none`; time.Now is
-- the argument `now`.
use yaralpho.Base.{
  ℕ, ◌≡◌, ◌⊎◌, arith, Bool, true, false, ◌||◌, not, none, some, List, String, Error, no_documents,
  is_no_documents, ok, err, str_eq, if◌then◌else◌,
}
use yaralpho.Base.Int.{ℤ, pos, leb_ℤ, ltb_ℤ}
use yaralpho.Base.Text.{atoi}
use yaralpho.Storage.Models.{
  Repository, Batch, BatchStatus, TaskRun, TaskRunSummary, Agent, BatchProgress, SessionEvent,
}
use yaralpho.Storage.Interface.{Storage, request, Read, Write}

-- What a handler encodes as JSON.
pub data Payload : Type 0 where
  empty : Payload
  error_message : String → Payload
  batch_summary : String → BatchStatus → String → Payload
  repository : Repository → Payload
  repositories : List Repository → Payload
  agent : Agent → Payload
  agents : List Agent → Payload
  batches : List Batch → ℕ → Payload
  batch_detail : Batch → List TaskRunSummary → Payload
  runs : List TaskRunSummary → ℕ → Payload
  run_events : TaskRun → List SessionEvent → ℕ → Bool → ℤ → Payload
  progress : BatchProgress → Payload
  drain_state : String → ℤ → Payload

pub record Response : Type 0 where
  pub status : ℕ
  pub payload : Payload

abbrev pub write_json : ℕ → Payload → Response
write_json status payload = record { status = status; payload = payload }

abbrev pub write_error : ℕ → String → Response
write_error status msg = write_json status (error_message msg)

unfoldable pub write_storage_error : Error → Response
write_storage_error e =
    if is_no_documents e then write_error 404 "not found" else write_error 500 "storage error"

-- `err == mongo.ErrNoDocuments`: the error itself, not one that wraps it.
abbrev pub equals_no_documents : Error → Bool
equals_no_documents no_documents = true
equals_no_documents _ = false

abbrev pub equals_conflict : Error → Bool
equals_conflict Error.conflict = true
equals_conflict _ = false

abbrev pub default_list_limit : ℤ
default_list_limit = pos 50

abbrev pub max_list_limit : ℤ
max_list_limit = pos 200

abbrev pub default_events_limit : ℤ
default_events_limit = pos 10000

abbrev pub max_events_limit : ℤ
max_events_limit = pos 100000

unfoldable pub parse_limit : String → ℤ → ℤ → ℤ
parse_limit raw default maximum = if str_eq raw "" then default else elim (atoi raw) [
  | none ↦ default
  | some val ↦ if leb_ℤ val (pos 0) then default else if ltb_ℤ maximum val then maximum else val
]

abbrev pub Handler : Type 0 → Type 0
Handler W = W → Response × W

-- The rest of a handler after a read; `refuse` answers its error.
abbrev pub after_read :
    {A W : Type 0} → Read A W → (Error → Response) → (A → Handler W) → Response × W
after_read (r, w) refuse next = elim r [ err e ↦ (refuse e, w) | ok a ↦ next a w ]

-- The rest of a handler after a write.
abbrev pub after_write :
    {A W : Type 0} → Write A W → (Error → Response) → (A → Handler W) → Response × W
after_write (e, a, w) refuse next = elim e [ some x ↦ (refuse x, w) | none ↦ next a w ]

-- The batch has to belong to the repository.
unfoldable pub check_owner : {W : Type 0} → String → (Batch → Handler W) → Batch → Handler W
check_owner repo_id next b w =
    if not (str_eq b.repository_id repo_id)
    then (write_error 404 "batch not found for repository", w)
    else next b w

unfoldable pub read_batch :
    {W : Type 0} → Storage W → String → String → (Batch → Handler W) → Handler W
read_batch st repo_id batch_id next w =
    after_read (st.get_batch request batch_id w) write_storage_error (check_owner repo_id next)

-- What the handlers of a repository's batch begin with: the two ids are given, the repository is
-- there, and so is the batch, which belongs to it.
unfoldable pub scoped_batch :
    {W : Type 0} → Storage W → String → String → (Batch → Handler W) → Handler W
unfolding write_storage_error read_batch check_owner
scoped_batch st repo_id batch_id next w =
    if str_eq repo_id "" || str_eq batch_id ""
    then (write_error 400 "repository id and batch id are required", w)
    else after_read (st.get_repository request repo_id w) write_storage_error
        λ repo. read_batch st repo_id batch_id next

module _ {A W : Type 0} (refuse : Error → Response) (next : A → Handler W) where
  pub after_read-ok : (r : Read A W) (a : A) → r.0 ≡ ok a → after_read r refuse next ≡ next a r.1
  after_read-ok (_, w) a e = ground arith

  pub after_read-err :
      (r : Read A W) (x : Error) → r.0 ≡ err x → after_read r refuse next ≡ (refuse x, r.1)
  after_read-err (_, w) x e = ground arith

  pub after_write-none : (r : Write A W) → r.0 ≡ none → after_write r refuse next ≡ next r.1 r.2
  after_write-none (_, a, w) e = ground arith

  pub after_write-some :
      (r : Write A W) (x : Error) → r.0 ≡ some x → after_write r refuse next ≡ (refuse x, r.2)
  after_write-some (_, a, w) x e = ground arith

pub write_storage_error-status :
    (e : Error) → ((write_storage_error e).status ≡ 404) ⊎ ((write_storage_error e).status ≡ 500)
unfolding write_storage_error
write_storage_error-status e = ground arith
