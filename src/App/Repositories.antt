-- ===== src/App/Repositories.antt =====
-- internal/app/repository_handlers.go and repository_batches_handler.go.
use Prim.Native.String.{◌++◌ as str_append}
use text.Mathlib.Text.{starts_with}
use yaralpho.Base.{
  Bool, ◌&&◌, ◌||◌, not, Option, none, some, String, Error, str_eq, length, if◌then◌else◌,
}
use yaralpho.Base.Int.{pos_part}
use yaralpho.Base.Text.{trim_space, to_lower, format_int}
use yaralpho.Storage.Models.{Repository, BatchStatus, Time}
use yaralpho.Storage.Interface.{Storage, request}
use yaralpho.App.Http.{
  Response, Handler, empty, repository, repositories, batches, write_json, write_error,
  write_storage_error, equals_no_documents, equals_conflict, after_read, after_write, parse_limit,
  default_list_limit, max_list_limit,
}

pub record RepositoryRequest : Type 0 where
  pub name : String
  pub path : String

-- `isValidRepoPath`; an absolute path begins with a slash.
unfoldable pub is_valid_path : String → Bool
is_valid_path p = not (str_eq p "") && starts_with p "/"

unfoldable pub normalize : RepositoryRequest → RepositoryRequest
normalize req = record { name = trim_space req.name; path = trim_space req.path }

unfoldable pub missing : Error → Response
unfolding write_storage_error
missing e = if equals_no_documents e then write_error 404 "not found" else write_storage_error e

unfoldable pub conflicting : Error → Response
unfolding write_storage_error
conflicting e =
    if equals_conflict e then write_error 409 "repository already exists" else write_storage_error e

unfoldable pub with_request :
    {W : Type 0} → Option RepositoryRequest → (RepositoryRequest → Handler W) → Handler W
unfolding is_valid_path normalize
with_request none next w = (write_error 400 "invalid json", w)
with_request (some body) next w =
    let req = normalize body in
    if str_eq req.name ""
    then (write_error 400 "name is required", w)
    else if not (is_valid_path req.path)
    then (write_error 400 "invalid path", w)
    else next req w

-- `listRepositoriesHandler`
unfoldable pub list_repositories : {W : Type 0} → Storage W → Handler W
unfolding write_storage_error
list_repositories st w =
    after_read (st.list_repositories request w) write_storage_error
      λ l w'. (write_json 200 (repositories l), w')

unfoldable pub new_repository : Time → RepositoryRequest → Repository
unfolding format_int
new_repository now req = record {
  id = str_append "repo-" (format_int now);
  name = req.name;
  path = req.path;
  created_at = now;
  updated_at = now;
}

insert_repository : {W : Type 0} → Storage W → Time → RepositoryRequest → Handler W
unfolding new_repository conflicting
insert_repository st now req w =
    after_write (st.create_repository request (new_repository now req) w) conflicting
      λ r w'. (write_json 201 (repository r), w')

-- `createRepositoryHandler`
unfoldable pub create_repository :
    {W : Type 0} → Storage W → Time → Option RepositoryRequest → Handler W
unfolding with_request insert_repository
create_repository st now body w = with_request body (insert_repository st now) w

-- `getRepositoryHandler`
unfoldable pub get_repository : {W : Type 0} → Storage W → String → Handler W
unfolding missing
get_repository st id w =
    after_read (st.get_repository request id w) missing λ r w'. (write_json 200 (repository r), w')

save_repository : {W : Type 0} → Storage W → Time → Repository → RepositoryRequest → Handler W
unfolding conflicting
save_repository st now existing req w =
    after_write
      (st.update_repository request
        (record existing { name = req.name; path = req.path; updated_at = now }) w)
      conflicting λ r w'. (write_json 200 (repository r), w')

change_repository :
    {W : Type 0} → Storage W → Time → Option RepositoryRequest → Repository → Handler W
unfolding with_request save_repository
change_repository st now body existing w = with_request body (save_repository st now existing) w

-- `updateRepositoryHandler`
unfoldable pub update_repository :
    {W : Type 0} → Storage W → Time → String → Option RepositoryRequest → Handler W
unfolding missing change_repository
update_repository st now id body w =
    after_read (st.get_repository request id w) missing (change_repository st now body)

unfoldable pub remove_repository : {W : Type 0} → Storage W → String → Bool → Handler W
unfolding write_storage_error
remove_repository st id has_active w =
    if has_active
    then (write_error 409 "repository has active batches", w)
    else let (e, w') = st.delete_repository request id w in
      elim e [ some x ↦ (write_storage_error x, w') | none ↦ (write_json 204 empty, w') ]

unfoldable pub check_active : {W : Type 0} → Storage W → String → Repository → Handler W
unfolding write_storage_error remove_repository
check_active st id existing w =
    after_read (st.repository_has_active_batches request id w) write_storage_error
      (remove_repository st id)

-- `deleteRepositoryHandler`
unfoldable pub delete_repository : {W : Type 0} → Storage W → String → Handler W
unfolding missing check_active
delete_repository st id w = after_read (st.get_repository request id w) missing (check_active st id)

-- `parseBatchStatus`; `none` is the answer `false`.
unfoldable pub parse_batch_status : String → Option BatchStatus
unfolding to_lower
parse_batch_status raw =
    if str_eq raw ""
    then some BatchStatus.unset
    else let s = to_lower raw in
      if str_eq s "pending"
      then some BatchStatus.pending
      else if str_eq s "in-progress" || str_eq s "in_progress"
      then some BatchStatus.in_progress
      else if str_eq s "paused"
      then some BatchStatus.paused
      else if str_eq s "done"
      then some BatchStatus.done
      else if str_eq s "failed"
      then some BatchStatus.failed
      else none

repository_missing : Error → Response
unfolding write_storage_error
repository_missing e =
    if equals_no_documents e then write_error 404 "repository not found" else write_storage_error e

batches_of : {W : Type 0} → Storage W → String → String → String → Repository → Handler W
unfolding parse_batch_status parse_limit write_storage_error
batches_of st repo_id raw_status raw_limit existing w =
    elim (parse_batch_status (trim_space raw_status)) [
      | none ↦ (write_error 400 "invalid status", w)
      | some status ↦
          let limit = pos_part (parse_limit raw_limit default_list_limit max_list_limit) in
          after_read (st.list_batches_by_repository request repo_id status limit w)
            write_storage_error λ l w'. (write_json 200 (batches l (length l)), w')
    ]

-- `listRepositoryBatchesHandler`
unfoldable pub list_repository_batches :
    {W : Type 0} → Storage W → String → String → String → Handler W
unfolding repository_missing batches_of
list_repository_batches st repo_id raw_status raw_limit w =
    if str_eq repo_id ""
    then (write_error 400 "repository id is required", w)
    else after_read (st.get_repository request repo_id w) repository_missing
        (batches_of st repo_id raw_status raw_limit)
