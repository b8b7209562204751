-- ===== src/Mongo/Client.antt =====
-- internal/storage/mongo/repositories.go, agents.go and batches.go: the operations on repositories,
-- agents and batches. The timeout of a context and the logger are left out, and a nil document, which
-- no caller passes, has no counterpart.
use yaralpho.Base.{
  ℕ, Bool, Option, List, [], ◌∷◌, String, Error, wrap, ok, err, ltb, str_eq, if◌then◌else◌,
}
use yaralpho.Storage.Models.{Repository, Agent, Batch, BatchStatus}
use yaralpho.Storage.Interface.{Read, Write}
use yaralpho.Mongo.Driver.{
  Filter, Database, insert_error, unique_error, insert_unique_error, match_error, one_document,
  all_documents,
}
use yaralpho.Mongo.Documents.{new_repository, new_agent, new_batch, changed_batch}

-- {field: value}
abbrev pub by : String → String → Filter
by key value = (key, value) ∷ []

newest_first : String
newest_first = "created_at -1"

status_of : BatchStatus → String
status_of BatchStatus.unset = ""
status_of BatchStatus.pending = "pending"
status_of BatchStatus.in_progress = "in_progress"
status_of BatchStatus.paused = "paused"
status_of BatchStatus.done = "done"
status_of BatchStatus.failed = "failed"
status_of (BatchStatus.other s) = s

-- The filter of `ListBatchesByRepository`.
unfoldable pub repository_filter : String → BatchStatus → Filter
unfolding status_of
repository_filter repository_id status =
    if str_eq (status_of status) ""
    then by "repository_id" repository_id
    else ("repository_id", repository_id) ∷ ("status", status_of status) ∷ []

module _ {W : Type 0} (db : Database W) where
  -- `CreateRepository`
  unfoldable pub create_repository : Repository → W → Write Repository W
  unfolding new_repository insert_unique_error
  create_repository repo w =
      let (now, w1) = db.now w in
      let stamped = new_repository now repo in
      let (e, w2) = db.repositories.insert_one stamped w1 in
      (insert_unique_error db.is_duplicate_key "insert repository" e, stamped, w2)

  -- `UpdateRepository`
  unfoldable pub update_repository : Repository → W → Write Repository W
  unfolding unique_error match_error
  update_repository repo w =
      let (now, w1) = db.now w in
      let stamped = record repo { updated_at = now } in
      let (r, w2) = db.repositories.update_one (by "repository_id" repo.id) stamped w1 in
      (match_error (unique_error db.is_duplicate_key "update repository") r, stamped, w2)

  -- `GetRepository`
  unfoldable pub get_repository : String → W → Read Repository W
  unfolding one_document
  get_repository id w =
      let (r, w') = db.repositories.find_one (by "repository_id" id) w in
      (one_document "get repository" r, w')

  -- `ListRepositories`
  unfoldable pub list_repositories : W → Read (List Repository) W
  unfolding all_documents newest_first
  list_repositories w =
      let (r, w') = db.repositories.find [] newest_first 0 w in
      (all_documents "list repositories" "decode repository" "iterate repositories" r, w')

  -- `DeleteRepository`
  unfoldable pub delete_repository : String → W → Option Error × W
  unfolding match_error
  delete_repository id w =
      let (r, w') = db.repositories.delete_one (by "repository_id" id) w in
      (match_error (wrap "delete repository") r, w')

  -- `RepositoryHasActiveBatches`
  unfoldable pub repository_has_active_batches : String → W → Read Bool W
  repository_has_active_batches id w =
      let (r, w') = db.count_active id w in
      elim r [ err e ↦ (err (wrap "count active batches" e), w') | ok n ↦ (ok (ltb 0 n), w') ]

  -- `CreateAgent`
  unfoldable pub create_agent : Agent → W → Write Agent W
  unfolding new_agent insert_unique_error
  create_agent agent w =
      let (now, w1) = db.now w in
      let stamped = new_agent now agent in
      let (e, w2) = db.agents.insert_one stamped w1 in
      (insert_unique_error db.is_duplicate_key "insert agent" e, stamped, w2)

  -- `UpdateAgent`
  unfoldable pub update_agent : Agent → W → Write Agent W
  unfolding unique_error match_error
  update_agent agent w =
      let (now, w1) = db.now w in
      let stamped = record agent { updated_at = now } in
      let (r, w2) = db.agents.update_one (by "agent_id" agent.id) stamped w1 in
      (match_error (unique_error db.is_duplicate_key "update agent") r, stamped, w2)

  -- `GetAgent`
  unfoldable pub get_agent : String → W → Read Agent W
  unfolding one_document
  get_agent id w =
      let (r, w') = db.agents.find_one (by "agent_id" id) w in (one_document "get agent" r, w')

  -- `ListAgents`
  unfoldable pub list_agents : W → Read (List Agent) W
  unfolding all_documents newest_first
  list_agents w =
      let (r, w') = db.agents.find [] newest_first 0 w in
      (all_documents "list agents" "decode agent" "iterate agents" r, w')

  -- `DeleteAgent`
  unfoldable pub delete_agent : String → W → Option Error × W
  unfolding match_error
  delete_agent id w =
      let (r, w') = db.agents.delete_one (by "agent_id" id) w in
      (match_error (wrap "delete agent") r, w')

  -- `CreateBatch`
  unfoldable pub create_batch : Batch → W → Write Batch W
  unfolding new_batch insert_error
  create_batch batch w =
      let (now, w1) = db.now w in
      let stamped = new_batch now batch in
      let (e, w2) = db.batches.insert_one stamped w1 in (insert_error "insert batch" e, stamped, w2)

  -- `UpdateBatch`
  unfoldable pub update_batch : Batch → W → Write Batch W
  unfolding changed_batch match_error
  update_batch batch w =
      let (now, w1) = db.now w in
      let stamped = changed_batch now batch in
      let (r, w2) = db.batches.update_one (by "batch_id" batch.id) stamped w1 in
      (match_error (wrap "update batch") r, stamped, w2)

  -- `GetBatch`
  unfoldable pub get_batch : String → W → Read Batch W
  unfolding one_document
  get_batch id w =
      let (r, w') = db.batches.find_one (by "batch_id" id) w in (one_document "get batch" r, w')

  -- `ListBatches`
  unfoldable pub list_batches : ℕ → W → Read (List Batch) W
  unfolding all_documents newest_first
  list_batches limit w =
      let (r, w') = db.batches.find [] newest_first limit w in
      (all_documents "list batches" "decode batch" "iterate batches" r, w')

  -- `ListBatchesByRepository`
  unfoldable pub list_batches_by_repository : String → BatchStatus → ℕ → W → Read (List Batch) W
  unfolding all_documents newest_first repository_filter
  list_batches_by_repository repository_id status limit w =
      let (r, w') = db.batches.find (repository_filter repository_id status) newest_first limit w in
      (all_documents "list batches by repository" "decode batch" "iterate batches" r, w')
