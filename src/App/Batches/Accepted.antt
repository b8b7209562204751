-- ===== src/App/Batches/Accepted.antt =====
-- When the pause and resume handlers of internal/app make their move.
use yaralpho.Base.{◌≡◌, ◌∙◌, ap, arith, ◌||◌, true, false, none, String, ok, str_eq}
use yaralpho.Storage.Models.{Repository, Batch, BatchStatus, Time}
use yaralpho.Storage.Interface.{Storage, request}
use yaralpho.App.Http.{
  Response, Handler, write_storage_error, scoped_batch, check_owner, read_batch, after_read-ok,
  after_write-none,
}
use yaralpho.App.Batches.{
  summary_of, save_batch, pause, pause_batch, resume, resume_batch, is_finished, is_paused,
}

module _ {W : Type 0} (st : Storage W) (now : Time) (repo_id batch_id : String) (repo : Repository)
    (b : Batch) (w : W) where
  -- The world after the two reads.
  abbrev pub after_reads : W
  after_reads = (st.get_batch request batch_id (st.get_repository request repo_id w).1).1

  owner-ok :
      (next : Batch → Handler W) (v : W)
      → str_eq b.repository_id repo_id ≡ true
      → check_owner repo_id next b v ≡ next b v
  unfolding check_owner
  owner-ok next v h = ground arith

  scoped-ok :
      (next : Batch → Handler W)
      → (str_eq repo_id "" || str_eq batch_id "") ≡ false
      → (st.get_repository request repo_id w).0 ≡ ok repo
      → (st.get_batch request batch_id (st.get_repository request repo_id w).1).0 ≡ ok b
      → str_eq b.repository_id repo_id ≡ true
      → scoped_batch st repo_id batch_id next w ≡ next b after_reads
  unfolding scoped_batch read_batch
  scoped-ok next e p q own =
      rw (scoped_batch, e)
        (after_read-ok write_storage_error (λ r. read_batch st repo_id batch_id next) _ repo p
          ∙ after_read-ok write_storage_error (check_owner repo_id next) _ b q
          ∙ owner-ok next after_reads own)

  save-ok :
      (d : Batch) (v : W)
      → (st.update_batch request d v).0 ≡ none
      → save_batch st d v
        ≡ (summary_of (st.update_batch request d v).1, (st.update_batch request d v).2)
  unfolding save_batch
  save-ok d v h =
      after_write-none write_storage_error (λ b' w'. (summary_of b', w'))
        (st.update_batch request d v) h

  pause-ok :
      (v : W)
      → is_finished b.status ≡ false
      → is_paused b.status ≡ false
      → pause st now b v
        ≡ save_batch st (record b { status = BatchStatus.paused; updated_at = now }) v
  unfolding pause
  pause-ok v f p = ground arith

  resume-ok :
      (v : W)
      → b.status ≡ BatchStatus.paused
      → resume st now b v
        ≡ save_batch st (record b { status = BatchStatus.pending; updated_at = now }) v
  unfolding resume
  resume-ok v p = ground arith

  -- For given ids, a repository and a batch of it that are read, a batch that is neither finished nor
  -- paused, and a write that succeeds, the pause is answered with 200, and the write of the batch as
  -- paused is the last call.
  pub pause_batch-accepts :
      let d = record b { status = BatchStatus.paused; updated_at = now } in
      (str_eq repo_id "" || str_eq batch_id "") ≡ false
      → (st.get_repository request repo_id w).0 ≡ ok repo
      → (st.get_batch request batch_id (st.get_repository request repo_id w).1).0 ≡ ok b
      → str_eq b.repository_id repo_id ≡ true
      → is_finished b.status ≡ false
      → is_paused b.status ≡ false
      → (st.update_batch request d after_reads).0 ≡ none
      → ((pause_batch st now repo_id batch_id w).0.status ≡ 200)
        × ((pause_batch st now repo_id batch_id w).1 ≡ (st.update_batch request d after_reads).2)
  unfolding pause_batch
  pause_batch-accepts e p q own f g h =
      let k =
        scoped-ok (pause st now) e p q own ∙ pause-ok after_reads f g ∙ save-ok _ after_reads h in
      (ap (λ (r : Response × W). r.0.status) k, ap (λ (r : Response × W). r.1) k)

  -- For given ids, a repository and a batch of it that are read, a paused batch, and a write that
  -- succeeds, the resumption is answered with 200, and the write of the batch as pending is the last
  -- call.
  pub resume_batch-accepts :
      let d = record b { status = BatchStatus.pending; updated_at = now } in
      (str_eq repo_id "" || str_eq batch_id "") ≡ false
      → (st.get_repository request repo_id w).0 ≡ ok repo
      → (st.get_batch request batch_id (st.get_repository request repo_id w).1).0 ≡ ok b
      → str_eq b.repository_id repo_id ≡ true
      → b.status ≡ BatchStatus.paused
      → (st.update_batch request d after_reads).0 ≡ none
      → ((resume_batch st now repo_id batch_id w).0.status ≡ 200)
        × ((resume_batch st now repo_id batch_id w).1 ≡ (st.update_batch request d after_reads).2)
  unfolding resume_batch
  resume_batch-accepts e p q own f h =
      let k =
        scoped-ok (resume st now) e p q own ∙ resume-ok after_reads f ∙ save-ok _ after_reads h in
      (ap (λ (r : Response × W). r.0.status) k, ap (λ (r : Response × W). r.1) k)
