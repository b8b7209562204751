-- ===== src/App/Batches/Moves.antt =====
-- The pause, resume and restart handlers of internal/app follow the moves of a batch.
use yaralpho.Base.{refl, inl, inr, arith, String, Bool-cases}
use yaralpho.Storage.Models.{Time}
use yaralpho.Storage.Interface.{Storage}
use yaralpho.Storage.Contract.{View, IsBatchStorage}
use yaralpho.App.Batches.{is_finished, is_paused, pause, pause_batch, resume, resume_batch}
use yaralpho.App.Batches.Transitions.{
  Pauses, Resumes, Outcome, Handles, save-Outcome, scoped-Outcome,
}

module _ {W : Type 0} (st : Storage W) (view : View W) (laws : IsBatchStorage st view)
    (repo_id batch_id : String) (now : Time) where
  pause-Handles : Handles st view laws repo_id batch_id Pauses (pause st now)
  unfolding pause
  pause-Handles b w at same own = elim (Bool-cases (is_finished b.status)) [
    | inl e ↦ rw e (inl (omega arith, λ id. refl))
    | inr e ↦ rw e (elim (Bool-cases (is_paused b.status)) [
      | inl f ↦ rw f (inl (omega arith, λ id. refl))
      | inr f ↦ rw f (
          save-Outcome st view laws repo_id batch_id Pauses b _ w at own same
            λ b' p q. (λ h. ground arith, λ h. ground arith, λ h. ground arith, q, p))
    ])
  ]

  resume-Handles : Handles st view laws repo_id batch_id Resumes (resume st now)
  unfolding resume
  resume-Handles b w at same own = elim (Bool-cases (is_paused b.status)) [
    | inl e ↦ rw e (
        save-Outcome st view laws repo_id batch_id Resumes b _ w at own same
          λ b' p q. (ground arith, q, p))
    | inr e ↦ rw e (inl (omega arith, λ id. refl))
  ]

  -- Pausing has one of three outcomes. The answer is another than 200, and no stored batch changes; or
  -- it is 200, the addressed batch of the repository goes to `paused` from a status that is neither
  -- finished nor paused, with its items as they were if they are normal, and no other batch changes;
  -- or the store has made that move and reports an error, which is answered.
  pub pause_batch-Outcome :
      (w : W)
      → Outcome Pauses view repo_id batch_id (view w) (pause_batch st now repo_id batch_id w)
  unfolding pause_batch
  pause_batch-Outcome w =
      scoped-Outcome st view laws repo_id batch_id Pauses (pause st now) w pause-Handles

  -- Resuming has the same three outcomes, with the move from `paused` to `pending`, the items as they
  -- were if they are normal.
  pub resume_batch-Outcome :
      (w : W)
      → Outcome Resumes view repo_id batch_id (view w) (resume_batch st now repo_id batch_id w)
  unfolding resume_batch
  resume_batch-Outcome w =
      scoped-Outcome st view laws repo_id batch_id Resumes (resume st now) w resume-Handles
