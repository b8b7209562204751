-- ===== src/Storage/Scenarios.antt =====
-- The progress of a batch with runs of four statuses.
use yaralpho.Base.{ℕ, ◌≡◌, List, [], ◌∷◌}
use yaralpho.Base.Int.{pos_part}
use yaralpho.Storage.Models.{TaskRunStatus}
use yaralpho.Storage.Progress.{
  IsBalanced, get_batch_progress, sum_rows, get_batch_progress-IsBalanced,
}

abbrev four_rows : List (TaskRunStatus × ℕ)
four_rows =
    (TaskRunStatus.running, 1)
    ∷ (TaskRunStatus.timed_out, 2)
    ∷ (TaskRunStatus.other "queued", 3)
    ∷ (TaskRunStatus.succeeded, 4)
    ∷ []

get_batch_progress-IsBalanced_example :
    IsBalanced (get_batch_progress four_rows)
    × (pos_part (get_batch_progress four_rows).total ≡ sum_rows four_rows)
get_batch_progress-IsBalanced_example = get_batch_progress-IsBalanced four_rows
