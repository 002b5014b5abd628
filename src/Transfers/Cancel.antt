-- ===== src/Transfers/Cancel.antt =====
-- The calls of src/files/TransferManager.cpp that cancel transfers and clear the finished ones.
use ar_term.Prelude.{
  ℕ, zero, suc, ◌+◌, ◌-◌, not, ltb, ◌==◌, if◌then◌else◌, Option, none, some, List, [], ◌∷◌, ◌++◌,
  length, get_elem?,
}
use ar_term.Transfers.{
  Effect, Outcome, TransferJob, TransferManager, cancel_request, cancelled, is_active, is_queued,
  is_running, publish_queue_progress, row_changed, row_removed,
}

-- The loop of `cancel`: the rows above and below stay.
unfoldable pub cancel_job : ℕ → List TransferJob → ℕ → List TransferJob × List Effect
cancel_job job_id [] row = ([], [])
cancel_job job_id (j ∷ js) row =
    let (rest, effects) = cancel_job job_id js (row + 1) in
    if not (j.id == job_id)
    then (j ∷ rest, effects)
    else if is_running j.state
    then (j ∷ js, cancel_request j.request_id ∷ [])
    else if is_queued j.state
    then (record j { state = cancelled } ∷ js, row_changed row ∷ [])
    else (j ∷ js, [])

-- `publishQueueProgress` follows where a queued job was cancelled.
abbrev publish_after : List TransferJob → List Effect → List Effect
publish_after jobs (row_changed row ∷ effects) =
    row_changed row ∷ effects ++ publish_queue_progress jobs
publish_after jobs effects = effects

unfoldable pub cancel : ℕ → TransferManager → Outcome
unfolding cancel_job publish_queue_progress
cancel job_id m =
    let (jobs, effects) = cancel_job job_id m.jobs 0 in
    (record m { jobs = jobs }, publish_after jobs effects)

unfoldable pub cancel_each : List TransferJob → ℕ → List TransferJob × List Effect
cancel_each [] row = ([], [])
cancel_each (j ∷ js) row =
    let (rest, effects) = cancel_each js (row + 1) in
    if is_running j.state
    then (j ∷ rest, cancel_request j.request_id ∷ effects)
    else if is_queued j.state
    then (record j { state = cancelled } ∷ rest, row_changed row ∷ effects)
    else (j ∷ rest, effects)

unfoldable pub cancel_all : TransferManager → Outcome
unfolding cancel_each publish_queue_progress
cancel_all m =
    let (jobs, effects) = cancel_each m.jobs 0 in
    (record m { jobs = jobs }, effects ++ publish_queue_progress jobs)

-- `removeAt`
abbrev pub remove_at : List TransferJob → ℕ → List TransferJob
remove_at [] row = []
remove_at (j ∷ js) zero = js
remove_at (j ∷ js) (suc row) = j ∷ remove_at js row

abbrev pub shift_row : ℕ → Option ℕ → Option ℕ
shift_row row none = none
shift_row row (some r) = if ltb row r then some (r - 1) else some r

-- One round of the loop of `clearCompleted`, and the loop, from the last row to the first.
unfoldable pub clear_row : ℕ → TransferManager → Outcome
clear_row row m = elim (get_elem? m.jobs row) [
  | none ↦ (m, [])
  | some job ↦ if is_active job.state then (m, []) else (
    record m { jobs = remove_at m.jobs row; running_row = shift_row row m.running_row },
    row_removed row ∷ [],
  )
]

unfoldable pub clear_rows : ℕ → TransferManager → Outcome
unfolding clear_row
clear_rows zero m = (m, [])
clear_rows (suc row) m =
    let (n, effects) = clear_row row m in let (k, more) = clear_rows row n in (k, effects ++ more)

unfoldable pub clear_completed : TransferManager → Outcome
unfolding clear_rows
clear_completed m = clear_rows (length m.jobs) m
