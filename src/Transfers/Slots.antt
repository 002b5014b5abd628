-- ===== src/Transfers/Slots.antt =====
-- The slots of src/files/TransferManager.cpp that the service calls.
use ar_term.Prelude.{ℕ, suc, Bool, ◌&&◌, ◌==◌, if◌then◌else◌, Option, none, some, List, [], ◌∷◌}
use ar_term.Transfers.{
  Outcome, TransferJob, TransferManager, TransferProgress, cancelled, completed, failed,
  finish_current, is_running, modify, publish_queue_progress, row_changed,
}

-- The loop of `indexOfRequest`, and the function.
unfoldable pub find_request : ℕ → List TransferJob → Option ℕ
find_request request [] = none
find_request request (j ∷ js) =
    if j.request_id == request && is_running j.state
    then some 0
    else elim (find_request request js) [ none ↦ none | some row ↦ some (suc row) ]

unfoldable pub index_of_request : ℕ → List TransferJob → Option ℕ
unfolding find_request
index_of_request request jobs = if request == 0 then none else find_request request jobs

-- The four slots that the constructor connects to the service.
unfoldable pub on_started : ℕ → ℕ → TransferManager → Outcome
unfolding index_of_request
on_started request total m = elim (index_of_request request m.jobs) [
  | none ↦ (m, [])
  | some row ↦ (
    record m {
      jobs = modify m.jobs row (λ j. record j { progress = record j.progress { total = total } });
    },
    row_changed row ∷ [],
  )
]

unfoldable pub on_progress : ℕ → TransferProgress → TransferManager → Outcome
unfolding index_of_request publish_queue_progress
on_progress request progress m = elim (index_of_request request m.jobs) [
  | none ↦ (m, [])
  | some row ↦
      let jobs = modify m.jobs row (λ j. record j { progress = progress }) in
      (record m { jobs = jobs }, row_changed row ∷ publish_queue_progress jobs)
]

unfoldable pub on_finished : ℕ → TransferManager → Outcome
unfolding index_of_request finish_current
on_finished request m = elim (index_of_request request m.jobs) [
  | none ↦ (m, [])
  | some row ↦ finish_current completed [] m
]

-- With `error.isCancellation()` and `error.message`.
unfoldable pub on_failed : ℕ → Bool → List ℕ → TransferManager → Outcome
unfolding index_of_request finish_current
on_failed request is_cancellation message m = elim (index_of_request request m.jobs) [
  | none ↦ (m, [])
  | some row ↦ finish_current (if is_cancellation then cancelled else failed) message m
]
