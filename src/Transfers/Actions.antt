-- ===== src/Transfers/Actions.antt =====
-- The calls that change the queue of src/files/TransferManager.cpp, in any order.
use ar_term.Prelude.{
  ℕ, zero, suc, ◌+◌, ◌≡◌, refl, sym, subst, Bool, true, false, ltb, if◌then◌else◌, inl, inr,
  Bool-cases, Option-cases, if_lem, arith, Option, none, some, List, [], ◌∷◌, ◌++◌, length,
  get_elem?, All,
}
use ar_term.Transfers.{
  TransferDirection, TransferState, completed, failed, cancelled, TransferProgress, TransferJob,
  TransferManager, new_manager, new_job, Outcome, next_u64, is_running, is_queued, is_active,
  enqueue,
}
use ar_term.Transfers.Slots.{index_of_request, on_started, on_progress, on_finished, on_failed}
use ar_term.Transfers.Cancel.{
  cancel_job, cancel, cancel_each, cancel_all, remove_at, shift_row, clear_row, clear_rows,
  clear_completed,
}
use ar_term.Transfers.Valid.{
  RunsAt, IsBusy, IsValid, RunsAt-append, start_next-IsValid, finish_current-IsValid,
  modify-IsValid,
}

-- The public members and the slots. Another use of the service also takes a request number.
pub data Action : Type 0 where
  do_enqueue : TransferDirection → (source destination name : List ℕ) → Action
  do_start : (request total : ℕ) → Action
  do_progress : (request : ℕ) → TransferProgress → Action
  do_finish : (request : ℕ) → Action
  do_fail : (request : ℕ) (is_cancellation : Bool) (message : List ℕ) → Action
  do_cancel : (job_id : ℕ) → Action
  do_cancel_all : Action
  do_clear_completed : Action
  do_other_request : Action

unfoldable pub act : Action → TransferManager → Outcome
unfolding enqueue on_started on_progress on_finished on_failed cancel cancel_all clear_completed
act (do_enqueue direction source destination name) m =
    enqueue (new_job direction m.next_job_id source destination name) m
act (do_start request total) m = on_started request total m
act (do_progress request progress) m = on_progress request progress m
act (do_finish request) m = on_finished request m
act (do_fail request is_cancellation message) m = on_failed request is_cancellation message m
act (do_cancel job_id) m = cancel job_id m
act do_cancel_all m = cancel_all m
act do_clear_completed m = clear_completed m
act do_other_request m = (record m { next_request_id = next_u64 m.next_request_id }, [])

-- What a queue can become.
pub data Reachable : TransferManager → Type 0 where
  created : (next_request_id : ℕ) → Reachable (new_manager next_request_id)
  acted : (action : Action) (m : TransferManager) → Reachable m → Reachable (act action m).0

abbrev Keeps : Outcome → Type 0
Keeps o = IsValid o.0

enqueue-IsValid :
    (job : TransferJob) (m : TransferManager)
    → is_running job.state ≡ false
    → IsValid m
    → IsValid (enqueue job m).0
unfolding enqueue
enqueue-IsValid job m idle h =
    start_next-IsValid
      (record m { jobs = m.jobs ++ job ∷ []; next_job_id = next_u64 m.next_job_id })
      (RunsAt-append m.jobs job m.running_row idle h.runs)

-- A slot does nothing for a request that no running job has.
module _ (request : ℕ) (m : TransferManager) (h : IsValid m) where
  on_started-IsValid : (total : ℕ) → IsValid (on_started request total m).0
  unfolding on_started
  on_started-IsValid total = elim (Option-cases (index_of_request request m.jobs)) [
    | inl e ↦ rw (e, on_started) h
    | inr (row, e) ↦
        rw (e, on_started)
          (modify-IsValid (λ j. record j { progress = record j.progress { total = total } })
            (λ j. refl) m row h)
  ]

  on_progress-IsValid : (progress : TransferProgress) → IsValid (on_progress request progress m).0
  unfolding on_progress
  on_progress-IsValid progress = elim (Option-cases (index_of_request request m.jobs)) [
    | inl e ↦ rw (e, on_progress) h
    | inr (row, e) ↦
        rw (e, on_progress)
          (modify-IsValid (λ j. record j { progress = progress }) (λ j. refl) m row h)
  ]

  on_finished-IsValid : IsValid (on_finished request m).0
  unfolding on_finished
  on_finished-IsValid = elim (Option-cases (index_of_request request m.jobs)) [
    | inl e ↦ rw (e, on_finished) h
    | inr (row, e) ↦ rw (e, on_finished) (finish_current-IsValid completed [] m refl h)
  ]

  on_failed-IsValid :
      (is_cancellation : Bool) (message : List ℕ)
      → IsValid (on_failed request is_cancellation message m).0
  unfolding on_failed
  on_failed-IsValid is_cancellation message =
      elim (Option-cases (index_of_request request m.jobs)) [
        | inl e ↦ rw (e, on_failed) h
        | inr (row, e) ↦
            rw (e, on_failed)
              (finish_current-IsValid (if is_cancellation then cancelled else failed) message m
                (idle is_cancellation) h)
      ]
    where
      idle : (b : Bool) → is_running (if b then cancelled else failed) ≡ false
      idle true = refl
      idle false = refl

cancel_job-RunsAt :
    (job_id : ℕ) (js : List TransferJob) (i : ℕ) (row : Option ℕ)
    → RunsAt js row
    → RunsAt (cancel_job job_id js i).0 row
unfolding cancel_job
cancel_job-RunsAt job_id [] i row h = h
cancel_job-RunsAt job_id (j ∷ js) i none h =
    ground (arith, h, cancel_job-RunsAt job_id js (i + 1) none h.1)
cancel_job-RunsAt job_id (j ∷ js) i (some zero) h =
    ground (arith, h, cancel_job-RunsAt job_id js (i + 1) none h.1)
cancel_job-RunsAt job_id (j ∷ js) i (some (suc row)) h =
    ground (arith, h, cancel_job-RunsAt job_id js (i + 1) (some row) h.1)

abbrev NoneQueued : List TransferJob → Type 0
NoneQueued js = All (λ j. is_queued j.state ≡ false) js

cancel_job-NoneQueued :
    (job_id : ℕ) (js : List TransferJob) (i : ℕ)
    → NoneQueued js
    → NoneQueued (cancel_job job_id js i).0
unfolding cancel_job
cancel_job-NoneQueued job_id [] i h = h
cancel_job-NoneQueued job_id (j ∷ js) i h =
    ground (arith, h, cancel_job-NoneQueued job_id js (i + 1) h.1)

cancel_each-RunsAt :
    (js : List TransferJob) (i : ℕ) (row : Option ℕ)
    → RunsAt js row
    → RunsAt (cancel_each js i).0 row
unfolding cancel_each
cancel_each-RunsAt [] i row h = h
cancel_each-RunsAt (j ∷ js) i none h = ground (arith, h, cancel_each-RunsAt js (i + 1) none h.1)
cancel_each-RunsAt (j ∷ js) i (some zero) h =
    ground (arith, h, cancel_each-RunsAt js (i + 1) none h.1)
cancel_each-RunsAt (j ∷ js) i (some (suc row)) h =
    ground (arith, h, cancel_each-RunsAt js (i + 1) (some row) h.1)

cancel_each-NoneQueued : (js : List TransferJob) (i : ℕ) → NoneQueued (cancel_each js i).0
unfolding cancel_each
cancel_each-NoneQueued [] i = tt
cancel_each-NoneQueued (j ∷ js) i = ground (arith, cancel_each-NoneQueued js (i + 1))

remove_at-RunsAt :
    (js : List TransferJob) (i : ℕ) (row : Option ℕ) (job : TransferJob)
    → get_elem? js i ≡ some job
    → is_running job.state ≡ false
    → RunsAt js row
    → RunsAt (remove_at js i) (shift_row i row)
remove_at-RunsAt [] i row job e idle h = absurd (ground (arith, e))
remove_at-RunsAt (j ∷ js) zero none job e idle h = h.1
remove_at-RunsAt (j ∷ js) zero (some zero) job e idle h = absurd (ground (arith, e, idle, h))
remove_at-RunsAt (j ∷ js) zero (some (suc row)) job e idle h =
    let moved : shift_row 0 (some (suc row)) ≡ some row = ground arith in
    subst (RunsAt js) (sym moved) h.1
remove_at-RunsAt (j ∷ js) (suc i) none job e idle h =
    (h.0, remove_at-RunsAt js i none job e idle h.1)
remove_at-RunsAt (j ∷ js) (suc i) (some zero) job e idle h =
    let stays : shift_row (suc i) (some 0) ≡ some 0 = ground arith in
    subst (RunsAt (j ∷ remove_at js i)) (sym stays) (h.0, remove_at-RunsAt js i none job e idle h.1)
remove_at-RunsAt (j ∷ js) (suc i) (some (suc row)) job e idle h =
    ground (arith, h.0, remove_at-RunsAt js i (some row) job e idle h.1)

remove_at-NoneQueued : (js : List TransferJob) (i : ℕ) → NoneQueued js → NoneQueued (remove_at js i)
remove_at-NoneQueued [] i h = tt
remove_at-NoneQueued (j ∷ js) zero h = h.1
remove_at-NoneQueued (j ∷ js) (suc i) h = (h.0, remove_at-NoneQueued js i h.1)

remove_at-IsBusy :
    (js : List TransferJob) (i : ℕ) (row : Option ℕ)
    → IsBusy js row
    → IsBusy (remove_at js i) (shift_row i row)
remove_at-IsBusy js i none h = remove_at-NoneQueued js i h
remove_at-IsBusy js i (some row) h = if_lem (IsBusy (remove_at js i)) (ltb i row) _ _ tt tt

pub not_running : (s : TransferState) → is_active s ≡ false → is_running s ≡ false
not_running s e = ground (arith, e)

clear_row-IsValid : (i : ℕ) (m : TransferManager) → IsValid m → IsValid (clear_row i m).0
unfolding clear_row
clear_row-IsValid i m h = elim (Option-cases (get_elem? m.jobs i)) [
  | inl e ↦ rw (e, clear_row) h
  | inr (job, e) ↦ elim (Bool-cases (is_active job.state)) [
    | inl active ↦ rw (e, clear_row, active) h
    | inr over ↦
        rw (e, clear_row, over)
          (record {
            runs =
                remove_at-RunsAt m.jobs i m.running_row job e (not_running job.state over) h.runs;
            busy = remove_at-IsBusy m.jobs i m.running_row h.busy;
          })
  ]
]

clear_rows-IsValid : (i : ℕ) (m : TransferManager) → IsValid m → IsValid (clear_rows i m).0
unfolding clear_rows
clear_rows-IsValid zero m h = h
clear_rows-IsValid (suc i) m h = clear_rows-IsValid i (clear_row i m).0 (clear_row-IsValid i m h)

cancel_job-IsBusy :
    (job_id : ℕ) (js : List TransferJob) (row : Option ℕ)
    → IsBusy js row
    → IsBusy (cancel_job job_id js 0).0 row
cancel_job-IsBusy job_id js none h = cancel_job-NoneQueued job_id js 0 h
cancel_job-IsBusy job_id js (some row) h = tt

cancel_each-IsBusy : (js : List TransferJob) (row : Option ℕ) → IsBusy (cancel_each js 0).0 row
cancel_each-IsBusy js none = cancel_each-NoneQueued js 0
cancel_each-IsBusy js (some row) = tt

act-IsValid : (action : Action) (m : TransferManager) → IsValid m → IsValid (act action m).0
unfolding act cancel cancel_all clear_completed
act-IsValid (do_enqueue direction source destination name) m h =
    enqueue-IsValid (new_job direction m.next_job_id source destination name) m refl h
act-IsValid (do_start request total) m h = on_started-IsValid request m h total
act-IsValid (do_progress request progress) m h = on_progress-IsValid request m h progress
act-IsValid (do_finish request) m h = on_finished-IsValid request m h
act-IsValid (do_fail request is_cancellation message) m h =
    on_failed-IsValid request m h is_cancellation message
act-IsValid (do_cancel job_id) m h = record {
  runs = cancel_job-RunsAt job_id m.jobs 0 m.running_row h.runs;
  busy = cancel_job-IsBusy job_id m.jobs m.running_row h.busy;
}
act-IsValid do_cancel_all m h = record {
  runs = cancel_each-RunsAt m.jobs 0 m.running_row h.runs;
  busy = cancel_each-IsBusy m.jobs m.running_row;
}
act-IsValid do_clear_completed m h = clear_rows-IsValid (length m.jobs) m h
act-IsValid do_other_request m h = record { runs = h.runs; busy = h.busy }

-- After any calls, in any order and number, at most one job runs: the one in the row that the
-- queue remembers, and no other is marked as running; and a job waits only while another runs.
pub Reachable-IsValid : (m : TransferManager) → Reachable m → IsValid m
Reachable-IsValid _ (created next) = record { runs = tt; busy = tt }
Reachable-IsValid _ (acted action m from) = act-IsValid action m (Reachable-IsValid m from)
