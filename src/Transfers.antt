-- ===== src/Transfers.antt =====
-- The transfer queue of src/files/TransferManager.hpp and src/files/TransferManager.cpp, with the
-- request numbers of src/session/RemoteFileService.cpp. A text is the list of its UTF-16 units, a
-- fraction is given by its two numbers, and the clock and the speed of a job, which are only shown,
-- are left out.
pub mod Slots
pub mod Cancel
pub mod Valid
pub mod Actions
pub mod Clearing
pub mod Running
pub mod Progress
pub mod Paths
use ar_term.Prelude.{
  ℕ, zero, suc, ◌+◌, ◌-◌, ◌%◌, ◌^◌, Bool, true, false, not, ◌&&◌, ◌||◌, ltb, ◌==◌, if◌then◌else◌,
  Option, none, some, List, [], ◌∷◌, ◌++◌, length, get_elem?,
}

pub data TransferDirection : Type 0 where
  download upload : TransferDirection

pub data TransferState : Type 0 where
  queued running completed failed cancelled : TransferState

pub record TransferProgress : Type 0 where
  pub transferred : ℕ
  pub total : ℕ

abbrev no_progress : TransferProgress
no_progress = record { transferred = 0; total = 0 }

pub record TransferJob : Type 0 where
  pub id : ℕ
  pub request_id : ℕ
  pub direction : TransferDirection
  pub state : TransferState
  pub source_path : List ℕ
  pub destination_path : List ℕ
  pub display_name : List ℕ
  pub progress : TransferProgress
  pub error_message : List ℕ

-- `m_runningRow` is an option in place of -1. `next_request_id` is the counter of the service.
pub record TransferManager : Type 0 where
  pub jobs : List TransferJob
  pub next_job_id : ℕ
  pub running_row : Option ℕ
  pub next_request_id : ℕ

-- The constructor, on a service that has counted so far.
abbrev pub new_manager : ℕ → TransferManager
new_manager next_request_id = record {
  jobs = [];
  next_job_id = 1;
  running_row = none;
  next_request_id = next_request_id;
}

-- The calls of the service and the signals, in order. The progress of the queue is -1 or the two
-- numbers of a fraction, and the number of jobs that remain.
pub data Effect : Type 0 where
  start_request : TransferDirection → (request_id : ℕ) → (source destination : List ℕ) → Effect
  cancel_request : (request_id : ℕ) → Effect
  row_inserted row_changed row_removed : (row : ℕ) → Effect
  transfer_completed : TransferDirection → (destination : List ℕ) → Effect
  transfer_failed : (name message : List ℕ) → Effect
  queue_progress_changed : Option (ℕ × ℕ) → (remaining : ℕ) → Effect

abbrev pub Outcome : Type 0
Outcome = TransferManager × List Effect

-- The increment of a `quint64`.
abbrev pub next_u64 : ℕ → ℕ
next_u64 n = (n + 1) % 2 ^ 64

abbrev pub is_queued : TransferState → Bool
is_queued queued = true
is_queued _ = false

abbrev pub is_running : TransferState → Bool
is_running running = true
is_running _ = false

abbrev is_completed : TransferState → Bool
is_completed completed = true
is_completed _ = false

-- `state == Running || state == Queued`
abbrev pub is_active : TransferState → Bool
is_active s = is_running s || is_queued s

-- `m_jobs[row]` changed in place.
abbrev pub modify : List TransferJob → ℕ → (TransferJob → TransferJob) → List TransferJob
modify [] row change = []
modify (j ∷ js) zero change = change j ∷ js
modify (j ∷ js) (suc row) change = j ∷ modify js row change

-- `std::find_if`, as a row.
unfoldable pub find_queued : List TransferJob → Option ℕ
find_queued [] = none
find_queued (j ∷ js) =
    if is_queued j.state
    then some 0
    else elim (find_queued js) [ none ↦ none | some row ↦ some (suc row) ]

unfoldable pub active_count : List TransferJob → ℕ
active_count [] = 0
active_count (j ∷ js) = if is_active j.state then active_count js + 1 else active_count js

-- The sums of `publishQueueProgress`, of a `quint64` each.
unfoldable sum_active : (TransferProgress → ℕ) → List TransferJob → ℕ
sum_active part [] = 0
sum_active part (j ∷ js) =
    if is_active j.state
    then (part j.progress + sum_active part js) % 2 ^ 64
    else sum_active part js

unfoldable pub publish_queue_progress : List TransferJob → List Effect
unfolding active_count sum_active
publish_queue_progress jobs =
    let remaining = active_count jobs in
    let total = sum_active (λ p. p.total) jobs in
    if remaining == 0
    then queue_progress_changed none 0 ∷ []
    else queue_progress_changed
        (some (if total == 0 then (0, 1) else (sum_active (λ p. p.transferred) jobs, total)))
        remaining
      ∷ []

-- What the service gets: `download` or `upload`.
abbrev request_of : ℕ → List TransferJob → ℕ → List Effect
request_of request [] row = []
request_of request (j ∷ js) zero =
    start_request j.direction request j.source_path j.destination_path ∷ []
request_of request (j ∷ js) (suc row) = request_of request js row

-- The second half of `startNext`: the job of that row runs.
unfoldable pub run : ℕ → TransferManager → Outcome
unfolding publish_queue_progress
run row m =
    let request = m.next_request_id in
    let jobs = modify m.jobs row (λ j. record j { state = running; request_id = request }) in
    (
      record m { jobs = jobs; running_row = some row; next_request_id = next_u64 request },
      request_of request m.jobs row ++ row_changed row ∷ publish_queue_progress jobs,
    )

unfoldable pub start_next : TransferManager → Outcome
unfolding find_queued publish_queue_progress run
start_next m = elim m.running_row [
  | some row ↦ (m, [])
  | none ↦ elim (find_queued m.jobs) [
    | none ↦ (m, publish_queue_progress m.jobs)
    | some row ↦ run row m
  ]
]

-- The end of both enqueue functions.
unfoldable pub enqueue : TransferJob → TransferManager → Outcome
unfolding start_next
enqueue job m =
    let (n, effects) =
      start_next (record m { jobs = m.jobs ++ job ∷ []; next_job_id = next_u64 m.next_job_id }) in
    (n, row_inserted (length m.jobs) ∷ effects)

abbrev pub new_job : TransferDirection → ℕ → List ℕ → List ℕ → List ℕ → TransferJob
new_job direction id source destination name = record {
  id = id;
  request_id = 0;
  direction = direction;
  state = queued;
  source_path = source;
  destination_path = destination;
  display_name = name;
  progress = no_progress;
  error_message = [];
}

-- The change of the job in `finishCurrent`.
unfoldable pub finish : TransferState → List ℕ → TransferJob → TransferJob
finish state message j = record j {
  state = state;
  error_message = message;
  request_id = 0;
  progress =
      if is_completed state
      then record { transferred = j.progress.total; total = j.progress.total }
      else j.progress;
}

abbrev end_effects : TransferState → List ℕ → TransferJob → List Effect
end_effects completed message j = transfer_completed j.direction j.destination_path ∷ []
end_effects failed message j = transfer_failed j.display_name message ∷ []
end_effects _ message j = []

unfoldable pub finish_current : TransferState → List ℕ → TransferManager → Outcome
unfolding finish start_next
finish_current state message m = elim m.running_row [
  | none ↦ (m, [])
  | some row ↦ elim (get_elem? m.jobs row) [
    | none ↦ (m, [])
    | some job ↦
        let (n, effects) =
          start_next
            (record m { jobs = modify m.jobs row (finish state message); running_row = none }) in
        (n, row_changed row ∷ end_effects state message job ++ effects)
  ]
]

unfoldable has_active_transfers : TransferManager → Bool
unfolding active_count
has_active_transfers m = ltb 0 (active_count m.jobs)
