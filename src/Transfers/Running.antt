-- ===== src/Transfers/Running.antt =====
-- The row that runs in the queue of src/files/TransferManager.cpp, and the counts around it.
use ar_term.Prelude.{
  ℕ, zero, suc, ◌+◌, ◌≡◌, refl, true, false, inl, inr, Bool-cases, Option-cases, arith, some, List,
  [], ◌∷◌, get_elem?,
}
use ar_term.Transfers.{
  running, TransferJob, is_running, is_queued, is_active, modify, active_count, find_queued,
}
use ar_term.Transfers.Slots.{find_request}
use ar_term.Transfers.Valid.{RunsAt}

-- The request of the job that runs, 0 if none does.
abbrev pub request_in : List TransferJob → ℕ → ℕ
request_in [] row = 0
request_in (j ∷ js) zero = j.request_id
request_in (j ∷ js) (suc row) = request_in js row

-- The row that runs.
pub running_job :
    (js : List TransferJob) (row : ℕ)
    → RunsAt js (some row)
    → (job : TransferJob) × (get_elem? js row ≡ some job) × (is_running job.state ≡ true)
running_job [] row h = elim h [ ]
running_job (j ∷ js) zero h = (j, refl, h.0)
running_job (j ∷ js) (suc row) h = running_job js row h.1

pub find_request-running :
    (js : List TransferJob) (row : ℕ)
    → RunsAt js (some row)
    → find_request (request_in js row) js ≡ some row
unfolding find_request
find_request-running [] row h = elim h [ ]
find_request-running (j ∷ js) zero h = ground (arith, h)
find_request-running (j ∷ js) (suc row) h = ground (arith, h.0, find_request-running js row h.1)

pub active_count-end :
    (change : TransferJob → TransferJob) (js : List TransferJob) (row : ℕ)
    → ((j : TransferJob) → is_active (change j).state ≡ false)
    → RunsAt js (some row)
    → active_count (modify js row change) + 1 ≡ active_count js
unfolding active_count
active_count-end change [] row over h = elim h [ ]
active_count-end change (j ∷ js) zero over h = ground (arith, over j, h.0)
active_count-end change (j ∷ js) (suc row) over h =
    ground (arith, active_count-end change js row over h.1)

pub active_count-start :
    (request : ℕ) (js : List TransferJob) (row : ℕ)
    → find_queued js ≡ some row
    → active_count (modify js row (λ j. record j { state = running; request_id = request }))
      ≡ active_count js
unfolding active_count find_queued
active_count-start request [] row e = absurd (ground (arith, e))
active_count-start request (j ∷ js) row e = elim (Bool-cases (is_queued j.state)) [
  | inl waits ↦
      let first : row ≡ 0 = ground (arith, e, waits) in rw (first, waits) (ground (arith, waits))
  | inr free ↦ elim (Option-cases (find_queued js)) [
    | inl rest ↦ absurd (ground (arith, e, free, rest))
    | inr (r, found) ↦
        let next : row ≡ suc r = ground (arith, e, free, found) in
        rw next (ground (arith, active_count-start request js r found))
  ]
]

pub request_in-start :
    (request : ℕ) (js : List TransferJob) (row : ℕ)
    → find_queued js ≡ some row
    → request_in (modify js row (λ j. record j { state = running; request_id = request })) row
      ≡ request
unfolding find_queued
request_in-start request [] row e = absurd (ground (arith, e))
request_in-start request (j ∷ js) row e = elim (Bool-cases (is_queued j.state)) [
  | inl waits ↦ let first : row ≡ 0 = ground (arith, e, waits) in rw first refl
  | inr free ↦ elim (Option-cases (find_queued js)) [
    | inl rest ↦ absurd (ground (arith, e, free, rest))
    | inr (r, found) ↦
        let next : row ≡ suc r = ground (arith, e, free, found) in
        rw next (request_in-start request js r found)
  ]
]
