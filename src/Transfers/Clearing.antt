-- ===== src/Transfers/Clearing.antt =====
-- `clearCompleted` of src/files/TransferManager.cpp against a filter.
use ar_term.Prelude.{
  ℕ, zero, suc, ◌≡◌, refl, ◌∙◌, true, false, if◌then◌else◌, inl, inr, Bool-cases, Option-cases,
  arith, none, some, List, [], ◌∷◌, ◌++◌, length, get_elem?, take, drop,
}
use ar_term.Transfers.{TransferJob, TransferManager, is_active}
use ar_term.Transfers.Cancel.{remove_at, clear_row, clear_rows, clear_completed}

-- The jobs that run or wait, in their order.
unfoldable pub active_jobs : List TransferJob → List TransferJob
active_jobs [] = []
active_jobs (j ∷ js) = if is_active j.state then j ∷ active_jobs js else active_jobs js

-- How far the loop is, with the rows from `i` on done.
abbrev partly_cleared : ℕ → List TransferJob → List TransferJob
partly_cleared i js = active_jobs (take i js) ++ drop i js

-- One more row done, where it stays and where it goes.
keep_row :
    (i : ℕ) (js : List TransferJob) (job : TransferJob)
    → get_elem? js i ≡ some job
    → is_active job.state ≡ true
    → partly_cleared i js ≡ partly_cleared (suc i) js
unfolding active_jobs
keep_row i [] job e active = absurd (ground (arith, e))
keep_row zero (j ∷ js) job e active = ground (arith, e, active)
keep_row (suc i) (j ∷ js) job e active = ground (arith, keep_row i js job e active)

drop_row :
    (i : ℕ) (js : List TransferJob) (job : TransferJob)
    → get_elem? js i ≡ some job
    → is_active job.state ≡ false
    → partly_cleared i (remove_at js i) ≡ partly_cleared (suc i) js
unfolding active_jobs
drop_row i [] job e over = absurd (ground (arith, e))
drop_row zero (j ∷ js) job e over = ground (arith, e, over)
drop_row (suc i) (j ∷ js) job e over = ground (arith, drop_row i js job e over)

past_row :
    (i : ℕ) (js : List TransferJob)
    → get_elem? js i ≡ none
    → partly_cleared i js ≡ partly_cleared (suc i) js
unfolding active_jobs
past_row zero [] e = refl
past_row (suc i) [] e = refl
past_row zero (j ∷ js) e = absurd (ground (arith, e))
past_row (suc i) (j ∷ js) e = ground (arith, past_row i js e)

clear_row-partly_cleared :
    (i : ℕ) (m : TransferManager)
    → partly_cleared i (clear_row i m).0.jobs ≡ partly_cleared (suc i) m.jobs
unfolding clear_row
clear_row-partly_cleared i m = elim (Option-cases (get_elem? m.jobs i)) [
  | inl e ↦ rw (e, clear_row) (past_row i m.jobs e)
  | inr (job, e) ↦ elim (Bool-cases (is_active job.state)) [
    | inl active ↦ rw (e, clear_row, active) (keep_row i m.jobs job e active)
    | inr over ↦ rw (e, clear_row, over) (drop_row i m.jobs job e over)
  ]
]

clear_rows-partly_cleared :
    (i : ℕ) (m : TransferManager) → (clear_rows i m).0.jobs ≡ partly_cleared i m.jobs
unfolding clear_rows active_jobs
clear_rows-partly_cleared zero m = refl
clear_rows-partly_cleared (suc i) m =
    clear_rows-partly_cleared i (clear_row i m).0 ∙ clear_row-partly_cleared i m

all_rows : (js : List TransferJob) → partly_cleared (length js) js ≡ active_jobs js
unfolding active_jobs
all_rows [] = refl
all_rows (j ∷ js) = ground (arith, all_rows js)

-- `clearCompleted`, which removes rows by their number from the last to the first, leaves exactly
-- the jobs that run or wait, in their order.
pub clear_completed-active_jobs :
    (m : TransferManager) → (clear_completed m).0.jobs ≡ active_jobs m.jobs
unfolding clear_completed
clear_completed-active_jobs m = clear_rows-partly_cleared (length m.jobs) m ∙ all_rows m.jobs
