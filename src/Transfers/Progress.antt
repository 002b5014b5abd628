-- ===== src/Transfers/Progress.antt =====
-- The queue of src/files/TransferManager.cpp runs empty.
use ar_term.Prelude.{
  ℕ, suc, ◌+◌, ◌-◌, ◌^◌, ◌<◌, ◌≡◌, refl, sym, subst, ◌∙◌, ap, Bool, true, false, if◌then◌else◌, inl,
  inr, Option-cases, arith, none, some, List, [], ◌∷◌, length,
}
use ar_term.Transfers.{
  TransferState, completed, failed, cancelled, TransferJob, TransferManager, is_active,
  active_count, find_queued, run, start_next, finish, finish_current,
}
use ar_term.Transfers.Slots.{index_of_request, on_finished, on_failed}
use ar_term.Transfers.Valid.{
  RunsAt, IsBusy, IsValid, ended, end-RunsAt, start_next-idle, start_next-run, start_next-IsValid,
  finish_current-some,
}
use ar_term.Transfers.Actions.{not_running, act, do_finish, do_fail, Action}
use ar_term.Transfers.Running.{
  request_in, running_job, find_request-running, active_count-end, active_count-start,
  request_in-start,
}

-- How the service answers for a request.
pub data Answer : Type 0 where
  done : Answer
  broken : (is_cancellation : Bool) (message : List ℕ) → Answer

abbrev action_of : Answer → ℕ → Action
action_of done request = do_finish request
action_of (broken is_cancellation message) request = do_fail request is_cancellation message

abbrev running_request : TransferManager → ℕ
running_request m = elim m.running_row [ none ↦ 0 | some row ↦ request_in m.jobs row ]

-- The service answers once for the job that runs then, again and again.
unfoldable pub serve : List Answer → TransferManager → TransferManager
unfolding act
serve [] m = m
serve (answer ∷ rest) m = serve rest (act (action_of answer (running_request m)) m).0

-- The request numbers have not wrapped round, and do not for so many more.
pub record CanServe (n : ℕ) (m : TransferManager) : Type 0 where
  pub valid : IsValid m
  pub answered : (row : ℕ) → m.running_row ≡ some row → 0 < request_in m.jobs row
  pub next_pos : 0 < m.next_request_id
  pub next_lt : m.next_request_id + n < 2 ^ 64

-- A manager that serves `n` more, with as many active jobs as there were.
abbrev Served : ℕ → ℕ → TransferManager → Type 0
Served n count m = CanServe n m × (active_count m.jobs ≡ count)

run-Served :
    (n row : ℕ) (m : TransferManager)
    → find_queued m.jobs ≡ some row
    → IsValid (run row m).0
    → 0 < m.next_request_id
    → m.next_request_id + (n + 1) < 2 ^ 64
    → Served n (active_count m.jobs) (run row m).0
unfolding run
run-Served n row m found valid next_pos next_lt = (
  record {
    valid = valid;
    answered = λ r e.
        let same : row ≡ r = ground (arith, e) in
        subst (λ k. 0 < request_in (run row m).0.jobs k) same
          (omega (arith, request_in-start m.next_request_id m.jobs row found));
    next_pos = omega arith;
    next_lt = omega arith;
  },
  active_count-start m.next_request_id m.jobs row found,
)

start_next-Served :
    (n : ℕ) (m : TransferManager)
    → m.running_row ≡ none
    → RunsAt m.jobs none
    → 0 < m.next_request_id
    → m.next_request_id + (n + 1) < 2 ^ 64
    → Served n (active_count m.jobs) (start_next m).0
start_next-Served n m e free next_pos next_lt =
    let valid = start_next-IsValid m (subst (RunsAt m.jobs) (sym e) free) in
    elim (Option-cases (find_queued m.jobs)) [
      | inl all ↦
          let same = start_next-idle m e all in
          subst (Served n (active_count m.jobs)) (sym same) (
            record {
              valid = subst IsValid same valid;
              answered = λ r k. absurd (ground (arith, e, k));
              next_pos = next_pos;
              next_lt = omega arith;
            },
            refl,
          )
      | inr (row, found) ↦
          let same = start_next-run m row e found in
          subst (λ o. Served n (active_count m.jobs) o.0) (sym same)
            (run-Served n row m found (subst (λ o. IsValid o.0) same valid) next_pos next_lt)
    ]

abbrev state_of : Answer → TransferState
state_of done = completed
state_of (broken is_cancellation message) = if is_cancellation then cancelled else failed

abbrev message_of : Answer → List ℕ
message_of done = []
message_of (broken is_cancellation message) = message

state_of-over : (answer : Answer) → is_active (state_of answer) ≡ false
state_of-over done = refl
state_of-over (broken true message) = refl
state_of-over (broken false message) = refl

-- The answer for the request that runs reaches its job.
index_of_request-running :
    (m : TransferManager) (row : ℕ)
    → m.running_row ≡ some row
    → RunsAt m.jobs (some row)
    → 0 < request_in m.jobs row
    → index_of_request (running_request m) m.jobs ≡ some row
unfolding index_of_request
index_of_request-running m row e runs lt = ground (arith, e, find_request-running m.jobs row runs)

act-answer :
    (answer : Answer) (request row : ℕ) (m : TransferManager)
    → index_of_request request m.jobs ≡ some row
    → act (action_of answer request) m ≡ finish_current (state_of answer) (message_of answer) m
unfolding act on_finished on_failed
act-answer done request row m e = ground (arith, e)
act-answer (broken is_cancellation message) request row m e = ground (arith, e)

-- With no job running, the answer is for no request.
act-idle :
    (answer : Answer) (m : TransferManager)
    → m.running_row ≡ none
    → (act (action_of answer (running_request m)) m).0 ≡ m
unfolding act on_finished on_failed index_of_request
act-idle done m e = ground (arith, e)
act-idle (broken is_cancellation message) m e = ground (arith, e)

active_count-idle : (js : List TransferJob) → RunsAt js none → IsBusy js none → active_count js ≡ 0
unfolding active_count
active_count-idle [] runs busy = refl
active_count-idle (j ∷ js) runs busy =
    ground (arith, runs.0, busy.0, active_count-idle js runs.1 busy.1)

finish-Served :
    (answer : Answer) (n row : ℕ) (m : TransferManager)
    → m.running_row ≡ some row
    → CanServe (n + 1) m
    → Served n (active_count m.jobs - 1) (act (action_of answer (running_request m)) m).0
unfolding finish
finish-Served answer n row m e h =
    let runs = subst (RunsAt m.jobs) e h.valid.runs in
    let (job, inside, busy) = running_job m.jobs row runs in
    let state = state_of answer in
    let message = message_of answer in
    let q = ended state message row m in
    let found = index_of_request-running m row e runs (h.answered row e) in
    let same : (act (action_of answer (running_request m)) m).0 ≡ (start_next q).0 =
      ap (λ o. o.0) (act-answer answer (running_request m) row m found)
      ∙ finish_current-some state message m row job e inside in
    let fewer =
      active_count-end (finish state message) m.jobs row (λ j. state_of-over answer) runs in
    let free =
      end-RunsAt (finish state message) m.jobs row (λ j. not_running state (state_of-over answer))
        runs in
    let served = start_next-Served n q refl free h.next_pos h.next_lt in
    subst (Served n (active_count m.jobs - 1)) (sym same)
      (served.0, served.1 ∙ omega (arith, fewer))

fewer_answers : (m : TransferManager) (n : ℕ) → CanServe (suc n) m → CanServe n m
fewer_answers m n h = record {
  valid = h.valid;
  answered = h.answered;
  next_pos = h.next_pos;
  next_lt = omega (arith, h.next_lt);
}

more_answers : (m : TransferManager) (n : ℕ) → CanServe (suc n) m → CanServe (n + 1) m
more_answers m n h = record {
  valid = h.valid;
  answered = h.answered;
  next_pos = h.next_pos;
  next_lt = omega (arith, h.next_lt);
}

-- On a valid queue whose running job has a request and whose request numbers do not wrap round,
-- every answer of the service ends one job, whether it is done, failed or cancelled, and starts
-- the next: after `n` answers `n` jobs fewer run or wait, and as many answers as there are such
-- jobs leave none.
pub serve-active_count :
    (answers : List Answer) (m : TransferManager)
    → CanServe (length answers) m
    → active_count (serve answers m).jobs ≡ active_count m.jobs - length answers
unfolding serve
serve-active_count [] m h = omega arith
serve-active_count (answer ∷ rest) m h = elim (Option-cases m.running_row) [
  | inl e ↦
      let none_left =
        active_count-idle m.jobs (subst (RunsAt m.jobs) e h.valid.runs)
          (subst (IsBusy m.jobs) e h.valid.busy) in
      let later = serve-active_count rest m (fewer_answers m (length rest) h) in
      let same = act-idle answer m e in
      ap (λ k. active_count (serve rest k).jobs) same ∙ omega (arith, later, none_left)
  | inr (row, e) ↦
      let k = (act (action_of answer (running_request m)) m).0 in
      let served = finish-Served answer (length rest) row m e (more_answers m (length rest) h) in
      omega (arith, serve-active_count rest k served.0, served.1)
]
