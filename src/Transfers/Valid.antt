-- ===== src/Transfers/Valid.antt =====
-- What holds of the queue of src/files/TransferManager.cpp between two calls.
use ar_term.Prelude.{
  ℕ, zero, suc, ◌≡◌, refl, sym, subst, true, false, inl, inr, Bool-cases, Option-cases, arith,
  Option, none, some, List, [], ◌∷◌, ◌++◌, get_elem?, All,
}
use ar_term.Transfers.{
  TransferState, running, TransferJob, TransferManager, is_running, is_queued, modify, find_queued,
  run, start_next, finish, finish_current,
}

-- One job runs, in the row given, or none does.
abbrev pub RunsAt : List TransferJob → Option ℕ → Type 0
RunsAt [] none = Unit
RunsAt [] (some row) = ⊥
RunsAt (j ∷ js) none = (is_running j.state ≡ false) × RunsAt js none
RunsAt (j ∷ js) (some zero) = (is_running j.state ≡ true) × RunsAt js none
RunsAt (j ∷ js) (some (suc row)) = (is_running j.state ≡ false) × RunsAt js (some row)

-- No job waits while none runs.
abbrev pub IsBusy : List TransferJob → Option ℕ → Type 0
IsBusy jobs none = All (λ j. is_queued j.state ≡ false) jobs
IsBusy jobs (some row) = Unit

pub record IsValid (m : TransferManager) : Type 0 where
  pub runs : RunsAt m.jobs m.running_row
  pub busy : IsBusy m.jobs m.running_row

pub RunsAt-append :
    (js : List TransferJob) (k : TransferJob) (row : Option ℕ)
    → is_running k.state ≡ false
    → RunsAt js row
    → RunsAt (js ++ k ∷ []) row
RunsAt-append [] k none idle h = (idle, tt)
RunsAt-append [] k (some row) idle h = elim h [ ]
RunsAt-append (j ∷ js) k none idle h = (h.0, RunsAt-append js k none idle h.1)
RunsAt-append (j ∷ js) k (some zero) idle h = (h.0, RunsAt-append js k none idle h.1)
RunsAt-append (j ∷ js) k (some (suc row)) idle h = (h.0, RunsAt-append js k (some row) idle h.1)

find_queued-none :
    (js : List TransferJob) → find_queued js ≡ none → All (λ j. is_queued j.state ≡ false) js
unfolding find_queued
find_queued-none [] e = tt
find_queued-none (j ∷ js) e = elim (Bool-cases (is_queued j.state)) [
  | inl waits ↦ absurd (ground (arith, e, waits))
  | inr free ↦ elim (Option-cases (find_queued js)) [
    | inl rest ↦ (free, find_queued-none js rest)
    | inr (row, found) ↦ absurd (ground (arith, e, free, found))
  ]
]

-- The first job that waits starts to run.
start-RunsAt :
    (request : ℕ) (js : List TransferJob) (row : ℕ)
    → find_queued js ≡ some row
    → RunsAt js none
    → RunsAt (modify js row (λ j. record j { state = running; request_id = request })) (some row)
unfolding find_queued
start-RunsAt request [] row e h = absurd (ground (arith, e))
start-RunsAt request (j ∷ js) row e h = elim (Bool-cases (is_queued j.state)) [
  | inl waits ↦ let first : row ≡ 0 = ground (arith, e, waits) in rw first (refl, h.1)
  | inr free ↦ elim (Option-cases (find_queued js)) [
    | inl rest ↦ absurd (ground (arith, e, free, rest))
    | inr (r, found) ↦
        let next : row ≡ suc r = ground (arith, e, free, found) in
        rw next (h.0, start-RunsAt request js r found h.1)
  ]
]

-- The three branches of `startNext`.
start_next-busy : (m : TransferManager) (row : ℕ) → m.running_row ≡ some row → (start_next m).0 ≡ m
unfolding start_next
start_next-busy m row e = ground (arith, e)

pub start_next-idle :
    (m : TransferManager) → m.running_row ≡ none → find_queued m.jobs ≡ none → (start_next m).0 ≡ m
unfolding start_next
start_next-idle m e all = ground (arith, e, all)

pub start_next-run :
    (m : TransferManager) (row : ℕ)
    → m.running_row ≡ none
    → find_queued m.jobs ≡ some row
    → start_next m ≡ run row m
unfolding start_next
start_next-run m row e found = ground (arith, e, found)

run-IsValid :
    (m : TransferManager) (row : ℕ)
    → find_queued m.jobs ≡ some row
    → RunsAt m.jobs none
    → IsValid (run row m).0
unfolding run
run-IsValid m row found free = record {
  runs = start-RunsAt m.next_request_id m.jobs row found free;
  busy = tt;
}

pub start_next-IsValid :
    (m : TransferManager) → RunsAt m.jobs m.running_row → IsValid (start_next m).0
start_next-IsValid m h = elim (Option-cases m.running_row) [
  | inr (row, e) ↦
      subst IsValid (sym (start_next-busy m row e))
        (record { runs = h; busy = subst (IsBusy m.jobs) (sym e) tt })
  | inl e ↦ elim (Option-cases (find_queued m.jobs)) [
    | inl all ↦
        subst IsValid (sym (start_next-idle m e all))
          (record { runs = h; busy = subst (IsBusy m.jobs) (sym e) (find_queued-none m.jobs all) })
    | inr (row, found) ↦
        subst (λ o. IsValid o.0) (sym (start_next-run m row e found))
          (run-IsValid m row found (subst (RunsAt m.jobs) e h))
  ]
]

-- The job that runs ends.
pub end-RunsAt :
    (change : TransferJob → TransferJob) (js : List TransferJob) (row : ℕ)
    → ((j : TransferJob) → is_running (change j).state ≡ false)
    → RunsAt js (some row)
    → RunsAt (modify js row change) none
end-RunsAt change [] row idle h = elim h [ ]
end-RunsAt change (j ∷ js) zero idle h = (idle j, h.1)
end-RunsAt change (j ∷ js) (suc row) idle h = (h.0, end-RunsAt change js row idle h.1)

-- The manager between the end of a job and the start of the next.
abbrev pub ended : TransferState → List ℕ → ℕ → TransferManager → TransferManager
ended state message row m = record m {
  jobs = modify m.jobs row (finish state message);
  running_row = none;
}

finish_current-none :
    (state : TransferState) (message : List ℕ) (m : TransferManager)
    → m.running_row ≡ none
    → (finish_current state message m).0 ≡ m
unfolding finish_current
finish_current-none state message m e = ground (arith, e)

finish_current-out :
    (state : TransferState) (message : List ℕ) (m : TransferManager) (row : ℕ)
    → m.running_row ≡ some row
    → get_elem? m.jobs row ≡ none
    → (finish_current state message m).0 ≡ m
unfolding finish_current
finish_current-out state message m row e out = ground (arith, e, out)

pub finish_current-some :
    (state : TransferState) (message : List ℕ) (m : TransferManager) (row : ℕ) (job : TransferJob)
    → m.running_row ≡ some row
    → get_elem? m.jobs row ≡ some job
    → (finish_current state message m).0 ≡ (start_next (ended state message row m)).0
unfolding finish_current
finish_current-some state message m row job e inside = ground (arith, e, inside)

pub finish_current-IsValid :
    (state : TransferState) (message : List ℕ) (m : TransferManager)
    → is_running state ≡ false
    → IsValid m
    → IsValid (finish_current state message m).0
unfolding finish
finish_current-IsValid state message m idle h = elim (Option-cases m.running_row) [
  | inl e ↦ subst IsValid (sym (finish_current-none state message m e)) h
  | inr (row, e) ↦ elim (Option-cases (get_elem? m.jobs row)) [
    | inl out ↦ subst IsValid (sym (finish_current-out state message m row e out)) h
    | inr (job, inside) ↦
        subst IsValid (sym (finish_current-some state message m row job e inside)) (
          start_next-IsValid (ended state message row m) (
            end-RunsAt (finish state message) m.jobs row (λ j. idle)
              (subst (RunsAt m.jobs) e h.runs)))
  ]
]

-- A change of one job that leaves the states.
module _ (change : TransferJob → TransferJob)
    (same : (j : TransferJob) → (change j).state ≡ j.state) where
  modify-RunsAt :
      (js : List TransferJob) (i : ℕ) (row : Option ℕ)
      → RunsAt js row
      → RunsAt (modify js i change) row
  modify-RunsAt [] i row h = h
  modify-RunsAt (j ∷ js) zero none h = (rw (same j) h.0, h.1)
  modify-RunsAt (j ∷ js) zero (some zero) h = (rw (same j) h.0, h.1)
  modify-RunsAt (j ∷ js) zero (some (suc row)) h = (rw (same j) h.0, h.1)
  modify-RunsAt (j ∷ js) (suc i) none h = (h.0, modify-RunsAt js i none h.1)
  modify-RunsAt (j ∷ js) (suc i) (some zero) h = (h.0, modify-RunsAt js i none h.1)
  modify-RunsAt (j ∷ js) (suc i) (some (suc row)) h = (h.0, modify-RunsAt js i (some row) h.1)

  modify-All :
      (js : List TransferJob) (i : ℕ)
      → All (λ j. is_queued j.state ≡ false) js
      → All (λ j. is_queued j.state ≡ false) (modify js i change)
  modify-All [] i h = tt
  modify-All (j ∷ js) zero h = (rw (same j) h.0, h.1)
  modify-All (j ∷ js) (suc i) h = (h.0, modify-All js i h.1)

  modify-IsBusy :
      (js : List TransferJob) (i : ℕ) (row : Option ℕ)
      → IsBusy js row
      → IsBusy (modify js i change) row
  modify-IsBusy js i none h = modify-All js i h
  modify-IsBusy js i (some row) h = tt

  pub modify-IsValid :
      (m : TransferManager) (i : ℕ)
      → IsValid m
      → IsValid (record m { jobs = modify m.jobs i change })
  modify-IsValid m i h = record {
    runs = modify-RunsAt m.jobs i m.running_row h.runs;
    busy = modify-IsBusy m.jobs i m.running_row h.busy;
  }
