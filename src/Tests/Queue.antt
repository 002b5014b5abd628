-- ===== src/Tests/Queue.antt =====
-- The theorems on src/files/TransferManager.cpp on a queue of two downloads.
use ar_term.Prelude.{ℕ, ◌-◌, ◌≡◌, refl, true, arith, List, [], ◌∷◌, length}
use ar_term.Transfers.{
  download, TransferManager, new_manager, enqueue, start_next, find_queued, run, active_count,
}
use ar_term.Transfers.Cancel.{clear_completed}
use ar_term.Transfers.Valid.{IsValid}
use ar_term.Transfers.Actions.{do_enqueue, act, Reachable, created, acted, Reachable-IsValid}
use ar_term.Transfers.Clearing.{active_jobs, clear_completed-active_jobs}
use ar_term.Transfers.Progress.{Answer, done, broken, serve, CanServe, serve-active_count}
use ar_term.Transfers.Paths.{remote_base_name, join_remote, remote_base_name-join_remote}

abbrev path : List ℕ
path = b'/' ∷ b'a' ∷ []

abbrev one : TransferManager
one = (act (do_enqueue download path [] []) (new_manager 1)).0

abbrev two : TransferManager
two = (act (do_enqueue download path [] []) one).0

two-Reachable : Reachable two
two-Reachable =
    acted (do_enqueue download path [] []) one
      (acted (do_enqueue download path [] []) (new_manager 1) (created 1))

Reachable-IsValid_example : IsValid two
Reachable-IsValid_example = Reachable-IsValid two two-Reachable

two-IsValid : IsValid two
two-IsValid = Reachable-IsValid two two-Reachable

abbrev answers : List Answer
answers = done ∷ broken true [] ∷ []

two-CanServe : CanServe 2 two
unfolding act enqueue start_next find_queued run
two-CanServe = record {
  valid = two-IsValid;
  answered = λ row e. ground (arith, e);
  next_pos = omega arith;
  next_lt = omega arith;
}

serve-active_count_example :
    active_count (serve answers two).jobs ≡ active_count two.jobs - length answers
serve-active_count_example = serve-active_count answers two two-CanServe

clear_completed-active_jobs_example : (clear_completed two).0.jobs ≡ active_jobs two.jobs
clear_completed-active_jobs_example = clear_completed-active_jobs two

remote_base_name-join_remote_example :
    remote_base_name (join_remote (b'/' ∷ b'e' ∷ b'/' ∷ []) (b'a' ∷ [])) ≡ b'a' ∷ []
remote_base_name-join_remote_example =
    remote_base_name-join_remote (b'/' ∷ b'e' ∷ b'/' ∷ []) b'a' [] refl
