-- ===== src/Concurrency/Tests.antt =====
-- Runs of the strategies, and the properties at concrete inputs.
use noddde.Base.{ℕ, zero, suc, ◌+◌, ◌-◌, String, ◌≡◌, refl, none, some, true, false}
use noddde.Result.{Result, ok, err, thrown, concurrency_conflict}
use noddde.UnitOfWork.{run_uow_completion_hooks, on_uow_settled}
use noddde.Concurrency.{
  Locker, execute_optimistic, execute_pessimistic, acquire_for_uow, resolve_concurrency,
  pessimistic_word,
}
use noddde.Concurrency.Retry.{attempt_of, Decides, execute_optimistic-Decides}
use noddde.Concurrency.Locking.{
  IsBalanced, held-execute_pessimistic, held-acquire_for_uow, settled_hook_error-skips,
}

-- Two conflicts, then a value.
abbrev third_time : ℕ → Result String
third_time zero = err (concurrency_conflict "Account" "1" 0 1)
third_time (suc zero) = err (concurrency_conflict "Account" "1" 1 2)
third_time (suc (suc n)) = ok "done"

retried_test : execute_optimistic 3 (attempt_of third_time) 0 ≡ (ok "done", 3)
unfolding execute_optimistic
retried_test = refl

given_up_test :
    execute_optimistic 1 (attempt_of third_time) 0
    ≡ (err (concurrency_conflict "Account" "1" 1 2), 2)
unfolding execute_optimistic
given_up_test = refl

no_locker_test :
    resolve_concurrency {W = ℕ} none pessimistic_word
    ≡ err (thrown "pessimistic concurrency requires a locker")
unfolding resolve_concurrency
no_locker_test = refl

execute_optimistic-Decides_example :
    (k : ℕ) × Decides third_time 0 3 k
    × (execute_optimistic 3 (attempt_of third_time) 0 ≡ (third_time k, suc k))
execute_optimistic-Decides_example = execute_optimistic-Decides third_time 3

-- A locker over the number of locks that are held.
abbrev counting : Locker ℕ
counting = record {
  acquire = λ name id timeout w. (ok tt, w + 1);
  release = λ name id w. (ok tt, w - 1);
}

counting-IsBalanced : IsBalanced (λ w. w) counting
counting-IsBalanced = record { acquired = λ name id t w. refl; released = λ name id w. refl }

abbrev failing_work : ℕ → Result ℕ × ℕ
failing_work w = (err (thrown "insufficient funds"), w)

held-execute_pessimistic_test :
    (execute_pessimistic counting (some 50) "Account" "1" failing_work 4).1 ≡ 4
held-execute_pessimistic_test =
    held-execute_pessimistic (λ w. w) counting counting-IsBalanced (some 50) "Account" "1"
      failing_work 4 (λ w'. refl)

held-acquire_for_uow_test :
    (5 ≡ 4 + 1)
    × ((run_uow_completion_hooks (on_uow_settled none (counting.release "Account" "1")) false 5).1
        ≡ 4)
unfolding acquire_for_uow
held-acquire_for_uow_test =
    held-acquire_for_uow (λ w. w) counting counting-IsBalanced none "Account" "1" 4 5
      (on_uow_settled none (counting.release "Account" "1")) false refl 5 refl

abbrev broken : Locker ℕ
broken = record {
  acquire = λ name id timeout w. (ok tt, w + 1);
  release = λ name id w. (err (thrown "connection lost"), w);
}

settled_hook_error-skips_test :
    run_uow_completion_hooks
      (on_uow_settled
        (on_uow_settled none (broken.release "Account" "1"))
        (counting.release "Account" "2"))
      true
      2
    ≡ broken.release "Account" "1" 2
settled_hook_error-skips_test =
    settled_hook_error-skips broken counting "Account" "1" "Account" "2" true 2
      (thrown "connection lost") refl
