-- ===== src/Scoped/Tests.antt =====
-- The properties of a scoped unit of work at concrete functions. The world is a list of numbers.
use noddde.Base.{ℕ, ◌≡◌, ◌↔◌, refl, List, [], ◌∷◌, ◌++◌, none, true, false, arith}
use noddde.Result.{ok, err, thrown, domain_shutdown}
use noddde.Event.{Event}
use noddde.UnitOfWork.{Op, Action, commit, run_operations}
use noddde.Command.Execute.{Scope}
use noddde.Scoped.{
  run_hooks_once, run_unit_of_work, with_operation, Operations, acquire_operation,
  release_operation, begin_shutdown,
}
use noddde.Scoped.Laws.{
  failed_scope, failed_commit, begins, ends, shuts_down, Operating, started, then_step,
  shutdown-drains, active-with_operation,
}

abbrev Numbers : Type 0
Numbers = List ℕ

abbrev publish : Event ℕ → Op Numbers
publish e w = (ok tt, w ++ e.payload ∷ [])

abbrev one_write : Op Numbers → Scope Numbers (Event ℕ)
one_write op = record {
  uow = record {
    operations = op ∷ [];
    pending_events = record { name = "Deposited"; payload = 5; metadata = none } ∷ [];
    completed = false;
  };
  hooks = none;
}

abbrev write : Op Numbers
write w = (ok tt, w ++ 1 ∷ [])

abbrev failing_write : Op Numbers
failing_write w = (err (thrown "disk full"), w)

abbrev failing_work : Action (Scope Numbers (Event ℕ) × Numbers) ℕ
failing_work s = (err (thrown "insufficient funds"), (one_write write, s.1))

abbrev work : Action (Scope Numbers (Event ℕ) × Numbers) ℕ
work s = (ok 3, (one_write failing_write, s.1))

failed_scope_run :
    run_unit_of_work publish none false failing_work []
    ≡ (err (thrown "insufficient funds"), run_hooks_once (one_write write).hooks false [])
failed_scope_run =
    failed_scope publish none failing_work [] [] (one_write write) (thrown "insufficient funds")
      refl

failed_commit_run : run_unit_of_work publish none false work [] ≡ (
  err (thrown "disk full"),
  run_hooks_once (one_write failing_write).hooks false (commit (one_write failing_write).uow []).2,
)
unfolding commit run_operations
failed_commit_run =
    failed_commit publish none work [] [] (one_write failing_write) 3 (thrown "disk full") refl refl

abbrev one_active : Operations
one_active = record { shutting_down = false; active = 1; draining = false; drained = false }

ended-Operating : Operating (release_operation (begin_shutdown one_active))
unfolding acquire_operation begin_shutdown
ended-Operating =
    then_step (then_step (then_step started (begins one_active refl)) shuts_down)
      (ends (ground arith))

shutdown-drains_example :
    ((release_operation (begin_shutdown one_active)).shutting_down ≡ true
      → acquire_operation (release_operation (begin_shutdown one_active)) ≡ err domain_shutdown)
    × ((release_operation (begin_shutdown one_active)).draining ≡ true
        → (((release_operation (begin_shutdown one_active)).drained ≡ true)
            ↔ ((release_operation (begin_shutdown one_active)).active ≡ 0)))
shutdown-drains_example = shutdown-drains ended-Operating

abbrev failing_body : Action (ℕ × Operations) ℕ
failing_body s = (err (thrown "insufficient funds"), s)

active-with_operation_test : (with_operation failing_body (7, one_active)).1.1.active ≡ 1
active-with_operation_test = active-with_operation failing_body 7 one_active (λ s. refl)
