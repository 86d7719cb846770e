-- ===== src/UnitOfWork/Tests.antt =====
-- Runs of a unit of work, and the properties at concrete inputs. The world is a list of numbers.
use noddde.Base.{ℕ, ◌≡◌, refl, none, List, [], ◌∷◌, ◌++◌, true, false}
use noddde.Result.{ok, err, thrown}
use noddde.UnitOfWork.{
  Op, UnitOfWork, run_operations, new_unit_of_work, commit, rollback, on_uow_committed,
  on_uow_settled, run_uow_completion_hooks,
}
use noddde.UnitOfWork.Laws.{
  Call, enlists, defers, make_all, run_calls, deferred, commit-make_all, Rejects, settled-Rejects,
}

abbrev push : ℕ → Op (List ℕ)
push n w = (ok tt, w ++ n ∷ [])

abbrev fail : Op (List ℕ)
fail w = (err (thrown "disk full"), w)

abbrev calls : List (Call (List ℕ) ℕ)
calls = enlists (push 1) ∷ defers (10 ∷ []) ∷ enlists fail ∷ enlists (push 2) ∷ []

abbrev half_done : UnitOfWork (List ℕ) ℕ
half_done = record {
  operations = push 1 ∷ fail ∷ push 2 ∷ [];
  pending_events = 10 ∷ [];
  completed = false;
}

failing_commit_test : (commit half_done []).2 ≡ 1 ∷ []
unfolding commit run_operations
failing_commit_test = refl

hooks_test :
    run_uow_completion_hooks (on_uow_settled (on_uow_committed none (push 1)) (push 2)) true []
    ≡ (ok tt, 1 ∷ 2 ∷ [])
unfolding run_uow_completion_hooks on_uow_settled on_uow_committed run_operations
hooks_test = refl

hooks_after_rollback_test :
    run_uow_completion_hooks (on_uow_settled (on_uow_committed none (push 1)) (push 2)) false []
    ≡ (ok tt, 2 ∷ [])
unfolding run_uow_completion_hooks on_uow_settled on_uow_committed run_operations
hooks_after_rollback_test = refl

commit-make_all_example :
    (u : UnitOfWork (List ℕ) ℕ) × (make_all calls new_unit_of_work ≡ ok u)
    × ((commit u []).0 ≡ elim (run_calls calls []).0 [ ok _ ↦ ok (deferred calls) | err e ↦ err e ])
    × ((commit u []).2 ≡ (run_calls calls []).1)
commit-make_all_example = commit-make_all calls []

settled-Rejects_test :
    Rejects (commit half_done []).1
    × ((v : UnitOfWork (List ℕ) ℕ) × (rollback half_done ≡ ok v) × Rejects v)
settled-Rejects_test = settled-Rejects half_done [] refl
