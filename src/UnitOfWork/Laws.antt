-- ===== src/UnitOfWork/Laws.antt =====
-- A unit of work is used once, commits in enlistment order, and hands out its events in order.
use noddde.Base.{
  ◌≡◌, refl, ◌∙◌, List, [], ◌∷◌, ◌++◌, append_assoc, append-nil, true, false, arith, Bool-cases,
  inl, inr,
}
use noddde.Result.{Result, ok, err, uow_completed, ◌>>=◌}
use noddde.UnitOfWork.{
  Op, after, UnitOfWork, run_operations, new_unit_of_work, enlist, assert_not_completed,
  defer_publish, commit, rollback,
}

module _ {W : Type 0} where
  -- Running two lists of operations in turn; the second is not begun if the first one throws.
  pub run_operations-append :
      (xs ys : List (Op W)) (w : W)
      → run_operations (xs ++ ys) w ≡ after (run_operations xs w) (λ _. run_operations ys)
  unfolding run_operations
  run_operations-append [] ys w = refl
  run_operations-append (op ∷ xs) ys w = ground (arith, run_operations-append xs ys (op w).1)

module _ {W E : Type 0} where
  pub enlist-ok :
      (u u' : UnitOfWork W E) (op : Op W)
      → enlist u op ≡ ok u'
      → u'.operations ≡ u.operations ++ op ∷ []
  unfolding enlist assert_not_completed
  enlist-ok u u' op done = elim (Bool-cases u.completed) [
    | inl over ↦ absurd (ground (arith, done, over))
    | inr free ↦ ground (arith, done, free)
  ]

-- What a client does to a unit of work before it settles it.
pub data Call (W E : Type 0) : Type 0 where
  enlists : Op W → Call W E
  defers : List E → Call W E

module _ {W E : Type 0} where
  abbrev pub make : Call W E → UnitOfWork W E → Result (UnitOfWork W E)
  make (enlists op) u = enlist u op
  make (defers events) u = defer_publish u events

  abbrev pub make_all : List (Call W E) → UnitOfWork W E → Result (UnitOfWork W E)
  make_all [] u = ok u
  make_all (c ∷ cs) u = make c u >>= make_all cs

  abbrev pub enlisted : List (Call W E) → List (Op W)
  enlisted [] = []
  enlisted (enlists op ∷ cs) = op ∷ enlisted cs
  enlisted (defers events ∷ cs) = enlisted cs

  abbrev pub deferred : List (Call W E) → List E
  deferred [] = []
  deferred (enlists op ∷ cs) = deferred cs
  deferred (defers events ∷ cs) = events ++ deferred cs

  make_all-eq :
      (cs : List (Call W E)) (ops : List (Op W)) (events : List E)
      → make_all cs (record { operations = ops; pending_events = events; completed = false })
        ≡ ok (record {
          operations = ops ++ enlisted cs;
          pending_events = events ++ deferred cs;
          completed = false;
        })
  unfolding enlist defer_publish
  make_all-eq [] ops events = rw (append-nil ops, append-nil events)
  make_all-eq (enlists op ∷ cs) ops events =
      make_all-eq cs (ops ++ op ∷ []) events ∙ rw (append_assoc ops (op ∷ []) (enlisted cs))
  make_all-eq (defers es ∷ cs) ops events =
      make_all-eq cs ops (events ++ es) ∙ rw (append_assoc events es (deferred cs))

  -- The calls in their order: each enlisted operation acts on the world that the ones before it
  -- have left, and the first that throws ends the run.
  abbrev pub run_calls : List (Call W E) → W → Result (Unit {0}) × W
  run_calls [] w = (ok tt, w)
  run_calls (defers events ∷ cs) w = run_calls cs w
  run_calls (enlists op ∷ cs) w =
      let (r, w') = op w in
      let rest = run_calls cs w' in elim r [ ok _ ↦ rest | err e ↦ (err e, w') ]

  run_operations-run_calls :
      (cs : List (Call W E)) (w : W) → run_operations (enlisted cs) w ≡ run_calls cs w
  unfolding run_operations
  run_operations-run_calls [] w = refl
  run_operations-run_calls (defers events ∷ cs) w = run_operations-run_calls cs w
  run_operations-run_calls (enlists op ∷ cs) w =
      ground (arith, run_operations-run_calls cs (op w).1)

  -- Whatever is enlisted and deferred on a new unit of work, in whatever mix, is accepted; its
  -- commit then runs the operations in the order of enlistment, up to the first that throws, whose
  -- error it rejects with; if none does, it returns the deferred events in order.
  pub commit-make_all :
      (cs : List (Call W E)) (w : W)
      → (u : UnitOfWork W E) × (make_all cs new_unit_of_work ≡ ok u)
        × ((commit u w).0 ≡ elim (run_calls cs w).0 [ ok _ ↦ ok (deferred cs) | err e ↦ err e ])
        × ((commit u w).2 ≡ (run_calls cs w).1)
  unfolding new_unit_of_work commit
  commit-make_all cs w =
      let ran = run_operations-run_calls cs w in
      (_, make_all-eq cs [] [], ground (arith, ran), ground (arith, ran))

  -- Every call on a settled unit of work throws, and a commit of it touches nothing.
  pub Rejects : UnitOfWork W E → Type 0
  Rejects u =
      ((op : Op W) → enlist u op ≡ err uow_completed)
      × ((events : List E) → defer_publish u events ≡ err uow_completed)
      × ((w : W) → commit u w ≡ (err uow_completed, u, w))
      × (rollback u ≡ err uow_completed)

  completed-Rejects : (u : UnitOfWork W E) → u.completed ≡ true → Rejects u
  unfolding Rejects enlist defer_publish commit rollback
  completed-Rejects u h =
      ((λ op. ground arith), (λ events. ground arith), (λ w. ground arith), ground arith)

  -- A unit of work is settled by its first commit, also one that throws, and by its rollback.
  pub settled-Rejects :
      (u : UnitOfWork W E) (w : W)
      → u.completed ≡ false
      → Rejects (commit u w).1 × ((v : UnitOfWork W E) × (rollback u ≡ ok v) × Rejects v)
  unfolding commit rollback
  settled-Rejects u w h =
      let sealed : UnitOfWork W E = record {
        completed = true;
        operations = [];
        pending_events = [];
      } in
      (
        completed-Rejects (commit u w).1 (ground arith),
        (sealed, ground arith, completed-Rejects sealed refl),
      )
