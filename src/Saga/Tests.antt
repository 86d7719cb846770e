-- ===== src/Saga/Tests.antt =====
-- The properties of the saga executor at a concrete saga. The world is a list of marks.
use noddde.Base.{
  Bool-cases, inl, inr, if◌then◌else◌, ◌==◌, ℕ, zero, suc, String, ◌≡◌, refl, List, [], ◌∷◌, ◌++◌,
  none,
}
use noddde.Result.{ok, err, thrown, concurrency_conflict}
use noddde.Event.{Event}
use noddde.Map.{get}
use noddde.Enricher.{MetadataContext, absent}
use noddde.UnitOfWork.{Op}
use noddde.Command.Execute.{Scope, publish_all}
use noddde.Saga.{
  SagaPersistence, many_commands, Reaction, SagaHandler, Saga, Wiring, run_atomic, run_best_effort,
  execute_saga,
}
use noddde.Saga.Laws.{
  Defers, not_started-ignored, atomic-rolls_back, best_effort-durable, best_effort-conflict,
}

abbrev Marks : Type 0
Marks = List String

-- Saves at version 0 only.
abbrev memory : SagaPersistence Marks ℕ
memory = record {
  load = λ name id w. (ok none, w);
  save = λ name id state version w. elim version [
    | zero ↦ (ok tt, w ++ "saved" ∷ [])
    | suc n ↦ (err (concurrency_conflict name id (suc n) 0), w)
  ];
}

abbrev failing_command : String → Op Marks
failing_command c w = (err (thrown "insufficient funds"), w ++ c ∷ [])

abbrev wiring : Wiring Marks ℕ String ℕ
wiring = record {
  persistence = memory;
  dispatch_scoped = λ ctx c s. (err (thrown "insufficient funds"), s);
  dispatch_owned = λ ctx c. failing_command c;
  publish = λ e w. (ok tt, w);
  on_events_dispatched = none;
  fresh_correlation = "c";
}

abbrev reaction : Reaction ℕ String
reaction = record { state = 1; commands = many_commands ("Pay" ∷ "Ship" ∷ []) }

abbrev handler : SagaHandler Marks ℕ String ℕ
handler = record { id = λ e. "1"; handle = λ e s w. (ok reaction, w) }

abbrev order : Saga Marks ℕ String ℕ
order = record {
  on = ("Paid", handler) ∷ [];
  started_by = "Ordered" ∷ [];
  initial_state = 0;
  atomicity = none;
}

abbrev context : MetadataContext
context = record { correlation_id = absent; causation_id = absent; user_id = absent }

abbrev paid : Event ℕ
paid = record { name = "Paid"; payload = 0; metadata = none }

not_started-ignored_run : execute_saga wiring "Order" order paid [] ≡ (ok tt, [])
unfolding get
not_started-ignored_run = not_started-ignored wiring "Order" order paid handler [] [] refl refl refl

-- "Pay" enlists a mark, and every other command throws.
abbrev enlist_pay : MetadataContext → String → Op (Scope Marks (Event ℕ) × Marks)
enlist_pay ctx c (scope, w) =
    if c == "Pay"
    then (
      ok tt,
      (
        record scope {
          uow = record scope.uow {
            operations = scope.uow.operations ++ (λ w. (ok tt, w ++ c ∷ [])) ∷ [];
          };
        },
        w,
      ),
    )
    else (err (thrown "out of stock"), (scope, w))

abbrev paying : Wiring Marks ℕ String ℕ
paying = record wiring { dispatch_scoped = enlist_pay }

paying-Defers : Defers paying "Order" order (λ w. w)
paying-Defers ctx c scope w harmless = elim (Bool-cases (c == "Pay")) [
  | inl pay ↦ rw pay (refl, harmless)
  | inr other ↦ rw other (refl, harmless)
]

atomic-rolls_back_example :
    ((run_atomic paying "Order" order context "1" 0 reaction []).0 ≡ err (thrown "out of stock"))
    × ((run_atomic paying "Order" order context "1" 0 reaction []).1 ≡ [])
unfolding publish_all
atomic-rolls_back_example =
    atomic-rolls_back paying "Order" order (λ w. w) context "1" 0 reaction []
      (thrown "out of stock") paying-Defers refl

best_effort-durable_test :
    run_best_effort wiring "Order" order context "1" 0 reaction []
    ≡ publish_all failing_command ("Pay" ∷ "Ship" ∷ []) ("saved" ∷ [])
best_effort-durable_test =
    best_effort-durable wiring "Order" order context "1" 0 reaction [] ("saved" ∷ []) refl

best_effort-conflict_run :
    run_best_effort wiring "Order" order context "1" 2 reaction []
    ≡ (err (concurrency_conflict "Order" "1" 2 0), [])
best_effort-conflict_run =
    best_effort-conflict wiring "Order" order context "1" 2 reaction [] []
      (concurrency_conflict "Order" "1" 2 0) refl
