-- ===== src/UnitOfWork.antt =====
-- packages/engine/src/implementations/in-memory-unit-of-work.ts and
-- packages/engine/src/uow-completion-hooks.ts. `W` is the world that the enlisted thunks act on,
-- and `E` the type of events. An action that throws keeps what it wrote before.
pub mod Laws
mod Tests
use noddde.Base.{List, [], ◌∷◌, ◌++◌, Option, none, some, Bool, true, false}
use noddde.Result.{Result, ok, err, uow_completed, ◌>>=◌, ◌>>◌}

-- `() => Promise<A>`
abbrev pub Action : Type 0 → Type 0 → Type 0
Action W A = W → Result A × W

abbrev pub Op : Type 0 → Type 0
Op W = Action W (Unit {0})

-- `await m; …`
abbrev pub after : {W A B : Type 0} → Result A × W → (A → Action W B) → Result B × W
after (ok a, w) next = next a w
after (err e, w) next = (err e, w)

pub record UnitOfWork (W E : Type 0) : Type 0 where
  pub operations : List (Op W)
  pub pending_events : List E
  pub completed : Bool

-- `for (const operation of operations) await operation()`
unfoldable pub run_operations : {W : Type 0} → List (Op W) → Op W
run_operations [] w = (ok tt, w)
run_operations (op ∷ ops) w = after (op w) (λ _. run_operations ops)

assert_not_completed : Bool → Result (Unit {0})
assert_not_completed true = err uow_completed
assert_not_completed false = ok tt

module _ {W E : Type 0} where
  unfoldable pub new_unit_of_work : UnitOfWork W E
  new_unit_of_work = record { operations = []; pending_events = []; completed = false }

  unfoldable pub enlist : UnitOfWork W E → Op W → Result (UnitOfWork W E)
  unfolding assert_not_completed
  enlist u op = do
    assert_not_completed u.completed
    ok (record u { operations = u.operations ++ op ∷ [] })

  unfoldable pub defer_publish : UnitOfWork W E → List E → Result (UnitOfWork W E)
  unfolding assert_not_completed
  defer_publish u events = do
    assert_not_completed u.completed
    ok (record u { pending_events = u.pending_events ++ events })

  commit_open : Bool → UnitOfWork W E → W → Result (List E) × UnitOfWork W E × W
  commit_open true u w = (err uow_completed, u, w)
  commit_open false u w =
      let (r, w') = run_operations u.operations w in
      (r >> ok u.pending_events, record u { completed = true }, w')

  unfoldable pub commit : UnitOfWork W E → W → Result (List E) × UnitOfWork W E × W
  unfolding commit_open
  commit u w = commit_open u.completed u w

  unfoldable pub rollback : UnitOfWork W E → Result (UnitOfWork W E)
  unfolding assert_not_completed
  rollback u = do
    assert_not_completed u.completed
    ok (record { completed = true; operations = []; pending_events = [] })

pub record CompletionHooks (W : Type 0) : Type 0 where
  pub committed : List (Op W)
  pub settled : List (Op W)

module _ {W : Type 0} where
  -- the registry's entry for one unit of work
  get_or_create : Option (CompletionHooks W) → CompletionHooks W
  get_or_create none = record { committed = []; settled = [] }
  get_or_create (some hooks) = hooks

  unfoldable pub on_uow_committed : Option (CompletionHooks W) → Op W → Option (CompletionHooks W)
  unfolding get_or_create
  on_uow_committed entry hook =
      let hooks = get_or_create entry in
      some (record hooks { committed = hooks.committed ++ hook ∷ [] })

  unfoldable pub on_uow_settled : Option (CompletionHooks W) → Op W → Option (CompletionHooks W)
  unfolding get_or_create
  on_uow_settled entry hook =
      let hooks = get_or_create entry in
      some (record hooks { settled = hooks.settled ++ hook ∷ [] })

  -- The hooks that apply run, and the entry is gone: a second call finds none.
  unfoldable pub run_uow_completion_hooks : Option (CompletionHooks W) → Bool → Op W
  run_uow_completion_hooks none committed w = (ok tt, w)
  run_uow_completion_hooks (some hooks) true w =
      after (run_operations hooks.committed w) (λ _. run_operations hooks.settled)
  run_uow_completion_hooks (some hooks) false w = run_operations hooks.settled w
