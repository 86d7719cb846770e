-- ===== src/Scoped.antt =====
-- `withUnitOfWork`, `_acquireOperation` and `_releaseOperation` of packages/engine/src/domain.ts,
-- with the commit of a unit of work around a scope that the saga executor has too. A scope is the
-- active unit of work with its completion hooks.
pub mod Laws
mod Tests
use noddde.Base.{
  ℕ, suc, ◌-◌, String, List, [], ◌∷◌, Option, none, some, Bool, true, false, eqb, ◌&&◌,
  if◌then◌else◌,
}
use noddde.Result.{Result, ok, err, nested_uow, domain_shutdown, ◌>>=◌}
use noddde.Event.{Event}
use noddde.Outbox.{event_id_of}
use noddde.UnitOfWork.{
  Action, Op, after, UnitOfWork, new_unit_of_work, commit, CompletionHooks,
  run_uow_completion_hooks,
}
use noddde.Command.Execute.{Scope, best_effort, publish_all, notify}

module _ {W : Type 0} where
  -- `runHooksOnce`: what a hook throws is logged and dropped
  unfoldable pub run_hooks_once : Option (CompletionHooks W) → Bool → W → W
  run_hooks_once hooks committed w = (run_uow_completion_hooks hooks committed w).1

module _ {W E : Type 0} where
  abbrev pub fresh_scope : Scope W E
  fresh_scope = record { uow = new_unit_of_work; hooks = none }

  committed_scope : {A : Type 0} → A → Scope W E → Result (List E) → Action W (A × List E)
  committed_scope a scope (err e) w = (err e, run_hooks_once scope.hooks false w)
  committed_scope a scope (ok events) w = (ok (a, events), run_hooks_once scope.hooks true w)

  -- the end of the scope: a rollback drops the operations, a commit runs them
  unfoldable pub close_scope : {A : Type 0} → Result A → Scope W E → Action W (A × List E)
  unfolding committed_scope
  close_scope (err e) scope w = (err e, run_hooks_once scope.hooks false w)
  close_scope (ok a) scope w = let (r, _, w') = commit scope.uow w in committed_scope a scope r w'

  unfoldable pub settle_scope : {A : Type 0} → Result A × (Scope W E × W) → Result (A × List E) × W
  settle_scope (r, (scope, w)) = close_scope r scope w

module _ {P : Type 0} where
  -- `events.map((e) => e.metadata?.eventId).filter((id) => id != null)`
  unfoldable pub event_ids : List (Event P) → List String
  event_ids [] = []
  event_ids (e ∷ es) = elim (event_id_of e.metadata) [
    | none ↦ event_ids es
    | some id ↦ id ∷ event_ids es
  ]

module _ {W : Type 0} where
  mark_ids : (List String → Op W) → List String → Op W
  mark_ids mark [] w = (ok tt, w)
  mark_ids mark (id ∷ ids) w = mark (id ∷ ids) w

-- `_shuttingDown`, `_activeOperations`, and whether `_drainResolve` is set and was called
pub record Operations : Type 0 where
  pub shutting_down : Bool
  pub active : ℕ
  pub draining : Bool
  pub drained : Bool

unfoldable pub acquire_operation : Operations → Result Operations
acquire_operation o =
    if o.shutting_down then err domain_shutdown else ok (record o { active = suc o.active })

unfoldable pub release_operation : Operations → Operations
release_operation o =
    let left = o.active - 1 in
    record o { active = left; drained = if eqb left 0 && o.draining then true else o.drained }

-- `shutdown`, up to where it waits: the first call refuses new operations, and waits if some are
-- active.
unfoldable pub begin_shutdown : Operations → Operations
begin_shutdown o =
    if o.shutting_down
    then o
    else record o { shutting_down = true; draining = if eqb o.active 0 then false else true }

-- `_acquireOperation(); try { body } finally { _releaseOperation() }`, in a world with the count
unfoldable pub with_operation :
    {W A : Type 0} → Action (W × Operations) A → Action (W × Operations) A
with_operation body (w, o) = elim (acquire_operation o) [
  | err e ↦ (err e, (w, o))
  | ok o' ↦ let (r, (w', left)) = body (w, o') in (r, (w', release_operation left))
]

module _ {W P : Type 0} where
  marking : Option (List String → Op W) → Option (List (Event P) → Op W)
  marking none = none
  marking (some mark) = some (λ events. mark_ids mark (event_ids events))

  -- what the operation does: `fn` is the scoped function, and the flag says that a unit of work is active already.
  unfoldable pub run_unit_of_work :
      {A : Type 0}
      → (Event P → Op W)
      → Option (List String → Op W)
      → Bool
      → Action (Scope W (Event P) × W) A
      → Action W A
  unfolding marking mark_ids
  run_unit_of_work dispatch mark true fn w = (err nested_uow, w)
  run_unit_of_work dispatch mark false fn w = after (settle_scope (fn (fresh_scope, w))) (λ done w.
      after (publish_all dispatch done.1 w)
        (λ _ w. after (notify (marking mark) done.1 w) (λ _ w. (ok done.0, w))))

module _ {W P : Type 0} where
  unfoldable pub with_unit_of_work :
      {A : Type 0}
      → (Event P → Op (W × Operations))
      → Option (List String → Op (W × Operations))
      → Bool
      → Action (Scope (W × Operations) (Event P) × (W × Operations)) A
      → Action (W × Operations) A
  with_unit_of_work dispatch mark nested fn =
      with_operation (run_unit_of_work dispatch mark nested fn)
