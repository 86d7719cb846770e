-- ===== src/Command/Execute.antt =====
-- `execute`: the idempotency check, the attempt under the concurrency strategy, and what follows
-- the commit; with a unit of work of its own (`execute_owned`) or inside that of another
-- (`execute_in_uow`).
use noddde.Base.{ℕ, String, List, [], ◌∷◌, Option, none, some, Bool, true, false, if◌then◌else◌}
use noddde.Result.{ok, err, ◌>>=◌}
use noddde.Event.{Event}
use noddde.Persistence.{Snapshot, save_snapshot}
use noddde.UnitOfWork.{
  Action, Op, after, UnitOfWork, new_unit_of_work, commit, CompletionHooks, on_uow_committed,
}
use noddde.Concurrency.{
  Strategy, Locker, optimistic, pessimistic, execute_optimistic, acquire_for_uow,
}
use noddde.Concurrency
use noddde.Idempotency.{exists}
use noddde.Command.Model.{Command, Aggregate, World, Persistence, Config, resolve}
use noddde.Command.Lifecycle.{execute_lifecycle}

-- Whatever the action settles to, the caller goes on: `try { await m } catch {}`
abbrev pub best_effort : {W : Type 0} → Op W → Op W
best_effort op w = let (r, w') = op w in (ok tt, w')

-- `for (const e of events) await dispatch(e)`
unfoldable pub publish_all : {W E : Type 0} → (E → Op W) → List E → Op W
publish_all dispatch [] w = (ok tt, w)
publish_all dispatch (e ∷ es) w = after (dispatch e w) (λ _. publish_all dispatch es)

-- `if (callback && events.length > 0) try { await callback(events) } catch {}`
unfoldable pub notify : {W E : Type 0} → Option (List E → Op W) → List E → Op W
notify none events = λ w. (ok tt, w)
notify (some callback) [] = λ w. (ok tt, w)
notify (some callback) (e ∷ es) = best_effort (callback (e ∷ es))

-- A unit of work that someone else settles, with its completion hooks.
pub record Scope (W E : Type 0) : Type 0 where
  pub uow : UnitOfWork W E
  pub hooks : Option (CompletionHooks W)

module _ {S P D X : Type 0} (cfg : Config S P X) (agg : Aggregate S P D) (cmd : Command D) where
  -- the callback that the concurrency strategy runs: a new unit of work, the lifecycle, the commit
  unfoldable pub attempt : Persistence → Action (World S P X) (List (Event P) × Option (Snapshot S))
  attempt p w =
      let (r, u) = execute_lifecycle cfg agg cmd p w new_unit_of_work in
      elim r [
        | err e ↦ (err e, w)
        | ok snap ↦
            let (committed, _, w') = commit u w in (committed >>= λ events. ok (events, snap), w')
      ]

  -- the in-memory snapshot store never throws
  save_pending : Option (Snapshot S) → Op (World S P X)
  save_pending none w = (ok tt, w)
  save_pending (some snap) w = (
    ok tt,
    record w {
      snapshots = save_snapshot w.snapshots cfg.aggregate_name cmd.target_aggregate_id snap;
    },
  )

  unfoldable pub already_processed : Bool → Option String → World S P X → Bool × World S P X
  already_processed true (some command_id) w =
      let (found, store) = exists w.idempotency command_id (cfg.now w) in
      (found, record w { idempotency = store })
  already_processed true none w = (false, w)
  already_processed false command_id w = (false, w)

  unfoldable pub after_commit : List (Event P) → Option (Snapshot S) → Op (World S P X)
  unfolding save_pending
  after_commit events snap w = after (save_pending snap w) (λ _ w.
      after (publish_all cfg.dispatch events w) (λ _. notify cfg.on_events_dispatched events))

  run_owned : Op (World S P X)
  run_owned w =
      after (resolve cfg.persistence cfg.aggregate_name, w)
        (λ p w.
          after
            (Concurrency.execute cfg.concurrency cfg.aggregate_name cmd.target_aggregate_id
              (attempt p) w)
            (λ done. after_commit done.0 done.1))

  -- no unit of work is active
  unfoldable pub execute_owned : Op (World S P X)
  unfolding already_processed run_owned
  execute_owned w =
      let (skip, w') = already_processed cfg.has_idempotency_store cmd.command_id w in
      let run = run_owned w' in if skip then (ok tt, w') else run

  abbrev pub InScope : Type 0
  InScope = Scope (World S P X) (Event P) × World S P X

  -- one run of the lifecycle on the active unit of work
  unfoldable pub run_in_scope : Persistence → Action InScope (Option (Snapshot S))
  run_in_scope p (scope, w) =
      let (r, u) = execute_lifecycle cfg agg cmd p w scope.uow in (r, (record scope { uow = u }, w))

  locked_run : Locker (World S P X) → Option ℕ → Persistence → Action InScope (Option (Snapshot S))
  locked_run locker timeout p (scope, w) =
      let (r, w') =
        acquire_for_uow locker timeout cfg.aggregate_name cmd.target_aggregate_id scope.hooks w in
      elim r [
        | err e ↦ (err e, (scope, w'))
        | ok hooks ↦ run_in_scope p (record scope { hooks = hooks }, w')
      ]

  -- A per-aggregate strategy always has `acquireForUow`, which does nothing where it resolves to an
  -- optimistic one, so that the lifecycle then runs once.
  guarded : Strategy (World S P X) → Bool → Persistence → Action InScope (Option (Snapshot S))
  guarded (optimistic max_retries) true p = run_in_scope p
  guarded (optimistic max_retries) false p = execute_optimistic max_retries (run_in_scope p)
  guarded (pessimistic locker timeout) per_aggregate p = locked_run locker timeout p

  -- the snapshot is saved by a hook when the owning unit of work commits
  defer_snapshot : Option (Snapshot S) → Op InScope
  defer_snapshot none s = (ok tt, s)
  defer_snapshot (some snap) (scope, w) =
      (ok tt, (record scope { hooks = on_uow_committed scope.hooks (save_pending (some snap)) }, w))

  run_explicit : Op InScope
  run_explicit s =
      after (resolve cfg.persistence cfg.aggregate_name, s)
        (λ p s. after (guarded cfg.concurrency cfg.per_aggregate p s) defer_snapshot)

  -- a unit of work is active: its owner commits, publishes and runs the hooks
  unfoldable pub execute_in_uow : Op InScope
  unfolding already_processed run_explicit guarded locked_run defer_snapshot save_pending
  execute_in_uow (scope, w) =
      let (skip, w') = already_processed cfg.has_idempotency_store cmd.command_id w in
      let run = run_explicit (scope, w') in if skip then (ok tt, (scope, w')) else run
