-- ===== src/Concurrency.antt =====
-- packages/engine/src/concurrency-strategy.ts, and the choice of a strategy from the wiring in
-- packages/engine/src/domain.ts (`resolveConcurrency`). The locker is an interface; log lines are
-- left out.
pub mod Retry
pub mod Locking
mod Tests
use noddde.Base.{
  ℕ, zero, suc, ◌+◌, String, List, [], ◌∷◌, Option, none, some, Bool, true, false, ◌&&◌, ltb,
  or_default, if◌then◌else◌,
}
use noddde.Result.{
  Error, Result, ok, err, concurrency_conflict, version_conflict, unreachable, thrown,
}
use noddde.Map.{Map, get}
use noddde.UnitOfWork.{Action, Op, after, CompletionHooks, on_uow_settled}

-- `error instanceof ConcurrencyError`
unfoldable pub is_conflict : Error → Bool
is_conflict (concurrency_conflict name id expected actual) = true
is_conflict (version_conflict name id expected) = true
is_conflict _ = false

module _ {W A : Type 0} where
  -- the loop of `execute`, on the rounds that are left of `i <= maxRetries`
  retry_loop : ℕ → ℕ → ℕ → Action W A → Action W A
  retry_loop zero i max attempt w = (err unreachable, w)
  retry_loop (suc rounds) i max attempt w =
      let (r, w') = attempt w in
      let again = retry_loop rounds (suc i) max attempt w' in
      elim r [
        | ok a ↦ (ok a, w')
        | err e ↦ if is_conflict e && ltb i max then again else (err e, w')
      ]

  unfoldable pub execute_optimistic : ℕ → Action W A → Action W A
  unfolding retry_loop is_conflict
  execute_optimistic max_retries attempt = retry_loop (suc max_retries) 0 max_retries attempt

-- AggregateLocker
pub record Locker (W : Type 0) : Type 0 where
  pub acquire : String → String → Option ℕ → Op W
  pub release : String → String → Op W

module _ {W A : Type 0} where
  -- `finally { await release }`: an error of the release replaces the outcome
  finally_do : Result A × W → Op W → Result A × W
  finally_do (r, w) op = after (op w) (λ _ w'. (r, w'))

  unfoldable pub execute_pessimistic :
      Locker W → Option ℕ → String → String → Action W A → Action W A
  unfolding finally_do
  execute_pessimistic locker timeout name id attempt w =
      after (locker.acquire name id timeout w)
        (λ _ w'. finally_do (attempt w') (locker.release name id))

module _ {W : Type 0} where
  -- the new registry entry of the unit of work comes back with the outcome
  unfoldable pub acquire_for_uow :
      Locker W
      → Option ℕ
      → String
      → String
      → Option (CompletionHooks W)
      → Action W (Option (CompletionHooks W))
  acquire_for_uow locker timeout name id entry w =
      after (locker.acquire name id timeout w)
        (λ _ w'. (ok (on_uow_settled entry (locker.release name id)), w'))

pub data Strategy (W : Type 0) : Type 0 where
  optimistic : ℕ → Strategy W
  pessimistic : Locker W → Option ℕ → Strategy W

-- PerAggregateConcurrencyStrategy over the strategies that the domain makes
pub record PerAggregate (W : Type 0) : Type 0 where
  pub strategies : Map (Strategy W)
  pub default : Strategy W

-- The `concurrency` field of an aggregate's wiring.
pub data ConcurrencyConfig (W : Type 0) : Type 0 where
  unset optimistic_word pessimistic_word : ConcurrencyConfig W
  pessimistic_object : Option (Locker W) → Option ℕ → ConcurrencyConfig W
  optimistic_object : Option ℕ → ConcurrencyConfig W

module _ {W : Type 0} where
  unfoldable pub execute : {A : Type 0} → Strategy W → String → String → Action W A → Action W A
  execute (optimistic max_retries) name id attempt = execute_optimistic max_retries attempt
  execute (pessimistic locker timeout) name id attempt =
      execute_pessimistic locker timeout name id attempt

  unfoldable pub strategy_for : PerAggregate W → String → Strategy W
  strategy_for s name = or_default (get s.strategies name) s.default

  with_locker : Option (Locker W) → Option ℕ → Result (Strategy W)
  with_locker none timeout = err (thrown "pessimistic concurrency requires a locker")
  with_locker (some locker) timeout = ok (pessimistic locker timeout)

  -- `concurrency.locker ?? adapter?.aggregateLocker`
  or_else : Option (Locker W) → Option (Locker W) → Option (Locker W)
  or_else (some l) other = some l
  or_else none other = other

  -- the first argument is the adapter's locker
  unfoldable pub resolve_concurrency : Option (Locker W) → ConcurrencyConfig W → Result (Strategy W)
  unfolding with_locker or_else
  resolve_concurrency adapter unset = ok (optimistic 0)
  resolve_concurrency adapter optimistic_word = ok (optimistic 0)
  resolve_concurrency adapter pessimistic_word = with_locker adapter none
  resolve_concurrency adapter (pessimistic_object locker timeout) =
      with_locker (or_else locker adapter) timeout
  resolve_concurrency adapter (optimistic_object max_retries) =
      ok (optimistic (or_default max_retries 0))
