-- ===== src/Dispatching.antt =====
-- `dispatchCommand`, `dispatchQuery`, `processOutboxOnce`, the registrations of command handlers in
-- `init`, and `_performShutdown` of packages/engine/src/domain.ts. The executor, the standalone
-- handlers and the components are parameters, spans and the timers of the shutdown are left out.
pub mod Routes
pub mod Closing
mod Tests
use noddde.Base.{
  ℕ, String, List, [], ◌∷◌, ◌++◌, Option, none, some, Bool, true, false, if◌then◌else◌,
}
use noddde.Result.{Result, ok, err, ◌>>=◌}
use noddde.UnitOfWork.{Action, Op, after}
use noddde.Outbox.{contains}
use noddde.Bus.{HandlerRegistry, register, dispatch_request}
use noddde.Scoped.{Operations, with_operation}

-- the name of an aggregate, and the keys of its `decide`
pub record AggregateEntry : Type 0 where
  pub name : String
  pub decide : List String

pub record Request (P : Type 0) : Type 0 where
  pub name : String
  pub target_aggregate_id : Option String
  pub payload : P
  pub command_id : Option String

-- The first aggregate that has `command.name in aggregate.decide`. The names are those of the
-- handlers that were given: `in` also finds the names that every object inherits, such as
-- `constructor`, and no command has one of these.
unfoldable pub find_aggregate : List AggregateEntry → String → Option AggregateEntry
find_aggregate [] name = none
find_aggregate (a ∷ entries) name =
    if contains a.decide name then some a else find_aggregate entries name

module _ {W P : Type 0} (execute : AggregateEntry → Request P → Op W) where
  abbrev pub CommandBus : Type 0
  CommandBus = HandlerRegistry W (Request P) (Unit {0})

  -- the inner loop of step 6 of `init`
  unfoldable pub register_decisions : AggregateEntry → List String → CommandBus → Result CommandBus
  register_decisions a [] bus = ok bus
  register_decisions a (name ∷ names) bus = do
    bus' ← register bus name (execute a)
    register_decisions a names bus'

  unfoldable pub register_aggregates : List AggregateEntry → CommandBus → Result CommandBus
  register_aggregates [] bus = ok bus
  register_aggregates (a ∷ entries) bus = do
    bus' ← register_decisions a a.decide bus
    register_aggregates entries bus'

  -- step 7
  unfoldable pub register_standalone :
      List (String × (Request P → Op W)) → CommandBus → Result CommandBus
  register_standalone [] bus = ok bus
  register_standalone ((name, handler) ∷ handlers) bus = do
    bus' ← register bus name handler
    register_standalone handlers bus'

  unfoldable pub register_commands :
      List AggregateEntry → List (String × (Request P → Op W)) → CommandBus → Result CommandBus
  register_commands entries handlers bus = do
    bus' ← register_aggregates entries bus
    register_standalone handlers bus'

  route : Option AggregateEntry → CommandBus → Request P → Op W
  route none bus command = dispatch_request bus command.name command
  route (some a) bus command = execute a command

  -- `dispatchCommand` without its span: what it gives is the target, or `undefined`
  unfoldable pub route_command :
      List AggregateEntry → CommandBus → Request P → Action W (Option String)
  unfolding route
  route_command entries bus command w =
      after (route (find_aggregate entries command.name) bus command w)
        (λ _ w. (ok command.target_aggregate_id, w))

unfoldable pub dispatch_command :
    {W P : Type 0}
    → (execute : AggregateEntry → Request P → Op (W × Operations)) → List AggregateEntry
    → CommandBus execute
    → Request P
    → Action (W × Operations) (Option String)
dispatch_command execute entries bus command =
    with_operation (route_command execute entries bus command)

unfoldable pub dispatch_query :
    {W P A : Type 0}
    → HandlerRegistry (W × Operations) (Request P) A
    → Request P
    → Action (W × Operations) A
dispatch_query bus query = with_operation (dispatch_request bus query.name query)

unfoldable pub process_outbox_once : {W : Type 0} → Option (Action W ℕ) → Action W ℕ
process_outbox_once none w = (ok 0, w)
process_outbox_once (some process_once) w = process_once w

module _ {W : Type 0} where
  -- `_allComponents.filter(isCloseable).reverse()`, where a component is its `close` or none
  unfoldable pub closeables : List (Option (Op W)) → List (Op W)
  closeables [] = []
  closeables (none ∷ components) = closeables components
  closeables (some close ∷ components) = closeables components ++ close ∷ []

  -- errors are swallowed
  unfoldable pub close_each : List (Op W) → W → W
  close_each [] w = w
  close_each (close ∷ closes) w = close_each closes (close w).1

  drain_relay : Option (Op W) → Op W
  drain_relay none w = (ok tt, w)
  drain_relay (some drain) w = drain w

  -- `wait` is what other code does until the operations have drained or the deadline has come, and
  -- the relay's drain is taken up to the deadline.
  unfoldable pub perform_shutdown : (W → W) → Option (Op W) → Op W → List (Option (Op W)) → Op W
  unfolding drain_relay
  perform_shutdown wait relay close_bus components w =
      after (drain_relay relay (wait w))
        (λ _ w. after (close_bus w) (λ _ w. (ok tt, close_each (closeables components) w)))
