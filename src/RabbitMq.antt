-- ===== src/RabbitMq.antt =====
-- packages/adapters/rabbitmq/src/rabbitmq-event-bus.ts: the bus over amqplib, whose calls are the
-- parameter `Client` over a world `W`. `channel` holds the event names whose queues the present
-- channel consumes. Log lines and the listeners that only write them are left out.
pub mod Connecting
pub mod Consumer
pub mod Channels
pub mod Counting
pub mod Connections
pub mod Retries
mod Tests
use noddde.Base.{
  ℕ, String, List, [], ◌∷◌, ◌++◌, Option, none, some, Bool, true, false, not, ◌||◌, or_default,
  is_some, if◌then◌else◌,
}
use Prim.Native.String.{◌++◌ as join}
use noddde.Result.{Result, ok, err, thrown}
use noddde.Event.{Event, Metadata}
use noddde.Map.{Map, get, set}
use noddde.Broker.{Handler, on_world}
use noddde.UnitOfWork.{Op, after}

pub data ExchangeType : Type 0 where
  topic fanout : ExchangeType

-- the arguments of `channel.publish`
pub record Publication : Type 0 where
  pub exchange : String
  pub routing_key : String
  pub content : String
  pub message_id : Option String
  pub headers : Map String

-- a message that the broker delivers, with the tag by which it is acknowledged
pub record Delivered : Type 0 where
  pub tag : ℕ
  pub content : String
  pub message_id : Option String

-- The connection and the confirm channel of amqplib, and `setTimeout`.
pub record Client (W : Type 0) : Type 0 where
  pub connect : Op W
  pub create_confirm_channel : Op W
  pub prefetch : ℕ → Op W
  pub assert_exchange : String → ExchangeType → Op W
  pub assert_queue : String → Op W
  pub bind_queue : String → String → String → Op W
  pub consume : String → Op W
  pub publish : Publication → Op W
  pub wait_for_confirms : Op W
  pub ack : ℕ → Op W
  pub nack : ℕ → Op W
  pub close_channel : Op W
  pub close_connection : Op W
  pub sleep : ℕ → W → W

pub record Config : Type 0 where
  pub exchange_name : Option String
  pub exchange_type : Option ExchangeType
  pub queue_prefix : String
  pub prefetch_count : Option ℕ
  pub max_attempts : Option ℕ
  pub initial_delay_ms : Option ℕ
  pub max_delay_ms : Option ℕ
  pub max_retries : Option ℕ

pub record RabbitMqEventBus (P W : Type 0) : Type 0 where
  pub handlers : Map (List (Handler W (Event P)))
  pub connection : Bool
  pub channel : Option (List String)
  pub connected : Bool
  pub closed : Bool
  pub reconnecting : Bool
  pub delivery_counts : Map ℕ

-- the bus beside the world
abbrev pub Bus : Type 0 → Type 0 → Type 0
Bus P W = RabbitMqEventBus P W × W

module _ (config : Config) where
  abbrev pub exchange_name_of : String
  exchange_name_of = or_default config.exchange_name "noddde.events"

  abbrev pub exchange_type_of : ExchangeType
  exchange_type_of = or_default config.exchange_type topic

  unfoldable pub dlx_name : String
  dlx_name = join exchange_name_of ".dlx"

  unfoldable pub dlq_name : String
  dlq_name = join config.queue_prefix ".dlq"

  unfoldable pub queue_name : String → String
  queue_name event_name = join config.queue_prefix (join "." event_name)

-- `event.metadata?.eventId`
event_id_of : Option Metadata → Option String
event_id_of none = none
event_id_of (some m) = some m.event_id

module _ {P W : Type 0} where
  unfoldable pub new_bus : RabbitMqEventBus P W
  new_bus = record {
    handlers = [];
    connection = false;
    channel = none;
    connected = false;
    closed = false;
    reconnecting = false;
    delivery_counts = [];
  }

module _ {P W : Type 0} (config : Config) (client : Client W) where
  unfoldable pub assert_dead_letter_topology : Op (Bus P W)
  assert_dead_letter_topology s =
      after (on_world (client.assert_exchange (dlx_name config) fanout) s) (λ _ s1.
        after (on_world (client.assert_queue (dlq_name config)) s1)
          (λ _. on_world (client.bind_queue (dlq_name config) (dlx_name config) "")))

  -- `if (maxRetries !== undefined) await this._assertDeadLetterTopology(channel)`
  unfoldable pub assert_retry_topology : Option ℕ → Op (Bus P W)
  assert_retry_topology none s = (ok tt, s)
  assert_retry_topology (some n) s = assert_dead_letter_topology s

  -- the rest of `_setupConsumer`, on a channel that consumes the queues of `names`
  unfoldable pub consume_queue : String → List String → Op (Bus P W)
  unfolding assert_retry_topology
  consume_queue name names s = after (assert_retry_topology config.max_retries s) (λ _ s1.
      after (on_world (client.assert_queue (queue_name config name)) s1) (λ _ s2.
        after
          (on_world (client.bind_queue (queue_name config name) (exchange_name_of config) name) s2)
          (λ _ s3.
            after (on_world (client.consume (queue_name config name)) s3)
              (λ _ s4. (ok tt, (record s4.0 { channel = some (names ++ name ∷ []) }, s4.1))))))

  unfoldable pub setup_on : Option (List String) → String → Op (Bus P W)
  unfolding consume_queue
  setup_on none name s = (ok tt, s)
  setup_on (some names) name s = consume_queue name names s

  unfoldable pub setup_consumer : String → Op (Bus P W)
  unfolding setup_on
  setup_consumer name s = setup_on s.0.channel name s

  -- A handler of a new name gets a consumer at once where the bus is connected; the promise of
  -- that is not awaited, and its rejection is only written to the log.
  register : Option (List (Handler W (Event P))) → String → Handler W (Event P) → Bus P W → Bus P W
  register (some existing) name h s =
      (record s.0 { handlers = set s.0.handlers name (existing ++ h ∷ []) }, s.1)
  register none name h s =
      let s1 : Bus P W = (record s.0 { handlers = set s.0.handlers name (h ∷ []) }, s.1) in
      if s.0.connected then (setup_consumer name s1).1 else s1

  unfoldable pub on : String → Handler W (Event P) → Op (Bus P W)
  unfolding register
  on name h s =
      if s.0.closed
      then (err (thrown "RabbitMqEventBus is closed. Cannot register handlers after close()."), s)
      else (ok tt, register (get s.0.handlers name) name h s)

  unfoldable pub dispatch : (Event P → String) → Event P → Op (Bus P W)
  unfolding event_id_of
  dispatch stringify event s =
      if not s.0.connected || not (is_some s.0.channel)
      then (err (thrown "RabbitMqEventBus is not connected. Call connect() before dispatch()."), s)
      else after
          (on_world
            (client.publish (record {
              exchange = exchange_name_of config;
              routing_key = event.name;
              content = stringify event;
              message_id = event_id_of event.metadata;
              headers = [];
            }))
            s)
          (λ _. on_world client.wait_for_confirms)

  -- what these calls reject with is ignored
  close_channel : Bus P W → Bus P W
  close_channel s =
      if is_some s.0.channel
      then (record s.0 { channel = none }, (client.close_channel s.1).1)
      else s

  close_connection : Bus P W → Bus P W
  close_connection s =
      if s.0.connection
      then (record s.0 { connection = false }, (client.close_connection s.1).1)
      else s

  unfoldable pub close : Bus P W → Bus P W
  unfolding close_channel close_connection
  close s =
      if s.0.closed
      then s
      else close_connection
          (close_channel ((record s.0 { closed = true; connected = false; handlers = [] }, s.1)))
