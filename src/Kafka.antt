-- ===== src/Kafka.antt =====
-- packages/adapters/kafka/src/kafka-event-bus.ts: the bus over kafkajs, whose clients are the
-- parameter `Client` over a world `W`. `consumer` holds the topics that the present kafkajs
-- consumer was subscribed to. Handlers act on `W` alone; log lines and warm-up are left out.
pub mod Consumer
pub mod Delivery
pub mod Redelivery
pub mod Subscribing
pub mod Subscriptions
mod Tests
use noddde.Base.{
  ℕ, String, List, [], ◌∷◌, ◌++◌, map, Option, none, some, Bool, true, false, not, ◌&&◌, ◌||◌,
  or_default, keep, is_some, if◌then◌else◌,
}
use Prim.Native.String.{◌++◌ as join}
use noddde.Result.{Error, Result, ok, err, thrown, ◌>>◌}
use noddde.Event.{Event, Metadata}
use noddde.Map.{Map, get, set, keys}
use noddde.Outbox.{contains}
use noddde.UnitOfWork.{Action, Op, after}
use noddde.Broker.{Handler, on_world}

pub record Topic : Type 0 where
  pub topic : String
  pub num_partitions : ℕ
  pub replication_factor : Option ℕ

-- the producer record of one message
pub record Message : Type 0 where
  pub topic : String
  pub key : Option String
  pub value : String
  pub headers : Map String

-- The admin client, the producer and the consumer of kafkajs. `run` starts the fetch loop and
-- waits for it.
pub record Client (W : Type 0) : Type 0 where
  pub admin_connect : Op W
  pub create_topics : List Topic → Op W
  pub admin_disconnect : Op W
  pub producer_connect : Op W
  pub consumer_connect : Op W
  pub subscribe : String → Op W
  pub run : Op W
  pub stop : Op W
  pub consumer_disconnect : Op W
  pub producer_disconnect : Op W
  pub send : Message → Op W
  pub commit_offsets : String → ℕ → ℕ → Op W

pub record Config (P : Type 0) : Type 0 where
  pub topic_prefix : Option String
  pub topic_partitions : Option ℕ
  pub replication_factor : Option ℕ
  pub max_retries : Option ℕ
  pub dlq_topic_suffix : Option String
  pub partition_key_strategy : Option (Event P → Option String)

pub record KafkaEventBus (P W : Type 0) : Type 0 where
  pub producer : Bool
  pub consumer : Option (List String)
  pub connected : Bool
  pub connecting : Bool
  pub closed : Bool
  pub handlers : Map (List (Handler W (Event P)))
  pub subscribed_topics : List String
  pub delivery_counts : Map ℕ
  pub provisioned_topics : List String

-- the bus beside the world
abbrev pub Bus : Type 0 → Type 0 → Type 0
Bus P W = KafkaEventBus P W × W

abbrev pub wire_content_type : String
wire_content_type = "application/vnd.noddde.event+json; version=1"

module _ {P : Type 0} (config : Config P) where
  unfoldable pub topic_name : String → String
  topic_name event_name = join (or_default config.topic_prefix "") event_name

  -- `event.metadata?.aggregateId`
  metadata_key : Option Metadata → Option String
  metadata_key none = none
  metadata_key (some m) = m.aggregate_id

  unfoldable pub resolve_partition_key : Event P → Option String
  unfolding metadata_key
  resolve_partition_key event = elim config.partition_key_strategy [
    | none ↦ metadata_key event.metadata
    | some strategy ↦ strategy event
  ]

  unfoldable pub topic_config : String → Topic
  topic_config topic = record {
    topic = topic;
    num_partitions = or_default config.topic_partitions 3;
    replication_factor = config.replication_factor;
  }

module _ {P W : Type 0} where
  unfoldable pub new_bus : KafkaEventBus P W
  new_bus = record {
    producer = false;
    consumer = none;
    connected = false;
    connecting = false;
    closed = false;
    handlers = [];
    subscribed_topics = [];
    delivery_counts = [];
    provisioned_topics = [];
  }

  unfoldable pub on :
      Config P → KafkaEventBus P W → String → Handler W (Event P) → Result (KafkaEventBus P W)
  on config bus name h =
      if bus.closed
      then err (thrown "KafkaEventBus is closed")
      else if (bus.connected || bus.connecting)
          && not (contains bus.subscribed_topics (topic_name config name))
      then err (thrown "on() called after connect() was started")
      else ok (record bus {
        handlers = set bus.handlers name (or_default (get bus.handlers name) [] ++ h ∷ []);
      })

module _ {P W : Type 0} (config : Config P) (client : Client W) where
  -- `try { createTopics } finally { disconnect }`
  unfoldable pub create_with_admin : List Topic → Op W
  create_with_admin topics w = after (client.admin_connect w) (λ _ w1.
      let (created, w2) = client.create_topics topics w1 in
      let (left, w3) = client.admin_disconnect w2 in (left >> created, w3))

  unfoldable pub provision_pending : List String → Op (Bus P W)
  unfolding topic_config create_with_admin
  provision_pending [] s = (ok tt, s)
  provision_pending (t ∷ ts) s =
      after (on_world (create_with_admin (map (topic_config config) (t ∷ ts))) s) (λ _ s1.
        (ok tt, (record s1.0 { provisioned_topics = s1.0.provisioned_topics ++ t ∷ ts }, s1.1)))

  unfoldable pub provision_topics : List String → Op (Bus P W)
  unfolding provision_pending
  provision_topics topics s =
      provision_pending (keep (λ t. not (contains s.0.provisioned_topics t)) topics) s

  -- the loop of `connect` over the event names that have handlers
  unfoldable pub subscribe_topics : List String → Op (Bus P W)
  subscribe_topics [] s = (ok tt, s)
  subscribe_topics (name ∷ names) s =
      let topic = topic_name config name in
      if contains s.0.subscribed_topics topic
      then subscribe_topics names s
      else after (on_world (client.subscribe topic) s) (λ _ s1. subscribe_topics names (
        record s1.0 {
          subscribed_topics = s1.0.subscribed_topics ++ topic ∷ [];
          consumer = some (or_default s1.0.consumer [] ++ topic ∷ []);
        },
        s1.1,
      ))

  unfoldable pub open_connection : Op (Bus P W)
  unfolding provision_topics subscribe_topics
  open_connection s = after (on_world client.producer_connect s) (λ _ s1.
      after (on_world client.consumer_connect s1) (λ _ s2.
        after (provision_topics (map (topic_name config) (keys s2.0.handlers)) s2) (λ _ s3.
          after (subscribe_topics (keys s3.0.handlers) s3) (λ _ s4.
            after (on_world client.run s4)
              (λ _ s5. (ok tt, (record s5.0 { connected = true }, s5.1)))))))

  -- A call while another one is under way settles with it.
  unfoldable pub connect : Op (Bus P W)
  unfolding open_connection
  connect s =
      if s.0.connected
      then (ok tt, s)
      else if s.0.connecting
      then (ok tt, s)
      else let (r, (b, w)) =
          open_connection
            (record s.0 { producer = true; consumer = some []; connecting = true }, s.1) in
        (r, (record b { connecting = false }, w))

  unfoldable pub dispatch : (Event P → String) → Event P → Op (Bus P W)
  dispatch stringify event s =
      if s.0.closed || not s.0.connected || not s.0.producer
      then (err (thrown "KafkaEventBus is not connected. Call connect() first."), s)
      else on_world
          (client.send (record {
            topic = topic_name config event.name;
            key = resolve_partition_key config event;
            value = stringify event;
            headers = ("content-type", wire_content_type) ∷ [];
          }))
          s

  close_consumer : Op (Bus P W)
  close_consumer s =
      if is_some s.0.consumer
      then after (on_world client.stop s) (λ _ s1.
        after (on_world client.consumer_disconnect s1)
          (λ _ s2. (ok tt, (record s2.0 { consumer = none }, s2.1))))
      else (ok tt, s)

  close_producer : Op (Bus P W)
  close_producer s =
      if s.0.producer
      then after (on_world client.producer_disconnect s)
          (λ _ s1. (ok tt, (record s1.0 { producer = false }, s1.1)))
      else (ok tt, s)

  unfoldable pub close : Op (Bus P W)
  unfolding close_consumer close_producer
  close s =
      if s.0.closed
      then (ok tt, s)
      else after (close_consumer (record s.0 { closed = true; connected = false }, s.1)) (λ _ s1.
        after (close_producer s1)
          (λ _ s2. (ok tt, (record s2.0 { handlers = []; subscribed_topics = [] }, s2.1))))
