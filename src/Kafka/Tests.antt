-- ===== src/Kafka/Tests.antt =====
-- Runs of the bus over Kafka, and the properties at concrete inputs. The world is the list of the
-- messages sent, with the number of times that the fetch loop was started.
use noddde.Base.{
  ℕ, suc, ◌≤◌, ◌≡◌, refl, none, some, List, [], ◌∷◌, ◌++◌, true, eqb, leb, arith, ◌==◌, Bool-cases,
  subst, eq_iff, inl, inr, if◌then◌else◌,
}
use noddde.Result.{Result, ok, err, thrown}
use noddde.Event.{Event}
use noddde.Map.{get, set, delete, keys}
use noddde.UnitOfWork.{Op}
use noddde.Kafka.{
  Message, Client, Config, KafkaEventBus, Bus, new_bus, topic_name, on, connect, subscribe_topics,
  provision_topics, provision_pending, create_with_admin, topic_config, open_connection,
}
use noddde.Kafka.Consumer.{
  Location, Runtime, offset_key, park_to_dlq, attempt_of, count_attempt, each_message,
  handle_message, handle_parsed, settle_message, on_rejection, message_value, event_name_of, parked,
  dlq_message, dlq_topic,
}
use noddde.Kafka.Delivery.{IsCommitted, IsUp}
use noddde.Kafka.Redelivery.{
  consume, message_at, consume-ends, failing-consume, event_name_of-topic_name,
}
use noddde.Kafka.Subscribing.{listens, IsListening, IsTracked}
use noddde.Kafka.Subscriptions.{on-IsListening, connect-IsListening, reconnect_deaf}
use noddde.Broker.{Handler, rejected}
use noddde.Broker.{first_rejection, settle_all}

abbrev World : Type 0
World = List Message × ℕ

abbrev config : Config ℕ
config = record {
  topic_prefix = some "shop.";
  topic_partitions = none;
  replication_factor = none;
  max_retries = some 2;
  dlq_topic_suffix = none;
  partition_key_strategy = none;
}

abbrev quiet : Op World
quiet w = (ok tt, w)

-- the fetch loop fails the first `failures` times
abbrev client_failing : ℕ → Client World
client_failing failures = record {
  admin_connect = quiet;
  create_topics = λ topics. quiet;
  admin_disconnect = quiet;
  producer_connect = quiet;
  consumer_connect = quiet;
  subscribe = λ topic. quiet;
  run = λ w. ((if leb failures w.1 then ok tt else err (thrown "no broker")), (w.0, suc w.1));
  stop = quiet;
  consumer_disconnect = quiet;
  producer_disconnect = quiet;
  send = λ m w. (ok tt, (w.0 ++ m ∷ [], w.1));
  commit_offsets = λ topic partition offset. quiet;
}

abbrev client : Client World
client = client_failing 0

client-IsUp : IsUp client
client-IsUp = ((λ w. refl), (λ topics w. refl), (λ w. refl), (λ m w. refl), (λ t p o w. refl))

abbrev placed : Event ℕ
placed = record { name = "Placed"; payload = 7; metadata = none }

abbrev runtime : Runtime ℕ
runtime = record {
  parse = λ raw. if raw == "{}" then ok placed else err (thrown "SyntaxError");
  show = λ n. if eqb n 0 then "0" else "n";
  error_message = λ e. "boom";
  timestamp = "2024-01-01T00:00:00.000Z";
}

abbrev failing_handler : Handler World (Event ℕ)
failing_handler = record { run = λ event w. (rejected (some (thrown "boom")), w) }

abbrev vague_handler : Handler World (Event ℕ)
vague_handler = record { run = λ event w. (rejected none, w) }

abbrev bus_with : Handler World (Event ℕ) → KafkaEventBus ℕ World
bus_with h = record new_bus {
  handlers = ("Placed", h ∷ []) ∷ [];
  connected = true;
  consumer = some ("shop.Placed" ∷ []);
  subscribed_topics = "shop.Placed" ∷ [];
}

abbrev place : Location
place = record { topic = "shop.Placed"; partition = 0; offset = 4 }

abbrev start : Bus ℕ World
start = (bus_with failing_handler, ([], 0))

-- the third delivery parks the message, and its count is dropped
parked_test :
    (let t = (consume config client runtime 9 (message_at place "{}") start) in
      (t.0 ≡ 3)
      × (t.1
          ≡ some (
            record (bus_with failing_handler) { provisioned_topics = "shop.Placed.dlq" ∷ [] },
            (dlq_message config client runtime place "{}" (thrown "boom") 3 ∷ [], 0),
          )))
unfolding consume each_message message_value handle_message handle_parsed settle_message
    on_rejection attempt_of count_attempt park_to_dlq provision_topics provision_pending
    create_with_admin parked settle_all first_rejection event_name_of get set delete offset_key
    dlq_topic dlq_message topic_config new_bus
parked_test = (refl, refl)

-- A handler that rejects with `undefined` counts as one that did not reject.
undefined_rejection_test :
    (each_message config client runtime (message_at place "{}") (bus_with vague_handler, ([], 0))).0
    ≡ ok tt
unfolding each_message message_value handle_message handle_parsed settle_message settle_all
    first_rejection event_name_of get
undefined_rejection_test = refl

consume-ends_example :
    (s' : Bus ℕ World) × ((consume config client runtime 3 (message_at place "{}") start).1
      ≡ some s')
    × IsCommitted config client runtime place s'
    × ((consume config client runtime 3 (message_at place "{}") start).0 ≤ 3)
unfolding get new_bus
consume-ends_example =
    consume-ends config client runtime 3 place "{}" start client-IsUp refl (omega arith)

failing-consume_example : (consume config client runtime 3 (message_at place "{}") start).0 ≡ 3
unfolding get new_bus settle_all first_rejection event_name_of
failing-consume_example =
    failing-consume config client runtime 3 place "{}" placed start client-IsUp refl
      (λ w. (thrown "boom", refl)) refl (omega arith)

event_name_of-topic_name_test :
    event_name_of config client runtime (topic_name config "Placed") ≡ "Placed"
event_name_of-topic_name_test = event_name_of-topic_name config client runtime "Placed"

abbrev idle_bus : KafkaEventBus ℕ World
idle_bus = record new_bus { handlers = ("Placed", failing_handler ∷ []) ∷ [] }

abbrev connecting_run : Result (Unit {0}) × Bus ℕ World
connecting_run = connect config client (idle_bus, ([], 0))

connect-IsListening_example :
    (connecting_run.1.0.connected ≡ true)
    × IsListening config connecting_run.1.0
    × IsTracked connecting_run.1.0
unfolding connect open_connection provision_topics provision_pending create_with_admin
    subscribe_topics keys new_bus topic_name
connect-IsListening_example =
    connect-IsListening config client (idle_bus, ([], 0)) refl refl refl refl

abbrev second : KafkaEventBus ℕ World
second = record (bus_with failing_handler) {
  handlers = ("Placed", failing_handler ∷ failing_handler ∷ []) ∷ [];
}

bus_with-IsTracked : IsTracked (bus_with failing_handler)
bus_with-IsTracked topic h = h

bus_with-IsListening : IsListening config (bus_with failing_handler)
unfolding get topic_name
bus_with-IsListening name has = elim (Bool-cases ("Placed" == name)) [
  | inl same ↦
      subst (λ n. listens (bus_with failing_handler) (topic_name config n) ≡ true)
        ((eq_iff "Placed" name).0 same) refl
  | inr other ↦ absurd (ground (arith, has, other))
]

on-IsListening_test : IsListening config second × IsTracked second
unfolding on topic_name get set new_bus
on-IsListening_test =
    on-IsListening config (bus_with failing_handler) second "Placed" failing_handler refl
      bus_with-IsTracked bus_with-IsListening refl

-- The first connection fails behind the loop; the second one succeeds.
abbrev retried : Bus ℕ World
retried = (connect config (client_failing 1) (idle_bus, ([], 0))).1

failed_connect_test :
    ((connect config (client_failing 1) (idle_bus, ([], 0))).0 ≡ err (thrown "no broker"))
    × (retried.0.subscribed_topics ≡ "shop.Placed" ∷ [])
unfolding connect open_connection provision_topics provision_pending create_with_admin
    subscribe_topics keys new_bus topic_name
failed_connect_test = (refl, refl)

reconnect_deaf_example :
    ((connect config (client_failing 1) retried).1.0.connected ≡ true)
    × ((connect config (client_failing 1) retried).1.0.consumer ≡ some [])
unfolding connect open_connection provision_topics provision_pending create_with_admin
    subscribe_topics keys new_bus topic_name
reconnect_deaf_example = reconnect_deaf config (client_failing 1) retried refl refl (refl, tt) refl
