-- ===== src/Kafka/Consumer.antt =====
-- The consumer side of packages/adapters/kafka/src/kafka-event-bus.ts: `eachMessage`,
-- `_handleMessage` and `_parkToDlq`. An offset is a number, `show` its decimal text.
-- A handler gives a promise, as an async function does: one that throws before it has a promise
-- would end `_handleMessage` ahead of the count of the delivery. A body that parses is an event: the
-- body `null`, whose name cannot be read, would end it at the same place.
use noddde.Base.{ℕ, ◌+◌, String, [], ◌∷◌, Option, none, some, leb, or_default, if◌then◌else◌}
use Prim.Native.String.{◌++◌ as join, len, slice}
use text.Mathlib.Text.{starts_with}
use noddde.Result.{Error, Result, ok, err}
use noddde.Event.{Event}
use noddde.Map.{get, set, delete}
use noddde.UnitOfWork.{Op, after}
use noddde.Kafka.{Message, Client, Config, Bus, provision_topics, wire_content_type}
use noddde.Broker.{settle_all, first_rejection}
use noddde.Broker.{on_world}

pub record Location : Type 0 where
  pub topic : String
  pub partition : ℕ
  pub offset : ℕ

-- `EachMessagePayload`; a tombstone has no value
pub record Delivered : Type 0 where
  pub location : Location
  pub value : Option String

-- What the language gives: `JSON.parse`, `String(number)`, the message of an error, the clock.
pub record Runtime (P : Type 0) : Type 0 where
  pub parse : String → Result (Event P)
  pub show : ℕ → String
  pub error_message : Error → String
  pub timestamp : String

abbrev pub default_max_retries : ℕ
default_max_retries = 5

module _ {P W : Type 0} (config : Config P) (client : Client W) (runtime : Runtime P) where
  abbrev pub max_retries : ℕ
  max_retries = or_default config.max_retries default_max_retries

  unfoldable pub offset_key : Location → String
  offset_key l =
      join l.topic (join ":" (join (runtime.show l.partition) (join ":" (runtime.show l.offset))))

  unfoldable pub dlq_topic : Location → String
  dlq_topic l = join l.topic (or_default config.dlq_topic_suffix ".dlq")

  unfoldable pub dlq_message : Location → String → Error → ℕ → Message
  dlq_message l raw failure attempts = record {
    topic = dlq_topic l;
    key = none;
    value = raw;
    headers =
        ("content-type", wire_content_type)
        ∷ ("x-noddde-dlq-error", runtime.error_message failure)
        ∷ ("x-noddde-dlq-attempts", runtime.show attempts)
        ∷ ("x-noddde-dlq-original-topic", l.topic)
        ∷ ("x-noddde-dlq-original-partition", runtime.show l.partition)
        ∷ ("x-noddde-dlq-original-offset", runtime.show l.offset)
        ∷ ("x-noddde-dlq-timestamp", runtime.timestamp)
        ∷ [];
  }

  unfoldable pub park_to_dlq : Location → String → Error → ℕ → Op (Bus P W)
  park_to_dlq l raw failure attempts s =
      after (provision_topics config client (dlq_topic l ∷ []) s)
        (λ _. on_world (client.send (dlq_message l raw failure attempts)))

  -- `.catch(log)` on the parking of a message that does not parse
  unfoldable pub poison : Option Location → String → Error → Op (Bus P W)
  poison none raw failure s = (ok tt, s)
  poison (some l) raw failure s = (ok tt, (park_to_dlq l raw failure 1 s).1)

  unfoldable pub parked :
      Location → Error → Result (Unit {0}) × Bus P W → Result (Unit {0}) × Bus P W
  parked l failure (err _, s) = (err failure, s)
  parked l failure (ok _, s) =
      (ok tt, (record s.0 { delivery_counts = delete s.0.delivery_counts (offset_key l) }, s.1))

  unfoldable pub attempt_of : Location → Bus P W → ℕ
  attempt_of l s = or_default (get s.0.delivery_counts (offset_key l)) 0 + 1

  unfoldable pub count_attempt : Location → Bus P W → Bus P W
  count_attempt l s = (
    record s.0 { delivery_counts = set s.0.delivery_counts (offset_key l) (attempt_of l s) },
    s.1,
  )

  unfoldable pub on_rejection : Option Location → String → Error → Op (Bus P W)
  unfolding parked count_attempt
  on_rejection none raw failure s = (err failure, s)
  on_rejection (some l) raw failure s =
      let attempt = attempt_of l s in
      let s1 = count_attempt l s in
      if leb attempt max_retries
      then (err failure, s1)
      else parked l failure (park_to_dlq l raw failure attempt s1)

  unfoldable pub settle_message : Option Location → String → Option Error → Op (Bus P W)
  settle_message l raw none s = (ok tt, s)
  settle_message l raw (some failure) s = on_rejection l raw failure s

  unfoldable pub handle_parsed : Option Location → String → String → Result (Event P) → Op (Bus P W)
  unfolding poison settle_message
  handle_parsed l name raw (err failure) s = poison l raw failure s
  handle_parsed l name raw (ok event) s =
      let (results, w) = settle_all (or_default (get s.0.handlers name) []) event s.1 in
      settle_message l raw (first_rejection results) (s.0, w)

  unfoldable pub handle_message : String → String → Option Location → Op (Bus P W)
  unfolding handle_parsed
  handle_message name raw l s = handle_parsed l name raw (runtime.parse raw) s

  unfoldable pub event_name_of : String → String
  event_name_of topic =
      let prefix = or_default config.topic_prefix "" in
      if starts_with topic prefix then slice topic (len prefix) (len topic) else topic

  unfoldable pub message_value : Location → Option String → Op (Bus P W)
  message_value l none s = (ok tt, s)
  message_value l (some raw) s =
      after (handle_message (event_name_of l.topic) raw (some l) s) (λ _ s1.
        after (on_world (client.commit_offsets l.topic l.partition (l.offset + 1)) s1) (λ _ s2. (
          ok tt,
          (record s2.0 { delivery_counts = delete s2.0.delivery_counts (offset_key l) }, s2.1),
        )))

  unfoldable pub each_message : Delivered → Op (Bus P W)
  unfolding message_value
  each_message m s = message_value m.location m.value s
