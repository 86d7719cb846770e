-- ===== src/Nats/Consumer.antt =====
-- The consumer side of packages/adapters/nats/src/nats-event-bus.ts: `_handleMessage`, the body of
-- `_consumeSubscription` and `_publishToDeadLetter`. What the answer to a message throws is only
-- written to the log, so that a delivery gives which answer was sent.
use Prim.Native.Nat.{◌*◌, ◌^◌, ◌-◌, min}
use noddde.Base.{
  ℕ, String, [], ◌∷◌, Option, none, some, Bool, false, leb, or_default, if◌then◌else◌,
}
use noddde.Result.{Error, Result, ok, err}
use noddde.Event.{Event}
use noddde.Map.{get}
use noddde.Broker.{settle_all, first_rejection}
use noddde.UnitOfWork.{Op}
use noddde.Nats.{Publication, Client, Config, Bus, subject_for, dlq_subject_for}

-- a `JsMsg`; `info` may be absent
pub record Delivered : Type 0 where
  pub tag : ℕ
  pub content : String
  pub delivery_count : Option ℕ

-- `poisoned` and `dead_lettered` are both `msg.term`; `delayed n` is `msg.nak(n)`.
pub data Answer : Type 0 where
  acked poisoned dead_lettered : Answer
  delayed : ℕ → Answer

-- What the language gives: `JSON`, `String(number)` and the message of an error.
pub record Runtime (P : Type 0) : Type 0 where
  pub parse : String → Result (Event P)
  pub stringify : Event P → String
  pub show : ℕ → String
  pub error_message : Error → String

abbrev pub nak_base_delay_ms : ℕ
nak_base_delay_ms = 500

abbrev pub nak_max_delay_ms : ℕ
nak_max_delay_ms = 30000

unfoldable pub compute_nak_delay_ms : ℕ → ℕ
compute_nak_delay_ms delivery_count =
    min (nak_base_delay_ms * 2 ^ (delivery_count - 1)) nak_max_delay_ms

abbrev pub settled_by : Option Error → Result (Unit {0})
settled_by none = ok tt
settled_by (some e) = err e

module _ {P W : Type 0} (config : Config) (client : Client W) (runtime : Runtime P) where
  handle_parsed : String → Result (Event P) → Op (Bus P W)
  handle_parsed name (err e) s = (err e, s)
  handle_parsed name (ok event) s =
      let (results, w) = settle_all (or_default (get s.0.handlers name) []) event s.1 in
      (settled_by (first_rejection results), (s.0, w))

  unfoldable pub handle_message : String → String → Op (Bus P W)
  unfolding handle_parsed
  handle_message name message_data s = handle_parsed name (runtime.parse message_data) s

  unfoldable pub dead_letter_of : String → String → ℕ → Error → Publication
  dead_letter_of name raw delivery_count e = record {
    subject = dlq_subject_for config name;
    content = raw;
    headers =
        ("noddde-original-subject", subject_for config name)
        ∷ ("noddde-delivery-count", runtime.show delivery_count)
        ∷ ("noddde-failure-reason", runtime.error_message e)
        ∷ [];
  }

  unfoldable pub publish_to_dead_letter : String → String → ℕ → Error → Bus P W → Bus P W
  publish_to_dead_letter name raw delivery_count e s =
      if s.0.js then (s.0, (client.publish (dead_letter_of name raw delivery_count e) s.1).1) else s

  -- `maxRetries !== undefined && deliveryCount >= maxRetries`
  abbrev pub is_exhausted : Option ℕ → ℕ → Bool
  is_exhausted none delivery_count = false
  is_exhausted (some n) delivery_count = leb n delivery_count

  on_failure : String → Delivered → Error → Bus P W → Answer × Bus P W
  on_failure name m e s =
      let count = or_default m.delivery_count 1 in
      let s1 = publish_to_dead_letter name m.content count e s in
      if is_exhausted config.max_retries count
      then (dead_lettered, (s1.0, (client.term m.tag s1.1).1))
      else (
        delayed (compute_nak_delay_ms count),
        (s.0, (client.nak m.tag (compute_nak_delay_ms count) s.1).1),
      )

  answer : String → Delivered → Result (Unit {0}) × Bus P W → Answer × Bus P W
  answer name m (ok _, s) = (acked, (s.0, (client.ack m.tag s.1).1))
  answer name m (err e, s) = on_failure name m e s

  consume_parsed : String → Delivered → Result (Event P) → Bus P W → Answer × Bus P W
  consume_parsed name m (err _) s = (poisoned, (s.0, (client.term m.tag s.1).1))
  consume_parsed name m (ok event) s =
      answer name m (handle_message name (runtime.stringify event) s)

  -- one round of the loop over the messages of a subscription
  unfoldable pub consume_message : String → Delivered → Bus P W → Answer × Bus P W
  unfolding on_failure answer consume_parsed
  consume_message name m s = consume_parsed name m (runtime.parse m.content) s
