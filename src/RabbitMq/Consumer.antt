-- ===== src/RabbitMq/Consumer.antt =====
-- The consumer side of packages/adapters/rabbitmq/src/rabbitmq-event-bus.ts: `_handleMessage`,
-- `_processDelivery` and `_deadLetter`. A delivery never rejects, so that what it gives is what the
-- broker knows of it.
use noddde.Base.{
  ℕ, ◌+◌, String, [], ◌∷◌, Option, none, some, Bool, true, false, ltb, or_default, if◌then◌else◌,
}
use noddde.Result.{Error, Result, ok, err}
use noddde.Event.{Event}
use noddde.Map.{get, set, delete}
use noddde.Broker.{settle_all, first_rejection}
use noddde.RabbitMq.{Delivered, Publication, Client, Config, Bus, dlx_name}

-- `channel.ack`, behind the handlers or a dead letter, or `channel.nack` with a requeue; or the
-- call threw on a stale channel, which is only written to the log, and the broker redelivers.
pub data Answer : Type 0 where
  acked dead_lettered requeued unanswered : Answer

answered : Answer → Result (Unit {0}) → Answer
answered a (ok _) = a
answered a (err _) = unanswered

-- What the language gives: `JSON.parse`, the SHA-256 digest, `String(number)` and the clock.
pub record Runtime (P : Type 0) : Type 0 where
  pub parse : String → Result (Event P)
  pub digest : String → String
  pub show : ℕ → String
  pub timestamp : String

abbrev pub outcome_of : Option Error → Result Bool
outcome_of none = ok false
outcome_of (some e) = err e

module _ {P W : Type 0} (config : Config) (client : Client W) (runtime : Runtime P) where
  handle_parsed : String → Result (Event P) → Bus P W → Result Bool × Bus P W
  handle_parsed name (err _) s = (ok true, s)
  handle_parsed name (ok event) s =
      let (results, w) = settle_all (or_default (get s.0.handlers name) []) event s.1 in
      (outcome_of (first_rejection results), (s.0, w))

  -- `{ poisoned }`
  unfoldable pub handle_message : String → String → Bus P W → Result Bool × Bus P W
  unfolding handle_parsed
  handle_message name content s = handle_parsed name (runtime.parse content) s

  unfoldable pub retry_key : Delivered → String
  retry_key m = or_default m.message_id (runtime.digest m.content)

  unfoldable pub dead_letter_of : String → Delivered → ℕ → Publication
  dead_letter_of name m attempts = record {
    exchange = dlx_name config;
    routing_key = name;
    content = m.content;
    message_id = none;
    headers =
        ("x-original-event-name", name)
        ∷ ("x-death-reason", "max-retries-exceeded")
        ∷ ("x-attempts", runtime.show attempts)
        ∷ ("x-original-timestamp", runtime.timestamp)
        ∷ [];
  }

  -- What `publish` throws is only written to the log.
  unfoldable pub dead_letter : String → Delivered → ℕ → Bus P W → Answer × Bus P W
  unfolding answered
  dead_letter name m attempts s =
      let (r, w) = client.ack m.tag (client.publish (dead_letter_of name m attempts) s.1).1 in
      (answered dead_lettered r, (s.0, w))

  forget : Option String → Bus P W → Bus P W
  forget none s = s
  forget (some key) s = (record s.0 { delivery_counts = delete s.0.delivery_counts key }, s.1)

  answer : Option String → Delivered → Result Bool × Bus P W → Answer × Bus P W
  unfolding answered forget
  answer key m (ok _, s) =
      let (r, w) = client.ack m.tag s.1 in (answered acked r, forget key (s.0, w))
  answer key m (err _, s) = let (r, w) = client.nack m.tag s.1 in (answered requeued r, (s.0, w))

  unfoldable pub try_delivery : Option String → String → Delivered → Bus P W → Answer × Bus P W
  unfolding forget answer
  try_delivery key name m s = answer key m (handle_message name m.content s)

  unfoldable pub count_of : Delivered → Bus P W → ℕ
  count_of m s = or_default (get s.0.delivery_counts (retry_key m)) 0 + 1

  unfoldable pub counted : Delivered → Bus P W → Bus P W
  counted m s =
      (record s.0 { delivery_counts = set s.0.delivery_counts (retry_key m) (count_of m s) }, s.1)

  process_counted : ℕ → String → Delivered → Bus P W → Answer × Bus P W
  unfolding forget counted
  process_counted max_retries name m s =
      let count = count_of m s in
      if ltb max_retries count
      then dead_letter name m count (forget (some (retry_key m)) (counted m s))
      else try_delivery (some (retry_key m)) name m (counted m s)

  process_with : Option ℕ → String → Delivered → Bus P W → Answer × Bus P W
  process_with none name m s = try_delivery none name m s
  process_with (some n) name m s = process_counted n name m s

  unfoldable pub process_delivery : String → Delivered → Bus P W → Answer × Bus P W
  unfolding process_counted process_with
  process_delivery name m s = process_with config.max_retries name m s
