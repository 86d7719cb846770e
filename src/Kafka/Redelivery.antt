-- ===== src/Kafka/Redelivery.antt =====
-- How often a message is delivered, and when its offset is committed.
use noddde.Base.{
  All, ℕ, zero, suc, ◌+◌, ◌≤◌, ◌<◌, String, ◌≡◌, sym, ap, ◌⊎◌, inl, inr, List, [], subst, Option,
  none, some, or_default, arith, leb, Bool-cases,
}
use text.Mathlib.TextPositions.{starts_with-append, slice-append_right, len-append}
use noddde.Result.{Error, ok, err}
use noddde.Event.{Event}
use noddde.Map.{Map, get}
use noddde.Kafka.{Client, Config, Bus, topic_name}
use noddde.Kafka.Consumer.{
  handle_parsed, settle_message, message_value, Location, Delivered, Runtime, max_retries,
  offset_key, park_to_dlq, count_attempt, attempt_of, on_rejection, handle_message, event_name_of,
  each_message,
}
use noddde.Kafka.Delivery.{IsUp, IsCommitted, IsQuiet, on_rejection-retry, each_message-outcome}
use noddde.Broker.{Handler}
use noddde.Broker.{first_rejection, settle_all}

abbrev pub message_at : Location → String → Delivered
message_at l raw = record { location = l; value = some raw }

module _ {P W : Type 0} (config : Config P) (client : Client W) (runtime : Runtime P) where
  -- The group delivers a message again until it is let through: how many deliveries that takes,
  -- and the bus behind the last one; `none` is fuel that ran out.
  unfoldable pub consume : ℕ → Delivered → Bus P W → ℕ × Option (Bus P W)
  consume zero m s = (0, none)
  consume (suc fuel) m s =
      let t = each_message config client runtime m s in
      let rest = consume fuel m t.1 in
      elim t.0 [ ok _ ↦ (1, some t.1) | err _ ↦ (suc rest.0, rest.1) ]

  consume-counted :
      (fuel : ℕ) (l : Location) (raw : String) (s : Bus P W)
      → IsUp client
      → attempt_of config client runtime l s ≤ max_retries config client runtime + 1
      → max_retries config client runtime + 2 ≤ attempt_of config client runtime l s + fuel
      → (s' : Bus P W) × ((consume fuel (message_at l raw) s).1 ≡ some s')
        × IsCommitted config client runtime l s'
        × ((consume fuel (message_at l raw) s).0 + attempt_of config client runtime l s
            ≤ max_retries config client runtime + 2)
  unfolding consume attempt_of
  consume-counted zero l raw s up le enough = absurd (omega arith)
  consume-counted (suc fuel) l raw s up le enough =
      let t = each_message config client runtime (message_at l raw) s in
      elim (each_message-outcome config client runtime l raw s up) [
        | inl (done, committed) ↦ (t.1, ground (arith, done), committed, ground (arith, done))
        | inr (e, failed, left, more) ↦
            let (s', ends, committed, few) =
              consume-counted fuel l raw t.1 up (ground (arith, more)) (ground (arith, more)) in
            (s', ground (arith, failed, ends), committed, ground (arith, failed, few, more))
      ]

  -- While the clients' calls succeed, a message that has not been delivered before is let through
  -- after at most `max_retries + 1` deliveries, whatever the promises of its handlers settle to, and
  -- the last call of the clients then commits the offset behind it. A handler gives a promise.
  pub consume-ends :
      (fuel : ℕ) (l : Location) (raw : String) (s : Bus P W)
      → IsUp client
      → get s.0.delivery_counts (offset_key config client runtime l) ≡ none
      → max_retries config client runtime < fuel
      → (s' : Bus P W) × ((consume fuel (message_at l raw) s).1 ≡ some s')
        × IsCommitted config client runtime l s'
        × ((consume fuel (message_at l raw) s).0 ≤ max_retries config client runtime + 1)
  unfolding attempt_of
  consume-ends fuel l raw s up fresh lt =
      let first = ap (λ o. or_default o 0 + 1) fresh in
      let (s', ends, committed, few) =
        consume-counted fuel l raw s up (ground (arith, first)) (ground (arith, first)) in
      (s', ends, committed, ground (arith, few, first))

  -- the handlers that the message at `l` is for
  abbrev pub handlers_at : Location → Bus P W → List (Handler W (Event P))
  handlers_at l s = or_default (get s.0.handlers (event_name_of config client runtime l.topic)) []

  -- whatever the world is, one of them rejects
  abbrev pub IsFailing : List (Handler W (Event P)) → Event P → Type 0
  IsFailing hs event = (w : W) → (e : Error) × (first_rejection (settle_all hs event w).0 ≡ some e)

  each_message-failing :
      (l : Location) (raw : String) (event : Event P) (s : Bus P W)
      → runtime.parse raw ≡ ok event
      → IsFailing (handlers_at l s) event
      → attempt_of config client runtime l s ≤ max_retries config client runtime
      → (let t = each_message config client runtime (message_at l raw) s in
          (e : Error) × (t.0 ≡ err e)
          × (attempt_of config client runtime l t.1 ≡ attempt_of config client runtime l s + 1)
          × (t.1.0.handlers ≡ s.0.handlers))
  unfolding each_message message_value handle_message handle_parsed settle_message on_rejection
      attempt_of
  each_message-failing l raw event s h failing le =
      let (e, loud) = failing s.1 in
      let w = (settle_all (handlers_at l s) event s.1).1 in
      let (failed, more) = on_rejection-retry config client runtime l raw e (s.0, w) le in
      (
        e,
        ground (arith, h, loud, failed),
        ground (arith, h, loud, more, failed),
        ground (arith, h, loud, failed),
      )

  failing-counted :
      (fuel : ℕ) (l : Location) (raw : String) (event : Event P) (s : Bus P W)
      → IsUp client
      → runtime.parse raw ≡ ok event
      → IsFailing (handlers_at l s) event
      → attempt_of config client runtime l s ≤ max_retries config client runtime + 1
      → max_retries config client runtime + 2 ≤ attempt_of config client runtime l s + fuel
      → (consume fuel (message_at l raw) s).0 + attempt_of config client runtime l s
        ≡ max_retries config client runtime + 2
  unfolding consume attempt_of
  failing-counted zero l raw event s up h failing le enough = absurd (omega arith)
  failing-counted (suc fuel) l raw event s up h failing le enough =
      let t = each_message config client runtime (message_at l raw) s in
      let n = attempt_of config client runtime l s in
      elim (Bool-cases (leb n (max_retries config client runtime))) [
        | inl left ↦
            let (e, failed, more, same) =
              each_message-failing l raw event s h failing (ground arith) in
            let hs =
              ap
                (λ (m : Map (List (Handler W (Event P)))).
                  or_default (get m (event_name_of config client runtime l.topic)) [])
                same in
            let rest =
              failing-counted fuel l raw event t.1 up h
                (subst (λ x. IsFailing x event) (sym hs) failing) (ground (arith, more))
                (ground (arith, more)) in
            ground (arith, failed, more, rest)
        | inr gone ↦ elim (each_message-outcome config client runtime l raw s up) [
          | inl (done, committed) ↦ ground (arith, done)
          | inr (e, failed, left, more) ↦ absurd (ground (arith, left, gone))
        ]
      ]

  -- While the clients' calls succeed, a message that has not been delivered before, that parses and
  -- that one of its handlers rejects with an error at every delivery is delivered exactly
  -- `max_retries + 1` times.
  pub failing-consume :
      (fuel : ℕ) (l : Location) (raw : String) (event : Event P) (s : Bus P W)
      → IsUp client
      → runtime.parse raw ≡ ok event
      → IsFailing (handlers_at l s) event
      → get s.0.delivery_counts (offset_key config client runtime l) ≡ none
      → max_retries config client runtime < fuel
      → (consume fuel (message_at l raw) s).0 ≡ max_retries config client runtime + 1
  unfolding attempt_of
  failing-consume fuel l raw event s up h failing fresh lt =
      let first = ap (λ o. or_default o 0 + 1) fresh in
      let counted =
        failing-counted fuel l raw event s up h failing (ground (arith, first))
          (ground (arith, first)) in
      ground (arith, counted, first)

  -- The reasons for which a message may be let through: it does not parse; every promise of a
  -- handler was fulfilled or rejected with `undefined`; or its attempts are used up and its copy was sent to the dead-letter topic.
  abbrev pub MayPass : Location → String → Bus P W → Type 0
  MayPass l raw s =
      ((e : Error) × (runtime.parse raw ≡ err e))
      ⊎ ((event : Event P) × (runtime.parse raw ≡ ok event)
          × (let (results, w) = settle_all (handlers_at l s) event s.1 in
              All IsQuiet results
              ⊎ ((e : Error) × (first_rejection results ≡ some e)
                  × (max_retries config client runtime < attempt_of config client runtime l s)
                  × ((park_to_dlq config client runtime l raw e
                        (attempt_of config client runtime l s)
                        (count_attempt config client runtime l (s.0, w))).0
                      ≡ ok tt))))

  -- The consumer finds the event name that the topic was made of.
  pub event_name_of-topic_name :
      (name : String) → event_name_of config client runtime (topic_name config name) ≡ name
  unfolding event_name_of topic_name
  event_name_of-topic_name name =
      let prefix = or_default config.topic_prefix "" in
      rw (starts_with-append prefix name, len-append prefix name) (slice-append_right prefix name)
