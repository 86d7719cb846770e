-- ===== src/RabbitMq/Channels.antt =====
-- What connecting does to the bus: which queues the channel consumes, and when it is connected.
use noddde.Base.{
  ℕ, String, ◌≡◌, refl, ap, ◌⊎◌, inl, inr, List, [], ◌∷◌, ◌++◌, append_assoc, append-nil, Option,
  none, some, true, or_default, arith,
}
use noddde.Result.{Error, Result, ok, err, Result-cases}
use noddde.Map.{keys}
use noddde.Broker.{on_world}
use noddde.UnitOfWork.{Op}
use noddde.RabbitMq.{
  Client, Config, Bus, RabbitMqEventBus, setup_consumer, assert_dead_letter_topology,
  assert_retry_topology, consume_queue, setup_on,
}
use noddde.RabbitMq.Connecting.{Runtime, setup_consumers, open_channel}

-- A call that succeeds leaves the bus `b`; one that fails, a bus that is connected as before.
abbrev pub Leads :
    {P W : Type 0}
    → RabbitMqEventBus P W
    → RabbitMqEventBus P W
    → Result (Unit {0}) × Bus P W
    → Type 0
Leads start b t =
    ((t.0 ≡ ok tt) × (t.1.0 ≡ b))
    ⊎ ((e : Error) × (t.0 ≡ err e) × (t.1.0.connected ≡ start.connected))

module _ {P W : Type 0} (config : Config) (client : Client W) (runtime : Runtime) where
  assert_retry_topology-bus :
      (n : Option ℕ) (s : Bus P W) → (assert_retry_topology config client n s).1.0 ≡ s.0
  unfolding assert_retry_topology assert_dead_letter_topology
  assert_retry_topology-bus none s = refl
  assert_retry_topology-bus (some n) s = ground arith

  abbrev pub consuming : RabbitMqEventBus P W → List String → RabbitMqEventBus P W
  consuming b names = record b { channel = some names }

  consume_queue-Leads :
      (name : String) (names : List String) (s : Bus P W)
      → Leads s.0 (consuming s.0 (names ++ name ∷ [])) (consume_queue config client name names s)
  unfolding consume_queue
  consume_queue-Leads name names s =
      elim (Result-cases (consume_queue config client name names s).0) [
        | inl (e, failed) ↦
            inr (e, failed, ground (arith, assert_retry_topology-bus config.max_retries s))
        | inr (u, done) ↦ inl (
          ground (arith, done),
          ground (arith, done, assert_retry_topology-bus config.max_retries s),
        )
      ]

  setup_consumers-Leads :
      (todo names : List String) (s : Bus P W)
      → s.0.channel ≡ some names
      → Leads s.0 (consuming s.0 (names ++ todo)) (setup_consumers config client runtime todo s)
  unfolding setup_consumers setup_consumer setup_on
  setup_consumers-Leads [] names s h = inl (refl, ground (arith, h, append-nil names))
  setup_consumers-Leads (name ∷ todo) names s h =
      let t = consume_queue config client name names s in
      let first : setup_consumer config client name s ≡ t =
        ap (λ c. setup_on config client c name s) h in
      elim (consume_queue-Leads name names s) [
        | inr (e, failed, same) ↦
            inr (e, ground (arith, first, failed), ground (arith, first, failed, same))
        | inl (done, b) ↦
            let on_channel : t.1.0.channel ≡ some (names ++ name ∷ []) =
              ap (λ (x : RabbitMqEventBus P W). x.channel) b in
            elim (setup_consumers-Leads todo (names ++ name ∷ []) t.1 on_channel) [
              | inr (e, failed, same) ↦ inr (
                e,
                ground (arith, first, done, failed),
                ground (arith, first, done, failed, same, b),
              )
              | inl (done', b') ↦ inl (
                ground (arith, first, done, done'),
                ground (arith, first, done, done', b, b', append_assoc names (name ∷ []) todo),
              )
            ]
      ]

  abbrev pub online : RabbitMqEventBus P W → RabbitMqEventBus P W
  online b = record b { channel = some (keys b.handlers); connected = true }

  -- A channel that was opened consumes the queue of every event name that has a handler.
  pub open_channel-Leads :
      (declare : Op (Bus P W)) (s : Bus P W)
      → ((t : Bus P W) → (declare t).1.0 ≡ t.0)
      → Leads s.0 (online s.0) (open_channel config client runtime declare s)
  unfolding open_channel
  open_channel-Leads declare s keeps =
      let s1 = (on_world client.create_confirm_channel s).1 in
      let s2 : Bus P W = (
        record s1.0 { channel = some [] },
        (client.prefetch (or_default config.prefetch_count 10) s1.1).1,
      ) in
      let s3 = (declare s2).1 in
      let on_channel : s3.0.channel ≡ some [] =
        ap (λ (x : RabbitMqEventBus P W). x.channel) (keeps s2) in
      let all = setup_consumers-Leads (keys s3.0.handlers) [] s3 on_channel in
      elim (Result-cases (open_channel config client runtime declare s).0) [
        | inl (e, failed) ↦ inr (e, failed, ground (arith, failed, keeps s2, all))
        | inr (u, done) ↦ inl (ground (arith, done), ground (arith, done, keeps s2, all))
      ]
