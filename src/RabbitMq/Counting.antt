-- ===== src/RabbitMq/Counting.antt =====
-- How many connections are open: what the clients do to their number, and which operations of the
-- bus leave it.
use noddde.Base.{ℕ, suc, String, ◌≡◌, refl, List, [], ◌∷◌, Option, none, some, or_default, arith}
use noddde.Result.{Error, ok, err}
use noddde.Map.{keys}
use noddde.Broker.{on_world}
use noddde.UnitOfWork.{Op, Action}
use noddde.RabbitMq.{
  ExchangeType, Client, Config, Bus, setup_consumer, assert_dead_letter_topology,
  assert_retry_topology, consume_queue, setup_on, queue_name, dlx_name, dlq_name, fanout,
  exchange_name_of,
}
use noddde.RabbitMq.Connecting.{Runtime, setup_consumers, open_channel}

-- A call that opens and closes no connection.
abbrev pub KeepsOpen : {W A : Type 0} → (W → ℕ) → Action W A → Type 0
KeepsOpen {W = W} opened op = (w : W) → opened (op w).1 ≡ opened w

-- `opened` counts the connections that are open: `connect` opens one unless it rejects, and
-- `close` closes one, also where it rejects.
pub record IsCounted {W : Type 0} (opened : W → ℕ) (client : Client W) : Type 0 where
  pub connect_ok :
      (w : W) → (client.connect w).0 ≡ ok tt → opened (client.connect w).1 ≡ suc (opened w)
  pub connect_err :
      (w : W) (e : Error) → (client.connect w).0 ≡ err e → opened (client.connect w).1 ≡ opened w
  pub closes : (w : W) (n : ℕ) → opened w ≡ suc n → opened (client.close_connection w).1 ≡ n
  pub keeps_channel : KeepsOpen opened client.create_confirm_channel
  pub keeps_prefetch : (n : ℕ) → KeepsOpen opened (client.prefetch n)
  pub keeps_exchange :
      (x : String) (t : ExchangeType) → KeepsOpen opened (client.assert_exchange x t)
  pub keeps_queue : (q : String) → KeepsOpen opened (client.assert_queue q)
  pub keeps_bind : (q x k : String) → KeepsOpen opened (client.bind_queue q x k)
  pub keeps_consume : (q : String) → KeepsOpen opened (client.consume q)
  pub keeps_sleep : (n : ℕ) (w : W) → opened (client.sleep n w) ≡ opened w

module _ {P W : Type 0} (config : Config) (client : Client W) (runtime : Runtime) (opened : W → ℕ)
    (laws : IsCounted opened client) where
  assert_dead_letter_topology-keeps :
      (s : Bus P W) → opened (assert_dead_letter_topology config client s).1.1 ≡ opened s.1
  unfolding assert_dead_letter_topology
  assert_dead_letter_topology-keeps s =
      let w1 = (client.assert_exchange (dlx_name config) fanout s.1).1 in
      let w2 = (client.assert_queue (dlq_name config) w1).1 in
      ground (
        arith,
        laws.keeps_exchange (dlx_name config) fanout s.1,
        laws.keeps_queue (dlq_name config) w1,
        laws.keeps_bind (dlq_name config) (dlx_name config) "" w2,
      )

  assert_retry_topology-keeps :
      (n : Option ℕ) (s : Bus P W)
      → opened (assert_retry_topology config client n s).1.1 ≡ opened s.1
  unfolding assert_retry_topology
  assert_retry_topology-keeps none s = refl
  assert_retry_topology-keeps (some n) s = assert_dead_letter_topology-keeps s

  setup_on-keeps :
      (names : Option (List String)) (name : String) (s : Bus P W)
      → opened (setup_on config client names name s).1.1 ≡ opened s.1
  unfolding consume_queue setup_on
  setup_on-keeps none name s = refl
  setup_on-keeps (some names) name s =
      let q = queue_name config name in
      let w1 = (assert_retry_topology config client config.max_retries s).1.1 in
      let w2 = (client.assert_queue q w1).1 in
      let w3 = (client.bind_queue q (exchange_name_of config) name w2).1 in
      ground (
        arith,
        assert_retry_topology-keeps config.max_retries s,
        laws.keeps_queue q w1,
        laws.keeps_bind q (exchange_name_of config) name w2,
        laws.keeps_consume q w3,
      )

  setup_consumers-keeps :
      (names : List String) (s : Bus P W)
      → opened (setup_consumers config client runtime names s).1.1 ≡ opened s.1
  unfolding setup_consumers setup_consumer
  setup_consumers-keeps [] s = refl
  setup_consumers-keeps (name ∷ names) s = ground (
    arith,
    setup_on-keeps s.0.channel name s,
    setup_consumers-keeps names (setup_consumer config client name s).1,
  )

  pub open_channel-keeps :
      (declare : Op (Bus P W)) (s : Bus P W)
      → ((t : Bus P W) → opened (declare t).1.1 ≡ opened t.1)
      → opened (open_channel config client runtime declare s).1.1 ≡ opened s.1
  unfolding open_channel
  open_channel-keeps declare s keeps =
      let s1 = (on_world client.create_confirm_channel s).1 in
      let s2 : Bus P W = (
        record s1.0 { channel = some [] },
        (client.prefetch (or_default config.prefetch_count 10) s1.1).1,
      ) in
      let s3 = (declare s2).1 in
      ground (
        arith,
        laws.keeps_channel s.1,
        laws.keeps_prefetch (or_default config.prefetch_count 10) s1.1,
        keeps s2,
        setup_consumers-keeps (keys s3.0.handlers) s3,
      )
