-- ===== src/RabbitMq/Tests.antt =====
-- Runs of the bus over RabbitMQ, and the properties at concrete inputs. The world counts the open
-- connections and the calls of `createConfirmChannel`.
use Prim.Native.Nat.{pred}
use noddde.Base.{
  ℕ, suc, ◌≤◌, ◌≡◌, refl, none, some, [], ◌∷◌, false, leb, arith, ◌==◌, if◌then◌else◌,
}
use noddde.Result.{ok, err, thrown}
use noddde.Event.{Event}
use noddde.Map.{get, keys}
use noddde.Broker.{Handler, rejected, settle_all, first_rejection}
use noddde.UnitOfWork.{Op}
use noddde.RabbitMq.{
  Client, Config, Bus, Delivered, new_bus, setup_consumer, setup_on, consume_queue,
  assert_retry_topology, assert_dead_letter_topology,
}
use noddde.RabbitMq.Connecting.{
  connect, connect_loop, connect_once, settle_connect, settle_open, rethrow_mismatch, open_channel,
  setup_consumers, reconnect_once, reconnect_on, backoff, pause,
}
use noddde.RabbitMq.Connecting
use noddde.RabbitMq.Consumer.{Answer, dead_lettered, Runtime}
use noddde.RabbitMq.Counting.{IsCounted}
use noddde.RabbitMq.Connections.{IsConnection, connect-IsConnection, reconnect_leaks}
use noddde.RabbitMq.Retries.{deliver, IsForgotten, deliver-ends, failing-deliver}

abbrev World : Type 0
World = ℕ × ℕ

abbrev quiet : Op World
quiet w = (ok tt, w)

-- the first `failures` calls of `createConfirmChannel` fail
abbrev client_failing : ℕ → Client World
client_failing failures = record {
  connect = λ w. (ok tt, (suc w.0, w.1));
  create_confirm_channel =
      λ w. ((if leb failures w.1 then ok tt else err (thrown "no channel")), (w.0, suc w.1));
  prefetch = λ n. quiet;
  assert_exchange = λ x t. quiet;
  assert_queue = λ q. quiet;
  bind_queue = λ q x k. quiet;
  consume = λ q. quiet;
  publish = λ p. quiet;
  wait_for_confirms = quiet;
  ack = λ tag. quiet;
  nack = λ tag. quiet;
  close_channel = quiet;
  close_connection = λ w. (ok tt, (pred w.0, w.1));
  sleep = λ n w. w;
}

abbrev opened : World → ℕ
opened w = w.0

client_failing-IsCounted : (failures : ℕ) → IsCounted opened (client_failing failures)
client_failing-IsCounted failures = record {
  connect_ok = λ w h. refl;
  connect_err = λ w e h. absurd (ground arith);
  closes = λ w n h. ground (arith, h);
  keeps_channel = λ w. refl;
  keeps_prefetch = λ n w. refl;
  keeps_exchange = λ x t w. refl;
  keeps_queue = λ q w. refl;
  keeps_bind = λ q x k w. refl;
  keeps_consume = λ q w. refl;
  keeps_sleep = λ n w. refl;
}

abbrev config : Config
config = record {
  exchange_name = none;
  exchange_type = none;
  queue_prefix = "billing";
  prefetch_count = none;
  max_attempts = none;
  initial_delay_ms = none;
  max_delay_ms = none;
  max_retries = some 2;
}

abbrev texts : Connecting.Runtime
texts = record { error_message = λ e. "no channel"; matches_inequivalent = λ m. false }

abbrev placed : Event ℕ
placed = record { name = "Placed"; payload = 7; metadata = none }

abbrev runtime : Runtime ℕ
runtime = record {
  parse = λ raw. if raw == "{}" then ok placed else err (thrown "SyntaxError");
  digest = λ raw. raw;
  show = λ n. "n";
  timestamp = "2024-01-01T00:00:00.000Z";
}

abbrev failing_handler : Handler World (Event ℕ)
failing_handler = record { run = λ event w. (rejected (some (thrown "boom")), w) }

abbrev idle : Bus ℕ World
idle = (record new_bus { handlers = ("Placed", failing_handler ∷ []) ∷ [] }, (0, 0))

-- The first two attempts fail; the third leaves one connection.
connect_test :
    (let t = connect config (client_failing 2) texts idle in
      (t.0 ≡ ok tt) × (t.1.0.channel ≡ some ("Placed" ∷ [])) × (t.1.1 ≡ (1, 3)))
unfolding connect connect_loop connect_once settle_connect settle_open rethrow_mismatch open_channel
    setup_consumers setup_consumer setup_on consume_queue assert_retry_topology
    assert_dead_letter_topology keys new_bus pause backoff
connect_test = (refl, refl, refl)

connect-IsConnection_example :
    IsConnection config
      (client_failing 2)
      texts
      opened
      (client_failing-IsCounted 2)
      0
      (connect config (client_failing 2) texts idle)
unfolding new_bus
connect-IsConnection_example =
    connect-IsConnection config (client_failing 2) texts opened (client_failing-IsCounted 2) idle
      refl refl refl

reconnect_leaks_example : opened (reconnect_once config (client_failing 1) texts idle).1.1 ≡ 1
unfolding reconnect_once reconnect_on open_channel new_bus
reconnect_leaks_example =
    reconnect_leaks config (client_failing 1) texts opened (client_failing-IsCounted 1) idle
      (thrown "no channel") refl refl

abbrev message : Delivered
message = record { tag = 1; content = "{}"; message_id = none }

deliver-ends_example :
    (t : Answer × Bus ℕ World) × ((deliver config
        (client_failing 0)
        runtime
        3
        "Placed"
        message
        idle).1
      ≡ some t)
    × IsForgotten config (client_failing 0) runtime message t
    × ((deliver config (client_failing 0) runtime 3 "Placed" message idle).0 ≤ 3)
unfolding new_bus get
deliver-ends_example =
    deliver-ends config (client_failing 0) runtime 3 2 "Placed" message idle refl (λ w. refl) refl
      (omega arith)

failing-deliver_test :
    (s' : Bus ℕ World) × ((deliver config (client_failing 0) runtime 3 "Placed" message idle).1
      ≡ some (dead_lettered, s'))
    × ((deliver config (client_failing 0) runtime 3 "Placed" message idle).0 ≡ 3)
unfolding new_bus get settle_all first_rejection
failing-deliver_test =
    failing-deliver config (client_failing 0) runtime 3 2 "Placed" message placed idle refl
      (λ w. refl) refl (λ w. (thrown "boom", refl)) refl (omega arith)
