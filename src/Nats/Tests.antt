-- ===== src/Nats/Tests.antt =====
-- Runs of the bus over NATS, and the properties at concrete inputs. The world counts the calls of
-- `subscribe`, of which the second one fails.
use Prim.Native.Nat.{max}
use text.Mathlib.Text.{starts_with}
use noddde.Base.{
  ℕ, suc, ◌≤◌, ◌≡◌, refl, none, some, [], ◌∷◌, true, false, ◌||◌, eqb, arith, ◌==◌, if◌then◌else◌,
}
use noddde.Result.{ok, err, thrown, prefix_required}
use noddde.Event.{Event}
use noddde.Map.{get, keys}
use noddde.Broker.{Handler, rejected, settle_all, first_rejection}
use noddde.UnitOfWork.{Op}
use noddde.Nats.{
  Client, Config, Bus, new_bus, normalized, subject_for, ends_with_dot, has_wildcard,
  build_subjects_for_stream, connect, activate_subscriptions, activate_names,
  create_subscription_for_event, settle_subscription, note_subscribed, ensure_stream,
}
use noddde.Nats.Consumer.{
  Answer, Runtime, delayed, dead_lettered, consume_message, handle_message, compute_nak_delay_ms,
}
use noddde.Nats.Subjects.{takes, stream-takes, compute_nak_delay_ms-bounds}
use noddde.Nats.Connection.{IsJoined, connect-IsJoined}
use noddde.Nats.Redelivery.{deliver, delivered, IsFinal, deliver-ends}

abbrev quiet : Op ℕ
quiet w = (ok tt, w)

abbrev client : Client ℕ
client = record {
  connect = quiet;
  jetstream_manager = quiet;
  stream_info = λ name. quiet;
  stream_add = λ name subjects. quiet;
  subscribe = λ o w. ((if eqb w 1 then err (thrown "no consumer") else ok tt), suc w);
  publish = λ p. quiet;
  is_closed = λ w. false;
  drain = quiet;
  ack = λ tag. quiet;
  term = λ tag. quiet;
  nak = λ tag ms. quiet;
}

abbrev config : Config
config = record {
  consumer_group = "billing";
  stream_name = none;
  subject_prefix = some "myapp";
  prefetch_count = none;
  max_retries = some 3;
}

abbrev placed : Event ℕ
placed = record { name = "Placed"; payload = 7; metadata = none }

abbrev runtime : Runtime ℕ
runtime = record {
  parse = λ raw. if raw == "{}" then ok placed else err (thrown "SyntaxError");
  stringify = λ event. "{}";
  show = λ n. "n";
  error_message = λ e. "boom";
}

abbrev failing_handler : Handler ℕ (Event ℕ)
failing_handler = record { run = λ event w. (rejected (some (thrown "boom")), w) }

abbrev idle : Bus ℕ ℕ
idle = (
  record new_bus {
    handlers = ("Placed", failing_handler ∷ []) ∷ ("Shipped", failing_handler ∷ []) ∷ [];
  },
  0,
)

subjects_test : build_subjects_for_stream config ≡ ok ("myapp.>" ∷ [])
unfolding build_subjects_for_stream normalized ends_with_dot has_wildcard
subjects_test = refl

no_prefix_test :
    build_subjects_for_stream (record config { subject_prefix = none }) ≡ err prefix_required
unfolding build_subjects_for_stream normalized ends_with_dot has_wildcard
no_prefix_test = refl

-- The second subscription fails: the bus is connected, and hears the first name alone.
half_connected_test :
    (let t = connect config client (λ name. name) idle in
      (t.0 ≡ err (thrown "no consumer"))
      × (t.1.0.connected ≡ true)
      × (t.1.0.subscriptions ≡ "Placed" ∷ []))
unfolding connect activate_subscriptions activate_names create_subscription_for_event
    settle_subscription note_subscribed ensure_stream keys new_bus
half_connected_test = (refl, refl, refl)

connect-IsJoined_example :
    IsJoined config client (λ name. name) (connect config client (λ name. name) idle)
unfolding new_bus keys
connect-IsJoined_example =
    connect-IsJoined config client (λ name. name) idle refl refl (omega arith) refl

-- The stream of "myapp.>" does not take "myappPlaced".
stream-takes_test :
    takes (normalized "myapp") (subject_for config "Placed")
    ≡ (ends_with_dot "myapp" || starts_with "Placed" ".")
stream-takes_test = stream-takes config "myapp" "Placed" refl

compute_nak_delay_ms-bounds_example :
    (500 ≤ compute_nak_delay_ms 2)
    × (compute_nak_delay_ms 2 ≤ compute_nak_delay_ms 9)
    × (compute_nak_delay_ms 9 ≤ 30000)
compute_nak_delay_ms-bounds_example = compute_nak_delay_ms-bounds 2 9 (omega arith)

redelivery_test :
    ((consume_message config client runtime "Placed" (delivered 1 "{}" 2) idle).0 ≡ delayed 1000)
    × ((consume_message config client runtime "Placed" (delivered 1 "{}" 3) idle).0 ≡ dead_lettered)
unfolding consume_message handle_message settle_all first_rejection get new_bus compute_nak_delay_ms
redelivery_test = (refl, refl)

deliver-ends_test :
    (t : Answer × Bus ℕ ℕ) × ((deliver config client runtime 3 "Placed" 1 "{}" 1 idle).1 ≡ some t)
    × IsFinal t.0
    × ((deliver config client runtime 3 "Placed" 1 "{}" 1 idle).0 ≤ max 3 1)
deliver-ends_test = deliver-ends config client runtime 3 3 "Placed" 1 "{}" idle refl (omega arith)
