-- ===== src/Nats.antt =====
-- packages/adapters/nats/src/nats-event-bus.ts: the bus over JetStream, whose clients are the
-- parameter `Client` over a world `W`. `subscriptions` holds the event names whose subscription
-- was made on the present connection. Log lines are left out.
pub mod Subjects
pub mod Consumer
pub mod Connection
pub mod Redelivery
mod Tests
use noddde.Base.{
  ℕ, String, List, [], ◌∷◌, ◌++◌, Option, none, some, Bool, true, false, not, ◌&&◌, ◌||◌,
  or_default, ◌==◌, if◌then◌else◌,
}
use Prim.Native.Char.{code}
use Prim.Native.String.{◌++◌ as join}
use Prim.Native.String
use noddde.Result.{Result, ok, err, thrown, prefix_required, subject_too_broad}
use noddde.Event.{Event}
use noddde.Map.{Map, get, set, keys}
use noddde.Outbox.{contains}
use noddde.Broker.{Handler, on_world}
use noddde.UnitOfWork.{Op, Action, after}

-- `consumerOpts`
pub record Subscription : Type 0 where
  pub subject : String
  pub durable : String
  pub deliver_group : String
  pub filter_subject : String
  pub max_ack_pending : ℕ
  pub max_deliver : Option ℕ

pub record Publication : Type 0 where
  pub subject : String
  pub content : String
  pub headers : Map String

-- The connection, the JetStream client and its manager, and the answers to a message.
pub record Client (W : Type 0) : Type 0 where
  pub connect : Op W
  pub jetstream_manager : Op W
  pub stream_info : String → Op W
  pub stream_add : String → List String → Op W
  pub subscribe : Subscription → Op W
  pub publish : Publication → Op W
  pub is_closed : W → Bool
  pub drain : Op W
  pub ack : ℕ → Op W
  pub term : ℕ → Op W
  pub nak : ℕ → ℕ → Op W

pub record Config : Type 0 where
  pub consumer_group : String
  pub stream_name : Option String
  pub subject_prefix : Option String
  pub prefetch_count : Option ℕ
  pub max_retries : Option ℕ

pub record NatsEventBus (P W : Type 0) : Type 0 where
  pub nc : Bool
  pub js : Bool
  pub connected : Bool
  pub handlers : Map (List (Handler W (Event P)))
  pub subscribed_event_names : List String
  pub closed : Bool
  pub subscriptions : List String

-- the bus beside the world
abbrev pub Bus : Type 0 → Type 0 → Type 0
Bus P W = NatsEventBus P W × W

-- `prefix.endsWith(".")`
unfoldable pub ends_with_dot : String → Bool
ends_with_dot String.[] = false
ends_with_dot (String.◌∷◌ c String.[]) = String.◌∷◌ c String.[] == "."
ends_with_dot (String.◌∷◌ c (String.◌∷◌ d s)) = ends_with_dot (String.◌∷◌ d s)

-- `/[*>]/.test(s)`
unfoldable pub has_wildcard : String → Bool
has_wildcard String.[] = false
has_wildcard (String.◌∷◌ c s) =
    (String.◌∷◌ c String.[] == "*" || String.◌∷◌ c String.[] == ">") || has_wildcard s

module _ (config : Config) where
  unfoldable pub subject_for : String → String
  subject_for event_name = join (or_default config.subject_prefix "") event_name

  unfoldable pub dlq_subject_for : String → String
  dlq_subject_for event_name = join (or_default config.subject_prefix "") (join "dlq." event_name)

unfoldable pub normalized : String → String
normalized prefix = if ends_with_dot prefix then prefix else join prefix "."

subjects_of : String → Result (List String)
subjects_of prefix =
    let subject = join (normalized prefix) ">" in
    if prefix == ""
    then err prefix_required
    else if subject == ">" || has_wildcard (normalized prefix)
    then err subject_too_broad
    else ok (subject ∷ [])

unfoldable pub build_subjects_for_stream : Config → Result (List String)
unfolding subjects_of
build_subjects_for_stream config = subjects_of (or_default config.subject_prefix "")

module _ {P W : Type 0} where
  unfoldable pub new_bus : NatsEventBus P W
  new_bus = record {
    nc = false;
    js = false;
    connected = false;
    handlers = [];
    subscribed_event_names = [];
    closed = false;
    subscriptions = [];
  }

module _ (config : Config) (sanitize : String → String) where
  -- `sanitize` is the replacement of every character that a durable name may not hold.
  unfoldable pub subscription_for : String → Subscription
  subscription_for event_name =
      let durable_name = join config.consumer_group (join "_" (sanitize event_name)) in
      record {
        subject = subject_for config event_name;
        durable = durable_name;
        deliver_group = durable_name;
        filter_subject = subject_for config event_name;
        max_ack_pending = or_default config.prefetch_count 256;
        max_deliver = config.max_retries;
      }

module _ {W : Type 0} (config : Config) (client : Client W) where
  -- The `catch` around `streams.info`: a stream that is not there is added.
  add_stream : String → Result (List String) → Op W
  add_stream name (err e) w = (err e, w)
  add_stream name (ok subjects) w = client.stream_add name subjects w

  find_stream : String → Result (Unit {0}) × W → Result (Unit {0}) × W
  unfolding add_stream
  find_stream name (ok _, w) = (ok tt, w)
  find_stream name (err _, w) = add_stream name (build_subjects_for_stream config) w

  open_stream : String → Op W
  unfolding find_stream
  open_stream name w =
      after (client.jetstream_manager w) (λ _ w1. find_stream name (client.stream_info name w1))

  unfoldable pub ensure_stream : Op W
  unfolding open_stream
  ensure_stream w =
      let name = or_default config.stream_name "" in
      if name == "" then (ok tt, w) else open_stream name w

-- `if (!nc.isClosed()) await nc.drain()`
drain_open : {W : Type 0} → Client W → Op W
drain_open client w = if client.is_closed w then (ok tt, w) else client.drain w

module _ {P W : Type 0} (config : Config) (client : Client W) (sanitize : String → String) where
  unfoldable pub settle_subscription :
      String → Bool → Result (Unit {0}) × Bus P W → Result (Unit {0}) × Bus P W
  settle_subscription event_name fail_fast (ok _, s) =
      (ok tt, (record s.0 { subscriptions = s.0.subscriptions ++ event_name ∷ [] }, s.1))
  settle_subscription event_name fail_fast (err e, s) = (if fail_fast then err e else ok tt, s)

  unfoldable pub create_subscription_for_event : String → Bool → Op (Bus P W)
  unfolding settle_subscription
  create_subscription_for_event event_name fail_fast s =
      if s.0.js
      then settle_subscription event_name fail_fast
          (on_world (client.subscribe (subscription_for config sanitize event_name)) s)
      else (ok tt, s)

  -- `this._subscribedEventNames.add(eventName)`
  unfoldable pub note_subscribed : String → Bus P W → Bus P W
  note_subscribed event_name s = if contains s.0.subscribed_event_names event_name then s else (
    record s.0 { subscribed_event_names = s.0.subscribed_event_names ++ event_name ∷ [] },
    s.1,
  )

  unfoldable pub activate_names : List String → Op (Bus P W)
  unfolding note_subscribed
  activate_names [] s = (ok tt, s)
  activate_names (name ∷ names) s =
      after (create_subscription_for_event name true (note_subscribed name s))
        (λ _. activate_names names)

  unfoldable pub activate_subscriptions : Op (Bus P W)
  activate_subscriptions s = activate_names (keys s.0.handlers) s

  unfoldable pub connect : Op (Bus P W)
  connect s =
      if s.0.connected
      then (ok tt, s)
      else after (on_world client.connect s) (λ _ s1.
        after
          (on_world (ensure_stream config client)
            (record s1.0 { nc = true; js = true; connected = true }, s1.1))
          (λ _. activate_subscriptions))

  -- The subscription of a new name is not awaited, and its failure is only written to the log.
  unfoldable pub on : String → Handler W (Event P) → Op (Bus P W)
  unfolding note_subscribed
  on event_name h s =
      let s1 : Bus P W = (
        record s.0 {
          handlers =
              set s.0.handlers event_name (or_default (get s.0.handlers event_name) [] ++ h ∷ []);
        },
        s.1,
      ) in
      if s.0.closed
      then (err (thrown "Cannot register handlers on a closed NatsEventBus."), s)
      else if (s.0.connected && s.0.js) && not (contains s.0.subscribed_event_names event_name)
      then (
        ok tt,
        (create_subscription_for_event event_name false (note_subscribed event_name s1)).1,
      )
      else (ok tt, s1)

  unfoldable pub dispatch : (Event P → String) → Event P → Op (Bus P W)
  dispatch stringify event s =
      if not s.0.connected || not s.0.js
      then (err (thrown "NatsEventBus is not connected. Call connect() before dispatch()."), s)
      else on_world
          (client.publish (record {
            subject = subject_for config event.name;
            content = stringify event;
            headers = [];
          }))
          s

  drain_connection : Op (Bus P W)
  unfolding drain_open
  drain_connection s =
      if s.0.nc
      then on_world (drain_open client) (record s.0 { nc = false; js = false }, s.1)
      else (ok tt, s)

  unfoldable pub close : Op (Bus P W)
  unfolding drain_connection
  close s =
      if s.0.closed
      then (ok tt, s)
      else after (drain_connection (record s.0 { closed = true; connected = false }, s.1))
          (λ _ s1. (ok tt, (record s1.0 { handlers = []; subscribed_event_names = [] }, s1.1)))
