-- ===== src/RabbitMq/Connecting.antt =====
-- How the bus over amqplib connects: `connect` with its retries, and the reconnection behind an
-- unexpected close. What others do while a reconnection waits is the parameter `meanwhile`.
use Prim.Native.Nat.{◌*◌, ◌^◌, min}
use noddde.Base.{
  ℕ, zero, suc, ◌+◌, String, List, [], ◌∷◌, Option, none, some, Bool, true, false, ◌&&◌, ◌||◌,
  or_default, is_some, if◌then◌else◌,
}
use text.Mathlib.Text.{find?}
use noddde.Result.{Error, Result, ok, err, thrown, exchange_type_mismatch}
use noddde.Map.{keys}
use noddde.Broker.{on_world}
use noddde.UnitOfWork.{Op, after}
use noddde.RabbitMq.{
  ExchangeType, topic, fanout, Client, Config, Bus, exchange_name_of, exchange_type_of,
  setup_consumer,
}

-- The messages of errors, and the regular expression `inequivalent arg 'type' for exchange`.
pub record Runtime : Type 0 where
  pub error_message : Error → String
  pub matches_inequivalent : String → Bool

includes : String → String → Bool
includes message part = is_some (find? message part)

unfoldable pub is_exchange_type_mismatch : Runtime → Error → Bool
unfolding includes
is_exchange_type_mismatch runtime error =
    let message = runtime.error_message error in
    (includes message "PRECONDITION_FAILED" || includes message "PRECONDITION-FAILED")
    && runtime.matches_inequivalent message

-- `error instanceof ExchangeTypeMismatchError`
abbrev pub is_mismatch_error : Error → Bool
is_mismatch_error (exchange_type_mismatch name type) = true
is_mismatch_error _ = false

abbrev pub type_name : ExchangeType → String
type_name topic = "topic"
type_name fanout = "fanout"

-- `Math.min(initialDelay * Math.pow(2, attempt), maxDelay)`
unfoldable pub backoff : Config → ℕ → ℕ
backoff config attempt =
    min (or_default config.initial_delay_ms 1000 * 2 ^ attempt)
      (or_default config.max_delay_ms 30000)

module _ {P W : Type 0} (config : Config) (client : Client W) (runtime : Runtime) where
  -- the inner `catch` around `assertExchange`
  unfoldable pub rethrow_mismatch : Result (Unit {0}) × Bus P W → Result (Unit {0}) × Bus P W
  rethrow_mismatch (ok _, s) = (ok tt, s)
  rethrow_mismatch (err e, s) = (
    err (
        if is_exchange_type_mismatch runtime e
        then exchange_type_mismatch (exchange_name_of config) (type_name (exchange_type_of config))
        else e),
    s,
  )

  abbrev pub declare_exchange : Op (Bus P W)
  declare_exchange =
      on_world (client.assert_exchange (exchange_name_of config) (exchange_type_of config))

  -- `for (const [eventName] of this._handlers.entries()) await this._setupConsumer(eventName)`
  unfoldable pub setup_consumers : List String → Op (Bus P W)
  setup_consumers [] s = (ok tt, s)
  setup_consumers (name ∷ names) s =
      after (setup_consumer config client name s) (λ _. setup_consumers names)

  -- What `connect` and a reconnection do on a connection; `declare` is how the exchange is declared.
  unfoldable pub open_channel : Op (Bus P W) → Op (Bus P W)
  open_channel declare s = after (on_world client.create_confirm_channel s) (λ _ s1.
      after
        (on_world (client.prefetch (or_default config.prefetch_count 10))
          (record s1.0 { channel = some [] }, s1.1))
        (λ _ s2. after (declare s2) (λ _ s3.
          after (setup_consumers (keys s3.0.handlers) s3)
            (λ _ s4. (ok tt, (record s4.0 { connected = true }, s4.1))))))

  abbrev pub reset : Bus P W → Bus P W
  reset s = (record s.0 { connection = false; channel = none }, s.1)

  -- The outer `catch`: a connection that was made is closed, whatever that call rejects with.
  unfoldable pub settle_open : Result (Unit {0}) × Bus P W → Result (Unit {0}) × Bus P W
  settle_open (ok _, s) = (ok tt, s)
  settle_open (err e, s) = (err e, reset (s.0, (client.close_connection s.1).1))

  unfoldable pub settle_connect : Result (Unit {0}) × Bus P W → Result (Unit {0}) × Bus P W
  unfolding rethrow_mismatch settle_open
  settle_connect (err e, s) = (err e, reset s)
  settle_connect (ok _, s) = settle_open (
      open_channel (λ s1. rethrow_mismatch (declare_exchange s1))
        (record s.0 { connection = true }, s.1))

  unfoldable pub connect_once : Op (Bus P W)
  unfolding settle_connect
  connect_once s = settle_connect (on_world client.connect s)

  -- the wait behind a failed attempt, unless none is left
  unfoldable pub pause : ℕ → ℕ → Bus P W → Bus P W
  pause zero attempt s = s
  pause (suc left) attempt s = (s.0, client.sleep (backoff config attempt) s.1)

  -- The loop over the attempts: `left` of them are left, `last` is `lastError`.
  unfoldable pub connect_loop : ℕ → ℕ → Option Error → Op (Bus P W)
  unfolding pause
  connect_loop zero attempt last s = (err (or_default last (thrown "undefined")), s)
  connect_loop (suc left) attempt last s =
      let t = connect_once s in
      elim t.0 [
        | ok _ ↦ t
        | err e ↦
            if is_mismatch_error e
            then t
            else connect_loop left (attempt + 1) (some e) (pause left attempt t.1)
      ]

  unfoldable pub connect : Op (Bus P W)
  connect s =
      if s.0.connected then (ok tt, s) else connect_loop (or_default config.max_attempts 3) 0 none s

  -- One round of `_reconnectPersistently`: a connection that was made is kept when the round fails.
  unfoldable pub reconnect_on : Result (Unit {0}) × Bus P W → Result (Unit {0}) × Bus P W
  reconnect_on (err e, s) = (err e, s)
  reconnect_on (ok _, s) = open_channel declare_exchange (record s.0 { connection = true }, s.1)

  unfoldable pub reconnect_once : Op (Bus P W)
  unfolding reconnect_on
  reconnect_once s = reconnect_on (on_world client.connect s)

  -- `_reconnectPersistently`; `none` is fuel that ran out. The jitter of the delay is left out.
  unfoldable pub reconnect_loop : (ℕ → Bus P W → Bus P W) → ℕ → ℕ → Bus P W → Option (Bus P W)
  reconnect_loop meanwhile zero attempt s = none
  reconnect_loop meanwhile (suc fuel) attempt s = elim s.0.closed [
    | true ↦ some s
    | false ↦
        let t = reconnect_once s in
        elim t.0 [
          | ok _ ↦ some t.1
          | err e ↦ elim t.1.0.closed [
            | true ↦ some t.1
            | false ↦
                reconnect_loop meanwhile fuel (attempt + 1) (meanwhile (backoff config attempt) t.1)
          ]
        ]
  ]

  -- `.finally(() => { this._reconnecting = false; })`
  settled : Option (Bus P W) → Option (Bus P W)
  settled none = none
  settled (some s) = some (record s.0 { reconnecting = false }, s.1)

  unfoldable pub handle_unexpected_close : (ℕ → Bus P W → Bus P W) → ℕ → Bus P W → Option (Bus P W)
  unfolding settled
  handle_unexpected_close meanwhile fuel s =
      if s.0.reconnecting
      then some s
      else settled (
          reconnect_loop meanwhile fuel 0
            (record s.0 { reconnecting = true; connected = false }, s.1))
