-- ===== src/Idempotency.antt =====
-- packages/engine/src/implementations/in-memory-idempotency-store.ts and
-- in-memory-event-idempotency-store.ts, and `withIdempotency` of
-- packages/core/src/edd/event-idempotency.ts. Times are milliseconds, `now` is the clock at the
-- call, and a record's ISO timestamp is the time that it denotes.
pub mod Expiry
pub mod Handler
mod Tests
use noddde.Base.{
  ℕ, ◌-◌, String, List, [], ◌∷◌, Option, none, some, Bool, true, false, ltb, leb, is_some,
  if◌then◌else◌,
}
use noddde.Result.{Result, ok, err, idempotency_conflict, no_dedup_key}
use noddde.Map.{Map, get, set, delete, delete_if}
use noddde.UnitOfWork.{Action, Op, after}

pub record IdempotencyRecord : Type 0 where
  pub command_id : String
  pub aggregate_name : String
  pub aggregate_id : String
  pub processed_at : ℕ

pub record IdempotencyStore : Type 0 where
  pub ttl_ms : Option ℕ
  pub store : Map IdempotencyRecord

-- `ttlMs != null && now - then > ttlMs`
abbrev pub is_expired : Option ℕ → ℕ → ℕ → Bool
is_expired none now at = false
is_expired (some ttl) now at = ltb ttl (now - at)

live_record :
    IdempotencyStore
    → String
    → ℕ
    → Option IdempotencyRecord
    → Option IdempotencyRecord × IdempotencyStore
live_record s key now none = (none, s)
live_record s key now (some r) =
    if is_expired s.ttl_ms now r.processed_at
    then (none, record s { store = delete s.store key })
    else (some r, s)

-- An expired record is deleted by the look-up.
unfoldable pub get_live_record :
    IdempotencyStore → String → ℕ → Option IdempotencyRecord × IdempotencyStore
unfolding live_record
get_live_record s command_id now = live_record s command_id now (get s.store command_id)

unfoldable pub exists : IdempotencyStore → String → ℕ → Bool × IdempotencyStore
exists s command_id now = let (r, s') = get_live_record s command_id now in (is_some r, s')

unfoldable pub save :
    IdempotencyStore → IdempotencyRecord → ℕ → Result (Unit {0}) × IdempotencyStore
save s r now =
    let (live, s') = get_live_record s r.command_id now in
    if is_some live
    then (err (idempotency_conflict r.command_id), s')
    else (ok tt, record s' { store = set s'.store r.command_id r })

unfoldable pub remove : IdempotencyStore → String → IdempotencyStore
remove s command_id = record s { store = delete s.store command_id }

-- `processedAt <= now - ttlMs`: where the difference is negative nothing is that old.
abbrev pub is_cut : ℕ → ℕ → ℕ → Bool
is_cut ttl now at = if ltb now ttl then false else leb at (now - ttl)

unfoldable pub remove_expired : IdempotencyStore → ℕ → ℕ → IdempotencyStore
remove_expired s ttl now = record s {
  store = delete_if (λ r. is_cut ttl now r.processed_at) s.store;
}

pub record EventIdempotencyStore : Type 0 where
  pub ttl_ms : Option ℕ
  pub store : Map ℕ

processed_by : EventIdempotencyStore → String → ℕ → Option ℕ → Bool × EventIdempotencyStore
processed_by s key now none = (false, s)
processed_by s key now (some at) =
    if is_expired s.ttl_ms now at
    then (false, record s { store = delete s.store key })
    else (true, s)

unfoldable pub has_processed : EventIdempotencyStore → String → ℕ → Bool × EventIdempotencyStore
unfolding processed_by
has_processed s key now = processed_by s key now (get s.store key)

unfoldable pub mark_processed : EventIdempotencyStore → String → ℕ → EventIdempotencyStore
mark_processed s key now = record s { store = set s.store key now }

unfoldable pub remove_expired_events : EventIdempotencyStore → ℕ → ℕ → EventIdempotencyStore
remove_expired_events s ttl now = record s { store = delete_if (λ at. is_cut ttl now at) s.store }

-- EventIdempotencyStore as the wrapper sees it, over a world that holds the store.
pub record DedupStore (W : Type 0) : Type 0 where
  pub has : String → Action W Bool
  pub mark : String → Op W

module _ {W : Type 0} where
  run_once : DedupStore W → Op W → String → Bool → Op W
  run_once store handle key true w = (ok tt, w)
  run_once store handle key false w = after (handle w) (λ _. store.mark key)

  dedup_by : DedupStore W → Op W → Option String → Op W
  dedup_by store handle none w = (err no_dedup_key, w)
  dedup_by store handle (some key) w =
      after (store.has key w) (λ done. run_once store handle key done)

module _ {W E : Type 0} where
  -- `key_of` is `options.key`, or the event id in the metadata where that is not given.
  unfoldable pub with_idempotency : (E → Op W) → DedupStore W → (E → Option String) → E → Op W
  unfolding dedup_by run_once
  with_idempotency handler store key_of event = dedup_by store (handler event) (key_of event)
