-- ===== src/Idempotency/Expiry.antt =====
-- What is live, and what the two ways of expiry remove.
use noddde.Base.{
  ℕ, ◌+◌, String, ◌≡◌, Option, none, some, true, false, not, ◌&&◌, arith, ◌==◌, eq_iff, eq_refl,
  is_some, if◌then◌else◌,
}
use noddde.Result.{ok, err, idempotency_conflict}
use noddde.Map.{get, delete}
use noddde.Map.Laws.{IsMap, get-set, get-delete, get-delete_if}
use noddde.Idempotency.{
  IdempotencyRecord, IdempotencyStore, is_expired, is_cut, get_live_record, exists, save,
  remove_expired,
}

-- The record that counts at a time: the stored one, unless the store has a time to live and the
-- record is older.
abbrev pub live : IdempotencyStore → String → ℕ → Option IdempotencyRecord
live s key now = elim (get s.store key) [
  | none ↦ none
  | some r ↦ if is_expired s.ttl_ms now r.processed_at then none else some r
]

-- Looking a record up drops it if it is expired, and changes what is live for no key.
pub live-get_live_record :
    (s : IdempotencyStore) (key : String) (now : ℕ) (key' : String)
    → ((get_live_record s key now).0 ≡ live s key now)
      × (live (get_live_record s key now).1 key' now ≡ live s key' now)
unfolding get_live_record
live-get_live_record s key now key' = ground (arith, get-delete s.store key key', eq_iff key key')

-- A save is refused exactly if a live record of the command is there; if not, the new record is
-- live from then on. What is live for other commands is not touched.
pub save-live :
    (s : IdempotencyStore) (r : IdempotencyRecord) (now : ℕ) (key : String)
    → r.processed_at ≡ now
    → ((save s r now).0 ≡ (
        if is_some (live s r.command_id now)
        then err (idempotency_conflict r.command_id)
        else ok tt))
      × (live (save s r now).1 key now ≡ (
          if r.command_id == key && not (is_some (live s r.command_id now))
          then some r
          else live s key now))
unfolding save get_live_record
save-live s r now key h =
    let id = r.command_id in
    ground (
      arith,
      get-set s.store id key r,
      get-set (delete s.store id) id key r,
      get-delete s.store id key,
      eq_iff id key,
    )

-- Of two saves of one command the second conflicts, for as long as the time to live lasts.
pub save-save_conflict :
    (s s' : IdempotencyStore) (r r' : IdempotencyRecord) (now later : ℕ)
    → save s r now ≡ (ok tt, s')
    → r'.command_id ≡ r.command_id
    → is_expired s.ttl_ms later r.processed_at ≡ false
    → (save s' r' later).0 ≡ err (idempotency_conflict r.command_id)
unfolding save get_live_record
save-save_conflict s s' r r' now later h e alive =
    let id = r.command_id in
    ground (arith, get-set s.store id id r, get-set (delete s.store id) id id r, eq_refl id)

-- Maintenance keeps exactly the records that are younger than the given time to live.
pub get-remove_expired :
    (s : IdempotencyStore) (ttl now : ℕ) (key : String)
    → IsMap s.store
    → get (remove_expired s ttl now).store key ≡ elim (get s.store key) [
      | none ↦ none
      | some r ↦ if is_cut ttl now r.processed_at then none else some r
    ]
unfolding remove_expired
get-remove_expired s ttl now key h =
    get-delete_if (λ r. is_cut ttl now r.processed_at) s.store key h

-- At the age of exactly the time to live a record still blocks its command, and maintenance with
-- the same time to live removes it.
pub boundary_age :
    (s : IdempotencyStore) (r : IdempotencyRecord) (ttl now : ℕ) (key : String)
    → IsMap s.store
    → s.ttl_ms ≡ some ttl
    → get s.store key ≡ some r
    → now ≡ r.processed_at + ttl
    → ((exists s key now).0 ≡ true) × ((exists (remove_expired s ttl now) key now).0 ≡ false)
unfolding exists get_live_record remove_expired
boundary_age s r ttl now key m t found age =
    ground (arith, get-delete_if (λ r. is_cut ttl now r.processed_at) s.store key m, found)
