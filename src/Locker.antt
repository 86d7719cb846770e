-- ===== src/Locker.antt =====
-- packages/engine/src/implementations/in-memory-aggregate-locker.ts. A call of `acquire` that has
-- to wait is a number, the identity of its waiter; its promise settles when `release` hands it the
-- lock or when its timer fires.
pub mod Exclusion
pub mod Isolation
mod Tests
use noddde.Base.{
  ℕ, suc, String, List, [], ◌∷◌, ◌++◌, Option, none, some, Bool, true, false, eqb, or_default,
  if◌then◌else◌,
}
use noddde.Map.{Map, get, set}
use noddde.Persistence.{composite_key}

pub record Entry : Type 0 where
  pub locked : Bool
  pub queue : List ℕ

pub data Grant : Type 0 where
  granted queued : Grant

-- the entry that `getEntry` creates
abbrev pub fresh_entry : Entry
fresh_entry = record { locked = false; queue = [] }

-- `queue.indexOf(waiter)` and `queue.splice(idx, 1)`
unfoldable pub remove_waiter : ℕ → List ℕ → List ℕ
remove_waiter p [] = []
remove_waiter p (q ∷ queue) = if eqb q p then queue else q ∷ remove_waiter p queue

unfoldable pub is_queued : ℕ → List ℕ → Bool
is_queued p [] = false
is_queued p (q ∷ queue) = if eqb q p then true else is_queued p queue

acquire_by : Bool → Entry → ℕ → Entry × Grant
acquire_by false e p = (record e { locked = true }, granted)
acquire_by true e p = (record e { queue = e.queue ++ p ∷ [] }, queued)

unfoldable pub acquire_entry : Entry → ℕ → Entry × Grant
unfolding acquire_by
acquire_entry e p = acquire_by e.locked e p

-- The waiter whose promise resolves, if any, comes back.
release_by : Bool → List ℕ → Entry → Entry × Option ℕ
release_by false queue e = (e, none)
release_by true [] e = (record e { locked = false }, none)
release_by true (next ∷ rest) e = (record e { queue = rest }, some next)

unfoldable pub release_entry : Entry → Entry × Option ℕ
unfolding release_by
release_entry e = release_by e.locked e.queue e

-- The timer of a waiter: the flag says that the waiter's promise was rejected.
unfoldable pub expire_entry : Entry → ℕ → Entry × Bool
unfolding is_queued remove_waiter
expire_entry e p =
    if is_queued p e.queue then (record e { queue = remove_waiter p e.queue }, true) else (e, false)

abbrev pub Locks : Type 0
Locks = Map Entry

unfoldable pub acquire : Locks → String → String → ℕ → Locks × Grant
acquire locks name id p =
    let key = composite_key name id in
    let (e, grant) = acquire_entry (or_default (get locks key) fresh_entry) p in
    (set locks key e, grant)

release_found : Locks → String → Option Entry → Locks × Option ℕ
release_found locks key none = (locks, none)
release_found locks key (some e) = let (e', next) = release_entry e in (set locks key e', next)

unfoldable pub release : Locks → String → String → Locks × Option ℕ
unfolding release_found
release locks name id = let key = composite_key name id in release_found locks key (get locks key)
