-- ===== src/Locker/Isolation.antt =====
-- The lock of one aggregate instance is not touched by the calls for another.
use noddde.Base.{ℕ, String, ◌≡◌, refl, some, arith, ◌==◌, eq_iff, or_default, if◌then◌else◌}
use noddde.Map.{get}
use noddde.Map.Laws.{get-set}
use noddde.Persistence.{composite_key}
use noddde.Locker.{Locks, fresh_entry, acquire_entry, release_entry, acquire, release}

-- An acquisition works on the entry of its own key, or on a new one, and leaves all others.
pub get-acquire :
    (locks : Locks) (name id : String) (p : ℕ) (key : String)
    → let e = or_default (get locks (composite_key name id)) fresh_entry in
      (get (acquire locks name id p).0 key
        ≡ (if composite_key name id == key then some (acquire_entry e p).0 else get locks key))
      × ((acquire locks name id p).1 ≡ (acquire_entry e p).1)
unfolding acquire
get-acquire locks name id p key = (get-set locks (composite_key name id) key _, refl)

-- A release works on the entry of its own key, and does nothing where there is none.
pub get-release :
    (locks : Locks) (name id key : String)
    → let e = or_default (get locks (composite_key name id)) fresh_entry in
      ((release locks name id).1 ≡ (release_entry e).1)
      × (or_default (get (release locks name id).0 key) fresh_entry ≡ (
          if composite_key name id == key
          then (release_entry e).0
          else or_default (get locks key) fresh_entry))
unfolding release release_entry
get-release locks name id key =
    let found = or_default (get locks (composite_key name id)) fresh_entry in
    ground (
      arith,
      get-set locks (composite_key name id) key (release_entry found).0,
      eq_iff (composite_key name id) key,
    )
