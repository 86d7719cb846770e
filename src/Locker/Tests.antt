-- ===== src/Locker/Tests.antt =====
-- Runs of the locker, and the properties at concrete inputs.
use noddde.Base.{
  ◌≡◌, ◌≤◌, refl, ◌⊎◌, inl, none, some, [], ◌∷◌, true, ◌==◌, length, or_default, if◌then◌else◌,
}
use noddde.Map.{get}
use noddde.Persistence.{composite_key}
use noddde.Locker.{Locks, fresh_entry, acquire_entry, release_entry, expire_entry, acquire, release}
use noddde.Locker.Exclusion.{
  System, init, acquires, releases, expires, acquiring, releasing, expiring, Reach, start, next,
  mutual_exclusion, release_times, acquire_all, all_some, taken_by, release_times-fifo,
}
use noddde.Locker.Isolation.{get-acquire, get-release}

timed_out_test : expire_entry (taken_by (4 ∷ 5 ∷ 6 ∷ [])) 5 ≡ (taken_by (4 ∷ 6 ∷ []), true)
unfolding expire_entry
timed_out_test = refl

-- 1 takes the lock, 2 and 3 wait, 2 times out, 1 releases.
abbrev contended : System
contended = expires (acquires (acquires (acquires init 1) 2) 3) 2

contended-Reach : Reach (releases contended 1)
unfolding acquires expires acquire_entry expire_entry
contended-Reach =
    next (next (next (next (next start (acquiring 1)) (acquiring 2)) (acquiring 3)) (expiring 2))
      (releasing 1 (inl refl))

mutual_exclusion_example :
    (length (releases contended 1).holders ≤ 1)
    × (((releases contended 1).entry.queue ≡ []) ⊎ ((releases contended 1).entry.locked ≡ true))
mutual_exclusion_example = mutual_exclusion contended-Reach

release_times-fifo_example :
    (release_times 3 (acquire_all (7 ∷ 8 ∷ 9 ∷ []) (taken_by []))
      ≡ (taken_by [], all_some (7 ∷ 8 ∷ 9 ∷ [])))
    × (release_entry (taken_by []) ≡ (fresh_entry, none))
release_times-fifo_example = release_times-fifo (7 ∷ 8 ∷ 9 ∷ [])

abbrev one_lock : Locks
one_lock = ("Account:1", taken_by (2 ∷ [])) ∷ []

get-acquire_run :
    let e = or_default (get one_lock (composite_key "Account" "1")) fresh_entry in
    (get (acquire one_lock "Account" "1" 3).0 "Account:2" ≡ (
      if composite_key "Account" "1" == "Account:2"
      then some (acquire_entry e 3).0
      else get one_lock "Account:2"))
    × ((acquire one_lock "Account" "1" 3).1 ≡ (acquire_entry e 3).1)
get-acquire_run = get-acquire one_lock "Account" "1" 3 "Account:2"

get-release_run :
    let e = or_default (get one_lock (composite_key "Account" "1")) fresh_entry in
    ((release one_lock "Account" "1").1 ≡ (release_entry e).1)
    × (or_default (get (release one_lock "Account" "1").0 "Account:1") fresh_entry ≡ (
        if composite_key "Account" "1" == "Account:1"
        then (release_entry e).0
        else or_default (get one_lock "Account:1") fresh_entry))
get-release_run = get-release one_lock "Account" "1" "Account:1"
