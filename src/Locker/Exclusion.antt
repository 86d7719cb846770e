-- ===== src/Locker/Exclusion.antt =====
-- Mutual exclusion on one key, and the order in which waiters get the lock.
use noddde.Base.{
  ℕ, zero, suc, ◌≤◌, ◌≡◌, ◌≢◌, refl, ◌⊎◌, inl, inr, List, [], ◌∷◌, ◌++◌, Option, none, some, true,
  false, length, append-nil, append_assoc, arith, ◌∙◌,
}
use noddde.Locker.{
  Entry, Grant, granted, queued, fresh_entry, remove_waiter, acquire_entry, release_entry,
  expire_entry,
}

-- The entry, and the calls that own the lock now: theirs are the `acquire` promises that resolved
-- and were not released.
pub record System : Type 0 where
  pub entry : Entry
  pub holders : List ℕ

abbrev pub init : System
init = record { entry = fresh_entry; holders = [] }

abbrev add_granted : Grant → ℕ → List ℕ → List ℕ
add_granted granted p holders = p ∷ holders
add_granted queued p holders = holders

abbrev add_next : Option ℕ → List ℕ → List ℕ
add_next none holders = holders
add_next (some p) holders = p ∷ holders

unfoldable pub acquires : System → ℕ → System
acquires s p =
    let (e, g) = acquire_entry s.entry p in
    record { entry = e; holders = add_granted g p s.holders }

unfoldable pub releases : System → ℕ → System
releases s p =
    let (e, next) = release_entry s.entry in
    record { entry = e; holders = add_next next (remove_waiter p s.holders) }

unfoldable pub expires : System → ℕ → System
expires s p = record s { entry = (expire_entry s.entry p).0 }

abbrev Holds : ℕ → List ℕ → Type 0
Holds p [] = ⊥
Holds p (q ∷ qs) = (q ≡ p) ⊎ Holds p qs

-- Any call may ask for the lock and any timer may fire at any time; only an owner releases.
pub data Step (s : System) : System → Type 0 where
  acquiring : (p : ℕ) → Step s (acquires s p)
  releasing : (p : ℕ) → Holds p s.holders → Step s (releases s p)
  expiring : (p : ℕ) → Step s (expires s p)

pub data Reach : System → Type 0 where
  start : Reach init
  next : {s t : System} → Reach s → Step s t → Reach t

-- The lock is free with nobody waiting and no owner, or it is taken and has one owner.
pub record IsExclusive (s : System) : Type 0 where
  pub free : s.entry.locked ≡ false → (s.holders ≡ []) × (s.entry.queue ≡ [])
  pub owned : s.entry.locked ≡ true → length s.holders ≡ 1

remove_only : (p : ℕ) (hs : List ℕ) → length hs ≡ 1 → Holds p hs → remove_waiter p hs ≡ []
unfolding remove_waiter
remove_only p [] l h = absurd h
remove_only p (q ∷ []) l (inl e) = ground arith
remove_only p (q ∷ []) l (inr h) = absurd h
remove_only p (q ∷ r ∷ hs) l h = absurd (omega arith)

Holds-ne-nil : (p : ℕ) (hs : List ℕ) → Holds p hs → hs ≢ []
Holds-ne-nil p [] h e = h
Holds-ne-nil p (q ∷ hs) h e = cc

Step-IsExclusive : {s t : System} → Step s t → IsExclusive s → IsExclusive t
unfolding acquires releases expires acquire_entry release_entry expire_entry
Step-IsExclusive {s} (acquiring p) h = ground arith
Step-IsExclusive {s} (releasing p own) h =
    ground (arith, remove_only p s.holders, Holds-ne-nil p s.holders own, own)
Step-IsExclusive {s} (expiring p) h = ground arith

Reach-IsExclusive : {s : System} → Reach s → IsExclusive s
Reach-IsExclusive start = record { free = λ e. (refl, refl); owned = λ e. cc }
Reach-IsExclusive (next r st) = Step-IsExclusive st (Reach-IsExclusive r)

-- However calls, releases by owners and timeouts are interleaved, at most one call owns the lock,
-- and nobody waits for a lock that is free.
pub mutual_exclusion :
    {s : System}
    → Reach s
    → (length s.holders ≤ 1) × ((s.entry.queue ≡ []) ⊎ (s.entry.locked ≡ true))
mutual_exclusion {s} r = let h = Reach-IsExclusive r in ground (arith, h)

-- `n` releases in a row, and the waiters that they wake.
abbrev pub release_times : ℕ → Entry → Entry × List (Option ℕ)
release_times zero e = (e, [])
release_times (suc n) e =
    let (e', woken) = release_entry e in let (e'', rest) = release_times n e' in (e'', woken ∷ rest)

-- The calls `ps` ask for the lock, one after the other.
abbrev pub acquire_all : List ℕ → Entry → Entry
acquire_all [] e = e
acquire_all (p ∷ ps) e = acquire_all ps (acquire_entry e p).0

abbrev pub all_some : List ℕ → List (Option ℕ)
all_some [] = []
all_some (p ∷ ps) = some p ∷ all_some ps

abbrev pub taken_by : List ℕ → Entry
taken_by queue = record { locked = true; queue = queue }

acquire_all-queue : (ps queue : List ℕ) → acquire_all ps (taken_by queue) ≡ taken_by (queue ++ ps)
unfolding acquire_entry
acquire_all-queue [] queue = rw (append-nil queue)
acquire_all-queue (p ∷ ps) queue =
    acquire_all-queue ps (queue ++ p ∷ []) ∙ rw (append_assoc queue (p ∷ []) ps)

release_times-queue :
    (queue : List ℕ) → release_times (length queue) (taken_by queue) ≡ (taken_by [], all_some queue)
unfolding release_entry
release_times-queue [] = refl
release_times-queue (p ∷ queue) = rw (release_times-queue queue)

-- Calls that ask for a taken lock get it in the order in which they asked, one for each release;
-- the release after the last of them frees the lock.
pub release_times-fifo :
    (ps : List ℕ)
    → (release_times (length ps) (acquire_all ps (taken_by [])) ≡ (taken_by [], all_some ps))
      × (release_entry (taken_by []) ≡ (fresh_entry, none))
release_times-fifo ps =
    (rw (acquire_all-queue ps []) (release_times-queue ps), unfold release_entry in refl)
