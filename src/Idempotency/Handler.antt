-- ===== src/Idempotency/Handler.antt =====
-- What a handler wrapped by `withIdempotency` does on redelivery.
use noddde.Base.{
  ℕ, ◌+◌, String, ◌≡◌, refl, Option, none, some, Bool, true, false, ltb, if◌then◌else◌, arith,
  eq_refl,
}
use noddde.Result.{Error, ok, err}
use noddde.Map.{get, set, delete}
use noddde.Map.Laws.{get-set}
use noddde.UnitOfWork.{Op, after}
use noddde.Idempotency.{
  is_expired, DedupStore, EventIdempotencyStore, has_processed, mark_processed, with_idempotency,
}

-- The in-memory store in a world that has other parts too, at the time of a delivery.
abbrev pub memory_store : {X : Type 0} → ℕ → DedupStore (X × EventIdempotencyStore)
memory_store now = record {
  has = λ k w. let (b, s) = has_processed w.1 k now in (ok b, (w.0, s));
  mark = λ k w. (ok tt, (w.0, mark_processed w.1 k now));
}

-- A record of time `at` is older than the time to live, if the store has one.
abbrev pub is_outlived : Option ℕ → ℕ → ℕ → Bool
is_outlived none at later = false
is_outlived (some ttl) at later = ltb (at + ttl) later

is_expired-outlived :
    (ttl : Option ℕ) (at later : ℕ) → is_expired ttl later at ≡ is_outlived ttl at later
is_expired-outlived none at later = refl
is_expired-outlived (some ttl) at later = ground arith

-- a look-up of a key that was marked at `at`
has_processed-set :
    (s : EventIdempotencyStore) (k : String) (at later : ℕ)
    → get s.store k ≡ some at
    → has_processed s k later ≡ (
        if is_outlived s.ttl_ms at later
        then (false, record s { store = delete s.store k })
        else (true, s))
unfolding has_processed
has_processed-set s k at later found = ground (arith, found, is_expired-outlived s.ttl_ms at later)

module _ {X E : Type 0} (handler : E → Op (X × EventIdempotencyStore))
    (key_of : E → Option String) where
  -- the outcome of a delivery with a key that the store marked at `at`
  abbrev pub redelivered : E → String → ℕ → ℕ → Op (X × EventIdempotencyStore)
  redelivered event k at later w =
      if is_outlived w.1.ttl_ms at later
      then after (handler event (w.0, record w.1 { store = delete w.1.store k }))
          (λ _ w. (ok tt, (w.0, record w.1 { store = set w.1.store k later })))
      else (ok tt, w)

  -- the outcome of a delivery that is handled
  marks-key :
      (event : E) (k : String) (at : ℕ) (w w' : X × EventIdempotencyStore)
      → key_of event ≡ some k
      → (has_processed w.1 k at).0 ≡ false
      → with_idempotency handler (memory_store at) key_of event w ≡ (ok tt, w')
      → get w'.1.store k ≡ some at
  unfolding with_idempotency mark_processed
  marks-key event k at w w' e fresh h =
      let handled = handler event (w.0, (has_processed w.1 k at).1) in
      ground (arith, fresh, get-set handled.1.1.store k k at, eq_refl k)

  -- With the in-memory store, let a delivery at the time `at` succeed under a key that is not
  -- recorded as processed. A later delivery of the event, or of another with its key, is skipped and
  -- changes nothing, as long as the time to live of the store, if it has one, is not over; after
  -- that the key is forgotten, the handler runs again, and its success is recorded again.
  pub redelivery_skipped :
      (event event' : E) (k : String) (at later : ℕ) (w w' : X × EventIdempotencyStore)
      → key_of event ≡ some k
      → key_of event' ≡ some k
      → (has_processed w.1 k at).0 ≡ false
      → with_idempotency handler (memory_store at) key_of event w ≡ (ok tt, w')
      → with_idempotency handler (memory_store later) key_of event' w'
        ≡ redelivered event' k at later w'
  unfolding with_idempotency mark_processed
  redelivery_skipped event event' k at later w w' e e' fresh h =
      ground (arith, has_processed-set w'.1 k at later (marks-key event k at w w' e fresh h))

module _ {W E : Type 0} (handler : E → Op W) (d : DedupStore W) (key_of : E → Option String) where
  -- A delivery whose handler throws is not recorded: the error comes out, the world is as the
  -- handler left it, and if the key is still unknown there, the next delivery calls the handler
  -- again.
  pub failure_redelivers :
      (event : E) (k : String) (w w1 w2 w3 : W) (e : Error)
      → key_of event ≡ some k
      → d.has k w ≡ (ok false, w1)
      → handler event w1 ≡ (err e, w2)
      → d.has k w2 ≡ (ok false, w3)
      → (with_idempotency handler d key_of event w ≡ (err e, w2))
        × (with_idempotency handler d key_of event w2 ≡ after (handler event w3) (λ _. d.mark k))
  unfolding with_idempotency
  failure_redelivers event k w w1 w2 w3 e ke unknown fails still = ground arith
