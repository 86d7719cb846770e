-- ===== src/Persistence/Streams.antt =====
-- Event streams: a save appends, a stale save is refused, and a partial load is a suffix.
use noddde.Base.{
  ℕ, suc, ◌+◌, String, ◌≡◌, ◌≢◌, ◌↔◌, refl, ap, ◌∙◌, List, [], ◌∷◌, ◌++◌, append-nil, length,
  length-append, take, drop, take-append-drop, arith, ◌==◌, eq_refl, eq_iff, if◌then◌else◌,
  or_default,
}
use noddde.Result.{ok, err, concurrency_conflict}
use noddde.Event.{Event}
use noddde.Map.{get, set}
use noddde.Map.Laws.{get-set}
use noddde.Persistence.{EventStore, composite_key, load_events, load_after_version, save_events}

module _ {P : Type 0} where
  -- After a save every stream is what it was, and the stream of the saved key is that with the
  -- saved events behind it.
  pub load_events-save_events :
      (store store' : EventStore P) (name id : String) (events : List (Event P)) (expected : ℕ)
      (name' id' : String)
      → save_events store name id events expected ≡ ok store'
      → load_events store' name' id' ≡ (
          if composite_key name id == composite_key name' id'
          then load_events store name' id' ++ events
          else load_events store name' id')
  unfolding save_events load_events
  load_events-save_events store store' name id [] expected name' id' h =
      ground (arith, append-nil (or_default (get store (composite_key name' id')) []))
  load_events-save_events store store' name id (e ∷ events) expected name' id' h = ground (
    arith,
    get-set store (composite_key name id) (composite_key name' id')
        (or_default (get store (composite_key name id)) [] ++ e ∷ events),
    eq_iff (composite_key name id) (composite_key name' id'),
  )

  -- A save of at least one event fails exactly when the stream is not as long as expected, and
  -- the error reports both lengths.
  pub save_events-fails_iff :
      (store : EventStore P) (name id : String) (e : Event P) (events : List (Event P))
      (expected : ℕ)
      → (save_events store name id (e ∷ events) expected
          ≡ err (concurrency_conflict name id expected (length (load_events store name id))))
        ↔ (length (load_events store name id) ≢ expected)
  unfolding save_events load_events
  save_events-fails_iff store name id e events expected = ground arith

  -- A save of events, or of none, at the current length succeeds.
  pub save_events-current :
      (store : EventStore P) (name id : String) (events : List (Event P))
      → (store' : EventStore P) × (save_events store name id events
            (length (load_events store name id))
          ≡ ok store')
  unfolding save_events load_events
  save_events-current store name id [] = (store, refl)
  save_events-current store name id (e ∷ events) =
      (set store (composite_key name id) (load_events store name id ++ e ∷ events), ground arith)

  pub length-save_events :
      (store store' : EventStore P) (name id : String) (events : List (Event P)) (expected : ℕ)
      → save_events store name id events expected ≡ ok store'
      → length (load_events store' name id) ≡ length (load_events store name id) + length events
  length-save_events store store' name id events expected h =
      ap length (
        load_events-save_events store store' name id events expected name id h
        ∙ rw (eq_refl (composite_key name id)) refl)
      ∙ length-append (load_events store name id) events

  save_events-at_version :
      (store store' : EventStore P) (name id : String) (e : Event P) (events : List (Event P))
      (version : ℕ)
      → save_events store name id (e ∷ events) version ≡ ok store'
      → length (load_events store name id) ≡ version
  unfolding save_events load_events
  save_events-at_version store store' name id e events version h = ground arith

  -- Of two writers that loaded the same version, the second to save at least one event is refused,
  -- if the first saved at least one.
  pub second_writer_fails :
      (store store' : EventStore P) (name id : String) (e e' : Event P)
      (events events' : List (Event P)) (version : ℕ)
      → save_events store name id (e ∷ events) version ≡ ok store'
      → save_events store' name id (e' ∷ events') version
        ≡ err (concurrency_conflict name id version (version + suc (length events)))
  second_writer_fails store store' name id e e' events events' version h =
      let at_version = save_events-at_version store store' name id e events version h in
      let longer = length-save_events store store' name id (e ∷ events) version h in
      (save_events-fails_iff store' name id e' events' version).1 (omega arith)
      ∙ ap (λ n. err (concurrency_conflict name id version n)) (omega arith)

  -- The events after version k are those that follow the first k.
  pub take-append-load_after_version :
      (store : EventStore P) (name id : String) (k : ℕ)
      → take k (load_events store name id) ++ load_after_version store name id k
        ≡ load_events store name id
  unfolding load_events load_after_version
  take-append-load_after_version store name id k = take-append-drop k _

  pub load_after_version-eq :
      (store : EventStore P) (name id : String) (k : ℕ)
      → load_after_version store name id k ≡ drop k (load_events store name id)
  unfolding load_events load_after_version
  load_after_version-eq store name id k = refl
