-- ===== src/Persistence/Versions.antt =====
-- State-stored aggregates and sagas: the version check, and what a load returns after a save.
use noddde.Base.{ℕ, ◌+◌, String, ◌≡◌, ◌≢◌, ◌↔◌, Option, some, arith, ◌==◌, if◌then◌else◌}
use noddde.Result.{ok, err, concurrency_conflict}
use noddde.Map.{Map, set}
use noddde.Map.Laws.{get-set}
use noddde.Persistence.{
  Stored, SagaState, composite_key, version_in, saga_version, load_state, save_state, load_saga,
  save_saga,
}

module _ {S : Type 0} where
  save_state-at_version :
      (store store' : Map (Stored S)) (name id : String) (state : S) (expected : ℕ) (tag : Option ℕ)
      → save_state store name id state expected tag ≡ ok store'
      → version_in (load_state store name id) ≡ expected
  unfolding save_state load_state
  save_state-at_version store store' name id state expected tag h = ground arith

  -- A save is accepted exactly at the stored version (0 where nothing is stored), and is refused
  -- with the stored version in the error otherwise.
  pub save_state-outcome :
      (store : Map (Stored S)) (name id : String) (state : S) (expected : ℕ) (tag : Option ℕ)
      → (((store' : Map (Stored S)) × (save_state store name id state expected tag ≡ ok store'))
          ↔ (version_in (load_state store name id) ≡ expected))
        × ((save_state store name id state expected tag
              ≡ err (concurrency_conflict name id expected (version_in (load_state store name id))))
            ↔ (version_in (load_state store name id) ≢ expected))
  unfolding save_state load_state
  save_state-outcome store name id state expected tag = (
    (
      (λ saved. save_state-at_version store saved.0 name id state expected tag saved.1),
      (λ e. (
        set store (composite_key name id)
            (record { state = state; version = expected + 1; state_version = tag }),
        ground arith,
      )),
    ),
    ground arith,
  )

  -- After an accepted save, the state is loaded with the next version under its key, and every
  -- other key as before.
  pub load_state-save_state :
      (store store' : Map (Stored S)) (name id : String) (state : S) (expected : ℕ) (tag : Option ℕ)
      (name' id' : String)
      → save_state store name id state expected tag ≡ ok store'
      → load_state store' name' id' ≡ (
          if composite_key name id == composite_key name' id'
          then some (record { state = state; version = expected + 1; state_version = tag })
          else load_state store name' id')
  unfolding save_state load_state
  load_state-save_state store store' name id state expected tag name' id' h = ground (
    arith,
    get-set store (composite_key name id) (composite_key name' id')
        (record { state = state; version = expected + 1; state_version = tag }),
  )

  -- An accepted save of a saga was made at the stored version; the saga is then loaded with the new
  -- state and the next version, and what is loaded under every other key is as it was.
  pub load_saga-save_saga :
      (store store' : Map (SagaState S)) (name id : String) (state : S) (expected : ℕ)
      (name' id' : String)
      → save_saga store name id state expected ≡ ok store'
      → (saga_version (load_saga store name id) ≡ expected)
        × (load_saga store' name' id' ≡ (
            if composite_key name id == composite_key name' id'
            then some (record { state = state; version = expected + 1 })
            else load_saga store name' id'))
  unfolding save_saga load_saga
  load_saga-save_saga store store' name id state expected name' id' h = ground (
    arith,
    get-set store (composite_key name id) (composite_key name' id')
        (record { state = state; version = expected + 1 }),
  )
