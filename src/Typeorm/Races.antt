-- ===== src/Typeorm/Races.antt =====
-- Two writers of one saga, or of one aggregate, that have read the same version.
use noddde.Base.{
  ℕ, ◌+◌, ◌<◌, String, ◌≡◌, refl, sym, ap, ◌∙◌, [], ◌∷◌, Option, none, some, Bool, true, eqb, keep,
  arith, All,
}
use noddde.Result.{Result, ok, err, version_conflict}
use noddde.Drizzle.{DbError, DriverResult, Table, Runtime, serialize}
use noddde.Drizzle.States.{StateRow, of_key, settle_update, save_versioned}
use noddde.Drizzle.Tables.{IsTable}
use noddde.Drizzle.Versions.{same_key, IsCurrent, rows_of, version_of, successor}
use noddde.Drizzle.Races.{save_versioned-one_wins}
use noddde.Typeorm.{save_state, settle_affected, settle_saga, write_saga, find_saga, save_saga}

module _ {J D : Type 0} (runtime : Runtime J) (matches : String → Bool) (is_unique : DbError → Bool)
    (driver : ℕ → DriverResult) (table : Table D (StateRow String))
    (laws : IsTable same_key is_unique driver table)
    (save_row : StateRow String → D → Option DbError × D) where
  -- What is documented of `save` for an entity whose key has a row: it becomes that row.
  abbrev pub Replaces : Type 0
  Replaces =
      (r old : StateRow String) (d : D)
      → keep (of_key r.name r.id) (laws.rows d) ≡ old ∷ []
      → ((save_row r d).0 ≡ none)
        × (keep (of_key r.name r.id) (laws.rows (save_row r d).1) ≡ r ∷ [])

  abbrev pub HasSaga : D → String → String → StateRow String → Type 0
  HasSaga d name id row =
      (row.name ≡ name) × ((row.id ≡ id) × (keep (of_key name id) (laws.rows d) ≡ row ∷ []))

  abbrev pub written : J → StateRow String → StateRow String
  written state row = record row { state = runtime.stringify state; version = row.version + 1 }

  -- a write on the version that was read, at any row that the saga has by then
  write_found :
      (d : D) (name id : String) (state : J) (found now : StateRow String)
      → Replaces
      → HasSaga d name id now
      → found.name ≡ name
      → found.id ≡ id
      → (let (r, d') =
            write_saga runtime matches table save_row (found ∷ []) name id state found.version d in
          (r ≡ ok tt) × (keep (of_key name id) (laws.rows d') ≡ written state found ∷ []))
  unfolding write_saga settle_saga
  write_found d name id state found now replaces h named known =
      let key : of_key (written state found).name (written state found).id ≡ of_key name id =
        ap (λ n. of_key n found.id) named ∙ ap (of_key name) known in
      let here : keep (of_key found.name found.id) (laws.rows d) ≡ now ∷ [] =
        ap (λ p. keep p (laws.rows d)) key ∙ h.1.1 in
      let (done, rows) = replaces (written state found) now d here in
      let same : eqb found.version found.version ≡ true = ground arith in
      (
        ground (arith, done, same),
        ap
              (λ p. keep p (
                laws.rows
                  (write_saga runtime matches table save_row (found ∷ []) name id state
                    found.version d).1))
              (sym key)
            ∙ ground (arith, done, rows, same),
      )

  -- A second writer of a saga reads before the first one writes: both saves succeed, and the saga
  -- has the second writer's state at the version after the one that both have read, so that the
  -- first writer's state is lost.
  pub save_saga-lost_update :
      (d : D) (name id : String) (first second : J) (row : StateRow String)
      → Replaces
      → HasSaga d name id row
      → (let found = find_saga runtime matches table save_row name id d in
          let (r1, d1) = save_saga runtime matches table save_row name id first row.version d in
          let (r2, d2) =
            write_saga runtime matches table save_row found name id second row.version d1 in
          (r1 ≡ ok tt)
          × ((r2 ≡ ok tt) × (keep (of_key name id) (laws.rows d2) ≡ written second row ∷ [])))
  unfolding save_saga find_saga
  save_saga-lost_update d name id first second row replaces h =
      let found = laws.finds_one (of_key name id) row d h.1.1 in
      let (r1, rows1) = write_found d name id first row row replaces h h.0 h.1.0 in
      let d1 =
        (write_saga runtime matches table save_row (row ∷ []) name id first row.version d).1 in
      let (r2, rows2) =
        write_found d1 name id second row (written first row) replaces (h.0, (h.1.0, rows1)) h.0
          h.1.0 in
      rw found (r1, (r2, rows2))

-- an optimistic save of a state over a table of text, on the two tests in which the stores differ
module _ {J D : Type 0} (runtime : Runtime J) (texts : Runtime String)
    (is_violation : DbError → Bool) (driver : ℕ → DriverResult) (count : DriverResult → ℕ)
    (table : Table D (StateRow String)) (laws : IsTable same_key is_violation driver table) where
  abbrev pub typeorm_save : String → String → J → ℕ → D → Result (Unit {0}) × D
  typeorm_save = save_state runtime is_violation table (λ answer. some (count answer))

  abbrev pub guarded_save : String → String → J → ℕ → D → Result (Unit {0}) × D
  guarded_save name id state =
      save_versioned texts true table is_violation count name id (runtime.stringify state)

  save_state-eq :
      (name id : String) (state : J) (expected : ℕ) (d : D)
      → typeorm_save name id state expected d ≡ guarded_save name id state expected d
  unfolding save_state save_versioned settle_affected settle_update serialize
  save_state-eq name id state expected d = refl

  abbrev pub Current : D → String → String → Option (StateRow String) → Type 0
  Current = IsCurrent texts true driver is_violation count table laws

  -- the row behind a save that expected the stored version
  abbrev pub next : String → String → J → Option (StateRow String) → StateRow String
  next name id state =
      successor texts true driver is_violation count table laws name id (runtime.stringify state)

  -- Two writers of an aggregate that expect the stored version: when the driver's count is
  -- reported, the first one's save succeeds, and the second one's rejects with a conflict and leaves
  -- the first one's state.
  pub save_state-one_wins :
      (d : D) (name id : String) (first second : J) (current : Option (StateRow String))
      → count (driver 0) ≡ 0
      → count (driver 1) ≡ 1
      → Current d name id current
      → All (λ row. 0 < row.version) (rows_of current)
      → (let (r1, d1) = typeorm_save name id first (version_of current) d in
          let (r2, d2) = typeorm_save name id second (version_of current) d1 in
          (r1 ≡ ok tt)
          × ((r2 ≡ err (version_conflict name id (version_of current)))
              × Current d2 name id (some (next name id first current))))
  save_state-one_wins d name id first second current zero_read one_read h pos =
      let (done, (failed, now)) =
        save_versioned-one_wins texts true driver is_violation count table laws d name id
          (runtime.stringify first) (runtime.stringify second) current zero_read one_read h pos in
      let v = version_of current in
      let one = save_state-eq name id first v d in
      let d1 = (guarded_save name id first v d).1 in
      let two =
        ap (λ w. typeorm_save name id second v w.1) one ∙ save_state-eq name id second v d1 in
      (
        ap (λ w. w.0) one ∙ done,
        (ap (λ w. w.0) two ∙ failed, ap (λ w. keep (of_key name id) (laws.rows w.1)) two ∙ now),
      )
