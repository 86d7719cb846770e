-- ===== src/Prisma/Agreement.antt =====
-- The aggregates and the sagas of the stores over Prisma write what the ones over drizzle write,
-- and so decide as they do between two writers.
use noddde.Base.{
  ℕ, zero, suc, ◌<◌, String, ◌≡◌, refl, ap, ◌∙◌, [], ◌∷◌, Option, none, some, true, false, eqb,
  keep, arith, All,
}
use noddde.Result.{Result, ok, err, version_conflict}
use noddde.Drizzle.{DbError, DriverResult, Table, Runtime, serialize}
use noddde.Drizzle.Events.{settle_insert}
use noddde.Drizzle.States.{StateRow, of_key, settle_update, save_versioned}
use noddde.Drizzle.Tables.{IsTable}
use noddde.Drizzle.Versions.{same_key, IsCurrent, rows_of, version_of, successor}
use noddde.Drizzle.Races.{save_versioned-one_wins}
use noddde.Prisma.{is_p2002, settle_create, save_state, save_saga}

settle_create-eq :
    {D : Type 0} (name id : String) (expected : ℕ) (w : Option DbError × D)
    → settle_create name id expected w ≡ settle_insert is_p2002 name id expected w
unfolding settle_create settle_insert
settle_create-eq name id expected (none, d) = refl
settle_create-eq name id expected (some error, d) = refl

module _ {J D : Type 0} (runtime : Runtime J) (texts : Runtime String) (driver : ℕ → DriverResult)
    (count : DriverResult → ℕ) (table : Table D (StateRow String))
    (laws : IsTable same_key is_p2002 driver table) where
  abbrev pub guarded_save : String → String → J → ℕ → D → Result (Unit {0}) × D
  guarded_save name id state =
      save_versioned texts true table is_p2002 count name id (runtime.stringify state)

  abbrev pub Current : D → String → String → Option (StateRow String) → Type 0
  Current = IsCurrent texts true driver is_p2002 count table laws

  -- the row behind a save that expected the stored version
  abbrev pub next : String → String → J → Option (StateRow String) → StateRow String
  next name id state =
      successor texts true driver is_p2002 count table laws name id (runtime.stringify state)

  abbrev first_insert : String → String → J → D → Option DbError × D
  first_insert name id state =
      table.insert
        (record { name = name; id = id; state = runtime.stringify state; version = 1 } ∷ [])

  save_state-eq :
      (name id : String) (state : J) (expected : ℕ) (d : D)
      → save_state runtime count table name id state expected d
        ≡ guarded_save name id state expected d
  unfolding save_state save_versioned settle_update serialize
  save_state-eq name id state zero d = settle_create-eq name id 0 (first_insert name id state d)
  save_state-eq name id state (suc n) d =
      let later : eqb (suc n) 0 ≡ false = ground arith in rw later refl

  save_saga-eq :
      (name id : String) (state : J) (expected : ℕ) (d : D)
      → save_saga runtime count table name id state expected d
        ≡ guarded_save name id state expected d
  unfolding save_saga save_versioned settle_update serialize
  save_saga-eq name id state zero d = settle_create-eq name id 0 (first_insert name id state d)
  save_saga-eq name id state (suc n) d =
      let later : eqb (suc n) 0 ≡ false = ground arith in rw later refl

  -- The stores over Prisma save an aggregate and a saga as the versioned save of drizzle does with
  -- a text column and with the error test and the count of Prisma.
  pub saves-agree :
      (name id : String) (state : J) (expected : ℕ) (d : D)
      → (save_state runtime count table name id state expected d
          ≡ guarded_save name id state expected d)
        × (save_saga runtime count table name id state expected d
            ≡ guarded_save name id state expected d)
  saves-agree name id state expected d =
      (save_state-eq name id state expected d, save_saga-eq name id state expected d)

  -- Two writers of a saga that expect the stored version: when the client's count is right, the
  -- first one's save succeeds, and the second one's rejects with a conflict and leaves the first
  -- one's state.
  pub save_saga-one_wins :
      (d : D) (name id : String) (first second : J) (current : Option (StateRow String))
      → count (driver 0) ≡ 0
      → count (driver 1) ≡ 1
      → Current d name id current
      → All (λ row. 0 < row.version) (rows_of current)
      → (let (r1, d1) = save_saga runtime count table name id first (version_of current) d in
          let (r2, d2) = save_saga runtime count table name id second (version_of current) d1 in
          (r1 ≡ ok tt)
          × ((r2 ≡ err (version_conflict name id (version_of current)))
              × Current d2 name id (some (next name id first current))))
  save_saga-one_wins d name id first second current zero_read one_read h pos =
      let (done, (failed, now)) =
        save_versioned-one_wins texts true driver is_p2002 count table laws d name id
          (runtime.stringify first) (runtime.stringify second) current zero_read one_read h pos in
      let v = version_of current in
      let one = save_saga-eq name id first v d in
      let d1 = (guarded_save name id first v d).1 in
      let two =
        ap (λ w. save_saga runtime count table name id second v w.1) one
        ∙ save_saga-eq name id second v d1 in
      (
        ap (λ w. w.0) one ∙ done,
        (ap (λ w. w.0) two ∙ failed, ap (λ w. keep (of_key name id) (laws.rows w.1)) two ∙ now),
      )
