-- ===== src/Drizzle/Races.antt =====
-- Two writers of a versioned state that expect the same version: the database decides.
use noddde.Base.{
  ℕ, ◌+◌, ◌<◌, String, ◌≡◌, refl, ap, ◌∙◌, Option, none, some, Bool, true, false, eqb, keep, arith,
  if◌then◌else◌, All, subst,
}
use noddde.Result.{Result, ok, err, version_conflict}
use noddde.Drizzle.{DbError, DriverResult, Table, Runtime}
use noddde.Drizzle.States.{StateRow, of_key}
use noddde.Drizzle.Tables.{IsTable}
use noddde.Drizzle.Versions.{
  same_key, IsCurrent, rows_of, version_of, saved_as, successor, save_versioned-decides,
}

module _ {J D : Type 0} (runtime : Runtime J) (native_json : Bool) (driver : ℕ → DriverResult)
    (is_conflict : DbError → Bool) (affected : DriverResult → ℕ) (table : Table D (StateRow J))
    (laws : IsTable same_key is_conflict driver table) where
  abbrev saves : String → String → J → ℕ → D → Result (Unit {0}) × D
  saves = saved_as runtime native_json driver is_conflict affected table laws

  abbrev Current : D → String → String → Option (StateRow J) → Type 0
  Current = IsCurrent runtime native_json driver is_conflict affected table laws

  abbrev succeeding : String → String → J → Option (StateRow J) → StateRow J
  succeeding = successor runtime native_json driver is_conflict affected table laws

  successor-version :
      (name id : String) (state : J) (current : Option (StateRow J))
      → (succeeding name id state current).version ≡ version_of current + 1
  successor-version name id state none = refl
  successor-version name id state (some row) = refl

  -- what a save does on the test of the versions
  abbrev Decided : D → String → String → J → Option (StateRow J) → ℕ → Bool → Type 0
  Decided d name id state current expected agrees =
      let (r, d') = saves name id state expected d in
      if agrees
      then (r ≡ ok tt) × Current d' name id (some (succeeding name id state current))
      else (r ≡ err (version_conflict name id expected)) × (laws.rows d' ≡ laws.rows d)

  saves-Decided :
      (d : D) (name id : String) (state : J) (current : Option (StateRow J)) (expected : ℕ)
      → affected (driver 0) ≡ 0
      → affected (driver 1) ≡ 1
      → Current d name id current
      → All (λ row. 0 < row.version) (rows_of current)
      → (agrees : Bool) → eqb (version_of current) expected ≡ agrees
      → Decided d name id state current expected agrees
  saves-Decided d name id state current expected zero_read one_read h pos agrees e =
      subst (Decided d name id state current expected) e (
        save_versioned-decides runtime native_json driver is_conflict affected table laws d name id
          state current expected zero_read one_read h pos)

  -- Of two saves that expect the stored version, the first succeeds, and the second rejects with a
  -- conflict and leaves the first one's row.
  pub save_versioned-one_wins :
      (d : D) (name id : String) (first second : J) (current : Option (StateRow J))
      → affected (driver 0) ≡ 0
      → affected (driver 1) ≡ 1
      → Current d name id current
      → All (λ row. 0 < row.version) (rows_of current)
      → (let (r1, d1) = saves name id first (version_of current) d in
          let (r2, d2) = saves name id second (version_of current) d1 in
          (r1 ≡ ok tt)
          × ((r2 ≡ err (version_conflict name id (version_of current)))
              × Current d2 name id (some (succeeding name id first current))))
  save_versioned-one_wins d name id first second current zero_read one_read h pos =
      let v = version_of current in
      let next = succeeding name id first current in
      let version : next.version ≡ v + 1 = successor-version name id first current in
      let (done, now) =
        saves-Decided d name id first current v zero_read one_read h pos true (ground arith) in
      let d1 = (saves name id first v d).1 in
      let (failed, kept) =
        saves-Decided d1 name id second (some next) v zero_read one_read now
          (ground (arith, version), tt) false (ground (arith, version)) in
      (done, (failed, ap (keep (of_key name id)) kept ∙ now))
