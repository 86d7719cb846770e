-- ===== src/Drizzle/Versions.antt =====
-- What a save of a versioned state does on every version that the writer may expect.
use noddde.Base.{
  ℕ, suc, zero, ◌+◌, ◌<◌, ◌≢◌, String, ◌≡◌, refl, sym, ap, ◌∙◌, List, [], ◌∷◌, map, Option, none,
  some, Bool, true, false, eqb, keep, length, arith, Bool-cases, inl, inr, if◌then◌else◌, eq_refl,
  subst, All,
}
use noddde.Result.{Result, ok, err, version_conflict}
use noddde.Drizzle.{DbError, DriverResult, Table, Runtime, serialize, deserialize}
use noddde.Drizzle.Events.{settle_insert}
use noddde.Drizzle.States.{
  StateRow, of_key, of_version, settle_update, save_versioned, load_versioned,
}
use noddde.Drizzle.Tables.{IsTable, any, clashes, change, keep-append, keep-and}
use noddde.Drizzle.Streams.{IsJson, IsStorable, deserialize-serialize}

-- the primary key over the name and the id
unfoldable pub same_key : {J : Type 0} → StateRow J → StateRow J → Bool
same_key r x = of_key r.name r.id x

module _ {R : Type 0} where
  any-none : (p : R → Bool) (rows : List R) → keep p rows ≡ [] → any p rows ≡ false
  any-none p [] h = refl
  any-none p (r ∷ rows) h = ground (arith, h, any-none p rows)

  any-some : (p : R → Bool) (x : R) (xs rows : List R) → keep p rows ≡ x ∷ xs → any p rows ≡ true
  any-some p x xs [] h = ground (arith, h)
  any-some p x xs (r ∷ rows) h = ground (arith, h, any-some p x xs rows)

  change-none :
      (f : R → R) (p : R → Bool) (rows : List R) → keep p rows ≡ [] → map (change f p) rows ≡ rows
  change-none f p [] h = refl
  change-none f p (r ∷ rows) h = ground (arith, h, change-none f p rows)

module _ {J : Type 0} where
  abbrev has_version : ℕ → StateRow J → Bool
  has_version v r = eqb r.version v

  abbrev put : J → ℕ → StateRow J → StateRow J
  put column v r = record r { state = column; version = v }

  keep-change :
      (name id : String) (v v' : ℕ) (column : J) (rows : List (StateRow J))
      → keep (of_key name id) (map (change (put column v') (of_version name id v)) rows)
        ≡ map (change (put column v') (has_version v)) (keep (of_key name id) rows)
  keep-change name id v v' column [] = refl
  keep-change name id v v' column (r ∷ rows) = ground (arith, keep-change name id v v' column rows)

  abbrev pub rows_of : Option (StateRow J) → List (StateRow J)
  rows_of none = []
  rows_of (some row) = row ∷ []

  -- 0 for a name and an id without a row
  abbrev pub version_of : Option (StateRow J) → ℕ
  version_of none = 0
  version_of (some row) = row.version

module _ {J D : Type 0} (runtime : Runtime J) (native_json : Bool) (driver : ℕ → DriverResult)
    (is_conflict : DbError → Bool) (affected : DriverResult → ℕ) (table : Table D (StateRow J))
    (laws : IsTable same_key is_conflict driver table) where
  abbrev pub saved_as : String → String → J → ℕ → D → Result (Unit {0}) × D
  saved_as name id state expected d =
      save_versioned runtime native_json table is_conflict affected name id state expected d

  abbrev pub row_for : String → String → J → ℕ → StateRow J
  row_for name id state version = record {
    name = name;
    id = id;
    state = serialize runtime native_json state;
    version = version;
  }

  -- the one row of a name and an id, when there is one
  abbrev pub IsCurrent : D → String → String → Option (StateRow J) → Type 0
  IsCurrent d name id current = keep (of_key name id) (laws.rows d) ≡ rows_of current

  save-first :
      (d : D) (name id : String) (state : J)
      → IsCurrent d name id none
      → (let (r, d') = saved_as name id state 0 d in
          (r ≡ ok tt) × IsCurrent d' name id (some (row_for name id state 1)))
  unfolding save_versioned settle_insert same_key
  save-first d name id state h =
      let row = row_for name id state 1 in
      let free : clashes same_key (laws.rows d) (row ∷ []) ≡ false =
        ground (arith, any-none (of_key name id) (laws.rows d) h) in
      let (done, more) = laws.inserts (row ∷ []) d free in
      (
        ground (arith, done),
        ground (
          arith,
          done,
          more,
          keep-append (of_key name id) (laws.rows d) (row ∷ []),
          h,
          eq_refl name,
          eq_refl id,
        ),
      )

  save-taken :
      (d : D) (name id : String) (state : J) (row : StateRow J)
      → IsCurrent d name id (some row)
      → (let (r, d') = saved_as name id state 0 d in
          (r ≡ err (version_conflict name id 0)) × (laws.rows d' ≡ laws.rows d))
  unfolding save_versioned settle_insert same_key
  save-taken d name id state row h =
      let new = row_for name id state 1 in
      let taken : clashes same_key (laws.rows d) (new ∷ []) ≡ true =
        ground (arith, any-some (of_key name id) row [] (laws.rows d) h) in
      let (e, refused, unique, same) = laws.refuses (new ∷ []) d taken in
      (ground (arith, refused, unique), ground (arith, refused, same))

  selected-versions :
      (d : D) (name id : String) (v : ℕ) (current : Option (StateRow J))
      → IsCurrent d name id current
      → keep (of_version name id v) (laws.rows d) ≡ keep (has_version v) (rows_of current)
  selected-versions d name id v current h =
      keep-and (of_key name id) (has_version v) (laws.rows d) ∙ ap (keep (has_version v)) h

  -- an update changes the row when it has the version that the writer expects
  updated-IsCurrent :
      (d : D) (name id : String) (state : J) (row : StateRow J) (expected : ℕ)
      → IsCurrent d name id (some row)
      → row.version ≡ expected
      → expected ≢ 0
      → (let (r, d') = saved_as name id state expected d in
          (r ≡ (
            if eqb (affected (driver 1)) 0 then err (version_conflict name id expected) else ok tt))
          × IsCurrent d' name id
              (some (put (serialize runtime native_json state) (expected + 1) row)))
  unfolding save_versioned settle_update
  updated-IsCurrent d name id state row expected h e pos =
      let column = serialize runtime native_json state in
      let f = put column (expected + 1) in
      let (count, rows) = laws.updates f (of_version name id expected) d in
      let one : keep (of_version name id expected) (laws.rows d) ≡ row ∷ [] =
        selected-versions d name id expected (some row) h ∙ ground (arith, e) in
      let changed : keep (of_key name id)
            (map (change f (of_version name id expected)) (laws.rows d))
          ≡ f row ∷ [] =
        keep-change name id expected (expected + 1) column (laws.rows d)
        ∙ ap (map (change f (has_version expected))) h
        ∙ ground (arith, e) in
      let counted : (table.update f (of_version name id expected) d).0 ≡ driver 1 =
        count ∙ ap (λ (rs : List (StateRow J)). driver (length rs)) one in
      (ground (arith, counted, pos), ground (arith, ap (keep (of_key name id)) rows, changed, pos))

  missed-rows :
      (d : D) (name id : String) (state : J) (current : Option (StateRow J)) (expected : ℕ)
      → IsCurrent d name id current
      → keep (has_version expected) (rows_of current) ≡ []
      → expected ≢ 0
      → (let (r, d') = saved_as name id state expected d in
          (r ≡ (
            if eqb (affected (driver 0)) 0 then err (version_conflict name id expected) else ok tt))
          × (laws.rows d' ≡ laws.rows d))
  unfolding save_versioned settle_update
  missed-rows d name id state current expected h e pos =
      let f = put (serialize runtime native_json state) (expected + 1) in
      let p = of_version name id expected in
      let (count, rows) = laws.updates f p d in
      let none_matches : keep p (laws.rows d) ≡ [] =
        selected-versions d name id expected current h ∙ e in
      let counted : (table.update f p d).0 ≡ driver 0 =
        count ∙ ap (λ (rs : List (StateRow J)). driver (length rs)) none_matches in
      let same : laws.rows (table.update f p d).1 ≡ laws.rows d =
        rows ∙ change-none f p (laws.rows d) none_matches in
      (ground (arith, counted, pos), ground (arith, same, pos))

  -- the row behind a save that succeeded
  abbrev pub successor : String → String → J → Option (StateRow J) → StateRow J
  successor name id state none = row_for name id state 1
  successor name id state (some row) =
      put (serialize runtime native_json state) (row.version + 1) row

  -- When the driver's count is read right, a save succeeds exactly when the writer expects the
  -- version that is stored, and then the row has the next version; any other save rejects with a
  -- conflict and changes no row.
  pub save_versioned-decides :
      (d : D) (name id : String) (state : J) (current : Option (StateRow J)) (expected : ℕ)
      → affected (driver 0) ≡ 0
      → affected (driver 1) ≡ 1
      → IsCurrent d name id current
      → All (λ row. 0 < row.version) (rows_of current)
      → (let (r, d') = saved_as name id state expected d in
          if eqb (version_of current) expected
          then (r ≡ ok tt) × IsCurrent d' name id (some (successor name id state current))
          else (r ≡ err (version_conflict name id expected)) × (laws.rows d' ≡ laws.rows d))
  save_versioned-decides d name id state none zero zero_read one_read h pos =
      save-first d name id state h
  save_versioned-decides d name id state none (suc n) zero_read one_read h pos =
      let (failed, same) = missed-rows d name id state none (suc n) h refl (ground arith) in
      let differs : eqb 0 (suc n) ≡ false = ground arith in
      rw differs (ground (arith, failed, zero_read), same)
  save_versioned-decides d name id state (some row) zero zero_read one_read h pos =
      let (failed, same) = save-taken d name id state row h in
      let differs : eqb row.version 0 ≡ false = ground (arith, pos.0) in rw differs (failed, same)
  save_versioned-decides d name id state (some row) (suc n) zero_read one_read h pos =
      elim (Bool-cases (eqb row.version (suc n))) [
        | inl same ↦
            let e : row.version ≡ suc n = ground (arith, same) in
            let (done, now) = updated-IsCurrent d name id state row (suc n) h e (ground arith) in
            rw same (
              ground (arith, done, one_read),
              subst
                  (λ v.
                    IsCurrent (saved_as name id state (suc n) d).1 name id
                      (some (put (serialize runtime native_json state) (v + 1) row)))
                  (sym e) now,
            )
        | inr other ↦
            let (failed, same) =
              missed-rows d name id state (some row) (suc n) h (ground (arith, other))
                (ground arith) in
            rw other (ground (arith, failed, zero_read), same)
      ]

  -- A driver whose count is read as 0 rejects every update as a conflict, with the row changed.
  pub unread_count-conflict :
      (d : D) (name id : String) (state : J) (row : StateRow J)
      → affected (driver 1) ≡ 0
      → IsCurrent d name id (some row)
      → 0 < row.version
      → (let (r, d') = saved_as name id state row.version d in
          (r ≡ err (version_conflict name id row.version))
          × IsCurrent d' name id
              (some (put (serialize runtime native_json state) (row.version + 1) row)))
  unread_count-conflict d name id state row unread h pos =
      let (failed, now) = updated-IsCurrent d name id state row row.version h refl (ground arith) in
      (ground (arith, failed, unread), now)

  load-current :
      (json : IsJson runtime) (d : D) (name id : String) (state : J) (row : StateRow J)
      → IsStorable runtime native_json state
      → IsCurrent d name id (some row)
      → row.state ≡ serialize runtime native_json state
      → load_versioned runtime native_json table name id d
        ≡ ok (some (record { state = state; version = row.version }))
  unfolding load_versioned
  load-current json d name id state row storable h column =
      let found = laws.finds_one (of_key name id) row d h in
      let read : deserialize runtime row.state ≡ ok state =
        ap (deserialize runtime) column
        ∙ deserialize-serialize runtime json native_json state storable in
      rw (found, read) refl

  -- What a save that expects the stored version wrote is what the next load gives, with the next
  -- version.
  pub load-save_versioned :
      (json : IsJson runtime) (d : D) (name id : String) (state : J) (current : Option (StateRow J))
      → IsStorable runtime native_json state
      → affected (driver 0) ≡ 0
      → affected (driver 1) ≡ 1
      → IsCurrent d name id current
      → All (λ row. 0 < row.version) (rows_of current)
      → load_versioned runtime native_json table name id
          (saved_as name id state (version_of current) d).1
        ≡ ok (some (record { state = state; version = version_of current + 1 }))
  load-save_versioned json d name id state none storable zero_read one_read h pos =
      load-current json (saved_as name id state 0 d).1 name id state (row_for name id state 1)
        storable (save-first d name id state h).1 refl
  load-save_versioned json d name id state (some row) storable zero_read one_read h pos =
      load-current json (saved_as name id state row.version d).1 name id state
        (put (serialize runtime native_json state) (row.version + 1) row) storable
        (updated-IsCurrent d name id state row row.version h refl (ground (arith, pos.0))).1 refl
