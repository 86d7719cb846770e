-- ===== src/Drizzle/Refinement.antt =====
-- The event store over a table keeps, for every aggregate, a list of events that a save appends
-- to: what the interface promises, and how far the tables keep the promise.
use noddde.Base.{
  ℕ, ◌+◌, ◌≤◌, ◌<◌, String, ◌≡◌, refl, sym, ap, ◌∙◌, List, [], ◌∷◌, ◌++◌, Bool, true, false, ◌&&◌,
  eqb, keep, length, arith, Bool-cases, inl, inr, if◌then◌else◌, ◌==◌, eq_iff, eq_refl, subst,
  append-nil,
}
use noddde.Result.{Result, ok, err, version_conflict}
use noddde.Event.{Event}
use noddde.Drizzle.{DriverResult, Table, Runtime, is_unique_violation}
use noddde.Drizzle.Events.{EventRow, to_rows, of_stream, deserialize_all, settle_insert, save, load}
use noddde.Drizzle.Tables.{
  IsTable, clashes, IsNumbered, keep-append, append-IsNumbered, sort_rows-IsNumbered,
}
use noddde.Drizzle.Streams.{
  same_version, number, to_rows-IsNumbered, keep-to_rows, clashes-fresh, clashes-taken, IsJson,
  AreStorable, numbered-IsBelow, deserialize_all-to_rows, deserialize_all-append,
  length-deserialize_all,
}

-- The store as its clients see it: the events of every aggregate, and nothing of rows.
abbrev pub EventStreams : Type 0 → Type 0
EventStreams J = String → String → List (Event J)

module _ {J : Type 0} where
  abbrev pub extended : EventStreams J → String → String → List (Event J) → EventStreams J
  extended streams name id events name' id' =
      if (name == name') && (id == id') then streams name' id' ++ events else streams name' id'

  -- A save is accepted when the stream has the length that the writer expects.
  abbrev pub append_stream :
      EventStreams J → String → String → List (Event J) → ℕ → Result (EventStreams J)
  append_stream streams name id [] expected = ok streams
  append_stream streams name id (e ∷ events) expected =
      if eqb (length (streams name id)) expected
      then ok (extended streams name id (e ∷ events))
      else err (version_conflict name id expected)

module _ {J D : Type 0} (runtime : Runtime J) (json : IsJson runtime) (native_json : Bool)
    (matches : String → Bool) (driver : ℕ → DriverResult) (events_table : Table D (EventRow J))
    (laws : IsTable same_version (is_unique_violation matches) driver events_table) where
  abbrev pub stream_rows : D → String → String → List (EventRow J)
  stream_rows d name id = keep (of_stream name id) (laws.rows d)

  -- The tables hold the streams: the rows of each are numbered from 1, and read back as it.
  abbrev pub Holds : D → EventStreams J → Type 0
  Holds d streams =
      (name id : String)
      → IsNumbered number 1 (stream_rows d name id)
        × (deserialize_all runtime native_json (stream_rows d name id) ≡ ok (streams name id))

  pub load-Holds :
      (d : D) (streams : EventStreams J) (name id : String)
      → Holds d streams
      → load runtime native_json matches events_table name id d ≡ ok (streams name id)
  unfolding load
  load-Holds d streams name id h =
      ap (deserialize_all runtime native_json) (
        laws.selects (of_stream name id) number d
        ∙ sort_rows-IsNumbered number 1 (stream_rows d name id) (h name id).0)
      ∙ (h name id).1

  abbrev pub new_rows : String → String → ℕ → List (Event J) → List (EventRow J)
  new_rows name id expected events = to_rows runtime native_json name id expected 0 events

  -- what the rows of a stream are behind an insert
  stream_rows-inserted :
      (d d' : D) (name id name' id' : String) (expected : ℕ) (events : List (Event J))
      → laws.rows d' ≡ laws.rows d ++ new_rows name id expected events
      → stream_rows d' name' id'
        ≡ stream_rows d name' id'
          ++ (if (name == name') && (id == id') then new_rows name id expected events else [])
  stream_rows-inserted d d' name id name' id' expected events more =
      ap (keep (of_stream name' id')) more
      ∙ keep-append (of_stream name' id') (laws.rows d) (new_rows name id expected events)
      ∙ ap (λ rs. stream_rows d name' id' ++ rs)
          (keep-to_rows runtime native_json name id expected name' id' 0 events)

  -- the property of one stream
  abbrev HoldsAt : D → List (Event J) → String → String → Type 0
  HoldsAt d events name id =
      IsNumbered number 1 (stream_rows d name id)
      × (deserialize_all runtime native_json (stream_rows d name id) ≡ ok events)

  pub length-stream_rows :
      (d : D) (events : List (Event J)) (name id : String)
      → HoldsAt d events name id
      → length (stream_rows d name id) ≡ length events
  length-stream_rows d events name id h =
      length-deserialize_all runtime native_json (stream_rows d name id) events h.1

  extended-here :
      (d d' : D) (before events : List (Event J)) (name id : String)
      → HoldsAt d before name id
      → AreStorable runtime native_json events
      → laws.rows d' ≡ laws.rows d ++ new_rows name id (length before) events
      → HoldsAt d' (before ++ events) name id
  extended-here d d' before events name id h storable more =
      let new = new_rows name id (length before) events in
      let rows = stream_rows-inserted d d' name id name id (length before) events more in
      let both : stream_rows d' name id ≡ stream_rows d name id ++ new =
        ground (arith, rows, eq_refl name, eq_refl id) in
      let numbered =
        subst (λ n. IsNumbered number n new) (omega (arith, length-stream_rows d before name id h))
          (to_rows-IsNumbered runtime native_json name id (length before) 0 events) in
      (
        subst (IsNumbered number 1) (sym both)
            (append-IsNumbered number 1 (stream_rows d name id) new h.0 numbered),
        ap (deserialize_all runtime native_json) both
            ∙ deserialize_all-append runtime native_json (stream_rows d name id) new before events
                h.1
                (deserialize_all-to_rows runtime json native_json name id (length before) 0 events
                  storable),
      )

  extended-elsewhere :
      (d d' : D) (before : List (Event J)) (name id name' id' : String) (expected : ℕ)
      (events : List (Event J))
      → HoldsAt d before name' id'
      → ((name == name') && (id == id')) ≡ false
      → laws.rows d' ≡ laws.rows d ++ new_rows name id expected events
      → HoldsAt d' before name' id'
  extended-elsewhere d d' before name id name' id' expected events h other more =
      let rows = stream_rows-inserted d d' name id name' id' expected events more in
      let same =
        rows
        ∙ ap (λ b. stream_rows d name' id' ++ (if b then new_rows name id expected events else []))
            other
        ∙ append-nil (stream_rows d name' id') in
      (
        subst (IsNumbered number 1) (sym same) h.0,
        ap (deserialize_all runtime native_json) same ∙ h.1,
      )

  extended-Holds :
      (d d' : D) (streams : EventStreams J) (name id : String) (events : List (Event J))
      → Holds d streams
      → AreStorable runtime native_json events
      → laws.rows d' ≡ laws.rows d ++ new_rows name id (length (streams name id)) events
      → Holds d' (extended streams name id events)
  extended-Holds d d' streams name id events h storable more name' id' =
      elim (Bool-cases ((name == name') && (id == id'))) [
        | inl same ↦
            let here =
              extended-here d d' (streams name id) events name id (h name id) storable more in
            let names = (eq_iff name name').0 (ground (arith, same)) in
            let ids = (eq_iff id id').0 (ground (arith, same)) in
            let moved =
              subst (λ (k : String × String). HoldsAt d' (streams k.0 k.1 ++ events) k.0 k.1)
                (ap (λ k. (k, id)) names ∙ ap (λ k. (name', k)) ids) here in
            subst
              (λ b.
                HoldsAt d' (if b then streams name' id' ++ events else streams name' id') name' id')
              (sym same) moved
        | inr other ↦
            let there =
              extended-elsewhere d d' (streams name' id') name id name' id'
                (length (streams name id)) events (h name' id') other more in
            subst
              (λ b.
                HoldsAt d' (if b then streams name' id' ++ events else streams name' id') name' id')
              (sym other) there
      ]

  unchanged-Holds :
      (d d' : D) (streams : EventStreams J)
      → Holds d streams
      → laws.rows d' ≡ laws.rows d
      → Holds d' streams
  unchanged-Holds d d' streams h same name id =
      subst
        (λ rs.
          IsNumbered number 1 (keep (of_stream name id) rs)
          × (deserialize_all runtime native_json (keep (of_stream name id) rs)
              ≡ ok (streams name id)))
        (sym same) (h name id)

  abbrev pub saved : String → String → List (Event J) → ℕ → D → Result (Unit {0}) × D
  saved name id events expected d =
      save runtime native_json matches events_table name id events expected d

  -- the outcome of a save beside what it should do to the streams
  abbrev pub Follows : EventStreams J → Result (EventStreams J) → Result (Unit {0}) → D → Type 0
  Follows before (ok after) r d' = (r ≡ ok tt) × Holds d' after
  Follows before (err conflict) r d' = (r ≡ err conflict) × Holds d' before

  save-inserts :
      (d : D) (name id : String) (e : Event J) (events : List (Event J)) (expected : ℕ)
      → clashes same_version (laws.rows d) (new_rows name id expected (e ∷ events)) ≡ false
      → (let (r, d') = saved name id (e ∷ events) expected d in
          (r ≡ ok tt) × (laws.rows d' ≡ laws.rows d ++ new_rows name id expected (e ∷ events)))
  unfolding save settle_insert
  save-inserts d name id e events expected free =
      let (done, more) = laws.inserts (new_rows name id expected (e ∷ events)) d free in
      (ground (arith, done), ground (arith, done, more))

  save-refuses :
      (d : D) (name id : String) (e : Event J) (events : List (Event J)) (expected : ℕ)
      → clashes same_version (laws.rows d) (new_rows name id expected (e ∷ events)) ≡ true
      → (let (r, d') = saved name id (e ∷ events) expected d in
          (r ≡ err (version_conflict name id expected)) × (laws.rows d' ≡ laws.rows d))
  unfolding save settle_insert
  save-refuses d name id e events expected taken =
      let (error, refused, unique, same) =
        laws.refuses (new_rows name id expected (e ∷ events)) d taken in
      (ground (arith, refused, unique), ground (arith, refused, same))

  free_above :
      (d : D) (streams : EventStreams J) (name id : String) (events : List (Event J)) (expected : ℕ)
      → Holds d streams
      → length (streams name id) ≤ expected
      → clashes same_version (laws.rows d) (new_rows name id expected events) ≡ false
  free_above d streams name id events expected h le =
      let long = length-stream_rows d (streams name id) name id (h name id) in
      clashes-fresh runtime native_json name id expected 0 events (laws.rows d) (
        numbered-IsBelow 1 (expected + 0 + 1) (stream_rows d name id) (h name id).0
          (omega (arith, long)))

  -- While the table holds the streams and the writer expects a version that the stream has had, a
  -- save of events that the columns give back does to the streams what `append_stream` does to them,
  -- or it rejects with the same conflict and leaves them. A text column gives back what `JSON.parse`
  -- makes of the written text again; a native JSON column gives back every payload but a text, which
  -- `deserializeEvent` parses once more.
  pub save-refines :
      (d : D) (streams : EventStreams J) (name id : String) (events : List (Event J)) (expected : ℕ)
      → Holds d streams
      → AreStorable runtime native_json events
      → expected ≤ length (streams name id)
      → (let (r, d') = saved name id events expected d in
          Follows streams (append_stream streams name id events expected) r d')
  unfolding save
  save-refines d streams name id [] expected h storable le = (refl, h)
  save-refines d streams name id (e ∷ events) expected h storable le =
      elim (Bool-cases (eqb (length (streams name id)) expected)) [
        | inl current ↦
            let same : length (streams name id) ≡ expected = ground (arith, current) in
            let (done, more) =
              save-inserts d name id e events expected
                (free_above d streams name id (e ∷ events) expected h (omega arith)) in
            rw current (
              done,
              extended-Holds d (saved name id (e ∷ events) expected d).1 streams name id
                  (e ∷ events) h storable
                  (subst
                    (λ n.
                      laws.rows (saved name id (e ∷ events) expected d).1
                      ≡ laws.rows d ++ new_rows name id n (e ∷ events))
                    (sym same) more),
            )
        | inr stale ↦
            let long = length-stream_rows d (streams name id) name id (h name id) in
            let (failed, kept) = save-refuses d name id e events expected (
              clashes-taken runtime native_json name id expected e events (laws.rows d)
                (h name id).0 (ground (arith, long, stale))) in
            rw stale
              (failed, unchanged-Holds d (saved name id (e ∷ events) expected d).1 streams h kept)
      ]

  -- A writer that expects more events than the stream has is not refused: its rows are inserted
  -- behind a gap in the numbers.
  pub save_ahead :
      (d : D) (streams : EventStreams J) (name id : String) (e : Event J) (events : List (Event J))
      (expected : ℕ)
      → Holds d streams
      → length (streams name id) < expected
      → (let (r, d') = saved name id (e ∷ events) expected d in
          (r ≡ ok tt) × (laws.rows d' ≡ laws.rows d ++ new_rows name id expected (e ∷ events)))
  save_ahead d streams name id e events expected h lt =
      save-inserts d name id e events expected
        (free_above d streams name id (e ∷ events) expected h (omega arith))
