-- ===== src/Drizzle/Reading.antt =====
-- What a load that begins behind a version gives.
use noddde.Base.{
  ℕ, suc, zero, ◌+◌, String, ◌≡◌, refl, sym, ap, ◌∙◌, List, [], ◌∷◌, Bool, ◌&&◌, keep, arith,
  Bool-cases, inl, inr, subst, keep_of_true, keep_of_false, ltb, drop, ◌-◌,
}
use noddde.Result.{ok}
use noddde.Event.{Event}
use noddde.Drizzle.{DriverResult, Table, Runtime, is_unique_violation}
use noddde.Drizzle.Events.{EventRow, of_stream, deserialize_all, load_after_version}
use noddde.Drizzle.Tables.{IsTable, IsNumbered, sort_rows, sort_rows-IsNumbered}
use noddde.Drizzle.Streams.{same_version, number, IsJson, deserialize_all-parts}
use noddde.Drizzle.Tables.{keep-and}
use noddde.Drizzle.Refinement.{EventStreams, Holds}

module _ {J : Type 0} where
  drop-nil : (k : ℕ) → drop {A = EventRow J} k [] ≡ []
  drop-nil zero = refl
  drop-nil (suc k) = refl

  keep-after :
      (n after : ℕ) (rows : List (EventRow J))
      → IsNumbered number n rows
      → keep (λ r. ltb after r.sequence_number) rows ≡ drop (suc after - n) rows
  keep-after n after [] h = sym (drop-nil (suc after - n))
  keep-after n after (r ∷ rows) h = elim (Bool-cases (ltb after r.sequence_number)) [
    | inl later ↦
        let none_dropped : suc after - n ≡ 0 = ground (arith, h.0, later) in
        let none_dropped' : suc after - suc n ≡ 0 = ground (arith, h.0, later) in
        rw none_dropped (
          keep_of_true (λ x. ltb after x.sequence_number) r rows later
          ∙ ap (◌∷◌ r) (keep-after (suc n) after rows h.1 ∙ ap (λ k. drop k rows) none_dropped'))
    | inr earlier ↦
        let one_more : suc after - n ≡ suc (suc after - suc n) = ground (arith, h.0, earlier) in
        rw one_more (
          keep_of_false (λ x. ltb after x.sequence_number) r rows earlier
          ∙ keep-after (suc n) after rows h.1)
  ]

  drop-IsNumbered :
      (k n : ℕ) (rows : List (EventRow J))
      → IsNumbered number n rows
      → IsNumbered number (n + k) (drop k rows)
  drop-IsNumbered zero n rows h = subst (λ m. IsNumbered number m rows) (omega arith) h
  drop-IsNumbered (suc k) n [] h = tt
  drop-IsNumbered (suc k) n (r ∷ rows) h =
      subst (λ m. IsNumbered number m (drop k rows)) (omega arith)
        (drop-IsNumbered k (suc n) rows h.1)

module _ {J : Type 0} (runtime : Runtime J) (native_json : Bool) where
  deserialize_all-drop :
      (k : ℕ) (rows : List (EventRow J)) (events : List (Event J))
      → deserialize_all runtime native_json rows ≡ ok events
      → deserialize_all runtime native_json (drop k rows) ≡ ok (drop k events)
  unfolding deserialize_all
  deserialize_all-drop zero rows events h = h
  deserialize_all-drop (suc k) [] events h = ground (arith, h)
  deserialize_all-drop (suc k) (r ∷ rows) events h =
      let (e, rest, good, good', same) =
        deserialize_all-parts runtime native_json r rows events h in
      deserialize_all-drop k rows rest good' ∙ ap (λ es. ok (drop (suc k) es)) (sym same)

module _ {J D : Type 0} (runtime : Runtime J) (json : IsJson runtime) (native_json : Bool)
    (matches : String → Bool) (driver : ℕ → DriverResult) (events_table : Table D (EventRow J))
    (laws : IsTable same_version (is_unique_violation matches) driver events_table) where
  -- While the tables hold the streams, a load behind a version gives the events of the stream
  -- without as many of its first ones.
  pub load_after_version-drop :
      (d : D) (streams : EventStreams J) (name id : String) (after : ℕ)
      → Holds runtime json native_json matches driver events_table laws d streams
      → load_after_version runtime native_json matches events_table name id after d
        ≡ ok (drop after (streams name id))
  unfolding load_after_version
  load_after_version-drop d streams name id after h =
      let rows = keep (of_stream name id) (laws.rows d) in
      let p = λ (r : EventRow J). of_stream name id r && ltb after r.sequence_number in
      let less : suc after - 1 ≡ after = omega arith in
      let kept : keep p (laws.rows d) ≡ drop after rows =
        keep-and (of_stream name id) (λ r. ltb after r.sequence_number) (laws.rows d)
        ∙ keep-after 1 after rows (h name id).0
        ∙ ap (λ k. drop k rows) less in
      let sorted : sort_rows number (keep p (laws.rows d)) ≡ drop after rows =
        ap (sort_rows number) kept
        ∙ sort_rows-IsNumbered number (1 + after) (drop after rows)
            (drop-IsNumbered after 1 rows (h name id).0) in
      ap (deserialize_all runtime native_json) (laws.selects p number d ∙ sorted)
      ∙ deserialize_all-drop runtime native_json after rows (streams name id) (h name id).1
