-- ===== src/Drizzle/Streams.antt =====
-- The rows that a save inserts: whose stream they are in, what their numbers are, when one of
-- them clashes with a row that is there, and what they are read back as.
use noddde.Base.{
  ℕ, suc, ◌+◌, ◌≤◌, ◌<◌, String, ◌≡◌, refl, sym, ap, ◌∙◌, List, [], ◌∷◌, ◌++◌, Option, none, some,
  Bool, true, false, ◌&&◌, eqb, keep, length, arith, Bool-cases, inl, inr, if◌then◌else◌, ◌==◌,
  eq_refl, subst, All,
}
use noddde.Result.{Result-cases, ok}
use noddde.Event.{Event, Metadata}
use noddde.Drizzle.{Runtime, serialize, deserialize}
use noddde.Drizzle.Events.{EventRow, to_rows, of_stream, deserialize_event, deserialize_all, to_row}
use noddde.Drizzle.Tables.{any, clashes, IsNumbered, keep-append}

-- the unique index over the name, the id and the sequence number
unfoldable pub same_version : {J : Type 0} → EventRow J → EventRow J → Bool
same_version r x =
    of_stream r.aggregate_name r.aggregate_id x && eqb x.sequence_number r.sequence_number

abbrev pub number : {J : Type 0} → EventRow J → ℕ
number r = r.sequence_number

module _ {J : Type 0} where
  any-same_version :
      (r : EventRow J) (rows : List (EventRow J))
      → any (same_version r) rows
        ≡ any
            (λ x. eqb x.sequence_number r.sequence_number)
            (keep (of_stream r.aggregate_name r.aggregate_id) rows)
  unfolding same_version
  any-same_version r [] = refl
  any-same_version r (x ∷ rows) = ground (arith, any-same_version r rows)

  -- every number is less than `k`
  abbrev pub IsBelow : ℕ → List (EventRow J) → Type 0
  IsBelow k rows = All (λ r. r.sequence_number < k) rows

  pub numbered-IsBelow :
      (n k : ℕ) (rows : List (EventRow J))
      → IsNumbered number n rows
      → n + length rows ≤ k
      → IsBelow k rows
  numbered-IsBelow n k [] h le = tt
  numbered-IsBelow n k (r ∷ rows) h le =
      (omega (arith, h.0), numbered-IsBelow (suc n) k rows h.1 (omega arith))

  any-IsBelow :
      (k : ℕ) (rows : List (EventRow J))
      → IsBelow k rows
      → any (λ x. eqb x.sequence_number k) rows ≡ false
  any-IsBelow k [] h = refl
  any-IsBelow k (r ∷ rows) h = ground (arith, h.0, any-IsBelow k rows h.1)

  snoc-IsBelow :
      (k : ℕ) (rows : List (EventRow J)) (r : EventRow J)
      → IsBelow k rows
      → r.sequence_number ≡ k
      → IsBelow (k + 1) (rows ++ r ∷ [])
  snoc-IsBelow k [] r h e = (omega arith, tt)
  snoc-IsBelow k (x ∷ rows) r h e = (omega (arith, h.0), snoc-IsBelow k rows r h.1 e)

  number-within :
      (n k : ℕ) (rows : List (EventRow J))
      → IsNumbered number n rows
      → n ≤ k
      → k < n + length rows
      → any (λ x. eqb x.sequence_number k) rows ≡ true
  number-within n k [] h le lt = absurd (omega arith)
  number-within n k (r ∷ rows) h le lt = elim (Bool-cases (eqb r.sequence_number k)) [
    | inl here ↦ ground (arith, here)
    | inr there ↦
        ground (
          arith,
          there,
          number-within (suc n) k rows h.1 (ground (arith, there, h.0)) (omega arith),
        )
  ]

  keep-snoc :
      (name id : String) (r : EventRow J) (old : List (EventRow J))
      → (r.aggregate_name == name) ≡ true
      → (r.aggregate_id == id) ≡ true
      → keep (of_stream name id) (old ++ r ∷ []) ≡ keep (of_stream name id) old ++ r ∷ []
  keep-snoc name id r old h h' = ground (arith, keep-append (of_stream name id) old (r ∷ []))

module _ {J : Type 0} (runtime : Runtime J) (native_json : Bool) (name id : String)
    (expected : ℕ) where
  pub to_rows-IsNumbered :
      (index : ℕ) (events : List (Event J))
      → IsNumbered number
          (expected + index + 1)
          (to_rows runtime native_json name id expected index events)
  unfolding to_rows to_row
  to_rows-IsNumbered index [] = tt
  to_rows-IsNumbered index (e ∷ events) = (
    refl,
    subst
        (λ n. IsNumbered number n (to_rows runtime native_json name id expected (index + 1) events))
        (omega arith) (to_rows-IsNumbered (index + 1) events),
  )

  -- The rows are all in the stream that they were made for.
  pub keep-to_rows :
      (name' id' : String) (index : ℕ) (events : List (Event J))
      → keep (of_stream name' id') (to_rows runtime native_json name id expected index events) ≡ (
          if (name == name') && (id == id')
          then to_rows runtime native_json name id expected index events
          else [])
  unfolding to_rows to_row
  keep-to_rows name' id' index [] = ground arith
  keep-to_rows name' id' index (e ∷ events) =
      ground (arith, keep-to_rows name' id' (index + 1) events)

  pub clashes-fresh :
      (index : ℕ) (events : List (Event J)) (old : List (EventRow J))
      → IsBelow (expected + index + 1) (keep (of_stream name id) old)
      → clashes same_version old (to_rows runtime native_json name id expected index events) ≡ false
  unfolding to_rows to_row
  clashes-fresh index [] old h = refl
  clashes-fresh index (e ∷ events) old h =
      let k = expected + index + 1 in
      let r = to_row runtime native_json name id k e in
      let mine = keep (of_stream name id) old in
      let grown = keep-snoc name id r old (eq_refl name) (eq_refl id) in
      let moved = subst (IsBelow (k + 1)) (sym grown) (snoc-IsBelow k mine r h refl) in
      let below : IsBelow (expected + (index + 1) + 1) (keep (of_stream name id) (old ++ r ∷ [])) =
        subst (λ n. IsBelow n (keep (of_stream name id) (old ++ r ∷ []))) (omega arith) moved in
      ground (
        arith,
        any-same_version r old,
        any-IsBelow k mine h,
        clashes-fresh (index + 1) events (old ++ r ∷ []) below,
      )

  pub clashes-taken :
      (e : Event J) (events : List (Event J)) (old : List (EventRow J))
      → IsNumbered number 1 (keep (of_stream name id) old)
      → expected < length (keep (of_stream name id) old)
      → clashes same_version old (to_rows runtime native_json name id expected 0 (e ∷ events))
        ≡ true
  unfolding to_rows to_row
  clashes-taken e events old h lt =
      let r = to_row runtime native_json name id (expected + 0 + 1) e in
      let mine = keep (of_stream name id) old in
      ground (
        arith,
        any-same_version r old,
        number-within 1 (expected + 0 + 1) mine h (omega arith) (omega arith),
      )

-- What the code relies on of columns: a text is read back as that text, and metadata as itself.
pub record IsJson {J : Type 0} (runtime : Runtime J) : Type 0 where
  pub reads_text : (s : String) → runtime.as_string (runtime.of_string s) ≡ some s
  pub reads_metadata : (m : Option Metadata) → runtime.to_metadata (runtime.of_metadata m) ≡ m

-- A value that the store can keep: as JSON of the database, one that is no text; as text, one
-- that `JSON.parse` gives back.
abbrev pub IsStorable : {J : Type 0} → Runtime J → Bool → J → Type 0
IsStorable runtime true j = runtime.as_string j ≡ none
IsStorable runtime false j = runtime.parse (runtime.stringify j) ≡ ok j

abbrev pub AreStorable : {J : Type 0} → Runtime J → Bool → List (Event J) → Type 0
AreStorable runtime native_json events =
    All
      (λ e.
        IsStorable runtime native_json e.payload
        × IsStorable runtime native_json (runtime.of_metadata e.metadata))
      events

module _ {J : Type 0} (runtime : Runtime J) (laws : IsJson runtime) where
  pub deserialize-serialize :
      (native_json : Bool) (j : J)
      → IsStorable runtime native_json j
      → deserialize runtime (serialize runtime native_json j) ≡ ok j
  unfolding serialize deserialize
  deserialize-serialize true j h = ground (arith, h)
  deserialize-serialize false j h = ground (arith, laws.reads_text (runtime.stringify j), h)

module _ {J : Type 0} (runtime : Runtime J) (laws : IsJson runtime) (native_json : Bool) where
  deserialize_event-to_row :
      (name id : String) (n : ℕ) (e : Event J)
      → IsStorable runtime native_json e.payload
      → IsStorable runtime native_json (runtime.of_metadata e.metadata)
      → deserialize_event runtime native_json (to_row runtime native_json name id n e) ≡ ok e
  unfolding deserialize_event to_row
  deserialize_event-to_row name id n e h h' =
      rw
        (
          deserialize-serialize runtime laws native_json e.payload h,
          deserialize-serialize runtime laws native_json (runtime.of_metadata e.metadata) h',
          laws.reads_metadata e.metadata,
        )
        refl

  -- Rows that were made of events are read back as those events, in their order.
  pub deserialize_all-to_rows :
      (name id : String) (expected index : ℕ) (events : List (Event J))
      → AreStorable runtime native_json events
      → deserialize_all runtime native_json
          (to_rows runtime native_json name id expected index events)
        ≡ ok events
  unfolding deserialize_all to_rows
  deserialize_all-to_rows name id expected index [] h = refl
  deserialize_all-to_rows name id expected index (e ∷ events) h =
      rw
        (
          deserialize_event-to_row name id (expected + index + 1) e h.0.0 h.0.1,
          deserialize_all-to_rows name id expected (index + 1) events h.1,
        )
        refl

module _ {J : Type 0} (runtime : Runtime J) (native_json : Bool) where
  pub deserialize_all-parts :
      (x : EventRow J) (xs : List (EventRow J)) (es : List (Event J))
      → deserialize_all runtime native_json (x ∷ xs) ≡ ok es
      → (e : Event J) × (rest : List (Event J)) × (deserialize_event runtime native_json x ≡ ok e)
        × (deserialize_all runtime native_json xs ≡ ok rest)
        × (es ≡ e ∷ rest)
  unfolding deserialize_all
  deserialize_all-parts x xs es h = elim (Result-cases (deserialize_event runtime native_json x)) [
    | inl (f, bad) ↦ absurd (ground (arith, h, bad))
    | inr (e, good) ↦ elim (Result-cases (deserialize_all runtime native_json xs)) [
      | inl (f, bad) ↦ absurd (ground (arith, h, good, bad))
      | inr (rest, good') ↦ (e, rest, good, good', ground (arith, h, good, good'))
    ]
  ]

  pub deserialize_all-append :
      (xs ys : List (EventRow J)) (es fs : List (Event J))
      → deserialize_all runtime native_json xs ≡ ok es
      → deserialize_all runtime native_json ys ≡ ok fs
      → deserialize_all runtime native_json (xs ++ ys) ≡ ok (es ++ fs)
  unfolding deserialize_all
  deserialize_all-append [] ys es fs h h' = ground (arith, h, h')
  deserialize_all-append (x ∷ xs) ys es fs h h' =
      let (e, rest, good, good', same) = deserialize_all-parts x xs es h in
      let tail = deserialize_all-append xs ys rest fs good' h' in ground (arith, good, tail, same)

  pub length-deserialize_all :
      (xs : List (EventRow J)) (es : List (Event J))
      → deserialize_all runtime native_json xs ≡ ok es
      → length xs ≡ length es
  unfolding deserialize_all
  length-deserialize_all [] es h = ground (arith, h)
  length-deserialize_all (x ∷ xs) es h =
      let (e, rest, good, good', same) = deserialize_all-parts x xs es h in
      ap suc (length-deserialize_all xs rest good') ∙ ap length (sym same)
