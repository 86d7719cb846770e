-- ===== src/Typeorm/Marking.antt =====
-- What marking by event ids leaves in the outbox: the code marks by the ids of the entries that
-- it finds among the ten thousand oldest unpublished ones.
use noddde.Base.{
  if◌then◌else◌, Option-cases, inl, inr, ℕ, suc, zero, ◌≤◌, String, ◌≡◌, refl, sym, ap, ◌∙◌, List,
  Option, [], ◌∷◌, map, none, some, Bool, false, ◌&&◌, keep, take, length, arith, ◌==◌, eq_refl,
  All,
}
use noddde.Event.{Metadata}
use noddde.Outbox.{OutboxEntry, event_id_of, contains, is_unpublished}
use noddde.Drizzle.{DbError, DriverResult, Table}
use noddde.Drizzle.Tables.{IsTable, any, change, sort_rows, insert_row, keep-and}
use noddde.Typeorm.{
  has, load_unpublished, publish_entry, mark_published, is_named, mark_published_by_event_ids,
}

module _ {R : Type 0} where
  take-short : (n : ℕ) (xs : List R) → length xs ≤ n → take n xs ≡ xs
  take-short zero [] h = refl
  take-short zero (x ∷ xs) h = absurd (omega (arith, h))
  take-short (suc n) [] h = refl
  take-short (suc n) (x ∷ xs) h = ap (◌∷◌ x) (take-short n xs (omega (arith, h)))

  length-insert_row :
      (by : R → ℕ) (r : R) (xs : List R) → length (insert_row by r xs) ≡ suc (length xs)
  length-insert_row by r [] = refl
  length-insert_row by r (x ∷ xs) = ground (arith, length-insert_row by r xs)

  length-sort_rows : (by : R → ℕ) (xs : List R) → length (sort_rows by xs) ≡ length xs
  length-sort_rows by [] = refl
  length-sort_rows by (x ∷ xs) =
      ground (arith, length-insert_row by x (sort_rows by xs), length-sort_rows by xs)

  any-insert_row :
      (by : R → ℕ) (q : R → Bool) (r : R) (xs : List R)
      → any q (insert_row by r xs) ≡ any q (r ∷ xs)
  any-insert_row by q r [] = refl
  any-insert_row by q r (x ∷ xs) = ground (arith, any-insert_row by q r xs)

  any-sort_rows : (by : R → ℕ) (q : R → Bool) (xs : List R) → any q (sort_rows by xs) ≡ any q xs
  any-sort_rows by q [] = refl
  any-sort_rows by q (x ∷ xs) =
      ground (arith, any-insert_row by q x (sort_rows by xs), any-sort_rows by q xs)

  any-keep : (p q : R → Bool) (xs : List R) → any q (keep p xs) ≡ any (λ r. p r && q r) xs
  any-keep p q [] = refl
  any-keep p q (x ∷ xs) = ground (arith, any-keep p q xs)

  map-change-agree :
      (f : R → R) (p q : R → Bool) (rows : List R)
      → All (λ r. p r ≡ q r) rows
      → map (change f p) rows ≡ map (change f q) rows
  map-change-agree f p q [] h = refl
  map-change-agree f p q (r ∷ rows) h = ground (arith, h.0, map-change-agree f p q rows h.1)

  All-through :
      (f g q : R → Bool) (rows : List R)
      → ((r : R) → f r ≡ g r)
      → All (λ r. g r ≡ q r) rows
      → All (λ r. f r ≡ q r) rows
  All-through f g q [] e h = tt
  All-through f g q (r ∷ rows) e h = (e r ∙ h.0, All-through f g q rows e h.1)

  All-of : {q : R → Bool} → ((r : R) → q r ≡ false) → (rows : List R) → All (λ r. q r ≡ false) rows
  All-of h [] = tt
  All-of h (r ∷ rows) = (h r, All-of h rows)

  map-change-false : (f : R → R) (rows : List R) → map (change f (λ r. false)) rows ≡ rows
  map-change-false f [] = refl
  map-change-false f (r ∷ rows) = ap (◌∷◌ r) (map-change-false f rows)

module _ {P : Type 0} where
  abbrev has_id : String → OutboxEntry P → Bool
  has_id id e = e.id == id

  -- the primary key: no two rows have the same id
  abbrev pub IsDistinct : List (OutboxEntry P) → Type 0
  IsDistinct [] = Unit
  IsDistinct (e ∷ es) =
      All (λ x. (has_id e.id x ≡ false) × (has_id x.id e ≡ false)) es × IsDistinct es

  contains-ids :
      (id : String) (es : List (OutboxEntry P))
      → contains (map (λ e. e.id) es) id ≡ any (has_id id) es
  contains-ids id [] = refl
  contains-ids id (e ∷ es) = ground (arith, contains-ids id es)

  any-other :
      (q : OutboxEntry P → Bool) (e : OutboxEntry P) (es : List (OutboxEntry P))
      → All (λ x. (has_id e.id x ≡ false) × (has_id x.id e ≡ false)) es
      → any (λ x. q x && has_id e.id x) es ≡ false
  any-other q e [] h = refl
  any-other q e (x ∷ es) h = ground (arith, h.0.0, any-other q e es h.1)

  any-behind :
      (q : OutboxEntry P → Bool) (e : OutboxEntry P) (all es : List (OutboxEntry P))
      → All (λ x. (has_id e.id x ≡ false) × (has_id x.id e ≡ false)) es
      → All (λ r. any (λ x. q x && has_id r.id x) all ≡ q r) es
      → All (λ r. any (λ x. q x && has_id r.id x) (e ∷ all) ≡ q r) es
  any-behind q e all [] h same = tt
  any-behind q e all (x ∷ es) h same =
      (ground (arith, h.0.1, same.0), any-behind q e all es h.1 same.1)

  -- a row with the id of a row that passes a test is that row
  any-IsDistinct :
      (q : OutboxEntry P → Bool) (es : List (OutboxEntry P))
      → IsDistinct es
      → All (λ r. any (λ x. q x && has_id r.id x) es ≡ q r) es
  any-IsDistinct q [] h = tt
  any-IsDistinct q (e ∷ es) h = (
    ground (arith, eq_refl e.id, any-other q e es h.0),
    any-behind q e es es h.0 (any-IsDistinct q es h.1),
  )

module _ {P D : Type 0} (clash : OutboxEntry P → OutboxEntry P → Bool) (is_unique : DbError → Bool)
    (driver : ℕ → DriverResult) (outbox : Table D (OutboxEntry P))
    (laws : IsTable clash is_unique driver outbox)
    (save_rows : List (OutboxEntry P) → D → Option DbError × D) (now : ℕ) where
  mark_published-rows :
      (ids : List String) (d : D)
      → laws.rows (mark_published outbox save_rows now ids d)
        ≡ map (change (publish_entry outbox save_rows now) (λ e. contains ids e.id)) (laws.rows d)
  unfolding mark_published
  mark_published-rows [] d =
      sym (map-change-false (publish_entry outbox save_rows now) (laws.rows d))
  mark_published-rows (id ∷ ids) d =
      (laws.updates (publish_entry outbox save_rows now) (λ e. contains (id ∷ ids) e.id) d).1

  -- the entries that wait and whose event is named
  abbrev pub is_marked : List String → OutboxEntry P → Bool
  is_marked event_ids e = is_unpublished e && is_named outbox save_rows now event_ids e

  is_marked-nil : (e : OutboxEntry P) → is_marked [] e ≡ false
  unfolding is_named has
  is_marked-nil e = elim (event_id_of e.event.metadata) [
    | none ↦ ground arith
    | some id ↦ ground arith
  ]

  loaded :
      (n : ℕ) (d : D)
      → length (keep is_unpublished (laws.rows d)) ≤ n
      → load_unpublished outbox save_rows now n d
        ≡ sort_rows (λ e. e.created_at) (keep is_unpublished (laws.rows d))
  unfolding load_unpublished
  loaded n d short =
      let es = keep is_unpublished (laws.rows d) in
      ap (take n) (laws.selects is_unpublished (λ e. e.created_at) d)
      ∙ take-short n (sort_rows (λ e. e.created_at) es)
          (omega (arith, short, length-sort_rows (λ (e : OutboxEntry P). e.created_at) es))

  found_ids :
      (event_ids : List String) (n : ℕ) (d : D)
      → length (keep is_unpublished (laws.rows d)) ≤ n
      → (r : OutboxEntry P)
      → contains
          (map
            (λ e. e.id)
            (keep
              (is_named outbox save_rows now event_ids)
              (load_unpublished outbox save_rows now n d)))
          r.id
        ≡ any (λ x. is_marked event_ids x && has_id r.id x) (laws.rows d)
  found_ids event_ids n d short r =
      let named = is_named outbox save_rows now event_ids in
      let waiting = keep is_unpublished (laws.rows d) in
      let here = has_id r.id in
      ap (λ es. contains (map (λ e. e.id) (keep named es)) r.id) (loaded n d short)
      ∙ contains-ids r.id (keep named (sort_rows (λ e. e.created_at) waiting))
      ∙ any-keep named here (sort_rows (λ e. e.created_at) waiting)
      ∙ any-sort_rows (λ e. e.created_at) (λ x. named x && here x) waiting
      ∙ sym (any-keep named here waiting)
      ∙ sym (ap (any here) (keep-and is_unpublished named (laws.rows d)))
      ∙ any-keep (is_marked event_ids) here (laws.rows d)

  marked-rows :
      (event_ids : List String) (d : D)
      → IsDistinct (laws.rows d)
      → length (keep is_unpublished (laws.rows d)) ≤ 10000
      → laws.rows (mark_published_by_event_ids outbox save_rows now event_ids d)
        ≡ map (change (publish_entry outbox save_rows now) (is_marked event_ids)) (laws.rows d)
  unfolding mark_published_by_event_ids
  marked-rows [] d distinct short =
      let f = publish_entry outbox save_rows now in
      sym (
        map-change-agree f (is_marked []) (λ r. false) (laws.rows d)
          (All-of is_marked-nil (laws.rows d))
        ∙ map-change-false f (laws.rows d))
  marked-rows (id ∷ ids) d distinct short =
      let named = is_named outbox save_rows now (id ∷ ids) in
      let chosen = map (λ e. e.id) (keep named (load_unpublished outbox save_rows now 10000 d)) in
      mark_published-rows chosen d
      ∙ map-change-agree (publish_entry outbox save_rows now) (λ e. contains chosen e.id)
          (is_marked (id ∷ ids)) (laws.rows d)
          (All-through (λ e. contains chosen e.id)
            (λ r. any (λ x. is_marked (id ∷ ids) x && has_id r.id x) (laws.rows d))
            (is_marked (id ∷ ids)) (laws.rows d) (found_ids (id ∷ ids) 10000 d short)
            (any-IsDistinct (is_marked (id ∷ ids)) (laws.rows d) distinct))

  -- what marking does to an entry, and which entries it is for: those that wait and whose event has
  -- an id, not an empty one, that is listed
  abbrev pub published_now : OutboxEntry P → OutboxEntry P
  published_now e = record {
    id = e.id;
    event = e.event;
    aggregate_name = e.aggregate_name;
    aggregate_id = e.aggregate_id;
    created_at = e.created_at;
    published_at = some now;
  }

  abbrev pub is_listed : List String → Option Metadata → Bool
  is_listed ids none = false
  is_listed ids (some m) = if m.event_id == "" then false else any (λ id. id == m.event_id) ids

  abbrev pub awaits_mark : List String → OutboxEntry P → Bool
  awaits_mark ids e = elim e.published_at [ none ↦ is_listed ids e.event.metadata | some t ↦ false ]

  contains-any : (ids : List String) (id : String) → contains ids id ≡ any (λ x. x == id) ids
  contains-any [] id = refl
  contains-any (x ∷ ids) id = ground (arith, contains-any ids id)

  is_marked-awaits_mark :
      (ids : List String) (e : OutboxEntry P) → is_marked ids e ≡ awaits_mark ids e
  unfolding is_named has
  is_marked-awaits_mark ids e = elim (Option-cases e.event.metadata) [
    | inl missing ↦ ground (arith, missing)
    | inr (m, there) ↦ ground (arith, there, contains-any ids m.event_id)
  ]

  All-agree :
      {p q : OutboxEntry P → Bool}
      → ((e : OutboxEntry P) → p e ≡ q e)
      → (es : List (OutboxEntry P)) → All (λ e. p e ≡ q e) es
  All-agree h [] = tt
  All-agree h (e ∷ es) = (h e, All-agree h es)

  -- While no two entries have the same id and at most ten thousand entries wait, marking by event
  -- ids sets the time of publication of exactly the waiting entries whose event has a listed id that
  -- is not empty, to the present time, and leaves everything else of every entry.
  pub mark_published_by_event_ids-rows :
      (event_ids : List String) (d : D)
      → IsDistinct (laws.rows d)
      → length (keep is_unpublished (laws.rows d)) ≤ 10000
      → laws.rows (mark_published_by_event_ids outbox save_rows now event_ids d)
        ≡ map (λ e. if awaits_mark event_ids e then published_now e else e) (laws.rows d)
  unfolding publish_entry
  mark_published_by_event_ids-rows event_ids d distinct short =
      marked-rows event_ids d distinct short
      ∙ map-change-agree published_now (is_marked event_ids) (awaits_mark event_ids) (laws.rows d)
          (All-agree (is_marked-awaits_mark event_ids) (laws.rows d))
