-- ===== src/Outbox/Loading.antt =====
-- What `loadUnpublished` returns.
use mathlib.Core.List.{Perm}
use mathlib.Core.List.Perm
use noddde.Base.{
  ℕ, zero, suc, ◌≤◌, ◌<◌, ◌≡◌, ◌≢◌, refl, sym, List, [], ◌∷◌, some, Bool, true, arith, eq_iff, keep,
  keep_of_true, keep_of_false, take, length, All, leb, Bool-cases, inl, inr,
}
use noddde.Map.{get, values}
use noddde.Map.Laws.{IsMap}
use noddde.Outbox.{
  OutboxEntry, OutboxStore, is_unpublished, insert_entry, sort_entries, load_unpublished,
}

module _ {P : Type 0} where
  -- Oldest first.
  abbrev pub IsSorted : List (OutboxEntry P) → Type 0
  IsSorted [] = Unit
  IsSorted (e ∷ es) = All (λ x. e.created_at ≤ x.created_at) es × IsSorted es

  -- No two entries have the same id.
  abbrev pub AreDistinct : List (OutboxEntry P) → Type 0
  AreDistinct [] = Unit
  AreDistinct (e ∷ es) = All (λ x. x.id ≢ e.id) es × AreDistinct es

  All-insert_entry :
      (Q : OutboxEntry P → Type 0) (e : OutboxEntry P) (es : List (OutboxEntry P))
      → Q e
      → All Q es
      → All Q (insert_entry e es)
  unfolding insert_entry
  All-insert_entry Q e [] q h = (q, tt)
  All-insert_entry Q e (x ∷ es) q h = elim (Bool-cases (leb e.created_at x.created_at)) [
    | inl le ↦ rw le (q, h)
    | inr gt ↦ rw gt (h.0, All-insert_entry Q e es q h.1)
  ]

  All-sort_entries :
      (Q : OutboxEntry P → Type 0) (es : List (OutboxEntry P)) → All Q es → All Q (sort_entries es)
  unfolding sort_entries
  All-sort_entries Q [] h = tt
  All-sort_entries Q (e ∷ es) h =
      All-insert_entry Q e (sort_entries es) h.0 (All-sort_entries Q es h.1)

  All-map :
      (Q R : OutboxEntry P → Type 0) (es : List (OutboxEntry P))
      → ((e : OutboxEntry P) → Q e → R e)
      → All Q es
      → All R es
  All-map Q R [] f h = tt
  All-map Q R (e ∷ es) f h = (f e h.0, All-map Q R es f h.1)

  insert_entry-IsSorted :
      (e : OutboxEntry P) (es : List (OutboxEntry P)) → IsSorted es → IsSorted (insert_entry e es)
  unfolding insert_entry
  insert_entry-IsSorted e [] h = (tt, tt)
  insert_entry-IsSorted e (x ∷ es) h = elim (Bool-cases (leb e.created_at x.created_at)) [
    | inl le ↦
        let below : e.created_at ≤ x.created_at = ground arith in
        rw le ((below, All-map _ _ es (λ y p. omega arith) h.0), h)
    | inr gt ↦ rw gt (
      All-insert_entry (λ y. x.created_at ≤ y.created_at) e es (ground arith) h.0,
      insert_entry-IsSorted e es h.1,
    )
  ]

  sort_entries-IsSorted : (es : List (OutboxEntry P)) → IsSorted (sort_entries es)
  unfolding sort_entries
  sort_entries-IsSorted [] = tt
  sort_entries-IsSorted (e ∷ es) =
      insert_entry-IsSorted e (sort_entries es) (sort_entries-IsSorted es)

  insert_entry-perm :
      (e : OutboxEntry P) (es : List (OutboxEntry P)) → Perm (e ∷ es) (insert_entry e es)
  unfolding insert_entry
  insert_entry-perm e [] = Perm.refl _
  insert_entry-perm e (x ∷ es) = elim (Bool-cases (leb e.created_at x.created_at)) [
    | inl le ↦ rw le (Perm.refl _)
    | inr gt ↦ rw gt (Perm.trans (Perm.swap x e es) (Perm.cons x (insert_entry-perm e es)))
  ]

  sort_entries-perm : (es : List (OutboxEntry P)) → Perm es (sort_entries es)
  unfolding sort_entries
  sort_entries-perm [] = Perm.refl _
  sort_entries-perm (e ∷ es) =
      Perm.trans (Perm.cons e (sort_entries-perm es)) (insert_entry-perm e (sort_entries es))

  -- The loaded batch is the front, at most `batch_size` long, of all the unpublished entries put
  -- in the order of their creation.
  pub load_unpublished-oldest :
      (store : OutboxStore P) (batch_size : ℕ)
      → (es : List (OutboxEntry P)) × Perm (keep is_unpublished (values store)) es
        × IsSorted es
        × (load_unpublished store batch_size ≡ take batch_size es)
  unfolding load_unpublished
  load_unpublished-oldest store batch_size = (
    sort_entries (keep is_unpublished (values store)),
    sort_entries-perm _,
    sort_entries-IsSorted _,
    refl,
  )

module _ {P : Type 0} where
  -- Every entry stands under its own id, which is the key once.
  abbrev pub IsKeyed : OutboxStore P → Type 0
  IsKeyed [] = Unit
  IsKeyed ((k, e) ∷ store) = (k ≡ e.id) × IsKeyed store

  abbrev pub IsOutbox : OutboxStore P → Type 0
  IsOutbox store = IsMap store × IsKeyed store

  abbrev Found : OutboxStore P → OutboxEntry P → Type 0
  Found store e = get store e.id ≡ some e

  values-Found : (store : OutboxStore P) → IsOutbox store → All (Found store) (values store)
  unfolding get values
  values-Found [] h = tt
  values-Found ((k, x) ∷ store) h = (
    ground (arith, eq_iff k x.id),
    All-map (Found store) _ (values store) (λ e p. ground (arith, eq_iff k e.id))
        (values-Found store (h.0.1, h.1.1)),
  )

  values-AreDistinct : (store : OutboxStore P) → IsOutbox store → AreDistinct (values store)
  unfolding get values
  values-AreDistinct [] h = tt
  values-AreDistinct ((k, x) ∷ store) h = (
    All-map (Found store) _ (values store) (λ e p same. ground arith)
        (values-Found store (h.0.1, h.1.1)),
    values-AreDistinct store (h.0.1, h.1.1),
  )

  All-keep :
      (Q : OutboxEntry P → Type 0) (p : OutboxEntry P → Bool) (es : List (OutboxEntry P))
      → All Q es
      → All (λ e. Q e × (p e ≡ true)) (keep p es)
  All-keep Q p [] h = tt
  All-keep Q p (e ∷ es) h = elim (Bool-cases (p e)) [
    | inl t ↦ rw (keep_of_true p e es t) ((h.0, t), All-keep Q p es h.1)
    | inr f ↦ rw (keep_of_false p e es f) (All-keep Q p es h.1)
  ]

  keep-AreDistinct :
      (p : OutboxEntry P → Bool) (es : List (OutboxEntry P))
      → AreDistinct es
      → AreDistinct (keep p es)
  keep-AreDistinct p [] h = tt
  keep-AreDistinct p (e ∷ es) h = elim (Bool-cases (p e)) [
    | inl t ↦
        rw (keep_of_true p e es t)
          (All-map _ _ (keep p es) (λ x q. q.0) (All-keep _ p es h.0), keep-AreDistinct p es h.1)
    | inr f ↦ rw (keep_of_false p e es f) (keep-AreDistinct p es h.1)
  ]

  insert_entry-AreDistinct :
      (e : OutboxEntry P) (es : List (OutboxEntry P))
      → All (λ x. x.id ≢ e.id) es
      → AreDistinct es
      → AreDistinct (insert_entry e es)
  unfolding insert_entry
  insert_entry-AreDistinct e [] n h = (tt, tt)
  insert_entry-AreDistinct e (x ∷ es) n h = elim (Bool-cases (leb e.created_at x.created_at)) [
    | inl le ↦ rw le (n, h)
    | inr gt ↦ rw gt (
      All-insert_entry (λ y. y.id ≢ x.id) e es (λ same. n.0 (sym same)) h.0,
      insert_entry-AreDistinct e es n.1 h.1,
    )
  ]

  sort_entries-AreDistinct :
      (es : List (OutboxEntry P)) → AreDistinct es → AreDistinct (sort_entries es)
  unfolding sort_entries
  sort_entries-AreDistinct [] h = tt
  sort_entries-AreDistinct (e ∷ es) h =
      insert_entry-AreDistinct e (sort_entries es) (All-sort_entries _ es h.0)
        (sort_entries-AreDistinct es h.1)

  All-take :
      (Q : OutboxEntry P → Type 0) (n : ℕ) (es : List (OutboxEntry P))
      → All Q es
      → All Q (take n es)
  All-take Q zero es h = tt
  All-take Q (suc n) [] h = tt
  All-take Q (suc n) (e ∷ es) h = (h.0, All-take Q n es h.1)

  take-AreDistinct : (n : ℕ) (es : List (OutboxEntry P)) → AreDistinct es → AreDistinct (take n es)
  take-AreDistinct zero es h = tt
  take-AreDistinct (suc n) [] h = tt
  take-AreDistinct (suc n) (e ∷ es) h = (All-take _ n es h.0, take-AreDistinct n es h.1)

  -- The entries of a batch are the stored ones, none is published, and none comes twice.
  pub load_unpublished-Waiting :
      (store : OutboxStore P) (batch_size : ℕ)
      → IsOutbox store
      → All
          (λ e. (get store e.id ≡ some e) × (is_unpublished e ≡ true))
          (load_unpublished store batch_size)
        × AreDistinct (load_unpublished store batch_size)
  unfolding load_unpublished
  load_unpublished-Waiting store batch_size h = (
    All-take _ batch_size _
        (All-sort_entries _ _ (All-keep _ is_unpublished _ (values-Found store h))),
    take-AreDistinct batch_size _ (
        sort_entries-AreDistinct _
          (keep-AreDistinct is_unpublished _ (values-AreDistinct store h))),
  )

  length-insert_entry :
      (e : OutboxEntry P) (es : List (OutboxEntry P)) → length (insert_entry e es) ≡ suc (length es)
  unfolding insert_entry
  length-insert_entry e [] = refl
  length-insert_entry e (x ∷ es) = ground (arith, length-insert_entry e es)

  pub length-sort_entries : (es : List (OutboxEntry P)) → length (sort_entries es) ≡ length es
  unfolding sort_entries
  length-sort_entries [] = refl
  length-sort_entries (e ∷ es) =
      omega (arith, length-insert_entry e (sort_entries es), length-sort_entries es)

  -- A batch is empty only if nothing waits.
  pub load_unpublished-nil :
      (store : OutboxStore P) (batch_size : ℕ)
      → 0 < batch_size
      → load_unpublished store batch_size ≡ []
      → length (keep is_unpublished (values store)) ≡ 0
  unfolding load_unpublished
  load_unpublished-nil store batch_size pos h = ground (
    arith,
    length-sort_entries (keep is_unpublished (values store)),
    take-nil batch_size (sort_entries (keep is_unpublished (values store))) pos h,
  )
    where
      take-nil : (n : ℕ) (es : List (OutboxEntry P)) → 0 < n → take n es ≡ [] → es ≡ []
      take-nil zero es p q = absurd (omega arith)
      take-nil (suc n) [] p q = refl
      take-nil (suc n) (e ∷ es) p q = absurd (ground arith)
