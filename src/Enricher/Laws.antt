-- ===== src/Enricher/Laws.antt =====
-- What enrichment adds to a batch, and which source a value is taken from.
use noddde.Base.{
  ℕ, suc, ◌+◌, String, ◌≡◌, refl, ap, List, [], ◌∷◌, Option, some, length, or_default,
}
use noddde.Event.{Event, Metadata}
use noddde.Enricher.{
  Source, slot_value, resolve_version, stamp, enrich_from, enrich, merged_context,
}

-- The same events in the same order, each with its place in the stream, the aggregate's identity,
-- the schema version of its name, an id of its own and the batch's correlation and causation.
abbrev pub IsStamped :
    {P : Type 0}
    → Source
    → String
    → String
    → Option (String → ℕ)
    → String
    → String
    → ℕ
    → ℕ
    → List (Event P)
    → List (Event P)
    → Type 0
IsStamped s name id resolver correlation causation version index [] [] = Unit
IsStamped s name id resolver correlation causation version index [] (y ∷ ys) = ⊥
IsStamped s name id resolver correlation causation version index (x ∷ xs) [] = ⊥
IsStamped s name id resolver correlation causation version index (x ∷ xs) (y ∷ ys) =
    (y.name ≡ x.name)
    × (y.payload ≡ x.payload)
    × ((m : Metadata) × (y.metadata ≡ some m)
        × (m.sequence_number ≡ some (version + index + 1))
        × (m.aggregate_name ≡ some name)
        × (m.aggregate_id ≡ some id)
        × (m.version ≡ resolve_version resolver x.name)
        × (m.event_id ≡ s.event_uuid index)
        × (m.correlation_id ≡ correlation)
        × (m.causation_id ≡ causation))
    × IsStamped s name id resolver correlation causation version (suc index) xs ys

module _ {P : Type 0} (s : Source) (name id : String) (version : ℕ) (fallback : String)
    (resolver : Option (String → ℕ)) where
  enrich_from-IsStamped :
      (index : ℕ) (events : List (Event P))
      → IsStamped s name id resolver
          (or_default (slot_value (merged_context s).correlation_id) s.fresh_correlation)
          (or_default (slot_value (merged_context s).causation_id) fallback)
          version
          index
          events
          (enrich_from s name id version fallback resolver index events)
  unfolding enrich_from stamp
  enrich_from-IsStamped index [] = tt
  enrich_from-IsStamped index (e ∷ es) = (
    refl,
    refl,
    (_, refl, refl, refl, refl, refl, refl, refl, refl),
    enrich_from-IsStamped (suc index) es,
  )

  -- Enriching keeps the events' names, payloads and order, numbers them from the version on
  -- without a gap, and gives all of them one correlation id and one causation id.
  pub enrich-IsStamped :
      (events : List (Event P))
      → IsStamped s name id resolver
          (or_default (slot_value (merged_context s).correlation_id) s.fresh_correlation)
          (or_default (slot_value (merged_context s).causation_id) fallback)
          version
          0
          events
          (enrich s name id version fallback resolver events)
  unfolding enrich
  enrich-IsStamped events = enrich_from-IsStamped 0 events

module _ {P : Type 0} (s : Source) (name id : String) (version : ℕ) (causation : String)
    (resolver : Option (String → ℕ)) where
  length-enrich_from :
      (index : ℕ) (events : List (Event P))
      → length (enrich_from s name id version causation resolver index events) ≡ length events
  unfolding enrich_from
  length-enrich_from index [] = refl
  length-enrich_from index (e ∷ es) = ap suc (length-enrich_from (suc index) es)

  pub length-enrich :
      (events : List (Event P))
      → length (enrich s name id version causation resolver events) ≡ length events
  unfolding enrich
  length-enrich events = length-enrich_from 0 events
