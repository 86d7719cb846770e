-- ===== src/Enricher/Tests.antt =====
-- The enrichment of a batch of two.
use noddde.Base.{ℕ, ◌≡◌, refl, none, some, List, [], ◌∷◌, or_default}
use noddde.Event.{Event}
use noddde.Enricher.{Source, absent, undef, value, slot_value, merged_context, enrich}
use noddde.Enricher.Laws.{IsStamped, enrich-IsStamped}

-- The override spreads an undefined correlation over that of the provider.
abbrev source : Source
source = record {
  provider =
      some (record { correlation_id = value "p"; causation_id = value "q"; user_id = absent });
  override = some (record { correlation_id = undef; causation_id = absent; user_id = value "u" });
  trace = none;
  fresh_correlation = "fresh";
  event_uuid = λ i. "id";
  timestamp = λ i. "now";
}

abbrev batch : List (Event ℕ)
batch =
    record { name = "Opened"; payload = 0; metadata = none }
    ∷ record { name = "Deposited"; payload = 5; metadata = none }
    ∷ []

undefined_override_test :
    or_default (slot_value (merged_context source).correlation_id) source.fresh_correlation
    ≡ "fresh"
unfolding merged_context
undefined_override_test = refl

enrich-IsStamped_example :
    IsStamped source "Account" "1"
      (some (λ name. 1))
      (or_default (slot_value (merged_context source).correlation_id) source.fresh_correlation)
      (or_default (slot_value (merged_context source).causation_id) "OpenAccount")
      4
      0
      batch
      (enrich source "Account" "1" 4 "OpenAccount" (some (λ name. 1)) batch)
enrich-IsStamped_example =
    enrich-IsStamped source "Account" "1" 4 "OpenAccount" (some (λ name. 1)) batch
