-- ===== src/Enricher.antt =====
-- packages/engine/src/executors/metadata-enricher.ts. Fresh ids, the clock, the metadata provider
-- and the trace context are inputs of one call.
pub mod Laws
mod Tests
use noddde.Base.{ℕ, suc, ◌+◌, String, List, [], ◌∷◌, Option, none, some, or_default}
use noddde.Event.{Event, Metadata}

-- A property of an object literal: missing, present with `undefined`, or present with a value.
pub data Slot : Type 0 where
  absent undef : Slot
  value : String → Slot

pub record MetadataContext : Type 0 where
  pub correlation_id : Slot
  pub causation_id : Slot
  pub user_id : Slot

pub record TraceContext : Type 0 where
  pub traceparent : Option String
  pub tracestate : Option String

pub record Source : Type 0 where
  pub provider : Option MetadataContext
  pub override : Option MetadataContext
  pub trace : Option TraceContext
  pub fresh_correlation : String
  -- the id and the timestamp made for the event at an index
  pub event_uuid : ℕ → String
  pub timestamp : ℕ → String

-- `{}`
abbrev pub empty_context : MetadataContext
empty_context = record { correlation_id = absent; causation_id = absent; user_id = absent }

-- one property of `{ ...providerCtx, ...overrideCtx }`
abbrev pub spread : Slot → Slot → Slot
spread old absent = old
spread old undef = undef
spread old (value s) = value s

abbrev pub slot_value : Slot → Option String
slot_value absent = none
slot_value undef = none
slot_value (value s) = some s

unfoldable pub merged_context : Source → MetadataContext
merged_context s =
    let p = or_default s.provider empty_context in
    let o = or_default s.override empty_context in
    record {
      correlation_id = spread p.correlation_id o.correlation_id;
      causation_id = spread p.causation_id o.causation_id;
      user_id = spread p.user_id o.user_id;
    }

abbrev pub empty_trace : TraceContext
empty_trace = record { traceparent = none; tracestate = none }

-- `eventVersionResolver?.(event.name)`
abbrev pub resolve_version : Option (String → ℕ) → String → Option ℕ
resolve_version none name = none
resolve_version (some f) name = some (f name)

module _ {P : Type 0} (s : Source) (aggregate_name aggregate_id : String) (version : ℕ)
    (causation_fallback : String) (resolver : Option (String → ℕ)) where
  stamp : ℕ → Event P → Event P
  unfolding merged_context
  stamp index event =
      let ctx = merged_context s in
      let trace = or_default s.trace empty_trace in
      record event {
        metadata = some (record {
          event_id = s.event_uuid index;
          timestamp = s.timestamp index;
          correlation_id = or_default (slot_value ctx.correlation_id) s.fresh_correlation;
          causation_id = or_default (slot_value ctx.causation_id) causation_fallback;
          user_id = slot_value ctx.user_id;
          version = resolve_version resolver event.name;
          aggregate_name = some aggregate_name;
          aggregate_id = some aggregate_id;
          sequence_number = some (version + index + 1);
          traceparent = trace.traceparent;
          tracestate = trace.tracestate;
        });
      }

  enrich_from : ℕ → List (Event P) → List (Event P)
  enrich_from index [] = []
  enrich_from index (e ∷ es) = stamp index e ∷ enrich_from (suc index) es

  unfoldable pub enrich : List (Event P) → List (Event P)
  unfolding enrich_from stamp
  enrich events = enrich_from 0 events
