-- ===== src/Event.antt =====
-- packages/core/src/edd/event.ts and event-metadata.ts. A payload is any value, the parameter `P`;
-- an ID (string, number or bigint) stands as the text that every store makes of it.
use noddde.Base.{ℕ, String, Option}

pub record Metadata : Type 0 where
  pub event_id : String
  pub timestamp : String
  pub correlation_id : String
  pub causation_id : String
  pub user_id : Option String
  pub version : Option ℕ
  pub aggregate_name : Option String
  pub aggregate_id : Option String
  pub sequence_number : Option ℕ
  pub traceparent : Option String
  pub tracestate : Option String

pub record Event (P : Type 0) : Type 0 where
  pub name : String
  pub payload : P
  pub metadata : Option Metadata
