-- ===== src/Upcaster.antt =====
-- packages/core/src/edd/upcaster.ts: stored payloads are brought to the current schema version.
-- The steps of a chain are functions of the application.
pub mod Laws
mod Tests
use noddde.Base.{
  ℕ, zero, suc, ◌+◌, ◌-◌, String, Option, none, some, List, [], ◌∷◌, length, leb, eqb, or_default,
  if◌then◌else◌,
}
use noddde.Result.{Result, ok, err, type_error, ◌>>=◌}
use noddde.Event.{Event, Metadata}
use noddde.Map.{Map, get}

abbrev pub Chain : Type 0 → Type 0
Chain P = List (P → P)

abbrev pub UpcasterMap : Type 0 → Type 0
UpcasterMap P = Map (Chain P)

-- `event.metadata?.version`
abbrev pub version_of : Option Metadata → Option ℕ
version_of none = none
version_of (some m) = m.version

module _ {P : Type 0} where
  -- `chain[i]`
  abbrev step_at : Chain P → ℕ → Option (P → P)
  step_at [] i = none
  step_at (f ∷ chain) zero = some f
  step_at (f ∷ chain) (suc i) = step_at chain i

  -- `for (let i = …; i < chain.length; i++) payload = chain[i]!(payload)`, on the rounds left
  upcast_loop : ℕ → Chain P → ℕ → P → P
  upcast_loop zero chain i payload = payload
  upcast_loop (suc rounds) chain i payload =
      upcast_loop rounds chain (suc i)
        (elim (step_at chain i) [ none ↦ payload | some f ↦ f payload ])

  -- A stored version of 0 reads `chain[-1]`, which is no function.
  upcast_payload : Chain P → ℕ → P → Result P
  unfolding upcast_loop
  upcast_payload chain stored payload =
      if eqb stored 0
      then err type_error
      else ok (upcast_loop (length chain - (stored - 1)) chain (stored - 1) payload)

  upcast_by : Chain P → Event P → Result (Event P)
  upcast_by [] event = ok event
  upcast_by (f ∷ steps) event =
      let stored = or_default (version_of event.metadata) 1 in
      let current = length (f ∷ steps) + 1 in
      if leb current stored then ok event else (do
        payload ← upcast_payload (f ∷ steps) stored event.payload
        ok (record event { payload = payload }))

  unfoldable pub upcast_event : Event P → UpcasterMap P → Result (Event P)
  unfolding upcast_by upcast_payload
  upcast_event event upcasters = elim (get upcasters event.name) [
    | none ↦ ok event
    | some chain ↦ upcast_by chain event
  ]

  unfoldable pub upcast_events : List (Event P) → UpcasterMap P → Result (List (Event P))
  upcast_events [] upcasters = ok []
  upcast_events (event ∷ events) upcasters = do
    e ← upcast_event event upcasters
    es ← upcast_events events upcasters
    ok (e ∷ es)

  unfoldable pub current_event_version : String → UpcasterMap P → ℕ
  current_event_version name upcasters = elim (get upcasters name) [
    | none ↦ 1
    | some chain ↦ length chain + 1
  ]
