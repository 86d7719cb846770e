-- ===== src/Upcaster/Tests.antt =====
-- Runs of the upcaster, and the properties at concrete inputs.
use noddde.Base.{ℕ, ◌+◌, ◌≡◌, refl, none, some, [], ◌∷◌, ◌++◌, drop, arith}
use noddde.Result.{ok, err, type_error, ◌>>=◌}
use noddde.Event.{Event, Metadata}
use noddde.Map.{get}
use noddde.Upcaster.{Chain, UpcasterMap, upcast_event, current_event_version}
use noddde.Upcaster.Laws.{run_steps, upcast_event-eq, upcast_event-current, upcast_event-append}

abbrev two_steps : Chain ℕ
two_steps = (λ p. p + 1) ∷ (λ p. p + p) ∷ []

abbrev deposits : UpcasterMap ℕ
deposits = ("Deposited", two_steps) ∷ []

abbrev more_deposits : UpcasterMap ℕ
more_deposits = ("Deposited", two_steps ++ (λ p. p + 10) ∷ []) ∷ []

abbrev at_version : ℕ → Metadata
at_version v = record {
  event_id = "e";
  timestamp = "t";
  correlation_id = "c";
  causation_id = "d";
  user_id = none;
  version = some v;
  aggregate_name = none;
  aggregate_id = none;
  sequence_number = none;
  traceparent = none;
  tracestate = none;
}

abbrev untagged : Event ℕ
untagged = record { name = "Deposited"; payload = 5; metadata = none }

abbrev tagged : ℕ → Event ℕ
tagged v = record { name = "Deposited"; payload = 5; metadata = some (at_version v) }

oldest_test : upcast_event untagged deposits ≡ ok (record untagged { payload = 12 })
unfolding upcast_event get
oldest_test = refl

version_0_test : upcast_event (tagged 0) deposits ≡ err type_error
unfolding upcast_event get
version_0_test = refl

upcast_event-eq_example :
    upcast_event (tagged 2) deposits
    ≡ ok (record (tagged 2) { payload = run_steps (drop 1 two_steps) 5 })
unfolding get
upcast_event-eq_example = upcast_event-eq deposits (tagged 2) two_steps 1 refl refl

upcast_event-current_run : upcast_event (tagged 3) deposits ≡ ok (tagged 3)
unfolding get current_event_version
upcast_event-current_run = upcast_event-current deposits (tagged 3) refl

upcast_event-append_test : upcast_event (tagged 2) more_deposits ≡ (
    upcast_event (tagged 2) deposits >>= λ e.
    ok (record e { payload = run_steps ((λ p. p + 10) ∷ []) e.payload }))
unfolding get
upcast_event-append_test =
    upcast_event-append deposits more_deposits (tagged 2) two_steps ((λ p. p + 10) ∷ []) 1 refl refl
      refl (omega arith)
