-- ===== src/Bus.antt =====
-- packages/engine/src/implementations/ee-event-bus.ts, in-memory-command-bus.ts and
-- in-memory-query-bus.ts. A handler is a function with an identity, by which `off` finds it; the
-- retained EventEmitter, which nothing is registered on, and log lines are left out.
pub mod Laws
mod Tests
use noddde.Base.{
  ℕ, String, List, [], ◌∷◌, ◌++◌, Option, none, some, Bool, true, false, eqb, is_some,
  if◌then◌else◌,
}
use noddde.Result.{Result, ok, err, no_handler, handler_exists}
use noddde.Map.{Map, get, set}
use noddde.UnitOfWork.{Action, Op}

pub record Handler (W E : Type 0) : Type 0 where
  pub identity : ℕ
  pub run : E → Op W

abbrev pub EventBus : Type 0 → Type 0 → Type 0
EventBus W E = Map (List (Handler W E))

module _ {W E : Type 0} where
  on_existing : EventBus W E → String → Handler W E → Option (List (Handler W E)) → EventBus W E
  on_existing bus name h none = set bus name (h ∷ [])
  on_existing bus name h (some hs) = set bus name (hs ++ h ∷ [])

  unfoldable pub on : EventBus W E → String → Handler W E → EventBus W E
  unfolding on_existing
  on bus name h = on_existing bus name h (get bus name)

  -- the loop of `dispatch`: what a handler throws is logged and dropped
  unfoldable pub run_handlers : List (Handler W E) → E → W → W
  run_handlers [] event w = w
  run_handlers (h ∷ hs) event w = run_handlers hs event (h.run event w).1

  dispatch_to : Option (List (Handler W E)) → E → Op W
  dispatch_to none event w = (ok tt, w)
  dispatch_to (some hs) event w = (ok tt, run_handlers hs event w)

  unfoldable pub dispatch : EventBus W E → (E → String) → E → Op W
  unfolding dispatch_to
  dispatch bus name_of event w = dispatch_to (get bus (name_of event)) event w

  -- `indexOf` and `splice(idx, 1)`
  unfoldable pub remove_handler : ℕ → List (Handler W E) → List (Handler W E)
  remove_handler i [] = []
  remove_handler i (h ∷ hs) =
      let rest = remove_handler i hs in if eqb h.identity i then hs else h ∷ rest

  off_existing : EventBus W E → String → Handler W E → Option (List (Handler W E)) → EventBus W E
  off_existing bus name h none = bus
  off_existing bus name h (some hs) = set bus name (remove_handler h.identity hs)

  unfoldable pub off : EventBus W E → String → Handler W E → EventBus W E
  unfolding off_existing
  off bus name h = off_existing bus name h (get bus name)

  unfoldable pub close : EventBus W E → EventBus W E
  close bus = []

-- The command bus, whose handlers give no value, and the query bus.
abbrev pub HandlerRegistry : Type 0 → Type 0 → Type 0 → Type 0
HandlerRegistry W Q A = Map (Q → Action W A)

module _ {W Q A : Type 0} where
  unfoldable pub register :
      HandlerRegistry W Q A → String → (Q → Action W A) → Result (HandlerRegistry W Q A)
  register bus name handler =
      if is_some (get bus name) then err (handler_exists name) else ok (set bus name handler)

  unfoldable pub dispatch_request : HandlerRegistry W Q A → String → Q → Action W A
  dispatch_request bus name request w = elim (get bus name) [
    | none ↦ (err (no_handler name), w)
    | some handler ↦ handler request w
  ]
