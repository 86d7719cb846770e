-- ===== src/Bus/Laws.antt =====
-- What a subscription and its removal change.
use noddde.Base.{
  ℕ, String, ◌≡◌, ◌≢◌, refl, List, [], ◌∷◌, ◌++◌, none, arith, All, ◌==◌, eq_iff, or_default,
  if◌then◌else◌,
}
use noddde.Result.{ok}
use noddde.Map.{get}
use noddde.Map.Laws.{get-set}
use noddde.UnitOfWork.{Action}
use noddde.Bus.{
  Handler, EventBus, HandlerRegistry, on, run_handlers, dispatch, remove_handler, off, register,
  dispatch_request,
}

module _ {W E : Type 0} where
  run_handlers-append :
      (xs ys : List (Handler W E)) (event : E) (w : W)
      → run_handlers (xs ++ ys) event w ≡ run_handlers ys event (run_handlers xs event w)
  unfolding run_handlers
  run_handlers-append [] ys event w = refl
  run_handlers-append (h ∷ xs) ys event w = run_handlers-append xs ys event (h.run event w).1

  -- the handlers of an event name
  abbrev pub handlers_of : EventBus W E → String → List (Handler W E)
  handlers_of bus name = or_default (get bus name) []

  -- A subscription puts the handler behind those of its event name.
  handlers_of-on :
      (bus : EventBus W E) (name name' : String) (h : Handler W E)
      → handlers_of (on bus name h) name'
        ≡ (if name == name' then handlers_of bus name' ++ h ∷ [] else handlers_of bus name')
  unfolding on
  handlers_of-on bus name name' h = ground (
    arith,
    eq_iff name name',
    get-set bus name name' (h ∷ []),
    get-set bus name name' (handlers_of bus name ++ h ∷ []),
  )

  dispatch-eq :
      (bus : EventBus W E) (name_of : E → String) (event : E) (w : W)
      → dispatch bus name_of event w
        ≡ (ok tt, run_handlers (handlers_of bus (name_of event)) event w)
  unfolding dispatch run_handlers
  dispatch-eq bus name_of event w = ground arith

  -- A dispatch never rejects, whatever its handlers throw; and a handler that is subscribed runs
  -- behind those before it, on what they left, for the events of its name alone.
  pub dispatch-on :
      (bus : EventBus W E) (name : String) (h : Handler W E) (name_of : E → String) (event : E)
      (w : W)
      → (dispatch bus name_of event w).0 ≡ ok tt
        × (dispatch (on bus name h) name_of event w ≡ (
            if name == name_of event
            then (ok tt, (h.run event (dispatch bus name_of event w).1).1)
            else dispatch bus name_of event w))
  unfolding run_handlers
  dispatch-on bus name h name_of event w = ground (
    arith,
    dispatch-eq bus name_of event w,
    dispatch-eq (on bus name h) name_of event w,
    handlers_of-on bus name (name_of event) h,
    run_handlers-append (handlers_of bus (name_of event)) (h ∷ []) event w,
  )

  remove_handler-append :
      (i : ℕ) (hs : List (Handler W E)) (h : Handler W E)
      → h.identity ≡ i
      → All (λ x. x.identity ≢ i) hs
      → remove_handler i (hs ++ h ∷ []) ≡ hs
  unfolding remove_handler
  remove_handler-append i [] h e a = ground arith
  remove_handler-append i (x ∷ hs) h e a = ground (arith, remove_handler-append i hs h e a.1)

  handlers_of-off :
      (bus : EventBus W E) (name name' : String) (h : Handler W E)
      → handlers_of (off bus name h) name' ≡ (
          if name == name'
          then remove_handler h.identity (handlers_of bus name')
          else handlers_of bus name')
  unfolding off remove_handler
  handlers_of-off bus name name' h = ground (
    arith,
    eq_iff name name',
    get-set bus name name' (remove_handler h.identity (handlers_of bus name)),
  )

  -- Subscribing a handler that the event name does not have, and removing it again, leaves the
  -- handlers of every event name as they were, in their order.
  pub handlers_of-off-on :
      (bus : EventBus W E) (name name' : String) (h : Handler W E)
      → All (λ x. x.identity ≢ h.identity) (handlers_of bus name)
      → handlers_of (off (on bus name h) name h) name' ≡ handlers_of bus name'
  handlers_of-off-on bus name name' h fresh = ground (
    arith,
    eq_iff name name',
    handlers_of-off (on bus name h) name name' h,
    handlers_of-on bus name name' h,
    remove_handler-append h.identity (handlers_of bus name) h refl fresh,
  )

module _ {W Q A : Type 0} where
  -- A registration is accepted only for a name without a handler; the requests of that name then
  -- go to the new handler, and those of every other name where they went.
  pub dispatch_request-register :
      (bus bus' : HandlerRegistry W Q A) (name name' : String) (handler : Q → Action W A)
      (request : Q) (w : W)
      → register bus name handler ≡ ok bus'
      → (get bus name ≡ none)
        × (dispatch_request bus' name' request w
            ≡ (if name == name' then handler request w else dispatch_request bus name' request w))
  unfolding register dispatch_request
  dispatch_request-register bus bus' name name' handler request w h =
      ground (arith, eq_iff name name', get-set bus name name' handler)
