-- ===== src/Upcaster/Laws.antt =====
-- What upcasting does to an event, stated by the plain fold of the chain's remaining steps.
use noddde.Base.{
  ℕ, zero, suc, ◌-◌, ◌≤◌, ◌≡◌, refl, ◌∙◌, ap, some, [], ◌∷◌, ◌++◌, length, drop, arith, or_default,
  Option-cases, inl, inr,
}
use noddde.Result.{ok, ◌>>=◌}
use noddde.Event.{Event}
use noddde.Map.{get}
use noddde.Upcaster.{
  Chain, UpcasterMap, version_of, upcast_loop, upcast_payload, upcast_by, upcast_event,
  current_event_version,
}

module _ {P : Type 0} where
  -- The steps one after the other.
  abbrev pub run_steps : Chain P → P → P
  run_steps [] p = p
  run_steps (f ∷ chain) p = run_steps chain (f p)

  loop-suc :
      (rounds : ℕ) (f : P → P) (chain : Chain P) (i : ℕ) (p : P)
      → upcast_loop rounds (f ∷ chain) (suc i) p ≡ upcast_loop rounds chain i p
  unfolding upcast_loop
  loop-suc zero f chain i p = refl
  loop-suc (suc rounds) f chain i p = loop-suc rounds f chain (suc i) _

  loop-run_steps :
      (chain : Chain P) (i : ℕ) (p : P)
      → upcast_loop (length chain - i) chain i p ≡ run_steps (drop i chain) p
  unfolding upcast_loop
  loop-run_steps [] zero p = refl
  loop-run_steps [] (suc i) p = let e : 0 - suc i ≡ 0 = omega arith in rw e
  loop-run_steps (f ∷ chain) zero p =
      let e : suc (length chain) - 0 ≡ suc (length chain) = omega arith in
      let e' : length chain ≡ length chain - 0 = omega arith in
      rw e (
        loop-suc (length chain) f chain zero (f p)
        ∙ ap (λ n. upcast_loop n chain zero (f p)) e'
        ∙ loop-run_steps chain zero (f p))
  loop-run_steps (f ∷ chain) (suc i) p =
      let e : suc (length chain) - suc i ≡ length chain - i = omega arith in
      rw e (loop-suc (length chain - i) f chain i p ∙ loop-run_steps chain i p)

  pub run_steps-append :
      (xs ys : Chain P) (p : P) → run_steps (xs ++ ys) p ≡ run_steps ys (run_steps xs p)
  run_steps-append [] ys p = refl
  run_steps-append (f ∷ xs) ys p = run_steps-append xs ys (f p)

  drop_past : (n : ℕ) (xs : Chain P) → length xs ≤ n → drop n xs ≡ []
  drop_past zero [] h = refl
  drop_past zero (f ∷ xs) h = absurd (omega arith)
  drop_past (suc n) [] h = refl
  drop_past (suc n) (f ∷ xs) h = drop_past n xs (omega arith)

  drop-append_le : (n : ℕ) (xs ys : Chain P) → n ≤ length xs → drop n (xs ++ ys) ≡ drop n xs ++ ys
  drop-append_le zero xs ys h = refl
  drop-append_le (suc n) [] ys h = absurd (omega arith)
  drop-append_le (suc n) (f ∷ xs) ys h = drop-append_le n xs ys (omega arith)

  upcast_payload-eq :
      (chain : Chain P) (v : ℕ) (p : P)
      → upcast_payload chain (suc v) p ≡ ok (run_steps (drop v chain) p)
  unfolding upcast_payload
  upcast_payload-eq chain v p =
      let e : suc v - 1 ≡ v = omega arith in rw e (ground (arith, loop-run_steps chain v p))

  upcast_by-eq :
      (chain : Chain P) (event : Event P) (v : ℕ)
      → or_default (version_of event.metadata) 1 ≡ suc v
      → upcast_by chain event
        ≡ ok (record event { payload = run_steps (drop v chain) event.payload })
  unfolding upcast_by
  upcast_by-eq [] event v h = rw (drop_past v [] (omega arith))
  upcast_by-eq (f ∷ steps) event v h =
      rw h (ground (arith, upcast_payload-eq (f ∷ steps) v event.payload, drop_past v (f ∷ steps)))

  -- An event stored at version v + 1 comes back with the steps of its chain from the v-th on run
  -- over its payload, in order, and with its name and metadata as they were; past the end of the
  -- chain that is the event itself.
  pub upcast_event-eq :
      (upcasters : UpcasterMap P) (event : Event P) (chain : Chain P) (v : ℕ)
      → get upcasters event.name ≡ some chain
      → or_default (version_of event.metadata) 1 ≡ suc v
      → upcast_event event upcasters
        ≡ ok (record event { payload = run_steps (drop v chain) event.payload })
  unfolding upcast_event
  upcast_event-eq upcasters event chain v found stored =
      rw (found, upcast_event) (upcast_by-eq chain event v stored)

  -- An event tagged with the current version of its name, or of a name that has no chain, is
  -- returned as it is.
  pub upcast_event-current :
      (upcasters : UpcasterMap P) (event : Event P)
      → version_of event.metadata ≡ some (current_event_version event.name upcasters)
      → upcast_event event upcasters ≡ ok event
  upcast_event-current upcasters event h = elim (Option-cases (get upcasters event.name)) [
    | inl e ↦ unfold upcast_event in rw (e, upcast_event)
    | inr (chain, e) ↦
        let current : current_event_version event.name upcasters ≡ suc (length chain) =
          unfold current_event_version in rw (e, current_event_version) (omega arith) in
        let stored : or_default (version_of event.metadata) 1 ≡ suc (length chain) = rw h current in
        upcast_event-eq upcasters event chain (length chain) e stored
        ∙ rw (drop_past (length chain) chain (omega arith)) refl
  ]

  -- Adding versions at the end of a chain upcasts as before and then runs the new steps.
  pub upcast_event-append :
      (old new : UpcasterMap P) (event : Event P) (xs ys : Chain P) (v : ℕ)
      → get old event.name ≡ some xs
      → get new event.name ≡ some (xs ++ ys)
      → or_default (version_of event.metadata) 1 ≡ suc v
      → v ≤ length xs
      → upcast_event event new
        ≡ (upcast_event event old >>= λ e. ok (record e { payload = run_steps ys e.payload }))
  upcast_event-append old new event xs ys v ho hn hv hle = rw (
    upcast_event-eq old event xs v ho hv,
    upcast_event-eq new event (xs ++ ys) v hn hv,
    drop-append_le v xs ys hle,
    run_steps-append (drop v xs) ys,
  )
