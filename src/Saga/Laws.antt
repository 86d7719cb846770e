-- ===== src/Saga/Laws.antt =====
-- Which events a saga ignores, and what a reaction leaves in either mode when a step of it throws.
use noddde.Base.{
  ℕ, String, ◌≡◌, refl, List, [], ◌∷◌, Option, none, some, false, arith, ap, inl, inr, ◌∙◌,
}
use noddde.Result.{Error, ok, err, Result-cases}
use noddde.Event.{Event}
use noddde.Map.{get}
use noddde.Outbox.{contains}
use noddde.Enricher.{MetadataContext}
use noddde.UnitOfWork.{
  Op, enlist, commit, new_unit_of_work, run_operations, run_uow_completion_hooks,
}
use noddde.Command.Execute.{Scope, publish_all, notify}
use noddde.Scoped.{run_hooks_once, settle_scope, close_scope}
use noddde.Saga.{
  Wiring, Saga, SagaHandler, Reaction, command_list, bootstrap, published, run_atomic,
  run_best_effort, execute_saga,
}

notify-nil : {W E : Type 0} (f : Option (List E → Op W)) (w : W) → notify f [] w ≡ (ok tt, w)
unfolding notify
notify-nil none w = refl
notify-nil (some f) w = refl

module _ {W S C P : Type 0} (wiring : Wiring W S C P) (name : String) (saga : Saga W S C P) where
  -- An event that may not start the saga is ignored by an instance that is not stored: its handler
  -- does not run, and nothing is written.
  pub not_started-ignored :
      (event : Event P) (handler : SagaHandler W S C P) (w w' : W)
      → get saga.on event.name ≡ some handler
      → contains saga.started_by event.name ≡ false
      → wiring.persistence.load name (handler.id event) w ≡ (ok none, w')
      → execute_saga wiring name saga event w ≡ (ok tt, w')
  unfolding execute_saga bootstrap
  not_started-ignored event handler w w' found other missing = ground (arith, found, other, missing)

  -- the scope after the save is enlisted
  abbrev pub saving_scope : String → S → ℕ → Scope W (Event P)
  saving_scope id state version = record {
    uow = record {
      operations = wiring.persistence.save name id state version ∷ [];
      pending_events = [];
      completed = false;
    };
    hooks = none;
  }

  run_atomic-failed :
      (ctx : MetadataContext) (id : String) (version : ℕ) (reaction : Reaction S C) (w w' : W)
      (scope : Scope W (Event P)) (e : Error)
      → publish_all
          (wiring.dispatch_scoped ctx)
          (command_list reaction.commands)
          (saving_scope id reaction.state version, w)
        ≡ (err e, (scope, w'))
      → run_atomic wiring name saga ctx id version reaction w
        ≡ (err e, run_hooks_once scope.hooks false w')
  unfolding run_atomic enlist new_unit_of_work settle_scope close_scope
  run_atomic-failed ctx id version reaction w w' scope e h = rw (h, run_atomic) refl

  module _ {Y : Type 0} (stored : W → Y) where
    -- The hooks of the scope for a rollback leave what is stored.
    abbrev pub IsHarmless : Scope W (Event P) → Type 0
    IsHarmless scope = (w : W) → stored (run_hooks_once scope.hooks false w) ≡ stored w

    -- A command that is dispatched into a scope enlists what it writes, and writes nothing itself.
    abbrev pub Defers : Type 0
    Defers =
        (ctx : MetadataContext) (c : C) (scope : Scope W (Event P)) (w : W)
        → IsHarmless scope
        → (stored (wiring.dispatch_scoped ctx c (scope, w)).1.1 ≡ stored w)
          × IsHarmless (wiring.dispatch_scoped ctx c (scope, w)).1.0

    publish_all-defers :
        (ctx : MetadataContext) (cs : List C) (scope : Scope W (Event P)) (w : W)
        → Defers
        → IsHarmless scope
        → (stored (publish_all (wiring.dispatch_scoped ctx) cs (scope, w)).1.1 ≡ stored w)
          × IsHarmless (publish_all (wiring.dispatch_scoped ctx) cs (scope, w)).1.0
    unfolding publish_all
    publish_all-defers ctx [] scope w defers harmless = (refl, harmless)
    publish_all-defers ctx (c ∷ cs) scope w defers harmless =
        let (same, still) = defers ctx c scope w harmless in
        let (r, (scope', w')) = wiring.dispatch_scoped ctx c (scope, w) in
        elim (Result-cases r) [
          | inl (e, failed) ↦ rw failed (same, still)
          | inr (v, done) ↦
              let (more, after) = publish_all-defers ctx cs scope' w' defers still in
              rw done (more ∙ same, after)
        ]

    -- In the atomic mode, where the dispatched commands enlist what they write and register no hook
    -- that writes on a rollback: when a command of the reaction throws, at whatever place, the
    -- reaction rejects with its error, and what is stored is as it was, without the saga's state and
    -- without anything that the commands before it enlisted.
    pub atomic-rolls_back :
        (ctx : MetadataContext) (id : String) (version : ℕ) (reaction : Reaction S C) (w : W)
        (e : Error)
        → Defers
        → (publish_all
            (wiring.dispatch_scoped ctx)
            (command_list reaction.commands)
            (saving_scope id reaction.state version, w)).0
          ≡ err e
        → ((run_atomic wiring name saga ctx id version reaction w).0 ≡ err e)
          × (stored (run_atomic wiring name saga ctx id version reaction w).1 ≡ stored w)
    unfolding run_hooks_once run_uow_completion_hooks
    atomic-rolls_back ctx id version reaction w e defers failed =
        let start = saving_scope id reaction.state version in
        let ran =
          publish_all (wiring.dispatch_scoped ctx) (command_list reaction.commands) (start, w) in
        let settled =
          run_atomic-failed ctx id version reaction w ran.1.1 ran.1.0 e
            (ap (λ r. (r, ran.1)) failed) in
        let (same, harmless) =
          publish_all-defers ctx (command_list reaction.commands) start w defers (λ w. refl) in
        (ap (λ r. r.0) settled, ap (λ r. stored r.1) settled ∙ harmless ran.1.1 ∙ same)

  -- In the best-effort mode, once the state is saved it stays: the commands run one after the other
  -- on a world that has it, and the outcome is that of the first that throws, or a success.
  pub best_effort-durable :
      (ctx : MetadataContext) (id : String) (version : ℕ) (reaction : Reaction S C) (w w' : W)
      → wiring.persistence.save name id reaction.state version w ≡ (ok tt, w')
      → run_best_effort wiring name saga ctx id version reaction w
        ≡ publish_all (wiring.dispatch_owned ctx) (command_list reaction.commands) w'
  unfolding run_best_effort enlist new_unit_of_work settle_scope close_scope commit run_operations
      run_hooks_once run_uow_completion_hooks published publish_all
  best_effort-durable ctx id version reaction w w' saved =
      rw (saved, run_best_effort, notify-nil wiring.on_events_dispatched w') refl

  -- A save that throws, as it does on a version conflict, stops the best-effort reaction before
  -- any command is dispatched.
  pub best_effort-conflict :
      (ctx : MetadataContext) (id : String) (version : ℕ) (reaction : Reaction S C) (w w' : W)
      (e : Error)
      → wiring.persistence.save name id reaction.state version w ≡ (err e, w')
      → run_best_effort wiring name saga ctx id version reaction w ≡ (err e, w')
  unfolding run_best_effort enlist new_unit_of_work settle_scope close_scope commit run_operations
      run_hooks_once run_uow_completion_hooks
  best_effort-conflict ctx id version reaction w w' e failed = rw (failed, run_best_effort) refl
