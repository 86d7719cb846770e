-- ===== src/Scoped/Laws.antt =====
-- All or nothing, and the drain of the active operations.
use noddde.Base.{
  suc, inl, inr, Bool-cases, String, ◌≡◌, ◌≢◌, ◌↔◌, refl, List, Option, true, false, arith,
}
use noddde.Result.{Error, ok, err, domain_shutdown}
use noddde.Event.{Event}
use noddde.UnitOfWork.{Action, Op, commit}
use noddde.Command.Execute.{Scope}
use noddde.Scoped.{
  fresh_scope, committed_scope, run_hooks_once, close_scope, settle_scope, run_unit_of_work,
  with_operation, Operations, acquire_operation, release_operation, begin_shutdown,
}

module _ {W P A : Type 0} (dispatch : Event P → Op W) (mark : Option (List String → Op W)) where
  -- If the scoped function throws, its error comes out, none of the operations enlisted on the unit
  -- of work runs and nothing is published: the world is what the hooks of a rollback make of the
  -- one that the function left.
  pub failed_scope :
      (fn : Action (Scope W (Event P) × W) A) (w w' : W) (scope : Scope W (Event P)) (e : Error)
      → fn (fresh_scope, w) ≡ (err e, (scope, w'))
      → run_unit_of_work dispatch mark false fn w ≡ (err e, run_hooks_once scope.hooks false w')
  unfolding run_unit_of_work settle_scope close_scope
  failed_scope fn w w' scope e h = rw (h, run_unit_of_work) refl

  -- If the commit throws, the same holds of the world that the commit left.
  pub failed_commit :
      (fn : Action (Scope W (Event P) × W) A) (w w' : W) (scope : Scope W (Event P)) (a : A)
      (e : Error)
      → fn (fresh_scope, w) ≡ (ok a, (scope, w'))
      → (commit scope.uow w').0 ≡ err e
      → run_unit_of_work dispatch mark false fn w
        ≡ (err e, run_hooks_once scope.hooks false (commit scope.uow w').2)
  unfolding run_unit_of_work settle_scope close_scope
  failed_commit fn w w' scope a e h c =
      rw (h, run_unit_of_work, c, close_scope, committed_scope) refl

-- What happens to the count of operations.
pub data OperationStep (o : Operations) : Operations → Type 0 where
  begins : (o' : Operations) → acquire_operation o ≡ ok o' → OperationStep o o'
  ends : o.active ≢ 0 → OperationStep o (release_operation o)
  shuts_down : OperationStep o (begin_shutdown o)

abbrev pub idle : Operations
idle = record { shutting_down = false; active = 0; draining = false; drained = false }

pub data Operating : Operations → Type 0 where
  started : Operating idle
  then_step : {o o' : Operations} → Operating o → OperationStep o o' → Operating o'

-- Only a domain that shuts down waits, and the wait ends exactly when no operation is active.
pub record IsDraining (o : Operations) : Type 0 where
  pub waits : o.draining ≡ true → o.shutting_down ≡ true
  pub resolved : o.draining ≡ true → ((o.drained ≡ true) ↔ (o.active ≡ 0))
  pub unresolved : o.draining ≡ false → o.drained ≡ false

OperationStep-IsDraining : {o o' : Operations} → OperationStep o o' → IsDraining o → IsDraining o'
unfolding acquire_operation release_operation begin_shutdown
OperationStep-IsDraining {o} (begins o' e) h = ground arith
OperationStep-IsDraining {o} (ends n) h = ground arith
OperationStep-IsDraining {o} shuts_down h = ground arith

Operating-IsDraining : {o : Operations} → Operating o → IsDraining o
Operating-IsDraining started = record {
  waits = λ e. cc;
  resolved = λ e. cc;
  unresolved = λ e. refl;
}
Operating-IsDraining (then_step r s) = OperationStep-IsDraining s (Operating-IsDraining r)

-- However operations begin and end around a shutdown: no operation begins once it shuts down, and
-- if the shutdown waits for operations, the wait is resolved exactly when none is active. Its time
-- limit is left out.
pub shutdown-drains :
    {o : Operations}
    → Operating o
    → (o.shutting_down ≡ true → acquire_operation o ≡ err domain_shutdown)
      × (o.draining ≡ true → ((o.drained ≡ true) ↔ (o.active ≡ 0)))
unfolding acquire_operation
shutdown-drains r = ((λ e. ground arith), (Operating-IsDraining r).resolved)

module _ {W A : Type 0} where
  -- Whether the body of an operation returns or throws, and whether it was let in at all, as many
  -- operations are active after it as before it, if the body itself keeps their count.
  pub active-with_operation :
      (body : Action (W × Operations) A) (w : W) (o : Operations)
      → ((s : W × Operations) → (body s).1.1.active ≡ s.1.active)
      → (with_operation body (w, o)).1.1.active ≡ o.active
  unfolding with_operation acquire_operation release_operation
  active-with_operation body w o keeps =
      let entered = keeps (w, record o { active = suc o.active }) in
      elim (Bool-cases o.shutting_down) [
        | inl e ↦ rw (e, with_operation) refl
        | inr e ↦ rw (e, with_operation) (omega (arith, entered))
      ]
