-- ===== src/Concurrency/Locking.antt =====
-- The pessimistic strategy gives back every lock that it takes. `held` counts the locks of an
-- abstract world.
use noddde.Base.{ℕ, ◌+◌, ◌-◌, String, ◌≡◌, Option, none, Bool, arith}
use noddde.Result.{Error, Result, ok, err}
use noddde.UnitOfWork.{
  CompletionHooks, Action, run_uow_completion_hooks, run_operations, on_uow_settled,
}
use noddde.Concurrency.{Locker, execute_pessimistic, acquire_for_uow}

abbrev pub taken : Result (Unit {0}) → ℕ
taken (ok _) = 1
taken (err e) = 0

-- An acquisition takes one lock if it succeeds and none if it throws; a release gives one back,
-- also one that throws.
pub record IsBalanced {W : Type 0} (held : W → ℕ) (l : Locker W) : Type 0 where
  pub acquired :
      (name id : String) (t : Option ℕ) (w : W)
      → held (l.acquire name id t w).1 ≡ held w + taken (l.acquire name id t w).0
  pub released : (name id : String) (w : W) → held (l.release name id w).1 ≡ held w - 1

module _ {W A : Type 0} (held : W → ℕ) (l : Locker W) (balanced : IsBalanced held l) where
  -- Whether the attempt returns or throws, and whether the lock was granted or not, as many locks
  -- are held after the pessimistic strategy as before it.
  pub held-execute_pessimistic :
      (timeout : Option ℕ) (name id : String) (attempt : Action W A) (w : W)
      → ((w' : W) → held (attempt w').1 ≡ held w')
      → held (execute_pessimistic l timeout name id attempt w).1 ≡ held w
  unfolding execute_pessimistic
  held-execute_pessimistic timeout name id attempt w keeps =
      let w' = (l.acquire name id timeout w).1 in
      ground (
        arith,
        balanced.acquired name id timeout w,
        keeps w',
        balanced.released name id (attempt w').1,
      )

module _ {W : Type 0} (held : W → ℕ) (l : Locker W) (balanced : IsBalanced held l) where
  -- A lock taken for an owning unit of work is held until that unit of work settles: whatever
  -- happens in between, as long as it keeps the count, the completion hooks give the lock back,
  -- after a commit and after a rollback alike.
  pub held-acquire_for_uow :
      (timeout : Option ℕ) (name id : String) (w w' : W) (entry : Option (CompletionHooks W))
      (committed : Bool)
      → acquire_for_uow l timeout name id none w ≡ (ok entry, w')
      → (later : W) → held later ≡ held w'
      → (held w' ≡ held w + 1) × (held (run_uow_completion_hooks entry committed later).1 ≡ held w)
  unfolding acquire_for_uow on_uow_settled run_uow_completion_hooks run_operations
  held-acquire_for_uow timeout name id w w' entry committed e later h =
      ground (arith, balanced.acquired name id timeout w, balanced.released name id later)

module _ {W : Type 0} where
  -- The hooks behind one that throws are not run: with two locks registered on a unit of work, a
  -- release of the first that throws leaves the second one taken.
  pub settled_hook_error-skips :
      (first second : Locker W) (name id name' id' : String) (committed : Bool) (w : W) (e : Error)
      → (first.release name id w).0 ≡ err e
      → run_uow_completion_hooks
          (on_uow_settled (on_uow_settled none (first.release name id)) (second.release name' id'))
          committed
          w
        ≡ first.release name id w
  unfolding on_uow_settled run_uow_completion_hooks run_operations
  settled_hook_error-skips first second name id name' id' committed w e h = ground arith
