-- ===== src/Command/Duplicates.antt =====
-- A command that was committed is not executed again while its idempotency record lives.
use noddde.Base.{
  ℕ, String, ◌≡◌, refl, sym, ap, ◌∙◌, subst, List, [], ◌∷◌, ◌++◌, map, Option, some, true, arith,
  eq_refl, inl, inr,
}
use noddde.Result.{Result, ok, err, ◌>>◌}
use noddde.Event.{Event}
use noddde.Map.{delete}
use noddde.Map.Laws.{get-set}
use noddde.Persistence.{Snapshot}
use noddde.Idempotency.{IdempotencyRecord, IdempotencyStore, get_live_record, exists, save}
use noddde.UnitOfWork.{Op, after, run_operations, new_unit_of_work, commit}
use noddde.Command.Model.{Command, Aggregate, World, Config, Persistence, Loaded}
use noddde.Command.Load.{evolve_all}
use noddde.Command.Lifecycle.{
  Uow, enriched, persistence_op, idempotency_op, on_other, record_events, execute_lifecycle,
}
use noddde.Command.Execute.{attempt, already_processed, execute_owned}
use noddde.Command.Enlisted.{
  open_uow, idempotency_ops, produced, record_events-eq, execute_lifecycle-eq,
}
use noddde.Command.Attempt.{ended_with, ended_with-ok, attempt-eq}

save-found :
    (s : IdempotencyStore) (r : IdempotencyRecord) (now : ℕ)
    → r.processed_at ≡ now
    → (save s r now).0 ≡ ok tt
    → exists (save s r now).1 r.command_id now ≡ (true, (save s r now).1)
unfolding save exists get_live_record
save-found s r now at h = ground (
  arith,
  get-set s.store r.command_id r.command_id r,
  get-set (delete s.store r.command_id) r.command_id r.command_id r,
  eq_refl r.command_id,
)

module _ {W : Type 0} where
  after-ok :
      (r : Result (Unit {0})) (w : W) (next : Op W)
      → (after (r, w) (λ _. next)).0 ≡ ok tt
      → (r ≡ ok tt) × (after (r, w) (λ _. next) ≡ next w)
  after-ok (ok _) w next h = (refl, refl)
  after-ok (err e) w next h = absurd (ground arith)

module _ {S P D X : Type 0} (cfg : Config S P X) (agg : Aggregate S P D) (cmd : Command D) where
  -- The record of the command is live, and looking it up changes nothing.
  abbrev IsRecorded : String → ℕ → World S P X → Type 0
  IsRecorded command_id now w = exists w.idempotency command_id now ≡ (true, w.idempotency)

  abbrev others : List (Op X) → List (Op (World S P X))
  others ops = map (on_other cfg agg cmd) ops

  then-keep_record :
      (r : Result (Unit {0})) (w w' : World S P X) (next : Op (World S P X))
      → ((v : World S P X) → (next v).1.idempotency ≡ v.idempotency)
      → w'.idempotency ≡ w.idempotency
      → (after (r, w') (λ _. next)).1.idempotency ≡ w.idempotency
  then-keep_record (ok _) w w' next h k = h w' ∙ k
  then-keep_record (err e) w w' next h k = k

  others-keep_record :
      (ops : List (Op X)) (w : World S P X)
      → (run_operations (others ops) w).1.idempotency ≡ w.idempotency
  unfolding run_operations
  others-keep_record [] w = refl
  others-keep_record (op ∷ ops) w =
      then-keep_record (op w.other).0 w (record w { other = (op w.other).1 })
        (run_operations (others ops)) (others-keep_record ops) refl

  idempotency_op-IsRecorded :
      (command_id : String) (w : World S P X)
      → (idempotency_op cfg agg cmd command_id w).0 ≡ ok tt
      → IsRecorded command_id (cfg.now w) (idempotency_op cfg agg cmd command_id w).1
  unfolding idempotency_op
  idempotency_op-IsRecorded command_id w h = save-found w.idempotency _ (cfg.now w) refl h

  run-IsRecorded :
      (op : Op (World S P X)) (command_id : String) (ops : List (Op X)) (now : ℕ) (w : World S P X)
      → ((v : World S P X) → cfg.now v ≡ now)
      → (run_operations (op ∷ idempotency_op cfg agg cmd command_id ∷ others ops) w).0 ≡ ok tt
      → IsRecorded command_id now
          (run_operations (op ∷ idempotency_op cfg agg cmd command_id ∷ others ops) w).1
  unfolding run_operations
  run-IsRecorded op command_id ops now w clock h =
      let mark = idempotency_op cfg agg cmd command_id in
      let w1 = (op w).1 in
      let (_, first) = after-ok (op w).0 w1 (run_operations (mark ∷ others ops)) h in
      let (marked, second) =
        after-ok (mark w1).0 (mark w1).1 (run_operations (others ops))
          (sym (ap (λ (x : Result (Unit {0}) × World S P X). x.0) first) ∙ h) in
      let kept = others-keep_record ops (mark w1).1 in
      let same : (run_operations (op ∷ mark ∷ others ops) w).1.idempotency
          ≡ (mark w1).1.idempotency =
        ap (λ (x : Result (Unit {0}) × World S P X). x.1.idempotency) (first ∙ second) ∙ kept in
      let found =
        subst (λ t. IsRecorded command_id t (mark w1).1) (clock w1)
          (idempotency_op-IsRecorded command_id w1 marked) in
      subst (λ (s : IdempotencyStore). exists s command_id now ≡ (true, s)) (sym same) found

  settled_ok :
      {E : Type 0} (r : Result (Unit {0})) (events done : E)
      → (r >> ok events) ≡ ok done
      → r ≡ ok tt
  settled_ok (ok _) events done h = refl
  settled_ok (err e) events done h = absurd (ground arith)

  committed-IsRecorded :
      (op : Op (World S P X)) (command_id : String) (ops : List (Op X)) (now : ℕ) (w : World S P X)
      (events done : List (Event P))
      → ((v : World S P X) → cfg.now v ≡ now)
      → let u =
          open_uow cfg agg cmd (op ∷ idempotency_op cfg agg cmd command_id ∷ others ops) events in
        (commit u w).0 ≡ ok done → IsRecorded command_id now (commit u w).2
  unfolding commit
  committed-IsRecorded op command_id ops now w events done clock h =
      run-IsRecorded op command_id ops now w clock (settled_ok _ events done h)

  record_events-IsRecorded :
      (w : World S P X) (loaded : Loaded S) (events done : List (Event P))
      (snap : Option (Snapshot S)) (command_id : String) (now : ℕ)
      → ((v : World S P X) → cfg.now v ≡ now)
      → cfg.has_idempotency_store ≡ true
      → cmd.command_id ≡ some command_id
      → let x = record_events cfg agg cmd w loaded events new_unit_of_work in
        (ended_with cfg agg cmd x.0 x.1 w).0 ≡ ok (done, snap)
        → IsRecorded command_id now (ended_with cfg agg cmd x.0 x.1 w).1
  record_events-IsRecorded w loaded events done snap command_id now clock has named r =
      let x = record_events cfg agg cmd w loaded events new_unit_of_work in
      let (_, settled, at) = ended_with-ok cfg agg cmd x.0 x.1 w done snap r in
      let new_events = enriched cfg agg cmd w loaded events in
      let made = produced cfg agg cmd cfg.on_events_produced new_events in
      let op = persistence_op cfg agg cmd loaded (evolve_all agg loaded.state events) new_events in
      let marks : idempotency_ops cfg agg cmd cfg.has_idempotency_store cmd.command_id
          ≡ idempotency_op cfg agg cmd command_id ∷ [] =
        ap (λ b. idempotency_ops cfg agg cmd b cmd.command_id) has
        ∙ ap (idempotency_ops cfg agg cmd true) named in
      let uow : x.1
          ≡ open_uow cfg agg cmd (op ∷ idempotency_op cfg agg cmd command_id ∷ others made.0)
              new_events =
        ap (λ (y : Result (Option (Snapshot S)) × Uow cfg agg cmd). y.1)
          (record_events-eq cfg agg cmd w loaded events)
        ∙ ap
            (λ (ms : List (Op (World S P X))).
              open_uow cfg agg cmd (op ∷ (ms ++ others made.0)) new_events)
            marks in
      let Settles : Uow cfg agg cmd → Type 0 =
        λ u. (commit u w).0 ≡ ok done → IsRecorded command_id now (commit u w).2 in
      subst (IsRecorded command_id now) (sym at) (
        subst Settles (sym uow)
          (committed-IsRecorded op command_id made.0 now w new_events done clock) settled)

  attempt-IsRecorded :
      (p : Persistence) (w : World S P X) (done : List (Event P)) (snap : Option (Snapshot S))
      (command_id : String) (now : ℕ)
      → ((v : World S P X) → cfg.now v ≡ now)
      → cfg.has_idempotency_store ≡ true
      → cmd.command_id ≡ some command_id
      → (attempt cfg agg cmd p w).0 ≡ ok (done, snap)
      → IsRecorded command_id now (attempt cfg agg cmd p w).1
  attempt-IsRecorded p w done snap command_id now clock has named r =
      let Settles : Result (Option (Snapshot S)) × Uow cfg agg cmd → Type 0 = λ x.
        (ended_with cfg agg cmd x.0 x.1 w).0 ≡ ok (done, snap)
        → IsRecorded command_id now (ended_with cfg agg cmd x.0 x.1 w).1 in
      let settles : Settles (execute_lifecycle cfg agg cmd p w new_unit_of_work) =
        elim (execute_lifecycle-eq cfg agg cmd p w new_unit_of_work) [
          | inl (e, _, h) ↦ subst Settles (sym h) (λ r. absurd (ground arith))
          | inr (loaded, l, inl (e, _, h)) ↦ subst Settles (sym h) (λ r. absurd (ground arith))
          | inr (loaded, l, inr (events, d, h)) ↦
              subst Settles (sym h)
                (record_events-IsRecorded w loaded events done snap command_id now clock has named)
        ] in
      let eq = attempt-eq cfg agg cmd p w in
      subst
        (λ (y : Result (List (Event P) × Option (Snapshot S)) × World S P X).
          IsRecorded command_id now y.1)
        (sym eq)
        (settles (
          sym (ap (λ (y : Result (List (Event P) × Option (Snapshot S)) × World S P X). y.0) eq)
          ∙ r))

  execute_owned-recorded :
      (w : World S P X) (command_id : String)
      → cfg.has_idempotency_store ≡ true
      → cmd.command_id ≡ some command_id
      → IsRecorded command_id (cfg.now w) w
      → execute_owned cfg agg cmd w ≡ (ok tt, w)
  unfolding execute_owned already_processed
  execute_owned-recorded w command_id has named found =
      rw (has, named, execute_owned, already_processed, found) refl

  -- With a store for idempotency records and a clock that stands, a command with an id that was
  -- committed by an attempt, event-sourced or state-stored, is skipped when it is executed again:
  -- the execution succeeds, and nothing in the world changes.
  pub committed_command-skipped :
      (p : Persistence) (w : World S P X) (done : List (Event P)) (snap : Option (Snapshot S))
      (command_id : String) (now : ℕ)
      → ((v : World S P X) → cfg.now v ≡ now)
      → cfg.has_idempotency_store ≡ true
      → cmd.command_id ≡ some command_id
      → (attempt cfg agg cmd p w).0 ≡ ok (done, snap)
      → execute_owned cfg agg cmd (attempt cfg agg cmd p w).1 ≡ (ok tt, (attempt cfg agg cmd p w).1)
  committed_command-skipped p w done snap command_id now clock has named r =
      let w' = (attempt cfg agg cmd p w).1 in
      execute_owned-recorded w' command_id has named (
        subst (λ t. IsRecorded command_id t w') (sym (clock w'))
          (attempt-IsRecorded p w done snap command_id now clock has named r))
