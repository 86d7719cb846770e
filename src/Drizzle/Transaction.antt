-- ===== src/Drizzle/Transaction.antt =====
-- `commit` of packages/adapters/drizzle/src/unit-of-work.ts over a database `D`. The statements of a
-- SQLite driver and the `transaction` of the other drivers are parameters. The handle that a
-- transaction binds, and the queue of the commits on one connection, are left out.
use noddde.Base.{
  ◌≡◌, refl, List, [], ◌∷◌, Option, none, some, Bool, true, false, arith, ◌⊎◌, inl, inr, All,
}
use noddde.Result.{Error, Result, ok, err, uow_completed, ◌>>◌, Result-cases}
use noddde.UnitOfWork.{Op, after, UnitOfWork, run_operations}

-- `db.run(sql`BEGIN`)` and its kin, and `db.transaction`
pub record Driver (D : Type 0) : Type 0 where
  pub is_sync_sqlite : Bool
  pub begin : Op D
  pub commit : Op D
  pub rollback : Op D
  pub transaction : Op D → Op D

module _ {D : Type 0} (driver : Driver D) where
  -- the catch: what ROLLBACK throws is dropped, and the error of the `try` comes out
  rolled_back : Result (Unit {0}) × D → Result (Unit {0}) × D
  rolled_back (ok _, d) = (ok tt, d)
  rolled_back (err e, d) = (err e, (driver.rollback d).1)

  unfoldable pub commit_with_sql_statements : List (Op D) → Op D
  unfolding rolled_back
  commit_with_sql_statements operations d =
      after (driver.begin d)
        (λ _ d1. rolled_back (after (run_operations operations d1) (λ _. driver.commit)))

  unfoldable pub commit_with_callback : List (Op D) → Op D
  commit_with_callback operations = driver.transaction (run_operations operations)

  run_commit : Bool → List (Op D) → Op D
  run_commit true = commit_with_sql_statements
  run_commit false = commit_with_callback

module _ {D E : Type 0} (driver : Driver D) where
  commit_open : Bool → UnitOfWork D E → D → Result (List E) × UnitOfWork D E × D
  unfolding run_commit
  commit_open true u d = (err uow_completed, u, d)
  commit_open false u d =
      let (r, d') = run_commit driver driver.is_sync_sqlite u.operations d in
      (r >> ok u.pending_events, record u { completed = true }, d')

  unfoldable pub commit_transaction : UnitOfWork D E → D → Result (List E) × UnitOfWork D E × D
  unfolding commit_open
  commit_transaction u d = commit_open u.completed u d

-- What SQLite documents of its statements, for a connection that sees `durable` contents, which
-- others see too, and the contents of a transaction that is open. A COMMIT that fails may leave the
-- transaction open or end it; a ROLLBACK without a transaction fails and changes nothing.
pub record IsConnection {D C : Type 0} (driver : Driver D) (durable : D → C)
    (pending : D → Option C) : Type 0 where
  pub begins :
      (d : D)
      → (driver.begin d).0 ≡ ok tt
      → (durable (driver.begin d).1 ≡ durable d) × (pending (driver.begin d).1 ≡ some (durable d))
  pub begin_fails :
      (d : D) (e : Error)
      → (driver.begin d).0 ≡ err e
      → (durable (driver.begin d).1 ≡ durable d) × (pending (driver.begin d).1 ≡ pending d)
  pub commits :
      (d : D) (c : C)
      → pending d ≡ some c
      → (driver.commit d).0 ≡ ok tt
      → (durable (driver.commit d).1 ≡ c) × (pending (driver.commit d).1 ≡ none)
  pub commit_fails :
      (d : D) (e : Error) → (driver.commit d).0 ≡ err e → durable (driver.commit d).1 ≡ durable d
  pub rolls_back :
      (d : D) → (durable (driver.rollback d).1 ≡ durable d) × (pending (driver.rollback d).1 ≡ none)

module _ {D C : Type 0} (driver : Driver D) (durable : D → C) (pending : D → Option C)
    (laws : IsConnection driver durable pending) where
  -- A statement inside a transaction touches nothing but the contents of the transaction.
  abbrev pub IsInside : Op D → Type 0
  IsInside op =
      (d : D) (c : C)
      → pending d ≡ some c
      → (durable (op d).1 ≡ durable d) × ((c' : C) × (pending (op d).1 ≡ some c'))

  run_operations-IsInside : (ops : List (Op D)) → All IsInside ops → IsInside (run_operations ops)
  unfolding run_operations
  run_operations-IsInside [] inside d c live = (refl, (c, live))
  run_operations-IsInside (op ∷ ops) inside d c live =
      let (same, (c1, open1)) = inside.0 d c live in
      elim (Result-cases (op d).0) [
        | inl (e, failed) ↦ (ground (arith, failed, same), (c1, ground (arith, failed, open1)))
        | inr (v, done) ↦
            let (same', (c2, open2)) = run_operations-IsInside ops inside.1 (op d).1 c1 open1 in
            (ground (arith, done, same, same'), (c2, ground (arith, done, open2)))
      ]

module _ {D C E : Type 0} (driver : Driver D) (durable : D → C) (pending : D → Option C)
    (laws : IsConnection driver durable pending) where
  -- what a commit leaves: everything durable with the events, or nothing durable and no events
  abbrev pub IsAtomic : UnitOfWork D E → D → Type 0
  IsAtomic u d =
      let (r, u', d') = commit_transaction driver u d in
      (u'.completed ≡ true)
      × (((r ≡ ok u.pending_events)
            × (pending (run_operations u.operations (driver.begin d).1).1 ≡ some (durable d'))
            × ((run_operations u.operations (driver.begin d).1).0 ≡ ok tt)
            × (pending d' ≡ none))
          ⊎ ((e : Error) × (r ≡ err e) × (durable d' ≡ durable d) × (pending d' ≡ none)))

  -- A commit over SQLite of statements that write inside the transaction, on a connection without an
  -- open one: either every statement and the COMMIT succeeded, the events are handed out, and the
  -- contents that the statements made are durable; or it rejects, hands out no event, and what is
  -- durable is as it was, also when the COMMIT itself fails. In both cases no transaction stays open.
  pub commit-IsAtomic :
      (u : UnitOfWork D E) (d : D)
      → driver.is_sync_sqlite ≡ true
      → u.completed ≡ false
      → pending d ≡ none
      → All (IsInside driver durable pending laws) u.operations
      → IsAtomic u d
  unfolding commit_transaction commit_with_sql_statements
  commit-IsAtomic u d sqlite fresh closed inside = elim (Result-cases (driver.begin d).0) [
    | inl (e, refused) ↦
        let (same, still) = laws.begin_fails d e refused in
        (
          ground (arith, fresh),
          inr (
            e,
            ground (arith, fresh, sqlite, refused),
            ground (arith, fresh, sqlite, refused, same),
            ground (arith, fresh, sqlite, refused, still, closed),
          ),
        )
    | inr (v, begun) ↦
        let d1 = (driver.begin d).1 in
        let d2 = (run_operations u.operations d1).1 in
        let (same, opened) = laws.begins d begun in
        let (kept, (c, live)) =
          run_operations-IsInside driver durable pending laws u.operations inside d1 (durable d)
            opened in
        let (back, gone) = laws.rolls_back d2 in
        elim (Result-cases (run_operations u.operations d1).0) [
          | inl (e, failed) ↦ (
            ground (arith, fresh),
            inr (
              e,
              ground (arith, fresh, sqlite, begun, failed),
              ground (arith, fresh, sqlite, begun, failed, back, kept, same),
              ground (arith, fresh, sqlite, begun, failed, gone),
            ),
          )
          | inr (v', done) ↦ elim (Result-cases (driver.commit d2).0) [
            | inl (e, failed) ↦
                let (back', gone') = laws.rolls_back (driver.commit d2).1 in
                let left = laws.commit_fails d2 e failed in
                (
                  ground (arith, fresh),
                  inr (
                    e,
                    ground (arith, fresh, sqlite, begun, done, failed),
                    ground (arith, fresh, sqlite, begun, done, failed, back', left, kept, same),
                    ground (arith, fresh, sqlite, begun, done, failed, gone'),
                  ),
                )
            | inr (v'', written) ↦
                let (now, ended) = laws.commits d2 c live written in
                (
                  ground (arith, fresh),
                  inl (
                    ground (arith, fresh, sqlite, begun, done, written),
                    ground (arith, fresh, sqlite, begun, done, written, now, live),
                    ground (arith, done),
                    ground (arith, fresh, sqlite, begun, done, written, ended),
                  ),
                )
          ]
        ]
  ]
