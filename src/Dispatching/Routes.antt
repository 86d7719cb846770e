-- ===== src/Dispatching/Routes.antt =====
-- Where a command goes: the search of `dispatchCommand` and the handlers on the command bus.
use noddde.Base.{
  String, ◌≡◌, refl, sym, ap, ◌∙◌, List, [], ◌∷◌, Option, none, some, true, arith, is_some,
  Option-cases, Bool-cases, inl, inr, eq_iff, ◌==◌,
}
use noddde.Result.{Result, bind-ok, ok-injective, ok, err, no_handler}
use noddde.Map.{get, set}
use noddde.Map.Laws.{get-set}
use noddde.UnitOfWork.{Op, after}
use noddde.Outbox.{contains}
use noddde.Bus.{register, dispatch_request}
use noddde.Dispatching.{
  AggregateEntry, Request, CommandBus, find_aggregate, register_decisions, register_aggregates,
  register_standalone, register_commands, route, route_command,
}

module _ {W P : Type 0} (execute : AggregateEntry → Request P → Op W) where
  -- A handler that is there stays when another one is registered.
  register-kept :
      (bus bus' : CommandBus execute) (m n : String) (h h' : Request P → Op W)
      → register bus m h ≡ ok bus'
      → get bus n ≡ some h'
      → get bus' n ≡ some h'
  unfolding register
  register-kept bus bus' m n h h' done there = elim (Bool-cases (is_some (get bus m))) [
    | inl taken ↦ absurd (ground (arith, done, taken))
    | inr free ↦
        let same : set bus m h ≡ bus' = ground (arith, done, free) in
        ap (λ b. get b n) (sym same) ∙ get-set bus m n h ∙ ground (arith, there, free, eq_iff m n)
  ]

  register-new :
      (bus bus' : CommandBus execute) (m : String) (h : Request P → Op W)
      → register bus m h ≡ ok bus'
      → get bus' m ≡ some h
  unfolding register
  register-new bus bus' m h done = elim (Bool-cases (is_some (get bus m))) [
    | inl taken ↦ absurd (ground (arith, done, taken))
    | inr free ↦
        let same : set bus m h ≡ bus' = ground (arith, done, free) in
        ap (λ b. get b m) (sym same) ∙ get-set bus m m h ∙ ground (arith, eq_iff m m)
  ]

  decisions-kept :
      (a : AggregateEntry) (names : List String) (bus bus' : CommandBus execute) (n : String)
      (h : Request P → Op W)
      → register_decisions execute a names bus ≡ ok bus'
      → get bus n ≡ some h
      → get bus' n ≡ some h
  unfolding register_decisions
  decisions-kept a [] bus bus' n h done there =
      ap (λ b. get b n) (sym (ok-injective bus bus' done)) ∙ there
  decisions-kept a (m ∷ names) bus bus' n h done there =
      let (b, (first, rest)) =
        bind-ok (register bus m (execute a)) (register_decisions execute a names) bus' done in
      decisions-kept a names b bus' n h rest (register-kept bus b m n (execute a) h first there)

  decisions-new :
      (a : AggregateEntry) (names : List String) (bus bus' : CommandBus execute) (n : String)
      → register_decisions execute a names bus ≡ ok bus'
      → contains names n ≡ true
      → get bus' n ≡ some (execute a)
  unfolding register_decisions
  decisions-new a [] bus bus' n done named = absurd (ground (arith, named))
  decisions-new a (m ∷ names) bus bus' n done named =
      let (b, (first, rest)) =
        bind-ok (register bus m (execute a)) (register_decisions execute a names) bus' done in
      elim (Bool-cases (m == n)) [
        | inl here ↦
            let same : m ≡ n = ground (arith, here, eq_iff m n) in
            decisions-kept a names b bus' n (execute a) rest
              (ap (get b) (sym same) ∙ register-new bus b m (execute a) first)
        | inr there ↦ decisions-new a names b bus' n rest (ground (arith, named, there))
      ]

  aggregates-kept :
      (entries : List AggregateEntry) (bus bus' : CommandBus execute) (n : String)
      (h : Request P → Op W)
      → register_aggregates execute entries bus ≡ ok bus'
      → get bus n ≡ some h
      → get bus' n ≡ some h
  unfolding register_aggregates
  aggregates-kept [] bus bus' n h done there =
      ap (λ b. get b n) (sym (ok-injective bus bus' done)) ∙ there
  aggregates-kept (a ∷ entries) bus bus' n h done there =
      let (b, (first, rest)) =
        bind-ok (register_decisions execute a a.decide bus) (register_aggregates execute entries)
          bus' done in
      aggregates-kept entries b bus' n h rest (decisions-kept a a.decide bus b n h first there)

  aggregates-found :
      (entries : List AggregateEntry) (bus bus' : CommandBus execute) (n : String)
      (a : AggregateEntry)
      → register_aggregates execute entries bus ≡ ok bus'
      → find_aggregate entries n ≡ some a
      → get bus' n ≡ some (execute a)
  unfolding register_aggregates find_aggregate
  aggregates-found [] bus bus' n a done found = absurd (ground (arith, found))
  aggregates-found (x ∷ entries) bus bus' n a done found =
      let (b, (first, rest)) =
        bind-ok (register_decisions execute x x.decide bus) (register_aggregates execute entries)
          bus' done in
      elim (Bool-cases (contains x.decide n)) [
        | inl here ↦
            let same : x ≡ a = ground (arith, here, found) in
            aggregates-kept entries b bus' n (execute a) rest
              (decisions-new x x.decide bus b n first here ∙ ap (λ y. some (execute y)) same)
        | inr there ↦ aggregates-found entries b bus' n a rest (ground (arith, there, found))
      ]

  standalone-kept :
      (handlers : List (String × (Request P → Op W))) (bus bus' : CommandBus execute) (n : String)
      (h : Request P → Op W)
      → register_standalone execute handlers bus ≡ ok bus'
      → get bus n ≡ some h
      → get bus' n ≡ some h
  unfolding register_standalone
  standalone-kept [] bus bus' n h done there =
      ap (λ b. get b n) (sym (ok-injective bus bus' done)) ∙ there
  standalone-kept ((m, handler) ∷ handlers) bus bus' n h done there =
      let (b, (first, rest)) =
        bind-ok (register bus m handler) (register_standalone execute handlers) bus' done in
      standalone-kept handlers b bus' n h rest (register-kept bus b m n handler h first there)

  found-registered :
      (entries : List AggregateEntry) (handlers : List (String × (Request P → Op W)))
      (bus : CommandBus execute) (n : String) (a : AggregateEntry)
      → register_commands execute entries handlers [] ≡ ok bus
      → find_aggregate entries n ≡ some a
      → get bus n ≡ some (execute a)
  unfolding register_commands
  found-registered entries handlers bus n a done found =
      let (b, (first, rest)) =
        bind-ok (register_aggregates execute entries []) (register_standalone execute handlers) bus
          done in
      standalone-kept handlers b bus n (execute a) rest
        (aggregates-found entries [] b n a first found)

  dispatch-registered :
      (bus : CommandBus execute) (command : Request P) (w : W) (h : Request P → Op W)
      → get bus command.name ≡ some h
      → dispatch_request bus command.name command w ≡ h command w
  unfolding dispatch_request
  dispatch-registered bus command w h there =
      ap
        (λ (found : Option (Request P → Op W)). elim found as (λ _. Result (Unit {0}) × W) [
          | none ↦ (err (no_handler command.name), w)
          | some handler ↦ handler command w
        ])
        there

  -- Behind registrations that all succeeded, a command that is routed by the search over the
  -- aggregates does what the command bus does with it, and gives its target besides.
  pub route_command-eq :
      (entries : List AggregateEntry) (handlers : List (String × (Request P → Op W)))
      (bus : CommandBus execute) (command : Request P) (w : W)
      → register_commands execute entries handlers [] ≡ ok bus
      → route_command execute entries bus command w
        ≡ after
            (dispatch_request bus command.name command w)
            (λ _ w. (ok command.target_aggregate_id, w))
  unfolding route_command route dispatch_request
  route_command-eq entries handlers bus command w done =
      elim (Option-cases (find_aggregate entries command.name)) [
        | inl none_found ↦ rw none_found refl
        | inr (a, found) ↦
            let there = found-registered entries handlers bus command.name a done found in
            rw found (
              ap (λ r. after r (λ _ w. (ok command.target_aggregate_id, w)))
                (sym (dispatch-registered bus command w (execute a) there)))
      ]
