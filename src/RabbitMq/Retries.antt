-- ===== src/RabbitMq/Retries.antt =====
-- How often a message is delivered before the broker is told to drop it.
use noddde.Base.{
  ℕ, zero, suc, ◌+◌, ◌≤◌, ◌<◌, String, ◌≡◌, sym, ap, subst, ◌⊎◌, inl, inr, List, [], Option, none,
  some, true, false, or_default, ltb, arith, eq_refl, Bool-cases,
}
use noddde.Result.{Error, ok, Result-cases}
use noddde.Event.{Event}
use noddde.Map.{Map, get, set}
use noddde.Map.Laws.{get-set, get-delete}
use noddde.Broker.{Handler, settle_all, first_rejection}
use noddde.RabbitMq.{Delivered, Client, Config, Bus}
use noddde.RabbitMq.Consumer.{
  Answer, acked, dead_lettered, requeued, unanswered, dead_letter_of, Runtime, handle_message,
  retry_key, dead_letter, try_delivery, count_of, counted, process_delivery,
}

module _ {P W : Type 0} (config : Config) (client : Client W) (runtime : Runtime P) where
  -- The broker delivers a message again as long as it is requeued or gets no answer: how many deliveries that takes,
  -- and the last answer with the bus behind it; `none` is fuel that ran out.
  unfoldable pub deliver : ℕ → String → Delivered → Bus P W → ℕ × Option (Answer × Bus P W)
  deliver zero name m s = (0, none)
  deliver (suc fuel) name m s =
      let t = process_delivery config client runtime name m s in
      let rest = deliver fuel name m t.1 in
      elim t.0 [
        | acked ↦ (1, some (acked, t.1))
        | dead_lettered ↦ (1, some (dead_lettered, t.1))
        | requeued ↦ (suc rest.0, rest.1)
        | unanswered ↦ (suc rest.0, rest.1)
      ]

  handle_message-keeps :
      (name content : String) (s : Bus P W)
      → (handle_message config client runtime name content s).1.0 ≡ s.0
  unfolding handle_message
  handle_message-keeps name content s = ground arith

  abbrev pub key_of : Delivered → String
  key_of m = retry_key config client runtime m

  -- A requeue that the broker does not get counts like one that it gets.
  abbrev pub IsAgain : Answer → Type 0
  IsAgain a = (a ≡ requeued) ⊎ (a ≡ unanswered)

  -- the acknowledgements of a message reach the broker
  abbrev pub Acknowledges : Delivered → Type 0
  Acknowledges m = (w : W) → (client.ack m.tag w).0 ≡ ok tt

  -- what a delivery that is answered for good leaves: no count for its message
  abbrev pub IsForgotten : Delivered → Answer × Bus P W → Type 0
  IsForgotten m t =
      ((t.0 ≡ acked) ⊎ (t.0 ≡ dead_lettered)) × (get t.1.0.delivery_counts (key_of m) ≡ none)

  -- A delivery beyond the retries is dead-lettered.
  process-exhausted :
      (n : ℕ) (name : String) (m : Delivered) (s : Bus P W)
      → config.max_retries ≡ some n
      → Acknowledges m
      → n < count_of config client runtime m s
      → (let t = process_delivery config client runtime name m s in
          (t.0 ≡ dead_lettered) × IsForgotten m t)
  unfolding process_delivery dead_letter
  process-exhausted n name m s limit acks gone =
      let gone' : ltb n (count_of config client runtime m s) ≡ true = ground arith in
      let key = key_of m in
      let counts = set s.0.delivery_counts key (count_of config client runtime m s) in
      let count = count_of config client runtime m s in
      let letter = dead_letter_of config client runtime name m count in
      let ack = acks (client.publish letter s.1).1 in
      (
        ground (arith, limit, gone', ack),
        (
          inr (ground (arith, limit, gone', ack)),
          ground (arith, limit, gone', get-delete counts key key, eq_refl key),
        ),
      )

  process-tried :
      (n : ℕ) (name : String) (m : Delivered) (s : Bus P W)
      → config.max_retries ≡ some n
      → count_of config client runtime m s ≤ n
      → process_delivery config client runtime name m s
        ≡ try_delivery config client runtime
            (some (key_of m))
            name
            m
            (counted config client runtime m s)
  unfolding process_delivery
  process-tried n name m s limit left =
      let left' : ltb n (count_of config client runtime m s) ≡ false = ground arith in
      ground (arith, limit, left')

  -- A delivery within the retries is answered for good, or it is requeued with one count more.
  try_delivery-outcome :
      (name : String) (m : Delivered) (s : Bus P W)
      → Acknowledges m
      → (let t =
            try_delivery config client runtime
              (some (key_of m))
              name
              m
              (counted config client runtime m s) in
          IsForgotten m t
          ⊎ (IsAgain t.0
              × (t.1.0.handlers ≡ s.0.handlers)
              × (count_of config client runtime m t.1 ≡ count_of config client runtime m s + 1)))
  unfolding try_delivery counted
  try_delivery-outcome name m s acks =
      let key = key_of m in
      let count = count_of config client runtime m s in
      let s1 = counted config client runtime m s in
      let kept = handle_message-keeps name m.content s1 in
      elim (Result-cases (handle_message config client runtime name m.content s1).0) [
        | inl (e, failed) ↦ inr (
          elim (Result-cases
              (client.nack m.tag (handle_message config client runtime name m.content s1).1.1).0) [
                | inl (x, stale) ↦ inr (ground (arith, failed, stale))
                | inr (u, told) ↦ inl (ground (arith, failed, told))
              ],
          ground (arith, failed, kept),
          unfold count_of in
              ground (arith, failed, kept, get-set s.0.delivery_counts key key count, eq_refl key),
        )
        | inr (b, done) ↦ inl (
          inl (
              ground
                (arith, done, acks (handle_message config client runtime name m.content s1).1.1)),
          ground (
            arith,
            done,
            kept,
            get-delete (set s.0.delivery_counts key count) key key,
            eq_refl key,
          ),
        )
      ]

  -- one delivery of a message whose count is within the retries or one beyond
  process-step :
      (n : ℕ) (name : String) (m : Delivered) (s : Bus P W)
      → config.max_retries ≡ some n
      → Acknowledges m
      → (let t = process_delivery config client runtime name m s in
          IsForgotten m t
          ⊎ (IsAgain t.0
              × (t.1.0.handlers ≡ s.0.handlers)
              × (count_of config client runtime m s ≤ n)
              × (count_of config client runtime m t.1 ≡ count_of config client runtime m s + 1)))
  process-step n name m s limit acks =
      elim (Bool-cases (ltb n (count_of config client runtime m s))) [
        | inl gone ↦ inl (process-exhausted n name m s limit acks (ground (arith, gone))).1
        | inr left ↦
            let within : count_of config client runtime m s ≤ n = ground (arith, left) in
            rw (process-tried n name m s limit within) (elim (try_delivery-outcome name m s acks) [
              | inl done ↦ inl done
              | inr (again, same, more) ↦ inr (again, same, within, more)
            ])
      ]

  deliver-counted :
      (fuel n : ℕ) (name : String) (m : Delivered) (s : Bus P W)
      → config.max_retries ≡ some n
      → Acknowledges m
      → count_of config client runtime m s ≤ n + 1
      → n + 2 ≤ count_of config client runtime m s + fuel
      → (t : Answer × Bus P W) × ((deliver fuel name m s).1 ≡ some t)
        × IsForgotten m t
        × ((deliver fuel name m s).0 + count_of config client runtime m s ≤ n + 2)
  unfolding deliver
  deliver-counted zero n name m s limit acks le enough = absurd (omega arith)
  deliver-counted (suc fuel) n name m s limit acks le enough =
      let t = process_delivery config client runtime name m s in
      elim (process-step n name m s limit acks) [
        | inl (inl done, none_left) ↦
            (t, ground (arith, done), (inl done, none_left), ground (arith, done))
        | inl (inr done, none_left) ↦
            (t, ground (arith, done), (inr done, none_left), ground (arith, done))
        | inr (again, same, left, more) ↦
            let (u, ends, forgotten, few) =
              deliver-counted fuel n name m t.1 limit acks (omega (arith, more))
                (omega (arith, more)) in
            elim again [
              | inl told ↦
                  (u, ground (arith, told, ends), forgotten, ground (arith, told, few, more))
              | inr stale ↦
                  (u, ground (arith, stale, ends), forgotten, ground (arith, stale, few, more))
            ]
      ]

  -- With a limit on the retries, and while the acknowledgements of a message reach the broker, a
  -- message that has not been delivered before is acknowledged, behind its handlers or as a dead
  -- letter, after at most one delivery more than the limit, whatever the promises of its handlers
  -- settle to and whatever other calls of the channel throw; then no count of it is left.
  pub deliver-ends :
      (fuel n : ℕ) (name : String) (m : Delivered) (s : Bus P W)
      → config.max_retries ≡ some n
      → Acknowledges m
      → get s.0.delivery_counts (key_of m) ≡ none
      → n < fuel
      → (t : Answer × Bus P W) × ((deliver fuel name m s).1 ≡ some t)
        × IsForgotten m t
        × ((deliver fuel name m s).0 ≤ n + 1)
  unfolding count_of
  deliver-ends fuel n name m s limit acks fresh lt =
      let first = ap (λ o. or_default o 0 + 1) fresh in
      let (t, ends, forgotten, few) =
        deliver-counted fuel n name m s limit acks (ground (arith, first))
          (ground (arith, first)) in
      (t, ends, forgotten, ground (arith, few, first))

  -- whatever the world is, one of them rejects
  abbrev pub IsFailing : List (Handler W (Event P)) → Event P → Type 0
  IsFailing hs event = (w : W) → (e : Error) × (first_rejection (settle_all hs event w).0 ≡ some e)

  abbrev pub handlers_of_name : String → Bus P W → List (Handler W (Event P))
  handlers_of_name name s = or_default (get s.0.handlers name) []

  try_delivery-failing :
      (name : String) (m : Delivered) (event : Event P) (s : Bus P W)
      → runtime.parse m.content ≡ ok event
      → IsFailing (handlers_of_name name s) event
      → IsAgain
          (try_delivery config client runtime
            (some (key_of m))
            name
            m
            (counted config client runtime m s)).0
  unfolding try_delivery handle_message counted
  try_delivery-failing name m event s h failing =
      let (e, loud) = failing s.1 in
      let w = (settle_all (handlers_of_name name s) event s.1).1 in
      elim (Result-cases (client.nack m.tag w).0) [
        | inl (x, stale) ↦ inr (ground (arith, h, loud, stale))
        | inr (u, told) ↦ inl (ground (arith, h, loud, told))
      ]

  again-done : {a : Answer} → IsAgain a → (a ≡ acked) ⊎ (a ≡ dead_lettered) → ⊥
  again-done (inl told) (inl done) = ground (arith, told, done)
  again-done (inl told) (inr done) = ground (arith, told, done)
  again-done (inr stale) (inl done) = ground (arith, stale, done)
  again-done (inr stale) (inr done) = ground (arith, stale, done)

  failing-counted :
      (fuel n : ℕ) (name : String) (m : Delivered) (event : Event P) (s : Bus P W)
      → config.max_retries ≡ some n
      → Acknowledges m
      → runtime.parse m.content ≡ ok event
      → IsFailing (handlers_of_name name s) event
      → count_of config client runtime m s ≤ n + 1
      → n + 2 ≤ count_of config client runtime m s + fuel
      → (s' : Bus P W) × ((deliver fuel name m s).1 ≡ some (dead_lettered, s'))
        × ((deliver fuel name m s).0 + count_of config client runtime m s ≡ n + 2)
  unfolding deliver
  failing-counted zero n name m event s limit acks h failing le enough = absurd (omega arith)
  failing-counted (suc fuel) n name m event s limit acks h failing le enough =
      let t = process_delivery config client runtime name m s in
      elim (Bool-cases (ltb n (count_of config client runtime m s))) [
        | inl gone ↦
            let (parked, forgotten) =
              process-exhausted n name m s limit acks (ground (arith, gone)) in
            (t.1, ground (arith, parked), ground (arith, parked, gone, le))
        | inr left ↦
            let again =
              subst (λ (x : Answer × Bus P W). IsAgain x.0)
                (sym (process-tried n name m s limit (ground (arith, left))))
                (try_delivery-failing name m event s h failing) in
            elim (process-step n name m s limit acks) [
              | inl (done, gone) ↦ absurd (again-done again done)
              | inr (again', same, within, more) ↦
                  let hs =
                    ap (λ (x : Map (List (Handler W (Event P)))). or_default (get x name) [])
                      (sym same) in
                  let (s', ends, exact) =
                    failing-counted fuel n name m event t.1 limit acks h
                      (subst (λ x. IsFailing x event) hs failing) (omega (arith, more))
                      (omega (arith, more)) in
                  elim again [
                    | inl told ↦ (s', ground (arith, told, ends), ground (arith, told, exact, more))
                    | inr stale ↦
                        (s', ground (arith, stale, ends), ground (arith, stale, exact, more))
                  ]
            ]
      ]

  -- A message that one of its handlers rejects every time is handed to the handlers as often as
  -- the limit says, and the delivery behind that dead-letters it.
  pub failing-deliver :
      (fuel n : ℕ) (name : String) (m : Delivered) (event : Event P) (s : Bus P W)
      → config.max_retries ≡ some n
      → Acknowledges m
      → runtime.parse m.content ≡ ok event
      → IsFailing (handlers_of_name name s) event
      → get s.0.delivery_counts (key_of m) ≡ none
      → n < fuel
      → (s' : Bus P W) × ((deliver fuel name m s).1 ≡ some (dead_lettered, s'))
        × ((deliver fuel name m s).0 ≡ n + 1)
  unfolding count_of
  failing-deliver fuel n name m event s limit acks h failing fresh lt =
      let first = ap (λ o. or_default o 0 + 1) fresh in
      let (s', ends, exact) =
        failing-counted fuel n name m event s limit acks h failing (ground (arith, first))
          (ground (arith, first)) in
      (s', ends, ground (arith, exact, first))
