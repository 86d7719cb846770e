-- ===== src/Kafka/Delivery.antt =====
-- One delivery of a message: it is let through, or it counts as one attempt more.
use noddde.Base.{
  none, All, ℕ, ◌+◌, ◌≤◌, ◌<◌, String, ◌≡◌, refl, ◌⊎◌, inl, inr, List, [], ◌∷◌, some, not,
  or_default, arith, keep, map, leb, eq_refl, Bool-cases, Option-cases,
}
use noddde.Result.{Result-cases, Error, Result, ok, err}
use noddde.Map.{get}
use noddde.Map.Laws.{get-set}
use noddde.Outbox.{contains}
use noddde.Kafka.{
  Topic, Message, Client, Config, Bus, provision_topics, topic_config, provision_pending,
  create_with_admin,
}
use noddde.Kafka.Consumer.{
  handle_parsed, settle_message, poison, message_value, Location, Runtime, max_retries, offset_key,
  dlq_message, park_to_dlq, dlq_topic, count_attempt, parked, attempt_of, on_rejection,
  handle_message, event_name_of, each_message,
}
use noddde.Broker.{Settled, fulfilled, rejected, first_rejection, settle_all}

-- what `Promise.allSettled` gives for a handler that did not reject, or rejected with `undefined`
abbrev pub IsQuiet : Settled → Type 0
IsQuiet r = (r ≡ fulfilled) ⊎ (r ≡ rejected none)

pub first_rejection-none : (rs : List Settled) → first_rejection rs ≡ none → All IsQuiet rs
unfolding first_rejection
first_rejection-none [] h = tt
first_rejection-none (fulfilled ∷ rs) h = (inl refl, first_rejection-none rs h)
first_rejection-none (rejected none ∷ rs) h = (inr refl, first_rejection-none rs h)
first_rejection-none (rejected (some e) ∷ rs) h = absurd (ground (arith, h))

-- Every call of the clients settles without an error.
abbrev pub IsUp : {W : Type 0} → Client W → Type 0
IsUp {W = W} client =
    ((w : W) → (client.admin_connect w).0 ≡ ok tt)
    × ((topics : List Topic) (w : W) → (client.create_topics topics w).0 ≡ ok tt)
    × ((w : W) → (client.admin_disconnect w).0 ≡ ok tt)
    × ((m : Message) (w : W) → (client.send m w).0 ≡ ok tt)
    × ((t : String) (p o : ℕ) (w : W) → (client.commit_offsets t p o w).0 ≡ ok tt)

module _ {P W : Type 0} (config : Config P) (client : Client W) (runtime : Runtime P) where
  provision-counts :
      (topics : List String) (s : Bus P W)
      → (provision_topics config client topics s).1.0.delivery_counts ≡ s.0.delivery_counts
  unfolding provision_topics
  provision-counts topics s = ground arith

  park-counts :
      (l : Location) (raw : String) (failure : Error) (n : ℕ) (s : Bus P W)
      → (park_to_dlq config client runtime l raw failure n s).1.0.delivery_counts
        ≡ s.0.delivery_counts
  unfolding park_to_dlq
  park-counts l raw failure n s =
      ground (arith, provision-counts (dlq_topic config client runtime l ∷ []) s)

  create_with_admin-up :
      (topics : List Topic) (w : W)
      → IsUp client
      → (create_with_admin config client topics w).0 ≡ ok tt
  unfolding create_with_admin
  create_with_admin-up topics w up =
      let w1 = (client.admin_connect w).1 in
      ground (arith, up.0 w, up.1 topics w1, up.2 (client.create_topics topics w1).1)

  pending-up :
      (topics : List String) (s : Bus P W)
      → IsUp client
      → (provision_pending config client topics s).0 ≡ ok tt
  unfolding provision_pending
  pending-up [] s up = refl
  pending-up (t ∷ ts) s up =
      ground (arith, create_with_admin-up (map (topic_config config) (t ∷ ts)) s.1 up)

  provision-up :
      (topics : List String) (s : Bus P W)
      → IsUp client
      → (provision_topics config client topics s).0 ≡ ok tt
  unfolding provision_topics create_with_admin
  provision-up topics s up =
      pending-up (keep (λ t. not (contains s.0.provisioned_topics t)) topics) s up

  park-up :
      (l : Location) (raw : String) (failure : Error) (n : ℕ) (s : Bus P W)
      → IsUp client
      → (park_to_dlq config client runtime l raw failure n s).0 ≡ ok tt
  unfolding park_to_dlq
  park-up l raw failure n s up =
      let s1 = (provision_topics config client (dlq_topic config client runtime l ∷ []) s).1 in
      ground (
        arith,
        provision-up (dlq_topic config client runtime l ∷ []) s up,
        up.3 (dlq_message config client runtime l raw failure n) s1.1,
      )

  -- what `on_rejection` does with a message whose place is known
  pub on_rejection-retry :
      (l : Location) (raw : String) (failure : Error) (s : Bus P W)
      → attempt_of config client runtime l s ≤ max_retries config client runtime
      → (let t = on_rejection config client runtime (some l) raw failure s in
          (t.0 ≡ err failure)
          × (attempt_of config client runtime l t.1 ≡ attempt_of config client runtime l s + 1))
  unfolding on_rejection attempt_of
  on_rejection-retry l raw failure s h = ground (
    arith,
    get-set s.0.delivery_counts (offset_key config client runtime l)
        (offset_key config client runtime l) (attempt_of config client runtime l s),
    eq_refl (offset_key config client runtime l),
  )

  on_rejection-park :
      (l : Location) (raw : String) (failure : Error) (s : Bus P W)
      → IsUp client
      → max_retries config client runtime < attempt_of config client runtime l s
      → (on_rejection config client runtime (some l) raw failure s).0 ≡ ok tt
  unfolding on_rejection count_attempt parked
  on_rejection-park l raw failure s up h =
      let n = attempt_of config client runtime l s in
      ground (arith, park-up l raw failure n (count_attempt config client runtime l s) up)

  -- what a delivery that rejects leaves: one attempt more, and attempts were left
  abbrev pub IsRetry : Location → Bus P W → Result (Unit {0}) × Bus P W → Type 0
  IsRetry l s t =
      (e : Error) × (t.0 ≡ err e)
      × (attempt_of config client runtime l s ≤ max_retries config client runtime)
      × (attempt_of config client runtime l t.1 ≡ attempt_of config client runtime l s + 1)

  on_rejection-outcome :
      (l : Location) (raw : String) (failure : Error) (s : Bus P W)
      → IsUp client
      → (let t = on_rejection config client runtime (some l) raw failure s in
          (t.0 ≡ ok tt) ⊎ IsRetry l s t)
  on_rejection-outcome l raw failure s up =
      let n = attempt_of config client runtime l s in
      elim (Bool-cases (leb n (max_retries config client runtime))) [
        | inl le ↦
            let (failed, more) = on_rejection-retry l raw failure s (ground arith) in
            inr (failure, failed, ground arith, more)
        | inr gt ↦ inl (on_rejection-park l raw failure s up (ground arith))
      ]

  handle_message-outcome :
      (name : String) (raw : String) (l : Location) (s : Bus P W)
      → IsUp client
      → (let t = handle_message config client runtime name raw (some l) s in
          (t.0 ≡ ok tt) ⊎ IsRetry l s t)
  unfolding handle_message handle_parsed settle_message poison attempt_of
  handle_message-outcome name raw l s up = elim (Result-cases (runtime.parse raw)) [
    | inl (e, h) ↦ rw (h, handle_message) (inl refl)
    | inr (event, h) ↦
        let (results, w) = settle_all (or_default (get s.0.handlers name) []) event s.1 in
        elim (Option-cases (first_rejection results)) [
          | inl quiet ↦ rw (h, handle_message, quiet, settle_message) (inl refl)
          | inr (failure, loud) ↦
              rw (h, handle_message, loud, settle_message)
                (on_rejection-outcome l raw failure (s.0, w) up)
        ]
  ]

  -- The last call of the clients commits the offset behind the message at `l`.
  abbrev pub IsCommitted : Location → Bus P W → Type 0
  IsCommitted l s = (w : W) × (s.1 ≡ (client.commit_offsets l.topic l.partition (l.offset + 1) w).1)

  pub each_message-outcome :
      (l : Location) (raw : String) (s : Bus P W)
      → IsUp client
      → (let t = each_message config client runtime (record { location = l; value = some raw }) s in
          ((t.0 ≡ ok tt) × IsCommitted l t.1) ⊎ IsRetry l s t)
  unfolding each_message message_value attempt_of
  each_message-outcome l raw s up =
      let name = event_name_of config client runtime l.topic in
      let t = handle_message config client runtime name raw (some l) s in
      elim (handle_message-outcome name raw l s up) [
        | inl done ↦
            let committed = up.4 l.topic l.partition (l.offset + 1) t.1.1 in
            inl (ground (arith, done, committed), (t.1.1, ground (arith, done, committed)))
        | inr (e, failed, le, more) ↦
            inr (e, ground (arith, failed), le, ground (arith, failed, more))
      ]
