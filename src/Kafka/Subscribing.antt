-- ===== src/Kafka/Subscribing.antt =====
-- The loop of `connect` over the event names: which topics it leaves the consumer listening to.
use noddde.Base.{
  String, ◌≡◌, refl, sym, ap, ◌∙◌, ◌⊎◌, inl, inr, List, [], ◌∷◌, ◌++◌, some, Bool, true, false,
  or_default, is_some, arith, All, Bool-cases, subst, eq_iff, ◌==◌, if◌then◌else◌,
}
use noddde.Result.{Result-cases, Error, Result, ok, err}
use noddde.Map.{get}
use noddde.Outbox.{contains}
use noddde.Kafka.{
  Client, Config, KafkaEventBus, Bus, topic_name, subscribe_topics, provision_topics,
}
use noddde.Broker.Names.{contains-append_left, contains-here}

module _ {P W : Type 0} where
  abbrev pub listens : KafkaEventBus P W → String → Bool
  listens bus topic = contains (or_default bus.consumer []) topic

  -- The consumer listens to every topic that the bus took it to.
  abbrev pub IsTracked : KafkaEventBus P W → Type 0
  IsTracked bus =
      (topic : String) → contains bus.subscribed_topics topic ≡ true → listens bus topic ≡ true

  -- The consumer listens to the topic of every event name that has a handler.
  abbrev pub IsListening : Config P → KafkaEventBus P W → Type 0
  IsListening config bus =
      (name : String)
      → is_some (get bus.handlers name) ≡ true
      → listens bus (topic_name config name) ≡ true

module _ {P W : Type 0} (config : Config P) (client : Client W) where
  -- one round of the loop of `connect`
  subscribed : String → Bus P W → Bus P W
  subscribed topic s = (
    record s.0 {
      subscribed_topics = s.0.subscribed_topics ++ topic ∷ [];
      consumer = some (or_default s.0.consumer [] ++ topic ∷ []);
    },
    s.1,
  )

  -- What the loop keeps: the handlers, the topics it had, and the consumer's share of them.
  unfoldable pub IsGrown : Bus P W → Bus P W → Type 0
  IsGrown s t =
      (t.0.handlers ≡ s.0.handlers)
      × ((topic : String)
          → contains s.0.subscribed_topics topic ≡ true
          → contains t.0.subscribed_topics topic ≡ true)
      × (IsTracked s.0 → IsTracked t.0)

  contains-snoc :
      (xs : List String) (a b : String)
      → contains (xs ++ b ∷ []) a ≡ (if contains xs a then true else b == a)
  contains-snoc [] a b = ground arith
  contains-snoc (x ∷ xs) a b = ground (arith, contains-snoc xs a b)

  subscribed-IsGrown : (topic : String) (s : Bus P W) → IsGrown s (subscribed topic s)
  unfolding IsGrown subscribed
  subscribed-IsGrown topic s = (
    refl,
    (λ other has. contains-append_left s.0.subscribed_topics (topic ∷ []) other has),
    (λ tracked other has. ground (
      arith,
      tracked other,
      contains-snoc s.0.subscribed_topics other topic,
      contains-snoc (or_default s.0.consumer []) other topic,
    )),
  )

  IsGrown-trans : (s t u : Bus P W) → IsGrown s t → IsGrown t u → IsGrown s u
  unfolding IsGrown
  IsGrown-trans s t u (same, more, tracked) (same', more', tracked') =
      (same' ∙ same, (λ topic has. more' topic (more topic has)), (λ h. tracked' (tracked h)))

  pub subscribe-known :
      (name : String) (names : List String) (s : Bus P W)
      → contains s.0.subscribed_topics (topic_name config name) ≡ true
      → subscribe_topics config client (name ∷ names) s ≡ subscribe_topics config client names s
  unfolding subscribe_topics
  subscribe-known name names s h = rw (h, subscribe_topics) refl

  -- The topic of a name that is new: either the client takes it, or the loop ends there.
  subscribe-new :
      (name : String) (names : List String) (s : Bus P W)
      → contains s.0.subscribed_topics (topic_name config name) ≡ false
      → (let topic = topic_name config name in
          let (r, w) = client.subscribe topic s.1 in
          ((r ≡ ok tt)
            × (subscribe_topics config client (name ∷ names) s
                ≡ subscribe_topics config client names (subscribed topic (s.0, w))))
          ⊎ ((e : Error) × (subscribe_topics config client (name ∷ names) s ≡ (err e, (s.0, w)))))
  unfolding subscribe_topics subscribed
  subscribe-new name names s h =
      elim (Result-cases (client.subscribe (topic_name config name) s.1).0) [
        | inl (e, refused) ↦ inr (e, rw (h, subscribe_topics, refused) refl)
        | inr (u, taken) ↦ inl (taken, rw (h, subscribe_topics, taken) refl)
      ]

  pub subscribe_topics-IsGrown :
      (names : List String) (s : Bus P W) → IsGrown s (subscribe_topics config client names s).1
  unfolding subscribe_topics IsGrown subscribed
  subscribe_topics-IsGrown [] s = (refl, (λ topic has. has), (λ h. h))
  subscribe_topics-IsGrown (name ∷ names) s =
      let topic = topic_name config name in
      let w = (client.subscribe topic s.1).1 in
      elim (Bool-cases (contains s.0.subscribed_topics topic)) [
        | inl known ↦ rw (subscribe-known name names s known) (subscribe_topics-IsGrown names s)
        | inr new ↦ elim (subscribe-new name names s new) [
          | inl (taken, goes) ↦ rw goes (
              IsGrown-trans s (subscribed topic (s.0, w))
                (subscribe_topics config client names (subscribed topic (s.0, w))).1
                (subscribed-IsGrown topic (s.0, w))
                (subscribe_topics-IsGrown names (subscribed topic (s.0, w))))
          | inr (e, stops) ↦ rw stops (refl, (λ topic has. has), (λ h. h))
        ]
      ]

  -- the topics of the event names are ones that the bus took the consumer to
  unfoldable pub AreKnown : List String → Bus P W → Type 0
  AreKnown names s =
      All (λ name. contains s.0.subscribed_topics (topic_name config name) ≡ true) names

  pub subscribe_topics-AreKnown :
      (names : List String) (s : Bus P W)
      → (subscribe_topics config client names s).0 ≡ ok tt
      → AreKnown names (subscribe_topics config client names s).1
  unfolding AreKnown IsGrown subscribed
  subscribe_topics-AreKnown [] s h = tt
  subscribe_topics-AreKnown (name ∷ names) s h =
      let topic = topic_name config name in
      let s1 = subscribed topic (s.0, (client.subscribe topic s.1).1) in
      elim (Bool-cases (contains s.0.subscribed_topics topic)) [
        | inl known ↦
            let same = subscribe-known name names s known in
            subst (λ (x : Result (Unit {0}) × Bus P W). AreKnown (name ∷ names) x.1) (sym same)
              (
                (subscribe_topics-IsGrown names s).1 topic known,
                subscribe_topics-AreKnown names s
                    (ap (λ (x : Result (Unit {0}) × Bus P W). x.0) (sym same) ∙ h),
              )
        | inr new ↦ elim (subscribe-new name names s new) [
          | inl (taken, goes) ↦
              subst (λ (x : Result (Unit {0}) × Bus P W). AreKnown (name ∷ names) x.1) (sym goes)
                (
                  (subscribe_topics-IsGrown names s1).1 topic
                      (contains-here s.0.subscribed_topics [] topic),
                  subscribe_topics-AreKnown names s1
                      (ap (λ (x : Result (Unit {0}) × Bus P W). x.0) (sym goes) ∙ h),
                )
          | inr (e, stops) ↦ absurd (ground (arith, h, stops))
        ]
      ]

  pub known_at :
      (names : List String) (s : Bus P W) (name : String)
      → AreKnown names s
      → contains names name ≡ true
      → contains s.0.subscribed_topics (topic_name config name) ≡ true
  unfolding AreKnown
  known_at [] s name all h = ground arith
  known_at (n ∷ names) s name all h = elim (Bool-cases (n == name)) [
    | inl same ↦
        subst (λ x. contains s.0.subscribed_topics (topic_name config x) ≡ true)
          ((eq_iff n name).0 same) all.0
    | inr other ↦ known_at names s name all.1 (ground (arith, other, h))
  ]

  pub provision-same :
      (topics : List String) (s : Bus P W)
      → (let b = (provision_topics config client topics s).1.0 in
          (b.handlers ≡ s.0.handlers)
          × (b.consumer ≡ s.0.consumer)
          × (b.subscribed_topics ≡ s.0.subscribed_topics))
  unfolding provision_topics
  provision-same topics s = ground arith
