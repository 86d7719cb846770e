-- ===== src/Kafka/Subscriptions.antt =====
-- Which topics the consumer listens to, and what a connection that failed leaves behind.
use noddde.Base.{
  String, ◌≡◌, refl, sym, ap, ◌∙◌, List, [], ◌∷◌, ◌++◌, map, some, true, false, or_default, arith,
  All, subst, eq_iff,
}
use noddde.Result.{Result, ok}
use noddde.Event.{Event}
use noddde.Map.{Map, get, set, keys}
use noddde.Map.Laws.{get-set}
use noddde.Outbox.{contains}
use noddde.UnitOfWork.{Op, after}
use noddde.Kafka.{
  Client, Config, KafkaEventBus, Bus, topic_name, on, subscribe_topics, provision_topics,
  open_connection, connect,
}
use noddde.Kafka.Subscribing.{
  IsListening, IsTracked, IsGrown, AreKnown, subscribe_topics-IsGrown, subscribe_topics-AreKnown,
  known_at, provision-same, subscribe-known,
}
use noddde.Broker.Names.{keys-get}
use noddde.Broker.{Handler, on_world}

module _ {P W : Type 0} (config : Config P) where
  on-accepted :
      (bus bus' : KafkaEventBus P W) (name : String) (h : Handler W (Event P))
      → bus.connected ≡ true
      → on config bus name h ≡ ok bus'
      → (bus'.handlers ≡ set bus.handlers name (or_default (get bus.handlers name) [] ++ h ∷ []))
        × (bus'.consumer ≡ bus.consumer)
        × (bus'.subscribed_topics ≡ bus.subscribed_topics)
        × (contains bus.subscribed_topics (topic_name config name) ≡ true)
  unfolding on
  on-accepted bus bus' name h up accepted = ground arith

  -- On a connected bus, a handler is accepted only for a topic that the consumer listens to, so
  -- that every handler goes on being heard.
  pub on-IsListening :
      (bus bus' : KafkaEventBus P W) (name : String) (h : Handler W (Event P))
      → bus.connected ≡ true
      → IsTracked bus
      → IsListening config bus
      → on config bus name h ≡ ok bus'
      → IsListening config bus' × IsTracked bus'
  on-IsListening bus bus' name h up tracked listening accepted =
      let (hs, kept, same, known) = on-accepted bus bus' name h up accepted in
      (
        (λ name' has. ground (
          arith,
          hs,
          kept,
          known,
          eq_iff name name',
          ap (topic_name config),
          get-set bus.handlers name name' (or_default (get bus.handlers name) [] ++ h ∷ []),
          listening name',
          tracked (topic_name config name),
        )),
        (λ topic has. ground (arith, same, kept, tracked topic)),
      )

module _ {P W : Type 0} (config : Config P) (client : Client W) where
  -- the bus that the connection starts from
  abbrev pub opening : Bus P W → Bus P W
  opening s = (record s.0 { producer = true; consumer = some []; connecting = true }, s.1)

  -- The last three steps of a connection, from the bus that the topics were provisioned for.
  finish_connection : Op (Bus P W)
  finish_connection s3 = after (subscribe_topics config client (keys s3.0.handlers) s3) (λ _ s4.
      after (on_world client.run s4) (λ _ s5. (ok tt, (record s5.0 { connected = true }, s5.1))))

  open_connection-provisioned :
      (s : Bus P W)
      → (open_connection config client s).0 ≡ ok tt
      → (s3 : Bus P W) × (s3.0.handlers ≡ s.0.handlers)
        × (s3.0.consumer ≡ s.0.consumer)
        × (s3.0.subscribed_topics ≡ s.0.subscribed_topics)
        × (open_connection config client s ≡ finish_connection s3)
  unfolding open_connection finish_connection
  open_connection-provisioned s done =
      let s2 = (on_world client.consumer_connect (on_world client.producer_connect s).1).1 in
      let names = map (topic_name config) (keys s2.0.handlers) in
      let (hs, kept, same) = provision-same config client names s2 in
      ((provision_topics config client names s2).1, hs, kept, same, ground (arith, done))

  finish_connection-done :
      (s3 : Bus P W)
      → (finish_connection s3).0 ≡ ok tt
      → (let s4 = (subscribe_topics config client (keys s3.0.handlers) s3) in
          let b = (finish_connection s3).1.0 in
          (s4.0 ≡ ok tt)
          × (b.connected ≡ true)
          × (b.handlers ≡ s4.1.0.handlers)
          × (b.consumer ≡ s4.1.0.consumer)
          × (b.subscribed_topics ≡ s4.1.0.subscribed_topics))
  unfolding finish_connection
  finish_connection-done s3 done = ground (arith, done)

  connect-opens :
      (s : Bus P W)
      → s.0.connected ≡ false
      → s.0.connecting ≡ false
      → (let t = open_connection config client (opening s) in
          connect config client s ≡ (t.0, (record t.1.0 { connecting = false }, t.1.1)))
  unfolding connect
  connect-opens s off idle = rw (off, connect, idle) refl

  -- what a connection that succeeded did to the loop's bus
  connected-from :
      (s : Bus P W)
      → s.0.connected ≡ false
      → s.0.connecting ≡ false
      → (connect config client s).0 ≡ ok tt
      → (s3 : Bus P W) × (s3.0.handlers ≡ s.0.handlers)
        × (s3.0.consumer ≡ some [])
        × (s3.0.subscribed_topics ≡ s.0.subscribed_topics)
        × (let s4 = subscribe_topics config client (keys s3.0.handlers) s3 in
            let b = (connect config client s).1.0 in
            (s4.0 ≡ ok tt)
            × (b.connected ≡ true)
            × (b.handlers ≡ s4.1.0.handlers)
            × (b.consumer ≡ s4.1.0.consumer)
            × (b.subscribed_topics ≡ s4.1.0.subscribed_topics))
  connected-from s off idle done =
      let opens = connect-opens s off idle in
      let opened = ap (λ (x : Result (Unit {0}) × Bus P W). x.0) (sym opens) ∙ done in
      let (s3, hs, kept, same, finishes) = open_connection-provisioned (opening s) opened in
      let ended =
        finish_connection-done s3
          (ap (λ (x : Result (Unit {0}) × Bus P W). x.0) (sym finishes) ∙ opened) in
      (
        s3,
        hs,
        kept,
        same,
        (
          ended.0,
          ground (arith, opens, finishes, ended),
          ground (arith, opens, finishes, ended),
          ground (arith, opens, finishes, ended),
          ground (arith, opens, finishes, ended),
        ),
      )

  -- The first connection of a bus, when it succeeds, leaves a consumer that listens to the topic
  -- of every event name that has a handler.
  pub connect-IsListening :
      (s : Bus P W)
      → s.0.connected ≡ false
      → s.0.connecting ≡ false
      → s.0.subscribed_topics ≡ []
      → (connect config client s).0 ≡ ok tt
      → (let b = (connect config client s).1.0 in
          (b.connected ≡ true) × IsListening config b × IsTracked b)
  unfolding IsGrown
  connect-IsListening s off idle fresh done =
      let (s3, hs, kept, same, (looped, up, hs', kept', same')) = connected-from s off idle done in
      let names = keys s3.0.handlers in
      let s4 = subscribe_topics config client names s3 in
      let (same_handlers, more, tracked) = subscribe_topics-IsGrown config client names s3 in
      let known = subscribe_topics-AreKnown config client names s3 looped in
      let follows = tracked (λ topic has. absurd (ground (arith, has, same, fresh))) in
      (
        up,
        (λ name has. ground (
          arith,
          kept',
          follows (topic_name config name),
          known_at config client names s4.1 name known
              (keys-get s3.0.handlers name (ground (arith, has, hs', same_handlers))),
        )),
        (λ topic has. ground (arith, same', kept', has, follows topic)),
      )

  subscribe_topics-known :
      (names : List String) (s : Bus P W)
      → AreKnown config client names s
      → subscribe_topics config client names s ≡ (ok tt, s)
  unfolding subscribe_topics AreKnown
  subscribe_topics-known [] s all = refl
  subscribe_topics-known (name ∷ names) s all =
      subscribe-known config client name names s all.0 ∙ subscribe_topics-known names s all.1

  -- A connection on a bus that has the topics of all its handlers down as subscribed, as an
  -- earlier connection that failed behind its loop leaves them, subscribes the new consumer to
  -- nothing: when it succeeds, the bus is connected, and its handlers are never called.
  pub reconnect_deaf :
      (s : Bus P W)
      → s.0.connected ≡ false
      → s.0.connecting ≡ false
      → All
          (λ name. contains s.0.subscribed_topics (topic_name config name) ≡ true)
          (keys s.0.handlers)
      → (connect config client s).0 ≡ ok tt
      → ((connect config client s).1.0.connected ≡ true)
        × ((connect config client s).1.0.consumer ≡ some [])
  unfolding AreKnown
  reconnect_deaf s off idle all done =
      let (s3, hs, kept, same, (looped, up, hs', kept', same')) = connected-from s off idle done in
      let names = keys s3.0.handlers in
      let known =
        subst
          (λ (t : Map (List (Handler W (Event P))) × List String).
            All (λ name. contains t.1 (topic_name config name) ≡ true) (keys t.0))
          (ap (λ h. (h, s.0.subscribed_topics)) (sym hs)
            ∙ ap (λ ts. (s3.0.handlers, ts)) (sym same))
          all in
      (
        up,
        kept'
            ∙ ap (λ (x : Result (Unit {0}) × Bus P W). x.1.0.consumer)
                (subscribe_topics-known names s3 known)
            ∙ kept,
      )
