-- ===== src/Nats/Connection.antt =====
-- What connecting leaves: which event names are heard, and a connection that failed on its way.
use noddde.Base.{
  ◌+◌, ◌<◌, String, ◌≡◌, refl, sym, ap, ◌⊎◌, inl, inr, List, [], ◌∷◌, ◌++◌, append_assoc,
  append-nil, true, false, length, length-append, arith, subst,
}
use noddde.Result.{Error, Result, ok, err, Result-cases}
use noddde.Map.{keys}
use noddde.Broker.{on_world}
use noddde.Nats.{
  Client, Config, Bus, NatsEventBus, create_subscription_for_event, activate_names,
  activate_subscriptions, ensure_stream, connect, note_subscribed, subscription_for,
  settle_subscription,
}

module _ {P W : Type 0} (config : Config) (client : Client W) (sanitize : String → String) where
  -- what the loop over the event names leaves: all of them heard, or fewer
  abbrev pub Activates : List String → NatsEventBus P W → Result (Unit {0}) × Bus P W → Type 0
  Activates names b t =
      (t.1.0.connected ≡ b.connected)
      × (t.1.0.handlers ≡ b.handlers)
      × (((t.0 ≡ ok tt) × (t.1.0.subscriptions ≡ b.subscriptions ++ names))
          ⊎ ((e : Error) × (t.0 ≡ err e)
              × (length t.1.0.subscriptions < length b.subscriptions + length names)))

  note_subscribed-keeps :
      (name : String) (s : Bus P W)
      → (let b = (note_subscribed config client sanitize name s).0 in
          (b.connected ≡ s.0.connected)
          × (b.handlers ≡ s.0.handlers)
          × (b.js ≡ s.0.js)
          × (b.subscriptions ≡ s.0.subscriptions))
  unfolding note_subscribed
  note_subscribed-keeps name s = (ground arith, ground arith, ground arith, ground arith)

  create_subscription-outcome :
      (name : String) (s : Bus P W)
      → s.0.js ≡ true
      → (let t =
            create_subscription_for_event config client sanitize name true
              (note_subscribed config client sanitize name s) in
          (t.1.0.connected ≡ s.0.connected)
          × (t.1.0.handlers ≡ s.0.handlers)
          × (t.1.0.js ≡ true)
          × (((t.0 ≡ ok tt) × (t.1.0.subscriptions ≡ s.0.subscriptions ++ name ∷ []))
              ⊎ ((e : Error) × (t.0 ≡ err e) × (t.1.0.subscriptions ≡ s.0.subscriptions))))
  unfolding create_subscription_for_event settle_subscription
  create_subscription-outcome name s up =
      let s1 = note_subscribed config client sanitize name s in
      let kept = note_subscribed-keeps name s in
      elim (Result-cases (client.subscribe (subscription_for config sanitize name) s1.1).0) [
        | inl (e, refused) ↦ (
          ground (arith, kept, up, refused),
          ground (arith, kept, up, refused),
          ground (arith, kept, up, refused),
          inr (e, ground (arith, kept, up, refused), ground (arith, kept, up, refused)),
        )
        | inr (u, taken) ↦ (
          ground (arith, kept, up, taken),
          ground (arith, kept, up, taken),
          ground (arith, kept, up, taken),
          inl (ground (arith, kept, up, taken), ground (arith, kept, up, taken)),
        )
      ]

  activate_names-Activates :
      (names : List String) (s : Bus P W)
      → s.0.js ≡ true
      → Activates names s.0 (activate_names config client sanitize names s)
  unfolding activate_names
  activate_names-Activates [] s up = (refl, refl, inl (refl, sym (append-nil s.0.subscriptions)))
  activate_names-Activates (name ∷ names) s up =
      let t =
        create_subscription_for_event config client sanitize name true
          (note_subscribed config client sanitize name s) in
      let (c, h, up', first) = create_subscription-outcome name s up in
      elim first [
        | inr (e, failed, same) ↦ (
          ground (arith, failed, c),
          ground (arith, failed, h),
          inr (e, ground (arith, failed), ground (arith, failed, ap length same)),
        )
        | inl (done, more) ↦
            let (c', h', rest) = activate_names-Activates names t.1 up' in
            (
              ground (arith, done, c, c'),
              ground (arith, done, h, h'),
              elim rest [
                | inl (done', all) ↦ inl (
                  ground (arith, done, done'),
                  ground (arith, done, all, more, append_assoc s.0.subscriptions (name ∷ []) names),
                )
                | inr (e, failed, fewer) ↦ inr (
                  e,
                  ground (arith, done, failed),
                  ground (
                    arith,
                    done,
                    fewer,
                    ap length more,
                    length-append s.0.subscriptions (name ∷ []),
                  ),
                )
              ],
            )
      ]

  -- the bus behind a connection that the server took
  abbrev joined : Bus P W → Bus P W
  joined s =
      let s1 = (on_world client.connect s).1 in
      (record s1.0 { nc = true; js = true; connected = true }, s1.1)

  abbrev with_stream : Bus P W → Bus P W
  with_stream s = ((joined s).0, (ensure_stream config client (joined s).1).1)

  connect-refused :
      (s : Bus P W) (e : Error)
      → s.0.connected ≡ false
      → (client.connect s.1).0 ≡ ok tt
      → (ensure_stream config client (joined s).1).0 ≡ err e
      → connect config client sanitize s ≡ (err e, with_stream s)
  unfolding connect
  connect-refused s e off made refused = ground (arith, off, made, refused)

  connect-activates :
      (s : Bus P W)
      → s.0.connected ≡ false
      → (client.connect s.1).0 ≡ ok tt
      → (ensure_stream config client (joined s).1).0 ≡ ok tt
      → connect config client sanitize s
        ≡ activate_names config client sanitize (keys s.0.handlers) (with_stream s)
  unfolding connect activate_subscriptions
  connect-activates s off made found = ground (arith, off, made, found)

  -- What the first connection of a bus leaves, once the server has taken it.
  abbrev pub IsJoined : Result (Unit {0}) × Bus P W → Type 0
  IsJoined t =
      (t.1.0.connected ≡ true)
      × (((t.0 ≡ ok tt) × (t.1.0.subscriptions ≡ keys t.1.0.handlers))
          ⊎ ((e : Error) × (t.0 ≡ err e)
              × (length t.1.0.subscriptions < length (keys t.1.0.handlers))
              × (connect config client sanitize t.1 ≡ (ok tt, t.1))))

  reconnects : (s : Bus P W) → s.0.connected ≡ true → connect config client sanitize s ≡ (ok tt, s)
  unfolding connect
  reconnects s on_line = ground (arith, on_line)

  -- The first connection of a bus that has handlers: once the server has taken it, either the bus
  -- hears every event name that has a handler, or the call rejects and fewer are heard; the bus is
  -- connected in both cases, and a second call then succeeds at once and changes nothing.
  pub connect-IsJoined :
      (s : Bus P W)
      → s.0.connected ≡ false
      → s.0.subscriptions ≡ []
      → 0 < length (keys s.0.handlers)
      → (client.connect s.1).0 ≡ ok tt
      → IsJoined (connect config client sanitize s)
  connect-IsJoined s off fresh some_name made =
      elim (Result-cases (ensure_stream config client (joined s).1).0) [
        | inl (e, refused) ↦
            let behind : IsJoined (err e, with_stream s) = (
              refl,
              inr (
                e,
                refl,
                ground (arith, ap length fresh, some_name),
                reconnects (with_stream s) refl,
              ),
            ) in
            subst (λ t. IsJoined t) (sym (connect-refused s e off made refused)) behind
        | inr (u, found) ↦
            let t = activate_names config client sanitize (keys s.0.handlers) (with_stream s) in
            let (c, h, rest) = activate_names-Activates (keys s.0.handlers) (with_stream s) refl in
            let behind : IsJoined t = (
              c,
              elim rest [
                | inl (done, all) ↦ inl (done, ground (arith, all, fresh, ap keys h))
                | inr (e, failed, fewer) ↦
                    inr (
                      e,
                      failed,
                      ground (arith, fewer, ap length fresh, ap keys h),
                      reconnects t.1 c,
                    )
              ],
            ) in
            subst (λ t. IsJoined t) (sym (connect-activates s off made found)) behind
      ]
