-- ===== src/RabbitMq/Connections.antt =====
-- What connecting leaves: how many connections are open, and which queues are consumed.
use noddde.Base.{
  ℕ, zero, suc, ◌+◌, ◌≡◌, refl, sym, ◌∙◌, ◌⊎◌, inl, inr, Option, none, some, true, false,
  or_default, arith, Bool-cases, subst,
}
use noddde.Result.{Error, Result, ok, err, thrown, Result-cases}
use noddde.Map.{keys}
use noddde.Broker.{on_world}
use noddde.UnitOfWork.{Op}
use noddde.RabbitMq.{Client, Config, Bus, exchange_name_of, exchange_type_of}
use noddde.RabbitMq.Connecting.{
  Runtime, open_channel, connect_once, connect_loop, connect, reconnect_once, reconnect_on, backoff,
  declare_exchange, is_mismatch_error, settle_open, settle_connect, rethrow_mismatch, pause,
}
use noddde.RabbitMq.Channels.{open_channel-Leads}
use noddde.RabbitMq.Counting.{IsCounted, open_channel-keeps}

module _ {P W : Type 0} (config : Config) (client : Client W) (runtime : Runtime) (opened : W → ℕ)
    (laws : IsCounted opened client) where
  -- what a settled attempt to connect leaves, where `n` connections were open before it
  abbrev pub IsConnection : ℕ → Result (Unit {0}) × Bus P W → Type 0
  IsConnection n t =
      ((t.0 ≡ ok tt)
        × (t.1.0.connected ≡ true)
        × (t.1.0.connection ≡ true)
        × (t.1.0.channel ≡ some (keys t.1.0.handlers))
        × (opened t.1.1 ≡ suc n))
      ⊎ ((e : Error) × (t.0 ≡ err e)
          × (t.1.0.connected ≡ false)
          × (t.1.0.connection ≡ false)
          × (t.1.0.channel ≡ none)
          × (opened t.1.1 ≡ n))

  abbrev made_connection : Bus P W → Bus P W
  made_connection s =
      let s1 = (on_world client.connect s).1 in (record s1.0 { connection = true }, s1.1)

  abbrev checked_exchange : Op (Bus P W)
  checked_exchange t =
      rethrow_mismatch config client runtime (declare_exchange config client runtime t)

  checked_exchange-keeps :
      (t : Bus P W)
      → ((checked_exchange t).1.0 ≡ t.0) × (opened (checked_exchange t).1.1 ≡ opened t.1)
  unfolding rethrow_mismatch
  checked_exchange-keeps t =
      let kept = laws.keeps_exchange (exchange_name_of config) (exchange_type_of config) t.1 in
      (ground arith, ground (arith, kept))

  opened-IsConnection :
      (s : Bus P W)
      → s.0.connected ≡ false
      → (client.connect s.1).0 ≡ ok tt
      → IsConnection (opened s.1) (
          settle_open config client runtime
            (open_channel config client runtime checked_exchange (made_connection s)))
  unfolding settle_open
  opened-IsConnection s off made =
      let s1 = made_connection s in
      let t = open_channel config client runtime checked_exchange s1 in
      let count =
        open_channel-keeps config client runtime opened laws checked_exchange s1
          (λ u. (checked_exchange-keeps u).1)
        ∙ laws.connect_ok s.1 made in
      elim (open_channel-Leads config client runtime checked_exchange s1
        (λ u. (checked_exchange-keeps u).0)) [
          | inl (done, b) ↦ inl (
            ground (arith, done),
            ground (arith, done, b),
            ground (arith, done, b),
            ground (arith, done, b),
            ground (arith, done, count),
          )
          | inr (e, failed, same) ↦ inr (
            e,
            ground (arith, failed),
            ground (arith, failed, same, off),
            ground (arith, failed),
            ground (arith, failed),
            ground (arith, failed, laws.closes t.1.1 (opened s.1) count),
          )
        ]

  connect_once-IsConnection :
      (s : Bus P W)
      → s.0.connected ≡ false
      → IsConnection (opened s.1) (connect_once config client runtime s)
  unfolding connect_once settle_connect
  connect_once-IsConnection s off = elim (Result-cases (client.connect s.1).0) [
    | inl (e, refused) ↦ inr (
      e,
      ground (arith, refused),
      ground (arith, refused, off),
      ground (arith, refused),
      ground (arith, refused),
      ground (arith, refused, laws.connect_err s.1 e refused),
    )
    | inr (u, made) ↦ rw made (opened-IsConnection s off made)
  ]

  pause-keeps :
      (left attempt : ℕ) (s : Bus P W)
      → ((pause config client runtime left attempt s).0 ≡ s.0)
        × (opened (pause config client runtime left attempt s).1 ≡ opened s.1)
  unfolding pause
  pause-keeps zero attempt s = (refl, refl)
  pause-keeps (suc left) attempt s = (refl, laws.keeps_sleep (backoff config attempt) s.1)

  connect_loop-ok :
      (left attempt : ℕ) (last : Option Error) (s : Bus P W)
      → (connect_once config client runtime s).0 ≡ ok tt
      → connect_loop config client runtime (suc left) attempt last s
        ≡ connect_once config client runtime s
  unfolding connect_loop
  connect_loop-ok left attempt last s done = ground (arith, done)

  connect_loop-final :
      (left attempt : ℕ) (last : Option Error) (s : Bus P W) (e : Error)
      → (connect_once config client runtime s).0 ≡ err e
      → is_mismatch_error e ≡ true
      → connect_loop config client runtime (suc left) attempt last s
        ≡ connect_once config client runtime s
  unfolding connect_loop
  connect_loop-final left attempt last s e failed final = ground (arith, failed, final)

  connect_loop-again :
      (left attempt : ℕ) (last : Option Error) (s : Bus P W) (e : Error)
      → (connect_once config client runtime s).0 ≡ err e
      → is_mismatch_error e ≡ false
      → connect_loop config client runtime (suc left) attempt last s
        ≡ connect_loop config client runtime left
            (attempt + 1)
            (some e)
            (pause config client runtime left attempt (connect_once config client runtime s).1)
  unfolding connect_loop
  connect_loop-again left attempt last s e failed other = ground (arith, failed, other)

  connect_loop-IsConnection :
      (left attempt : ℕ) (last : Option Error) (s : Bus P W)
      → s.0.connected ≡ false
      → s.0.connection ≡ false
      → s.0.channel ≡ none
      → IsConnection (opened s.1) (connect_loop config client runtime left attempt last s)
  unfolding connect_loop
  connect_loop-IsConnection zero attempt last s off alone idle =
      inr (or_default last (thrown "undefined"), refl, off, alone, idle, refl)
  connect_loop-IsConnection (suc left) attempt last s off alone idle =
      let n = opened s.1 in
      let t = connect_once config client runtime s in
      let once = connect_once-IsConnection s off in
      elim (connect_once-IsConnection s off) [
        | inl h ↦
            subst (λ u. IsConnection n u) (sym (connect_loop-ok left attempt last s h.0)) (inl h)
        | inr (e, failed, off', alone', idle', same) ↦ elim (Bool-cases (is_mismatch_error e)) [
          | inl final ↦
              subst (λ u. IsConnection n u)
                (sym (connect_loop-final left attempt last s e failed final))
                (inr (e, failed, off', alone', idle', same))
          | inr other ↦
              let p = pause config client runtime left attempt t.1 in
              let (still, waited) = pause-keeps left attempt t.1 in
              subst (λ u. IsConnection n u)
                (sym (connect_loop-again left attempt last s e failed other))
                (subst
                  (λ k.
                    IsConnection k
                      (connect_loop config client runtime left (attempt + 1) (some e) p))
                  (waited ∙ same)
                  (connect_loop-IsConnection left (attempt + 1) (some e) p
                    (ground (arith, still, off')) (ground (arith, still, alone'))
                    (ground (arith, still, idle'))))
        ]
      ]

  -- `connect` on a bus without a connection: when it succeeds, one connection more is open, and
  -- the channel consumes the queue of every event name that has a handler; when it rejects, every
  -- connection that an attempt opened is closed again, and the bus is as idle as before.
  pub connect-IsConnection :
      (s : Bus P W)
      → s.0.connected ≡ false
      → s.0.connection ≡ false
      → s.0.channel ≡ none
      → IsConnection (opened s.1) (connect config client runtime s)
  unfolding connect
  connect-IsConnection s off alone idle =
      let goes : connect config client runtime s
          ≡ connect_loop config client runtime (or_default config.max_attempts 3) 0 none s =
        ground (arith, off) in
      subst (λ u. IsConnection (opened s.1) u) (sym goes)
        (connect_loop-IsConnection (or_default config.max_attempts 3) 0 none s off alone idle)

  -- A round of a reconnection that makes a connection and fails behind that leaves the connection
  -- open.
  pub reconnect_leaks :
      (s : Bus P W) (e : Error)
      → (client.connect s.1).0 ≡ ok tt
      → (reconnect_once config client runtime s).0 ≡ err e
      → opened (reconnect_once config client runtime s).1.1 ≡ suc (opened s.1)
  unfolding reconnect_once reconnect_on
  reconnect_leaks s e made failed =
      let kept =
        open_channel-keeps config client runtime opened laws
          (declare_exchange config client runtime) (made_connection s)
          (λ t. laws.keeps_exchange (exchange_name_of config) (exchange_type_of config) t.1) in
      ground (arith, made, kept, laws.connect_ok s.1 made)
