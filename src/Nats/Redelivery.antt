-- ===== src/Nats/Redelivery.antt =====
-- How often a message is delivered: the server delivers it again, with a count one higher, as long
-- as it is put off.
use Prim.Native.Nat.{max}
use noddde.Base.{
  ℕ, zero, suc, ◌+◌, ◌-◌, ◌≤◌, ◌<◌, ◌≢◌, String, ◌≡◌, refl, ◌⊎◌, inl, inr, Option, none, some, leb,
  arith, Bool-cases,
}
use noddde.Result.{Result-cases}
use noddde.Nats.{Client, Config, Bus}
use noddde.Nats.Consumer.{
  Delivered, Answer, acked, poisoned, dead_lettered, delayed, Runtime, compute_nak_delay_ms,
  handle_message, consume_message,
}

abbrev pub delivered : ℕ → String → ℕ → Delivered
delivered tag content count = record { tag = tag; content = content; delivery_count = some count }

-- An answer that puts a message off names its delay.
abbrev delay_of : Answer → Option ℕ
delay_of (delayed ms) = some ms
delay_of _ = none

abbrev pub IsFinal : Answer → Type 0
IsFinal a = (ms : ℕ) → a ≢ delayed ms

final-delayed : (a : Answer) → IsFinal a → delay_of a ≡ none
final-delayed acked h = refl
final-delayed poisoned h = refl
final-delayed dead_lettered h = refl
final-delayed (delayed ms) h = absurd (h ms refl)

module _ {P W : Type 0} (config : Config) (client : Client W) (runtime : Runtime P) where
  -- how many deliveries are made from one with the given count on, and the last answer with the
  -- bus behind it; `none` is fuel that ran out
  unfoldable pub deliver : ℕ → String → ℕ → String → ℕ → Bus P W → ℕ × Option (Answer × Bus P W)
  deliver zero name tag content count s = (0, none)
  deliver (suc fuel) name tag content count s =
      let t = consume_message config client runtime name (delivered tag content count) s in
      let rest = deliver fuel name tag content (suc count) t.1 in
      elim t.0 [ delayed ms ↦ (suc rest.0, rest.1) | a ↦ (1, some (a, t.1)) ]

  handle_message-keeps :
      (name data_text : String) (s : Bus P W)
      → (handle_message config client runtime name data_text s).1.0 ≡ s.0
  unfolding handle_message
  handle_message-keeps name data_text s = ground arith

  -- one delivery: it is answered for good, or it is put off and deliveries are left
  consume-step :
      (n : ℕ) (name : String) (tag : ℕ) (content : String) (count : ℕ) (s : Bus P W)
      → config.max_retries ≡ some n
      → (let t = consume_message config client runtime name (delivered tag content count) s in
          IsFinal t.0
          ⊎ ((t.0 ≡ delayed (compute_nak_delay_ms count))
              × (count < n)
              × (t.1.0.handlers ≡ s.0.handlers)))
  unfolding consume_message
  consume-step n name tag content count s limit = elim (Result-cases (runtime.parse content)) [
    | inl (e, broken) ↦ inl (λ ms. ground (arith, broken))
    | inr (event, parsed) ↦
        let r = handle_message config client runtime name (runtime.stringify event) s in
        elim (Result-cases r.0) [
          | inr (u, done) ↦ inl (λ ms. ground (arith, parsed, done))
          | inl (e, failed) ↦ elim (Bool-cases (leb n count)) [
            | inl gone ↦ inl (λ ms. ground (arith, parsed, failed, limit, gone))
            | inr left ↦ inr (
              ground (arith, parsed, failed, limit, left),
              ground (arith, left),
              ground (
                arith,
                parsed,
                failed,
                limit,
                left,
                handle_message-keeps name (runtime.stringify event) s,
              ),
            )
          ]
        ]
  ]

  deliver-counted :
      (fuel n : ℕ) (name : String) (tag : ℕ) (content : String) (count : ℕ) (s : Bus P W)
      → config.max_retries ≡ some n
      → n - count < fuel
      → (t : Answer × Bus P W) × ((deliver fuel name tag content count s).1 ≡ some t)
        × IsFinal t.0
        × ((deliver fuel name tag content count s).0 ≤ n - count + 1)
  unfolding deliver
  deliver-counted zero n name tag content count s limit lt = absurd (omega arith)
  deliver-counted (suc fuel) n name tag content count s limit lt =
      let t = consume_message config client runtime name (delivered tag content count) s in
      elim (consume-step n name tag content count s limit) [
        | inl final ↦ (
          t,
          ground (arith, final (compute_nak_delay_ms count), final-delayed t.0 final),
          final,
          ground (arith, final-delayed t.0 final),
        )
        | inr (put_off, left, same) ↦
            let (u, ends, final, few) =
              deliver-counted fuel n name tag content (suc count) t.1 limit (omega arith) in
            (u, ground (arith, put_off, ends), final, ground (arith, put_off, few, left))
      ]

  -- With a limit, the first delivery of a message and those behind it are at most as many as the
  -- limit, and at least one; the last is answered for good, whatever the handlers do.
  pub deliver-ends :
      (fuel n : ℕ) (name : String) (tag : ℕ) (content : String) (s : Bus P W)
      → config.max_retries ≡ some n
      → max n 1 ≤ fuel
      → (t : Answer × Bus P W) × ((deliver fuel name tag content 1 s).1 ≡ some t)
        × IsFinal t.0
        × ((deliver fuel name tag content 1 s).0 ≤ max n 1)
  deliver-ends fuel n name tag content s limit enough =
      let (t, ends, final, few) = deliver-counted fuel n name tag content 1 s limit (omega arith) in
      (t, ends, final, omega (arith, few))
