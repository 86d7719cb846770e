-- ===== src/Nats/Subjects.antt =====
-- Which subjects the stream of the bus takes, and how long a message is put off.
use Prim.Native.Nat.{◌-◌}
use Prim.Native.String.{◌++◌ as join}
use text.Mathlib.Text.{starts_with}
use text.Mathlib.TextLemmas.{append_assoc, append_cancel_left}
use text.Mathlib.TextEquality.{starts_with_iff}
use text.Mathlib.TextPositions.{starts_with-append}
use native.Mathlib.Nat.{pow-le-pow_right}
use noddde.Base.{
  ℕ, ◌≤◌, String, ◌≡◌, sym, ap, ◌∙◌, inl, inr, some, Bool, ◌||◌, or_default, arith, Bool-cases,
  if◌then◌else◌,
}
use noddde.Nats.{Config, ends_with_dot, normalized, subject_for}
use noddde.Nats.Consumer.{compute_nak_delay_ms}

-- A text in front of both is in the way of nothing.
starts_with-join : (p s t : String) → starts_with (join p s) (join p t) ≡ starts_with s t
starts_with-join p s t = elim (Bool-cases (starts_with s t)) [
  | inl yes_it_does ↦
      let (u, same) = (starts_with_iff s t).0 yes_it_does in
      (starts_with_iff (join p s) (join p t)).1 (u, append_assoc p t u ∙ ap (join p) same)
      ∙ sym yes_it_does
  | inr not_so ↦ elim (Bool-cases (starts_with (join p s) (join p t))) [
    | inl yes_it_does ↦
        let (u, same) = (starts_with_iff (join p s) (join p t)).0 yes_it_does in
        absurd (
          ground (
            arith,
            not_so,
            (starts_with_iff s t).1
                (u, append_cancel_left p (join t u) s (sym (append_assoc p t u) ∙ same)),
          ))
    | inr neither ↦ neither ∙ sym not_so
  ]
]

-- The subjects that the stream of `>` behind a prefix takes: those that begin with the prefix.
abbrev pub takes : String → String → Bool
takes prefix subject = starts_with subject prefix

-- The stream takes the events of a name exactly if the prefix ends with a dot, or the name
-- begins with one: the dot that the stream's subject gets is missing in the events' subjects.
pub stream-takes :
    (config : Config) (prefix name : String)
    → config.subject_prefix ≡ some prefix
    → takes (normalized prefix) (subject_for config name)
      ≡ (ends_with_dot prefix || starts_with name ".")
unfolding normalized subject_for
stream-takes config prefix name set =
    let subject : subject_for config name ≡ join prefix name =
      ap (λ o. join (or_default o "") name) set in
    let shape = λ (b : Bool). if b then prefix else join prefix "." in
    elim (Bool-cases (ends_with_dot prefix)) [
      | inl dot ↦
          ap (λ b. takes (shape b) (subject_for config name)) dot
          ∙ ap (takes prefix) subject
          ∙ starts_with-append prefix name
          ∙ sym (ap (λ b. b || starts_with name ".") dot)
      | inr bare ↦
          ap (λ b. takes (shape b) (subject_for config name)) bare
          ∙ ap (takes (join prefix ".")) subject
          ∙ starts_with-join prefix name "."
          ∙ sym (ap (λ b. b || starts_with name ".") bare)
    ]

-- A message is put off for at least the base delay and at most the longest one, and not for less
-- than at a delivery before.
pub compute_nak_delay_ms-bounds :
    (earlier later : ℕ)
    → earlier ≤ later
    → (500 ≤ compute_nak_delay_ms earlier)
      × (compute_nak_delay_ms earlier ≤ compute_nak_delay_ms later)
      × (compute_nak_delay_ms later ≤ 30000)
unfolding compute_nak_delay_ms
compute_nak_delay_ms-bounds earlier later le =
    let grows =
      pow-le-pow_right {n = 2} (omega arith) {i = earlier - 1} {j = later - 1} (omega arith) in
    let pos = pow-le-pow_right {n = 2} (omega arith) {i = 0} {j = earlier - 1} (omega arith) in
    (omega (arith, pos), omega (arith, grows), omega arith)
