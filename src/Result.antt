-- ===== src/Result.antt =====
-- What an asynchronous method settles to: a value, or one of the errors that the engine throws
-- (core/src/persistence/*-error.ts and the `throw new Error` lines of the engine).
use noddde.Base.{ℕ, String, ◌≡◌, refl, ◌⊎◌, inl, inr, arith}

pub data Error : Type 0 where
  concurrency_conflict : String → String → ℕ → ℕ → Error
  -- the same error from a database, with -1 for the version that was found
  version_conflict : String → String → ℕ → Error
  lock_timeout : String → String → ℕ → Error
  idempotency_conflict : String → Error
  uow_completed unreachable type_error domain_shutdown nested_uow no_off : Error
  no_handler handler_exists no_persistence no_view_id : String → Error
  projection_not_found strong_rebuild missing_view_store not_truncatable : String → Error
  exchange_type_mismatch : String → String → Error
  prefix_required subject_too_broad : Error
  no_event_reader bad_progress_interval no_dedup_key cursor_unsupported : Error
  -- an error of the application's own code, of a broker or of a driver
  thrown : String → Error

pub data Result {ℓ} (V : Type ℓ) : Type ℓ where
  err : Error → Result V
  ok : V → Result V

-- what stands behind an `await`: an error skips it
infixl 5 ◌>>=◌
abbrev pub ◌>>=◌ {κ ℓ} : {B : Type κ} {V : Type ℓ} → Result V → (V → Result B) → Result B
err failure >>= next = err failure
ok value >>= next = next value

infixl 5 ◌>>◌
abbrev pub ◌>>◌ {κ} : {B : Type κ} → Result (Unit {0}) → Result B → Result B
settled >> next = settled >>= (λ _. next)

pub Result-cases :
    {A : Type 0} (r : Result A) → ((e : Error) × (r ≡ err e)) ⊎ ((a : A) × (r ≡ ok a))
Result-cases (err e) = inl (e, refl)
Result-cases (ok a) = inr (a, refl)

-- When a chain succeeds, so does its first step.
pub bind-ok :
    {A B : Type 0} (r : Result A) (next : A → Result B) (b : B)
    → (r >>= next) ≡ ok b
    → (a : A) × ((r ≡ ok a) × (next a ≡ ok b))
bind-ok (err e) next b h = absurd (ground (arith, h))
bind-ok (ok a) next b h = (a, (refl, h))

pub ok-injective : {A : Type 0} (a b : A) → ok a ≡ ok b → a ≡ b
ok-injective a b e = ground (arith, e)
