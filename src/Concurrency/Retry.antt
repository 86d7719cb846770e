-- ===== src/Concurrency/Retry.antt =====
-- How often an optimistic attempt runs, and which outcome comes back. The world is the number of
-- attempts made, and `outcomes` is what each of them settles to.
use noddde.Base.{
  ℕ, zero, suc, ◌+◌, ◌≤◌, ◌<◌, ◌≡◌, ◌∙◌, ◌⊎◌, inl, inr, Bool, true, false, arith, Bool-cases,
}
use noddde.Result.{Result, ok, err}
use noddde.UnitOfWork.{Action}
use noddde.Concurrency.{is_conflict, retry_loop, execute_optimistic}

abbrev pub attempt_of : {A : Type 0} → (ℕ → Result A) → Action ℕ A
attempt_of outcomes n = (outcomes n, suc n)

abbrev pub conflicts : {A : Type 0} → Result A → Bool
conflicts (ok a) = false
conflicts (err e) = is_conflict e

module _ {A : Type 0} (outcomes : ℕ → Result A) where
  -- The attempt numbered `k` is the one whose outcome is returned: every one before it, from
  -- `start` on, was a conflict, and it is the last allowed or no conflict.
  pub record Decides (start max k : ℕ) : Type 0 where
    pub from : start ≤ k
    pub within : k ≤ max
    pub earlier : (j : ℕ) → start ≤ j → j < k → conflicts (outcomes j) ≡ true
    pub final : (k ≡ max) ⊎ (conflicts (outcomes k) ≡ false)

  again-eq :
      (rounds i max : ℕ)
      → conflicts (outcomes i) ≡ true
      → i < max
      → retry_loop (suc rounds) i max (attempt_of outcomes) i
        ≡ retry_loop rounds (suc i) max (attempt_of outcomes) (suc i)
  unfolding retry_loop
  again-eq rounds i max c h = ground arith

  stop-eq :
      (rounds i max : ℕ)
      → ((i ≡ max) ⊎ (conflicts (outcomes i) ≡ false))
      → retry_loop (suc rounds) i max (attempt_of outcomes) i ≡ (outcomes i, suc i)
  unfolding retry_loop
  stop-eq rounds i max h = ground arith

  Decides-here :
      (i max : ℕ) → i ≤ max → ((i ≡ max) ⊎ (conflicts (outcomes i) ≡ false)) → Decides i max i
  Decides-here i max le h = record {
    from = omega arith;
    within = le;
    earlier = λ j a b. absurd (omega arith);
    final = h;
  }

  Decides-later :
      (i max k : ℕ) → conflicts (outcomes i) ≡ true → Decides (suc i) max k → Decides i max k
  Decides-later i max k c d = record {
    from = omega (arith, d.from);
    within = d.within;
    earlier = λ j a b. elim (le_split i j a) [ inl e ↦ rw (← e) c | inr l ↦ d.earlier j l b ];
    final = d.final;
  }
    where
      le_split : (a b : ℕ) → a ≤ b → (a ≡ b) ⊎ (suc a ≤ b)
      le_split a b h = grind arith

  retry_loop-Decides :
      (rounds i max : ℕ)
      → i + suc rounds ≡ suc max
      → (k : ℕ) × Decides i max k
        × (retry_loop (suc rounds) i max (attempt_of outcomes) i ≡ (outcomes k, suc k))
  retry_loop-Decides zero i max h =
      let last : i ≡ max = omega arith in
      (i, Decides-here i max (omega arith) (inl last), stop-eq zero i max (inl last))
  retry_loop-Decides (suc rounds) i max h = elim (Bool-cases (conflicts (outcomes i))) [
    | inl c ↦
        let (k, d, e) = retry_loop-Decides rounds (suc i) max (omega arith) in
        (k, Decides-later i max k c d, again-eq (suc rounds) i max c (omega arith) ∙ e)
    | inr c ↦ (i, Decides-here i max (omega arith) (inr c), stop-eq (suc rounds) i max (inr c))
  ]

  -- Some attempt with a number up to the retry limit decides: all before it were conflicts, its
  -- own outcome is returned as it is, and no attempt is made after it. So the error behind the
  -- loop is never reached.
  pub execute_optimistic-Decides :
      (max : ℕ)
      → (k : ℕ) × Decides 0 max k
        × (execute_optimistic max (attempt_of outcomes) 0 ≡ (outcomes k, suc k))
  unfolding execute_optimistic
  execute_optimistic-Decides max = retry_loop-Decides max 0 max (omega arith)
