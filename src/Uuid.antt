-- ===== src/Uuid.antt =====
-- The bytes of `uuidv7` of packages/engine/src/uuid.ts. The clock and the random bytes are
-- inputs; the text that is made of the bytes is left out.
mod Tests
use Prim.Native.Nat.{ℕ, zero, suc, ◌+◌, ◌*◌, ◌/◌, ◌%◌, ◌^◌, ◌<◌, bit_and, bit_or}
use mathlib.Core.Bool.{◌&&◌}
use noddde.Base.{◌≡◌, refl, List, [], ◌∷◌, Bool, true, false, eqb, arith, All, length}

-- the sixteen bytes, the random ones among them from index 6 on
pub record Bytes : Type 0 where
  pub timestamp : List ℕ
  pub byte_6 : ℕ
  pub byte_7 : ℕ
  pub byte_8 : ℕ
  pub rest : List ℕ

-- `(now / 2 ** k) & 0xff`: the mask drops the fraction and every bit above the lowest eight.
unfoldable pub timestamp_bytes : ℕ → List ℕ
timestamp_bytes now =
    (now / 0x10000000000) % 256
    ∷ (now / 0x100000000) % 256
    ∷ (now / 0x1000000) % 256
    ∷ (now / 0x10000) % 256
    ∷ (now / 0x100) % 256
    ∷ now % 256
    ∷ []

unfoldable pub uuidv7 : ℕ → Bytes → Bytes
uuidv7 now random = record random {
  timestamp = timestamp_bytes now;
  byte_6 = bit_or (bit_and random.byte_6 0x0f) 0x70;
  byte_8 = bit_or (bit_and random.byte_8 0x3f) 0x80;
}

-- a number of bytes, the highest one first
abbrev pub big_endian : ℕ → List ℕ → ℕ
big_endian n [] = n
big_endian n (b ∷ bs) = big_endian (n * 256 + b) bs

every_byte : ℕ → (ℕ → Bool) → Bool
every_byte zero p = true
every_byte (suc n) p = p n && every_byte n p

every_byte-holds : (n : ℕ) (p : ℕ → Bool) (x : ℕ) → every_byte n p ≡ true → x < n → p x ≡ true
unfolding every_byte
every_byte-holds zero p x h lt = absurd (omega arith)
every_byte-holds (suc n) p x h lt = ground (arith, every_byte-holds n p x)

version_table : every_byte 256 (λ b. eqb (bit_or (bit_and b 0x0f) 0x70 / 16) 7) ≡ true
unfolding every_byte
version_table = refl

variant_table : every_byte 256 (λ b. eqb (bit_or (bit_and b 0x3f) 0x80 / 64) 2) ≡ true
unfolding every_byte
variant_table = refl

-- For a clock below 2 ^ 48 and random bytes, the identifier begins with the clock, has the version
-- 7 in the upper half of byte 6, and the variant 10 in the upper two bits of byte 8.
pub uuidv7-IsVersion7 :
    (now : ℕ) (random : Bytes)
    → now < 0x1000000000000
    → random.byte_6 < 256
    → random.byte_8 < 256
    → (let u = uuidv7 now random in
        (big_endian 0 u.timestamp ≡ now)
        × All (λ b. b < 256) u.timestamp
        × (u.byte_6 / 16 ≡ 7)
        × (u.byte_8 / 64 ≡ 2))
unfolding uuidv7 timestamp_bytes
uuidv7-IsVersion7 now random h h6 h8 =
    let six =
      every_byte-holds 256 (λ b. eqb (bit_or (bit_and b 0x0f) 0x70 / 16) 7) random.byte_6
        version_table h6 in
    let eight =
      every_byte-holds 256 (λ b. eqb (bit_or (bit_and b 0x3f) 0x80 / 64) 2) random.byte_8
        variant_table h8 in
    (
      omega arith,
      (omega arith, (omega arith, (omega arith, (omega arith, (omega arith, (omega arith, tt)))))),
      ground (arith, six),
      ground (arith, eight),
    )
