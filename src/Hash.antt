-- ===== src/Hash.antt =====
-- `fnv1a64` of packages/core/src/persistence/hash.ts. A text is the list of its UTF-16 code units,
-- and the 64-bit mask is written as the remainder.
mod Tests
use Prim.Native.Nat.{ℕ, suc, ◌+◌, ◌-◌, ◌*◌, ◌%◌, ◌^◌, ◌<◌, bit_xor}
use noddde.Base.{◌≡◌, refl, List, [], ◌∷◌, leb, arith, if◌then◌else◌}

-- a signed BigInt: `pos n`, or `negsuc n` for -(n + 1)
pub data ℤ : Type 0 where
  pos negsuc : ℕ → ℤ

abbrev pub fnv_offset_basis : ℕ
fnv_offset_basis = 0xcbf29ce484222325

abbrev pub fnv_prime : ℕ
fnv_prime = 0x100000001b3

unfoldable pub hash_from : ℕ → List ℕ → ℕ
hash_from hash [] = hash
hash_from hash (c ∷ key) = hash_from ((bit_xor hash c * fnv_prime) % 0x10000000000000000) key

-- the end of `fnv1a64`: the upper half of the range is moved below zero
unfoldable pub to_signed : ℕ → ℤ
to_signed hash =
    if leb 0x8000000000000000 hash then negsuc (0x10000000000000000 - hash - 1) else pos hash

unfoldable pub fnv1a64 : List ℕ → ℤ
fnv1a64 key = to_signed (hash_from fnv_offset_basis key)

-- from -(2 ^ 63) to 2 ^ 63 - 1, the range of `bigint` in PostgreSQL
abbrev pub IsInt64 : ℤ → Type 0
IsInt64 (pos n) = n < 0x8000000000000000
IsInt64 (negsuc n) = n < 0x8000000000000000

-- the 64 bits of a signed number, read without a sign
abbrev pub to_unsigned : ℤ → ℕ
to_unsigned (pos n) = n
to_unsigned (negsuc n) = 0x10000000000000000 - (n + 1)

hash_from-bound :
    (hash : ℕ) (key : List ℕ)
    → hash < 0x10000000000000000
    → hash_from hash key < 0x10000000000000000
unfolding hash_from
hash_from-bound hash [] h = h
hash_from-bound hash (c ∷ key) h =
    hash_from-bound ((bit_xor hash c * fnv_prime) % 0x10000000000000000) key (omega arith)

to_signed-fits :
    (hash : ℕ)
    → hash < 0x10000000000000000
    → IsInt64 (to_signed hash) × (to_unsigned (to_signed hash) ≡ hash)
unfolding to_signed
to_signed-fits hash h = ground arith

-- The hash of every key is a signed 64-bit number, and no bit of the unsigned hash is lost in it.
pub fnv1a64-IsInt64 :
    (key : List ℕ)
    → IsInt64 (fnv1a64 key) × (to_unsigned (fnv1a64 key) ≡ hash_from fnv_offset_basis key)
unfolding fnv1a64
fnv1a64-IsInt64 key =
    to_signed-fits (hash_from fnv_offset_basis key)
      (hash_from-bound fnv_offset_basis key (omega arith))
