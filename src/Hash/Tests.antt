-- ===== src/Hash/Tests.antt =====
-- Published values of the hash, and its range at a concrete key.
use noddde.Base.{◌≡◌, refl, [], ◌∷◌}
use noddde.Hash.{
  fnv1a64, hash_from, fnv_offset_basis, to_signed, to_unsigned, IsInt64, fnv1a64-IsInt64,
}

-- the texts "" and "a"
empty_test : to_unsigned (fnv1a64 []) ≡ 0xcbf29ce484222325
unfolding fnv1a64 hash_from to_signed
empty_test = refl

a_test : to_unsigned (fnv1a64 (97 ∷ [])) ≡ 0xaf63dc4c8601ec8c
unfolding fnv1a64 hash_from to_signed
a_test = refl

fnv1a64-IsInt64_test :
    IsInt64 (fnv1a64 (65 ∷ 58 ∷ 49 ∷ []))
    × (to_unsigned (fnv1a64 (65 ∷ 58 ∷ 49 ∷ [])) ≡ hash_from fnv_offset_basis (65 ∷ 58 ∷ 49 ∷ []))
fnv1a64-IsInt64_test = fnv1a64-IsInt64 (65 ∷ 58 ∷ 49 ∷ [])
