-- ===== src/Map.antt =====
-- The JavaScript `Map` with string keys that every in-memory store keeps: entries in insertion
-- order, an overwrite in place. A key that stands once is removed by removing every entry of it.
pub mod Laws
use noddde.Base.{String, Option, none, some, List, [], ◌∷◌, Bool, ◌==◌, if◌then◌else◌}

abbrev pub Map {ℓ} : Type ℓ → Type ℓ
Map V = List (String × V)

module _ {ℓ} {V : Type ℓ} where
  unfoldable pub get : Map V → String → Option V
  get [] k = none
  get ((j, v) ∷ m) k = if j == k then some v else get m k

  unfoldable pub set : Map V → String → V → Map V
  set [] k v = (k, v) ∷ []
  set ((j, w) ∷ m) k v = if j == k then (j, v) ∷ m else (j, w) ∷ set m k v

  unfoldable pub delete : Map V → String → Map V
  delete [] k = []
  delete ((j, w) ∷ m) k = let rest = delete m k in if j == k then rest else (j, w) ∷ rest

  -- `for (const [key, value] of map) if (test(value)) map.delete(key)`
  unfoldable pub delete_if : (V → Bool) → Map V → Map V
  delete_if test [] = []
  delete_if test ((j, w) ∷ m) =
      let rest = delete_if test m in if test w then rest else (j, w) ∷ rest

  -- `for (const value of map.values()) value = f(value)`
  unfoldable pub update_all : (V → V) → Map V → Map V
  update_all f [] = []
  update_all f ((j, w) ∷ m) = (j, f w) ∷ update_all f m

  -- `[...map.values()]`
  unfoldable pub values : Map V → List V
  values [] = []
  values ((j, w) ∷ m) = w ∷ values m

  -- `[...map.keys()]`
  unfoldable pub keys : Map V → List String
  keys [] = []
  keys ((j, w) ∷ m) = j ∷ keys m
