-- ===== src/Map/Laws.antt =====
-- What a `Map` answers after a write, and that its keys stay distinct.
use noddde.Base.{String, ◌≡◌, refl, none, some, [], ◌∷◌, Bool, arith, ◌==◌, eq_iff, if◌then◌else◌}
use noddde.Map.{Map, get, set, delete, delete_if, update_all}
use mathlib.Core.Option

module _ {ℓ} {V : Type ℓ} where
  pub get-set :
      (m : Map V) (k j : String) (v : V) → get (set m k v) j ≡ (if k == j then some v else get m j)
  unfolding get set
  get-set [] k j v = refl
  get-set ((i, w) ∷ m) k j v = ground (arith, eq_iff k j, eq_iff i k, eq_iff i j, get-set m k j v)

  pub get-delete :
      (m : Map V) (k j : String) → get (delete m k) j ≡ (if k == j then none else get m j)
  unfolding get delete
  get-delete [] k j = ground arith
  get-delete ((i, w) ∷ m) k j = ground (arith, eq_iff k j, eq_iff i k, eq_iff i j, get-delete m k j)

  pub get-update_all :
      (f : V → V) (m : Map V) (j : String) → get (update_all f m) j ≡ Option.map f (get m j)
  unfolding get update_all
  get-update_all f [] j = refl
  get-update_all f ((i, w) ∷ m) j = ground (arith, get-update_all f m j)

  -- No key stands twice.
  abbrev pub IsMap : Map V → Type ℓ
  IsMap [] = Unit
  IsMap ((j, w) ∷ m) = (get m j ≡ none) × IsMap m

  pub set-IsMap : (m : Map V) (k : String) (v : V) → IsMap m → IsMap (set m k v)
  unfolding get set
  set-IsMap [] k v h = ground arith
  set-IsMap ((i, w) ∷ m) k v h =
      ground (arith, eq_iff i k, eq_iff k i, get-set m k i v, set-IsMap m k v h.1)

  get-delete_if-none :
      (test : V → Bool) (m : Map V) (j : String) → get m j ≡ none → get (delete_if test m) j ≡ none
  unfolding get delete_if
  get-delete_if-none test [] j h = refl
  get-delete_if-none test ((i, w) ∷ m) j h = ground (arith, get-delete_if-none test m j)

  -- A value that passes the test is gone, every other one is kept.
  pub get-delete_if :
      (test : V → Bool) (m : Map V) (j : String)
      → IsMap m
      → get (delete_if test m) j
        ≡ elim (get m j) [ none ↦ none | some v ↦ if test v then none else some v ]
  unfolding get delete_if
  get-delete_if test [] j h = refl
  get-delete_if test ((i, w) ∷ m) j h =
      ground (arith, eq_iff i j, get-delete_if test m j h.1, get-delete_if-none test m i h.0, h.0)

pub ruleset map_laws = (get-set, get-delete, get-update_all)
