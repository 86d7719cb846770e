-- ===== src/Broker/Names.antt =====
-- Which names a list holds, for the names that a bus keeps track of.
use noddde.Base.{String, ◌≡◌, List, [], ◌∷◌, ◌++◌, true, is_some, arith, eq_iff}
use noddde.Map.{Map, get, keys}
use noddde.Outbox.{contains}

pub keys-get {ℓ} :
    {V : Type ℓ} (m : Map V) (k : String) → is_some (get m k) ≡ true → contains (keys m) k ≡ true
unfolding get keys
keys-get [] k h = ground arith
keys-get ((j, v) ∷ m) k h = ground (arith, keys-get m k)

pub contains-append_left :
    (xs ys : List String) (a : String) → contains xs a ≡ true → contains (xs ++ ys) a ≡ true
contains-append_left [] ys a h = ground arith
contains-append_left (x ∷ xs) ys a h = ground (arith, contains-append_left xs ys a)

pub contains-append_right :
    (xs ys : List String) (a : String) → contains ys a ≡ true → contains (xs ++ ys) a ≡ true
contains-append_right [] ys a h = h
contains-append_right (x ∷ xs) ys a h = ground (arith, contains-append_right xs ys a h)

pub contains-here : (xs ys : List String) (a : String) → contains (xs ++ a ∷ ys) a ≡ true
contains-here [] ys a = ground (arith, eq_iff a a)
contains-here (x ∷ xs) ys a = ground (arith, contains-here xs ys a)
