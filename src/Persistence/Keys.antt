-- ===== src/Persistence/Keys.antt =====
-- When two aggregates share a composite key.
use Prim.Native.Char.{Char, code}
use Prim.Native.String.{[], ◌∷◌, ◌++◌ as join}
use text.Mathlib.TextLemmas.{nil-append, cons-append, append_assoc}
use noddde.Base.{String, ◌≡◌, ◌≢◌, refl, sym, ap, ◌∙◌}
use noddde.Persistence.{composite_key}

-- No ':' stands in the text.
abbrev pub NoColon : String → Type 0
NoColon [] = Unit
NoColon (c ∷ s) = (code c ≢ b':') × NoColon s

abbrev first_or : Char → String → Char
first_or d [] = d
first_or d (c ∷ s) = c

abbrev rest_of : String → String
rest_of [] = []
rest_of (c ∷ s) = s

-- What a key has behind its name.
abbrev tail_key : String → String
tail_key id = join ":" id

tail_key-cons : (id : String) → tail_key id ≡ ":" ∷ id
tail_key-cons id = cons-append ":" [] id ∙ ap (◌∷◌ ":") (nil-append id)

colon_split :
    (a b : String) (x y : String)
    → NoColon a
    → NoColon b
    → join a (":" ∷ x) ≡ join b (":" ∷ y)
    → (a ≡ b) × (x ≡ y)
colon_split [] [] x y ha hb e =
    let e' = rw (nil-append (":" ∷ x), nil-append (":" ∷ y)) at e in (refl, ap rest_of e')
colon_split [] (d ∷ b) x y ha hb e =
    let e' = rw (nil-append (":" ∷ x), cons-append d b (":" ∷ y)) at e in
    absurd (hb.0 (ap code (sym (ap (first_or d) e'))))
colon_split (c ∷ a) [] x y ha hb e =
    let e' = rw (nil-append (":" ∷ y), cons-append c a (":" ∷ x)) at e in
    absurd (ha.0 (ap code (ap (first_or c) e')))
colon_split (c ∷ a) (d ∷ b) x y ha hb e =
    let e' = rw (cons-append c a (":" ∷ x), cons-append d b (":" ∷ y)) at e in
    let (p, q) = colon_split a b x y ha.1 hb.1 (ap rest_of e') in (cc (ap (first_or c) e', p), q)

-- Aggregates whose names hold no colon have the same key only if name and id are the same.
pub composite_key-injective :
    (name name' id id' : String)
    → NoColon name
    → NoColon name'
    → composite_key name id ≡ composite_key name' id'
    → (name ≡ name') × (id ≡ id')
unfolding composite_key
composite_key-injective name name' id id' h h' e =
    colon_split name name' id id' h h' (rw (tail_key-cons id, tail_key-cons id') at e)

-- A colon in a name moves into the id: the two aggregates have one key.
pub composite_key-collides :
    (name part id : String)
    → composite_key (join name (join ":" part)) id ≡ composite_key name (join part (join ":" id))
unfolding composite_key
composite_key-collides name part id = simp append_assoc
