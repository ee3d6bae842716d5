-- ===== src/Prelude/Text/Order.antt =====
-- Go's order on strings, sort.Strings and sets of strings kept as lists.
use Prim.Native.Char.{code}
use Prim.Native.String.{String}
use mathlib.Core.Path.{◌≡◌, refl, ◌∙◌}
use mathlib.Core.Logic.{inl, inr}
use mathlib.Core.Bool.{Bool, true, false, ◌||◌}
use mathlib.Core.List.{List, [], ◌∷◌}
use native.Mathlib.Omega.{arith}
use text.Mathlib.Text.{◌==◌}
use text.Mathlib.TextEquality.{eq_iff, Char-path}
use musecat_backend_core.Prelude.Tests.{ltb, if◌then◌else◌, Bool-cases, ◌==◌ as nat_eq}
use musecat_backend_core.Prelude.Lists.{any}

-- `a < b` on strings: by code points, which is the order of their UTF-8 bytes
unfoldable pub text_lt : String → String → Bool
text_lt String.[] String.[] = false
text_lt String.[] (String.◌∷◌ d t) = true
text_lt (String.◌∷◌ c s) String.[] = false
text_lt (String.◌∷◌ c s) (String.◌∷◌ d t) =
    let rest = text_lt s t in
    if ltb (code c) (code d) then true else if nat_eq (code c) (code d) then rest else false

pub text_lt_asym : (a b : String) → text_lt a b ≡ true → text_lt b a ≡ false
unfolding text_lt
text_lt_asym String.[] String.[] h = refl
text_lt_asym String.[] (String.◌∷◌ d t) h = refl
text_lt_asym (String.◌∷◌ c s) String.[] h = cc
text_lt_asym (String.◌∷◌ c s) (String.◌∷◌ d t) h = ground (arith, text_lt_asym s t)

pub text_lt_total : (a b : String) → text_lt a b ≡ false → text_lt b a ≡ false → a ≡ b
unfolding text_lt
text_lt_total String.[] String.[] h h' = refl
text_lt_total String.[] (String.◌∷◌ d t) h h' = absurd (ground arith)
text_lt_total (String.◌∷◌ c s) String.[] h h' = absurd (ground arith)
text_lt_total (String.◌∷◌ c s) (String.◌∷◌ d t) h h' =
    let first : c ≡ d = Char-path c d (ground arith) in
    let rest : s ≡ t = text_lt_total s t (ground arith) (ground arith) in
    λ i. String.◌∷◌ (first i) (rest i)

unfoldable pub insert_text : String → List String → List String
insert_text x [] = x ∷ []
insert_text x (y ∷ ys) = let rest = insert_text x ys in if text_lt y x then y ∷ rest else x ∷ y ∷ ys

-- sort.Strings
unfoldable pub sort_strings : List String → List String
sort_strings [] = []
sort_strings (x ∷ xs) = insert_text x (sort_strings xs)

-- each text is not below the one before it
abbrev pub IsSorted : List String → Type 0
IsSorted [] = Unit
IsSorted (x ∷ []) = Unit
IsSorted (x ∷ y ∷ ys) = (text_lt y x ≡ false) × IsSorted (y ∷ ys)

insert_text-IsSorted : (x : String) (ys : List String) → IsSorted ys → IsSorted (insert_text x ys)
unfolding insert_text
insert_text-IsSorted x [] h = tt
insert_text-IsSorted x (y ∷ []) h = elim (Bool-cases (text_lt y x)) [
  | inl e ↦ rw e (text_lt_asym y x e, tt)
  | inr e ↦ rw e (e, tt)
]
insert_text-IsSorted x (y ∷ z ∷ zs) h =
    let ih = insert_text-IsSorted x (z ∷ zs) h.1 in
    elim (Bool-cases (text_lt y x)) [
      | inl e ↦ elim (Bool-cases (text_lt z x)) [
        | inl f ↦ rw e (rw f (h.0, rw f at ih))
        | inr f ↦ rw e (rw f (text_lt_asym y x e, rw f at ih))
      ]
      | inr e ↦ rw e (e, h)
    ]

pub sort_strings-IsSorted : (xs : List String) → IsSorted (sort_strings xs)
unfolding sort_strings
sort_strings-IsSorted [] = tt
sort_strings-IsSorted (x ∷ xs) = insert_text-IsSorted x (sort_strings xs) (sort_strings-IsSorted xs)

insert_text_first : (x : String) (ys : List String) → IsSorted (x ∷ ys) → insert_text x ys ≡ x ∷ ys
unfolding insert_text
insert_text_first x [] h = refl
insert_text_first x (y ∷ ys) h = rw h.0

IsSorted-tail : (x : String) (ys : List String) → IsSorted (x ∷ ys) → IsSorted ys
IsSorted-tail x [] h = tt
IsSorted-tail x (y ∷ ys) h = h.1

pub sort_strings_of_IsSorted : (xs : List String) → IsSorted xs → sort_strings xs ≡ xs
unfolding sort_strings
sort_strings_of_IsSorted [] h = refl
sort_strings_of_IsSorted (x ∷ xs) h =
    rw (sort_strings_of_IsSorted xs (IsSorted-tail x xs h)) (insert_text_first x xs h)

-- a key of a `map[string]struct{}`
abbrev pub has : String → List String → Bool
has x = any (λ y. y == x)

-- no text stands twice
abbrev pub Distinct : List String → Type 0
Distinct [] = Unit
Distinct (x ∷ xs) = (has x xs ≡ false) × Distinct xs

has-insert : (x y : String) (ys : List String) → has x (insert_text y ys) ≡ ((y == x) || has x ys)
unfolding insert_text
has-insert x y [] = refl
has-insert x y (z ∷ zs) = ground (arith, has-insert x y zs)

pub has-sort : (x : String) (xs : List String) → has x (sort_strings xs) ≡ has x xs
unfolding sort_strings
has-sort x [] = refl
has-sort x (y ∷ ys) = ground (arith, has-insert x y (sort_strings ys), has-sort x ys)

insert-Distinct :
    (y : String) (ys : List String) → has y ys ≡ false → Distinct ys → Distinct (insert_text y ys)
unfolding insert_text
insert-Distinct y [] h d = (h, tt)
insert-Distinct y (z ∷ zs) h d =
    ground (arith, insert-Distinct y zs, has-insert z y zs, eq_iff y z, eq_iff z y)

pub sort-Distinct : (xs : List String) → Distinct xs → Distinct (sort_strings xs)
unfolding sort_strings
sort-Distinct [] d = tt
sort-Distinct (x ∷ xs) d =
    insert-Distinct x (sort_strings xs) (has-sort x xs ∙ d.0) (sort-Distinct xs d.1)

-- Sorting two texts forgets their order.
pub sort_two_comm : (a b : String) → sort_strings (a ∷ b ∷ []) ≡ sort_strings (b ∷ a ∷ [])
unfolding sort_strings insert_text
sort_two_comm a b = elim (Bool-cases (text_lt b a)) [
  | inl e ↦ rw (e, text_lt_asym b a e) refl
  | inr e ↦ elim (Bool-cases (text_lt a b)) [
    | inl e' ↦ rw (e, e') refl
    | inr e' ↦ rw (text_lt_total a b e' e) refl
  ]
]
