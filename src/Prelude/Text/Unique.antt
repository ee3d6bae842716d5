-- ===== src/Prelude/Text/Unique.antt =====
-- The loop that uniqueGameEntryIDs (service/xp/xp.go) and uniqueStrings
-- (handlers/arcade/internal/supporter_score.go) share: trimmed, not empty, each once, sorted.
use Prim.Native.String.{String}
use mathlib.Core.Path.{◌≡◌, refl, ap, ◌∙◌}
use mathlib.Core.Logic.{inl, inr}
use mathlib.Core.Bool.{false, not, ◌&&◌, ◌||◌}
use mathlib.Core.List.{List, [], ◌∷◌, ◌++◌, append-nil, append_assoc}
use native.Mathlib.Omega.{arith}
use text.Mathlib.Text.{◌==◌}
use text.Mathlib.TextEquality.{eq_iff}
use musecat_backend_core.Prelude.Tests.{if◌then◌else◌, Bool-cases}
use musecat_backend_core.Prelude.Lists.{any, any-append, All, All-append}
use musecat_backend_core.Prelude.Text.{trim_space, trim_space_idem}
use musecat_backend_core.Prelude.Text.Order.{
  text_lt, insert_text, sort_strings, IsSorted, sort_strings-IsSorted, sort_strings_of_IsSorted,
  has, Distinct, has-sort, sort-Distinct,
}

-- one round of the loop; the keys of `seen` are the texts of `ids`
pub collect_id : List String → String → List String
collect_id ids raw =
    let id = trim_space raw in if id == "" || has id ids then ids else ids ++ id ∷ []

pub collect_ids : List String → List String → List String
collect_ids ids [] = ids
collect_ids ids (raw ∷ rest) = collect_ids (collect_id ids raw) rest

unfoldable pub unique_strings : List String → List String
unfolding collect_ids collect_id
unique_strings raws = sort_strings (collect_ids [] raws)

has-collect_id :
    (x raw : String) (ids : List String)
    → has x (collect_id ids raw) ≡ (has x ids || (not (x == "") && trim_space raw == x))
unfolding collect_id
has-collect_id x raw ids =
    let id = trim_space raw in
    ground (arith, eq_iff id x, eq_iff id "", eq_iff x "", any-append (λ y. y == x) ids (id ∷ []))

has-collect_ids :
    (x : String) (ids raws : List String)
    → has x (collect_ids ids raws)
      ≡ (has x ids || (not (x == "") && any (λ raw. trim_space raw == x) raws))
unfolding collect_ids
has-collect_ids x ids [] = ground arith
has-collect_ids x ids (raw ∷ raws) =
    ground (arith, has-collect_ids x (collect_id ids raw) raws, has-collect_id x raw ids)

-- A text is in the result exactly if it is not empty and some input is that text when trimmed.
pub has-unique_strings :
    (x : String) (raws : List String)
    → has x (unique_strings raws) ≡ (not (x == "") && any (λ raw. trim_space raw == x) raws)
unfolding unique_strings
has-unique_strings x raws = has-sort x (collect_ids [] raws) ∙ has-collect_ids x [] raws

Distinct-append_new :
    (ids : List String) (x : String) → has x ids ≡ false → Distinct ids → Distinct (ids ++ x ∷ [])
Distinct-append_new [] x h d = (refl, tt)
Distinct-append_new (y ∷ ys) x h d = (
  ground (arith, any-append (λ z. z == y) ys (x ∷ []), eq_iff x y, eq_iff y x),
  Distinct-append_new ys x (ground arith) d.1,
)

-- trimmed and not empty
abbrev pub Clean : String → Type 0
Clean id = (trim_space id ≡ id) × ((id == "") ≡ false)

abbrev IsCollected : List String → Type 0
IsCollected ids = Distinct ids × All Clean ids

collect_id-IsCollected :
    (ids : List String) (raw : String) → IsCollected ids → IsCollected (collect_id ids raw)
unfolding collect_id
collect_id-IsCollected ids raw h = elim (Bool-cases (trim_space raw == "")) [
  | inl e ↦ rw e h
  | inr e ↦ elim (Bool-cases (has (trim_space raw) ids)) [
    | inl f ↦ rw e (rw f h)
    | inr f ↦ rw e (
        rw f (
          Distinct-append_new ids (trim_space raw) f h.0,
          All-append Clean ids (trim_space raw ∷ []) h.1 ((trim_space_idem raw, e), tt),
        ))
  ]
]

collect_ids-IsCollected :
    (ids raws : List String) → IsCollected ids → IsCollected (collect_ids ids raws)
unfolding collect_ids
collect_ids-IsCollected ids [] h = h
collect_ids-IsCollected ids (raw ∷ raws) h =
    collect_ids-IsCollected (collect_id ids raw) raws (collect_id-IsCollected ids raw h)

insert-All :
    (P : String → Type 0) (x : String) (ys : List String)
    → P x
    → All P ys
    → All P (insert_text x ys)
unfolding insert_text
insert-All P x [] h hs = (h, tt)
insert-All P x (y ∷ ys) h hs = elim (Bool-cases (text_lt y x)) [
  | inl e ↦ rw e (hs.0, insert-All P x ys h hs.1)
  | inr e ↦ rw e (h, hs)
]

pub sort-All : (P : String → Type 0) (xs : List String) → All P xs → All P (sort_strings xs)
unfolding sort_strings
sort-All P [] h = tt
sort-All P (x ∷ xs) h = insert-All P x (sort_strings xs) h.0 (sort-All P xs h.1)

-- The result is sorted and without repetition, and holds trimmed texts that are not empty.
pub unique_strings-IsSorted :
    (raws : List String)
    → IsSorted (unique_strings raws)
      × Distinct (unique_strings raws)
      × All Clean (unique_strings raws)
unfolding unique_strings
unique_strings-IsSorted raws =
    let (d, c) = collect_ids-IsCollected [] raws (tt, tt) in
    (sort_strings-IsSorted (collect_ids [] raws), sort-Distinct _ d, sort-All Clean _ c)

Distinct-middle :
    (ids : List String) (x : String) (xs : List String)
    → Distinct (ids ++ x ∷ xs)
    → has x ids ≡ false
Distinct-middle [] x xs d = refl
Distinct-middle (y ∷ ys) x xs d = ground (
  arith,
  Distinct-middle ys x xs d.1,
  any-append (λ z. z == y) ys (x ∷ xs),
  eq_iff x y,
  eq_iff y x,
)

collect_ids_of_Distinct :
    (ids xs : List String) → Distinct (ids ++ xs) → All Clean xs → collect_ids ids xs ≡ ids ++ xs
unfolding collect_ids collect_id
collect_ids_of_Distinct ids [] d c = rw append-nil
collect_ids_of_Distinct ids (x ∷ xs) d c =
    rw (c.0.0, c.0.1, Distinct-middle ids x xs d)
      (collect_ids_of_Distinct (ids ++ x ∷ []) xs (rw append_assoc d) c.1
        ∙ append_assoc ids (x ∷ []) xs)

-- What is already so stays as it is.
pub unique_strings_idem :
    (raws : List String) → unique_strings (unique_strings raws) ≡ unique_strings raws
unique_strings_idem raws =
    let (s, d, c) = unique_strings-IsSorted raws in
    unfold unique_strings in
    ap sort_strings (collect_ids_of_Distinct [] (unique_strings raws) d c)
    ∙ sort_strings_of_IsSorted (unique_strings raws) s
