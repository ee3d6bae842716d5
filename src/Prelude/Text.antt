-- ===== src/Prelude/Text.antt =====
-- Go strings as native texts: the functions of package strings that the code calls.
pub mod Order
pub mod Unique
pub mod Measure
pub mod Trim
use Prim.Native.Nat.{ℕ}
use Prim.Native.Char.{Char, code}
use Prim.Native.String.{String}
use mathlib.Core.Path.{◌≡◌, refl, ap, ◌∙◌}
use mathlib.Core.Logic.{inl, inr}
use mathlib.Core.Bool.{Bool, true, false, ◌&&◌, ◌||◌}
use mathlib.Core.Option.{Option, none, some}
use mathlib.Core.List.{List, [], ◌∷◌}
use native.Mathlib.Omega.{arith}
use musecat_backend_core.Prelude.Lists.{All}
use musecat_backend_core.Prelude.Tests.{leb, Bool-cases, if◌then◌else◌, ◌==◌ as nat_eq}

-- unicode.IsSpace
pub is_space : Char → Bool
is_space c =
    let n = code c in
    (leb 9 n && leb n 13)
    || nat_eq n 32
    || nat_eq n 0x85
    || nat_eq n 0xA0
    || nat_eq n 0x1680
    || (leb 0x2000 n && leb n 0x200A)
    || nat_eq n 0x2028
    || nat_eq n 0x2029
    || nat_eq n 0x202F
    || nat_eq n 0x205F
    || nat_eq n 0x3000

pub trim_left : String → String
trim_left String.[] = ""
trim_left (String.◌∷◌ c s) = let rest = trim_left s in if is_space c then rest else String.◌∷◌ c s

-- puts a character before a text whose end is trimmed
pub put_trimmed : Char → String → String
put_trimmed c String.[] = if is_space c then "" else String.◌∷◌ c ""
put_trimmed c (String.◌∷◌ d s) = String.◌∷◌ c (String.◌∷◌ d s)

pub trim_right : String → String
trim_right String.[] = ""
trim_right (String.◌∷◌ c s) = put_trimmed c (trim_right s)

-- strings.TrimSpace
unfoldable pub trim_space : String → String
unfolding trim_left trim_right put_trimmed is_space
trim_space s = trim_right (trim_left s)

-- What a text without leading spaces begins with.
abbrev NoSpaceFirst : String → Type 0
NoSpaceFirst String.[] = Unit
NoSpaceFirst (String.◌∷◌ c s) = is_space c ≡ false

trim_right-put :
    (c : Char) (s : String) → trim_right s ≡ s → trim_right (put_trimmed c s) ≡ put_trimmed c s
unfolding trim_right put_trimmed
trim_right-put c String.[] h = elim (Bool-cases (is_space c)) [ inl e ↦ rw e | inr e ↦ rw e (rw e) ]
trim_right-put c (String.◌∷◌ d s) h = rw h

pub trim_right_idem : (s : String) → trim_right (trim_right s) ≡ trim_right s
unfolding trim_right
trim_right_idem String.[] = refl
trim_right_idem (String.◌∷◌ c s) = trim_right-put c (trim_right s) (trim_right_idem s)

trim_left-NoSpaceFirst : (s : String) → NoSpaceFirst (trim_left s)
unfolding trim_left
trim_left-NoSpaceFirst String.[] = tt
trim_left-NoSpaceFirst (String.◌∷◌ c s) = elim (Bool-cases (is_space c)) [
  | inl e ↦ rw e (trim_left-NoSpaceFirst s)
  | inr e ↦ rw e e
]

trim_left_of_NoSpaceFirst : (s : String) → NoSpaceFirst s → trim_left s ≡ s
unfolding trim_left
trim_left_of_NoSpaceFirst String.[] h = refl
trim_left_of_NoSpaceFirst (String.◌∷◌ c s) h = rw h

put_trimmed-NoSpaceFirst :
    (c : Char) (s : String) → is_space c ≡ false → NoSpaceFirst (put_trimmed c s)
unfolding put_trimmed
put_trimmed-NoSpaceFirst c String.[] h = rw h h
put_trimmed-NoSpaceFirst c (String.◌∷◌ d s) h = h

trim_right-NoSpaceFirst : (s : String) → NoSpaceFirst s → NoSpaceFirst (trim_right s)
unfolding trim_right
trim_right-NoSpaceFirst String.[] h = tt
trim_right-NoSpaceFirst (String.◌∷◌ c s) h = put_trimmed-NoSpaceFirst c (trim_right s) h

-- A trimmed text stays as it is.
pub trim_space_idem : (s : String) → trim_space (trim_space s) ≡ trim_space s
trim_space_idem s =
    unfold trim_space in
    ap trim_right
      (trim_left_of_NoSpaceFirst _ (trim_right-NoSpaceFirst _ (trim_left-NoSpaceFirst s)))
    ∙ trim_right_idem (trim_left s)

-- Go's `+` on strings.
unfoldable pub concat : String → String → String
concat String.[] t = t
concat (String.◌∷◌ c s) t = String.◌∷◌ c (concat s t)

-- strings.CutPrefix: what follows the prefix, if the text begins with it.
unfoldable pub cut_prefix : String → String → Option String
cut_prefix String.[] t = some t
cut_prefix (String.◌∷◌ p ps) String.[] = none
cut_prefix (String.◌∷◌ p ps) (String.◌∷◌ c s) =
    let rest = cut_prefix ps s in if nat_eq (code p) (code c) then rest else none

pub cut_prefix-concat : (p s : String) → cut_prefix p (concat p s) ≡ some s
unfolding cut_prefix concat
cut_prefix-concat String.[] s = refl
cut_prefix-concat (String.◌∷◌ p ps) s = ground (arith, cut_prefix-concat ps s)

-- strings.HasPrefix
abbrev pub has_prefix : String → String → Bool
has_prefix t p = elim (cut_prefix p t) [ none ↦ false | some _ ↦ true ]

-- strings.SplitN(text, sep, 2): the text before the first `sep`, and the text after it if there is one
unfoldable pub split_once : ℕ → String → String × Option String
split_once sep String.[] = ("", none)
split_once sep (String.◌∷◌ c s) =
    let (before, after) = split_once sep s in
    if nat_eq (code c) sep then ("", some s) else (String.◌∷◌ c before, after)

-- no character of the text is `sep`
abbrev pub Lacks : ℕ → String → Type 0
Lacks sep String.[] = Unit
Lacks sep (String.◌∷◌ c s) = (nat_eq (code c) sep ≡ false) × Lacks sep s

pub split_once-concat :
    (sep : ℕ) (a b : String)
    → Lacks sep a
    → (d : Char) → nat_eq (code d) sep ≡ true
    → split_once sep (concat a (String.◌∷◌ d b)) ≡ (a, some b)
unfolding split_once concat
split_once-concat sep String.[] b h d e = rw e
split_once-concat sep (String.◌∷◌ c a) b h d e = rw (split_once-concat sep a b h.1 d e, h.0)

-- puts a character at the front of the first part
put_first : Char → List String → List String
put_first c [] = String.◌∷◌ c "" ∷ []
put_first c (p ∷ ps) = String.◌∷◌ c p ∷ ps

-- strings.Split on one character: always at least one part
unfoldable pub split : ℕ → String → List String
unfolding put_first
split sep String.[] = "" ∷ []
split sep (String.◌∷◌ c s) =
    let rest = split sep s in if nat_eq (code c) sep then "" ∷ rest else put_first c rest

-- strings.Join
unfoldable pub join : String → List String → String
join sep [] = ""
join sep (p ∷ []) = p
join sep (p ∷ q ∷ ps) = concat p (concat sep (join sep (q ∷ ps)))

pub concat_assoc : (a b c : String) → concat (concat a b) c ≡ concat a (concat b c)
unfolding concat
concat_assoc String.[] b c = refl
concat_assoc (String.◌∷◌ x a) b c = ap (String.◌∷◌ x) (concat_assoc a b c)

split-Lacks : (sep : ℕ) (p : String) → Lacks sep p → split sep p ≡ p ∷ []
unfolding split
split-Lacks sep String.[] h = refl
split-Lacks sep (String.◌∷◌ c p) h = rw (h.0, split-Lacks sep p h.1)

split-concat :
    (sep : ℕ) (p rest : String) (d : Char)
    → Lacks sep p
    → nat_eq (code d) sep ≡ true
    → split sep (concat p (String.◌∷◌ d rest)) ≡ p ∷ split sep rest
unfolding split concat
split-concat sep String.[] rest d h e = rw e
split-concat sep (String.◌∷◌ c p) rest d h e = rw (h.0, split-concat sep p rest d h.1 e)

-- Splitting a join gives the parts back, if there is a part and none holds the separator.
pub split-join :
    (d : Char) (p : String) (ps : List String)
    → Lacks (code d) p
    → All (Lacks (code d)) ps
    → split (code d) (join (String.◌∷◌ d "") (p ∷ ps)) ≡ p ∷ ps
unfolding join concat
split-join d p [] h hs = split-Lacks (code d) p h
split-join d p (q ∷ ps) h hs =
    rw (split-concat (code d) p _ d h (ground arith))
      (ap (λ r. p ∷ r) (split-join d q ps hs.0 hs.1))

pub Text_tests :
    (trim_space "  a b \n" ≡ "a b")
    × (cut_prefix "xp:" "xp:flag" ≡ some "flag")
    × (split_once b':' "a:b:c" ≡ ("a", some "b:c"))
    × (split b',' "a,,b" ≡ "a" ∷ "" ∷ "b" ∷ [])
    × (join "," ("a" ∷ "" ∷ "b" ∷ []) ≡ "a,,b")
unfolding trim_space cut_prefix split_once split join concat
Text_tests = (refl, refl, refl, refl, refl)
