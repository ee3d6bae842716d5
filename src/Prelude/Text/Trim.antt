-- ===== src/Prelude/Text/Trim.antt =====
-- Texts that TrimSpace leaves as they are.
use Prim.Native.Char.{Char}
use musecat_backend_core.Prelude.Text.{
  is_space, trim_left, trim_right, put_trimmed, trim_space, trim_right_idem, concat, join,
}
use musecat_backend_core.Prelude.Lists.{All}
use mathlib.Core.List.{List, [], ◌∷◌}
use Prim.Native.String.{String}
use mathlib.Core.Path.{◌≡◌, refl, sym, ap, ◌∙◌}
use mathlib.Core.Bool.{false}

put_visible : (c : Char) (s : String) → is_space c ≡ false → put_trimmed c s ≡ String.◌∷◌ c s
unfolding put_trimmed
put_visible c String.[] h = rw h refl
put_visible c (String.◌∷◌ d s) h = refl

-- a text that ends trimmed keeps its end behind any other
pub trim_right-concat :
    (a : String) (c : Char) (s : String)
    → trim_right (String.◌∷◌ c s) ≡ String.◌∷◌ c s
    → trim_right (concat a (String.◌∷◌ c s)) ≡ concat a (String.◌∷◌ c s)
unfolding trim_right put_trimmed concat
trim_right-concat String.[] c s h = h
trim_right-concat (String.◌∷◌ x String.[]) c s h = ap (put_trimmed x) h
trim_right-concat (String.◌∷◌ x (String.◌∷◌ y a)) c s h =
    ap (put_trimmed x) (trim_right-concat (String.◌∷◌ y a) c s h)

-- A text that begins with a visible character and ends with one that is followed by a trimmed text is not trimmed.
pub trim_space-concat :
    (b : Char) (a : String) (c : Char) (s : String)
    → is_space b ≡ false
    → is_space c ≡ false
    → trim_space (String.◌∷◌ b (concat a (String.◌∷◌ c (trim_space s))))
      ≡ String.◌∷◌ b (concat a (String.◌∷◌ c (trim_space s)))
unfolding trim_space trim_left trim_right concat
trim_space-concat b a c s first last = rw first (
    ap (put_trimmed b) (
      trim_right-concat a c (trim_right (trim_left s)) (
        ap (put_trimmed c) (trim_right_idem (trim_left s))
        ∙ put_visible c (trim_right (trim_left s)) last))
    ∙ put_visible b _ first)

pub x_visible : is_space "x" ≡ false
unfolding is_space
x_visible = refl

pub colon_visible : is_space ":" ≡ false
unfolding is_space
colon_visible = refl

comma_visible : is_space "," ≡ false
unfolding is_space
comma_visible = refl

-- a kind of the log, which begins with "x", is not trimmed
pub trim_space-kind :
    (a s : String)
    → trim_space (String.◌∷◌ "x" (concat a (String.◌∷◌ ":" (trim_space s))))
      ≡ String.◌∷◌ "x" (concat a (String.◌∷◌ ":" (trim_space s)))
trim_space-kind a s = trim_space-concat "x" a ":" s x_visible colon_visible

-- a trimmed text has no space at its end
pub trim_right_of_trimmed : (s : String) → trim_space s ≡ s → trim_right s ≡ s
unfolding trim_space
trim_right_of_trimmed s h = ap trim_right (sym h) ∙ trim_right_idem (trim_left s) ∙ h

pub trim_right-visible :
    (c : Char) (s : String)
    → is_space c ≡ false
    → trim_right s ≡ s
    → trim_right (String.◌∷◌ c s) ≡ String.◌∷◌ c s
unfolding trim_right
trim_right-visible c s visible h = ap (put_trimmed c) h ∙ put_visible c s visible

-- joined parts end as the last of them
pub trim_right-join :
    (ids : List String)
    → All (λ id. trim_right id ≡ id) ids
    → trim_right (join "," ids) ≡ join "," ids
unfolding join trim_right concat
trim_right-join [] h = refl
trim_right-join (p ∷ []) h = h.0
trim_right-join (p ∷ q ∷ ps) h =
    trim_right-concat p "," (join "," (q ∷ ps))
      (trim_right-visible "," (join "," (q ∷ ps)) comma_visible (trim_right-join (q ∷ ps) h.1))

pub trim_space_of_ends :
    (b : Char) (s : String)
    → is_space b ≡ false
    → trim_right (String.◌∷◌ b s) ≡ String.◌∷◌ b s
    → trim_space (String.◌∷◌ b s) ≡ String.◌∷◌ b s
unfolding trim_space trim_left
trim_space_of_ends b s visible h = rw visible h
