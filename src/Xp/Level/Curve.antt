-- ===== src/Xp/Level/Curve.antt =====
-- LevelBaseExp, NextLevelExp and LevelFromExp of service/xp/xp.go, and that the search by doubling
-- and halving inverts the curve. Both loops take fuel; `exp` is enough for the first and the upper
-- bound that it finds for the second.
use musecat_backend_core.Prelude.{
  ℕ, zero, suc, ◌+◌, ◌-◌, ◌*◌, ◌/◌, ◌≤◌, ◌<◌, ◌≡◌, refl, ◌↔◌, true, false, arith, leb,
  if◌then◌else◌,
}
use musecat_backend_core.Prelude.Int.{ℤ, pos, negsuc}

-- math.Round(float64(a) / float64(b)) for a, b at least 0 and b positive
unfoldable pub round_div : ℕ → ℕ → ℕ
round_div a b = (2 * a + b) / (2 * b)

-- LevelBaseExp
unfoldable pub level_base_exp : ℤ → ℕ
unfolding round_div
level_base_exp (negsuc n) = 0
level_base_exp (pos level) =
    if leb level 0 then 0 else round_div (6 * level * level + 110 * level) 29

-- NextLevelExp
unfoldable pub next_level_exp : ℤ → ℕ
next_level_exp (negsuc n) = 0
next_level_exp (pos level) = level_base_exp (pos (level + 1))

-- for LevelBaseExp(hi) <= exp { hi *= 2 }
unfoldable pub grow : ℕ → ℕ → ℕ → ℕ
grow zero exp hi = hi
grow (suc fuel) exp hi = elim (leb (level_base_exp (pos hi)) exp) [
  | true ↦ grow fuel exp (hi * 2)
  | false ↦ hi
]

-- for lo < hi { … }
unfoldable pub bisect : ℕ → ℕ → ℕ → ℕ → ℕ
bisect zero exp lo hi = lo
bisect (suc fuel) exp lo hi =
    let mid = (lo + hi + 1) / 2 in
    elim (leb hi lo) [
      | true ↦ lo
      | false ↦ elim (leb (level_base_exp (pos mid)) exp) [
        | true ↦ bisect fuel exp mid hi
        | false ↦ bisect fuel exp lo (mid - 1)
      ]
    ]

search_level : ℕ → ℕ
unfolding grow bisect
search_level exp = let hi = grow exp exp 1 in bisect hi exp 0 hi

-- LevelFromExp
unfoldable pub level_from_exp : ℤ → ℕ
unfolding search_level
level_from_exp (negsuc n) = 0
level_from_exp (pos exp) = if leb 4 exp then search_level exp else 0

pub base_at : (l : ℕ) → level_base_exp (pos l) ≡ (2 * (6 * l * l + 110 * l) + 29) / 58
unfolding level_base_exp
base_at zero = refl
base_at (suc l) = ground arith

square_mono : (a b : ℕ) → a ≤ b → a * a ≤ b * b
square_mono a b h = grind arith

pub base_mono : (a b : ℕ) → a ≤ b → level_base_exp (pos a) ≤ level_base_exp (pos b)
base_mono a b h = omega (arith, base_at a, base_at b, square_mono a b h)

pub base_step : (l : ℕ) → level_base_exp (pos l) + 3 ≤ level_base_exp (pos (l + 1))
base_step l = omega (arith, base_at l, base_at (l + 1))

le-base : (l : ℕ) → l ≤ level_base_exp (pos l)
le-base l = omega (arith, base_at l)

grow_lem :
    (fuel exp hi : ℕ) → exp < hi + fuel → 0 < hi → exp < level_base_exp (pos (grow fuel exp hi))
unfolding grow
grow_lem zero exp hi h p = omega (arith, le-base hi)
grow_lem (suc fuel) exp hi h p = ground (arith, grow_lem fuel exp (hi * 2))

-- the level that the curve puts at `exp`
abbrev pub IsLevelOf : ℕ → ℕ → Type 0
IsLevelOf exp l = (level_base_exp (pos l) ≤ exp) × (exp < level_base_exp (pos (l + 1)))

bisect_lem :
    (fuel exp lo hi : ℕ)
    → hi < lo + fuel + 1
    → level_base_exp (pos lo) ≤ exp
    → exp < level_base_exp (pos (hi + 1))
    → lo ≤ hi
    → IsLevelOf exp (bisect fuel exp lo hi)
unfolding bisect
bisect_lem zero exp lo hi f a b c = (a, omega (arith, base_mono (hi + 1) (lo + 1)))
bisect_lem (suc fuel) exp lo hi f a b c =
    let mid = (lo + hi + 1) / 2 in
    ground (
      arith,
      bisect_lem fuel exp mid hi,
      bisect_lem fuel exp lo (mid - 1),
      base_mono (hi + 1) (lo + 1),
      base_mono mid (mid - 1 + 1),
    )

search_level-IsLevelOf : (exp : ℕ) → IsLevelOf exp (search_level exp)
unfolding search_level
search_level-IsLevelOf exp =
    let hi = grow exp exp 1 in
    bisect_lem hi exp 0 hi (omega arith) (omega (arith, base_at 0))
      (omega (arith, grow_lem exp exp 1 (omega arith) (omega arith), base_mono hi (hi + 1)))
      (omega arith)

pub level_from_exp-IsLevelOf : (exp : ℕ) → IsLevelOf exp (level_from_exp (pos exp))
unfolding level_from_exp
level_from_exp-IsLevelOf exp = ground (arith, search_level-IsLevelOf exp, base_at 0, base_at 1)

-- The level of a total that is not negative is the greatest one whose threshold the total reaches.
pub level_from_exp_iff :
    (exp l : ℕ) → (level_base_exp (pos l) ≤ exp) ↔ (l ≤ level_from_exp (pos exp))
level_from_exp_iff exp l =
    let n = level_from_exp (pos exp) in
    let (below, above) = level_from_exp-IsLevelOf exp in
    (λ h. ground (arith, base_mono (n + 1) l), λ h. ground (arith, base_mono l n))

curve_tests :
    (level_from_exp (pos 3) ≡ 0)
    × (level_from_exp (pos 4) ≡ 1)
    × (level_from_exp (pos 300) ≡ 30)
    × (level_base_exp (pos 1) ≡ 4)
unfolding level_from_exp level_base_exp
curve_tests = (refl, refl, refl, refl)
