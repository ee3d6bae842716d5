-- ===== src/Xp/Level.antt =====
-- The level curve of service/xp/xp.go: LevelFromExp, NextLevelExp, LevelBaseExp, ExpToNextLevel and
-- BuildExpFeedback. An experience value is a signed integer, a level that the code computes is
-- never negative. math.Round of a quotient is exact rounding, half up: float64 is exact here while
-- the numerators stay below 2 ^ 46.
pub mod Curve
pub mod Feedback
use musecat_backend_core.Prelude.{
  ℕ, zero, suc, ◌+◌, ◌-◌, ◌*◌, ◌/◌, true, false, ltb, leb, ◌==◌, if◌then◌else◌,
}
use musecat_backend_core.Prelude.Int.{ℤ, pos, negsuc, sub_ℕ, ◌-ℤ◌, ltb_ℤ, pos_part}
unfoldable pub use Curve.{round_div, level_base_exp, next_level_exp, grow, bisect, level_from_exp}
pub use Curve.{
  base_at, base_mono, base_step, IsLevelOf, level_from_exp-IsLevelOf, level_from_exp_iff,
}

-- ExpToNextLevel
unfoldable pub exp_to_next_level : ℤ → ℕ × ℤ
exp_to_next_level exp =
    let level = level_from_exp exp in (level, pos (next_level_exp (pos level)) -ℤ exp)

-- ExpFeedback
pub record ExpFeedback : Type 0 where
  pub previous_exp : ℤ
  pub new_exp : ℤ
  pub diff_exp : ℤ
  pub previous_percent_to_next_level : ℤ
  pub new_percent_to_next_level : ℤ
  pub previous_level : ℕ
  pub new_level : ℕ
  pub level_diff : ℤ
  pub remaining_exp_to_next_level : ℕ
  pub remaining_percent_to_next_level : ℕ

-- what is missing to a threshold, at least 0
unfoldable pub remaining_exp : ℕ → ℤ → ℕ
unfolding ◌-ℤ◌
remaining_exp threshold exp =
    let missing = pos threshold -ℤ exp in if ltb_ℤ missing (pos 0) then 0 else pos_part missing

-- the rounded share that `remaining` has of the level's span, 0 if the span is not positive
unfoldable pub remaining_percent : ℕ → ℕ → ℕ → ℕ
remaining_percent threshold base remaining =
    if ltb base threshold then round_div (remaining * 100) (threshold - base) else 0

-- BuildExpFeedback
unfoldable pub build_exp_feedback : ℤ → ℤ → ExpFeedback
unfolding remaining_exp remaining_percent
build_exp_feedback previous_exp new_exp =
    let previous_level = level_from_exp previous_exp in
    let new_level = level_from_exp new_exp in
    let next_threshold = next_level_exp (pos new_level) in
    let remaining = remaining_exp next_threshold new_exp in
    let percent = remaining_percent next_threshold (level_base_exp (pos new_level)) remaining in
    let previous_threshold = next_level_exp (pos previous_level) in
    let previous_remaining = remaining_exp previous_threshold previous_exp in
    let previous_percent =
      remaining_percent previous_threshold (level_base_exp (pos previous_level))
        previous_remaining in
    record {
      previous_exp = previous_exp;
      new_exp = new_exp;
      diff_exp = new_exp -ℤ previous_exp;
      previous_percent_to_next_level = sub_ℕ 100 previous_percent;
      new_percent_to_next_level = sub_ℕ 100 percent;
      previous_level = previous_level;
      new_level = new_level;
      level_diff = sub_ℕ new_level previous_level;
      remaining_exp_to_next_level = remaining;
      remaining_percent_to_next_level = percent;
    }
