-- ===== src/Xp/Level/Feedback.antt =====
-- What BuildExpFeedback reports for totals that are not negative.
use musecat_backend_core.Prelude.{ℕ, ◌+◌, ◌-◌, ◌*◌, ◌≤◌, ◌<◌, ◌≡◌, refl, arith}
use musecat_backend_core.Prelude.Int.{pos, sub_ℕ, ◌≤ℤ◌, ◌+ℤ◌, ◌-ℤ◌, int_laws}
use native.Mathlib.Nat.{div-add-mod}
use musecat_backend_core.Xp.Level.{
  build_exp_feedback, level_base_exp, next_level_exp, level_from_exp, level_from_exp-IsLevelOf,
  remaining_exp, remaining_percent, round_div,
}

remaining_exp_lem : (t n : ℕ) → n < t → n + remaining_exp t (pos n) ≡ t
unfolding remaining_exp
remaining_exp_lem t n h = ground arith

round_div_le : (a b : ℕ) → 0 < b → a ≤ 100 * b → round_div a b ≤ 100
unfolding round_div
round_div_le a b p h = grind (arith, div-add-mod (2 * a + b) (2 * b))

percent_le : (t base r : ℕ) → base + r ≤ t → remaining_percent t base r ≤ 100
unfolding remaining_percent
percent_le t base r h = ground (arith, round_div_le (r * 100) (t - base))

module _ (n : ℕ) where
  level : ℕ
  level = level_from_exp (pos n)

  threshold : ℕ
  unfolding level
  threshold = next_level_exp (pos level)

  missing : ℕ
  unfolding threshold
  missing = remaining_exp threshold (pos n)

  percent : ℕ
  unfolding missing
  percent = remaining_percent threshold (level_base_exp (pos level)) missing

  threshold_above : (level_base_exp (pos level) ≤ n) × (n < threshold)
  unfolding threshold next_level_exp
  threshold_above = level_from_exp-IsLevelOf n

  missing_lem : n + missing ≡ threshold
  unfolding missing
  missing_lem = remaining_exp_lem threshold n threshold_above.1

  missing_pos : 0 < missing
  missing_pos = omega (arith, missing_lem, threshold_above)

  percent_le_100 : percent ≤ 100
  unfolding percent
  percent_le_100 =
      percent_le threshold (level_base_exp (pos level)) missing
        (omega (arith, missing_lem, threshold_above))

rest_of_100 : (q : ℕ) → q ≤ 100 → (pos 0 ≤ℤ sub_ℕ 100 q) × (sub_ℕ 100 q ≤ℤ pos 100)
rest_of_100 q h = ground arith

add_difference : (p n : ℕ) → pos p +ℤ (pos n -ℤ pos p) ≡ pos n
add_difference p n = omega int_laws

-- The feedback of two totals that are not negative: the levels are those of the curve, what remains
-- to the next level is positive and completes the new total to the threshold, and each percentage
-- lies between 0 and 100.
pub feedback_lem :
    (p n : ℕ)
    → let f = build_exp_feedback (pos p) (pos n) in
      (f.new_level ≡ level_from_exp (pos n))
      × (f.previous_level ≡ level_from_exp (pos p))
      × (pos p +ℤ f.diff_exp ≡ pos n)
      × (n + f.remaining_exp_to_next_level ≡ next_level_exp (pos f.new_level))
      × (0 < f.remaining_exp_to_next_level)
      × (f.remaining_percent_to_next_level ≤ 100)
      × (pos 0 ≤ℤ f.new_percent_to_next_level)
      × (f.new_percent_to_next_level ≤ℤ pos 100)
      × (pos 0 ≤ℤ f.previous_percent_to_next_level)
      × (f.previous_percent_to_next_level ≤ℤ pos 100)
unfolding build_exp_feedback percent
feedback_lem p n =
    let (new_low, new_high) = rest_of_100 (percent n) (percent_le_100 n) in
    let (old_low, old_high) = rest_of_100 (percent p) (percent_le_100 p) in
    (
      refl,
      refl,
      add_difference p n,
      missing_lem n,
      missing_pos n,
      percent_le_100 n,
      new_low,
      new_high,
      old_low,
      old_high,
    )
