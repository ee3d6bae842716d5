-- ===== src/Examples/Levels.antt =====
-- Levels, kinds and identifiers at concrete inputs.
use musecat_backend_core.Prelude.{
  ◌+◌, ◌<◌, ◌≤◌, [], ◌∷◌, ◌≡◌, ◌↔◌, refl, All, not, ◌&&◌, any, str_eq,
}
use musecat_backend_core.Prelude.Int.{pos, ◌+ℤ◌, ◌≤ℤ◌}
use musecat_backend_core.Prelude.Text.{trim_space, Lacks}
use musecat_backend_core.Prelude.Text.Order.{
  IsSorted, Distinct, has, sort_strings, insert_text, text_lt,
}
use musecat_backend_core.Prelude.Text.Unique.{
  unique_strings, has-unique_strings, unique_strings-IsSorted, Clean,
}
use musecat_backend_core.Xp.Kinds.{
  unique_game_entry_ids, arcade_game_edit_grant_kind, game_entry_ids_from_grant_kind,
}
use musecat_backend_core.Xp.Kinds.RoundTrip.{game_entry_ids-grant_kind}
use musecat_backend_core.Xp.Level.{build_exp_feedback, level_base_exp, next_level_exp}
use musecat_backend_core.Xp.Level.Curve.{level_from_exp, level_from_exp_iff}
use musecat_backend_core.Xp.Level.Feedback.{feedback_lem}

level_from_exp_iff_example : (level_base_exp (pos 2) ≤ 50) ↔ (2 ≤ level_from_exp (pos 50))
level_from_exp_iff_example = level_from_exp_iff 50 2

feedback_lem_example :
    let f = build_exp_feedback (pos 8) (pos 31) in
    (f.new_level ≡ level_from_exp (pos 31))
    × (f.previous_level ≡ level_from_exp (pos 8))
    × (pos 8 +ℤ f.diff_exp ≡ pos 31)
    × (31 + f.remaining_exp_to_next_level ≡ next_level_exp (pos f.new_level))
    × (0 < f.remaining_exp_to_next_level)
    × (f.remaining_percent_to_next_level ≤ 100)
    × (pos 0 ≤ℤ f.new_percent_to_next_level)
    × (f.new_percent_to_next_level ≤ℤ pos 100)
    × (pos 0 ≤ℤ f.previous_percent_to_next_level)
    × (f.previous_percent_to_next_level ≤ℤ pos 100)
feedback_lem_example = feedback_lem 8 31

unique_strings_example :
    IsSorted (unique_strings ("b" ∷ " a" ∷ "b " ∷ []))
    × Distinct (unique_strings ("b" ∷ " a" ∷ "b " ∷ []))
    × All Clean (unique_strings ("b" ∷ " a" ∷ "b " ∷ []))
unique_strings_example = unique_strings-IsSorted ("b" ∷ " a" ∷ "b " ∷ [])

has-unique_strings_example :
    has "a" (unique_strings ("b" ∷ " a" ∷ []))
    ≡ (not (str_eq "a" "") && any (λ raw. str_eq (trim_space raw) "a") ("b" ∷ " a" ∷ []))
has-unique_strings_example = has-unique_strings "a" ("b" ∷ " a" ∷ [])

lacks : All (Lacks b',') (unique_game_entry_ids ("g2" ∷ " g1" ∷ []))
unfolding unique_game_entry_ids unique_strings trim_space sort_strings insert_text text_lt
lacks = ((refl, (refl, tt)), ((refl, (refl, tt)), tt))

game_entry_ids-grant_kind_example :
    game_entry_ids_from_grant_kind
      (arcade_game_edit_grant_kind "arc" 1700000000000000000 ("g2" ∷ " g1" ∷ []))
      "arc"
    ≡ unique_game_entry_ids ("g2" ∷ " g1" ∷ [])
game_entry_ids-grant_kind_example =
    game_entry_ids-grant_kind "arc" 1700000000000000000 ("g2" ∷ " g1" ∷ []) lacks
