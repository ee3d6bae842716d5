-- ===== src/Xp/Kinds/Trimmed.antt =====
-- The kind of a grant for game edits has no space at its ends, so AwardExpTx logs it as it is.
use musecat_backend_core.Prelude.{String, List, [], ◌∷◌, All, ◌≡◌}
use musecat_backend_core.Prelude.Text.{trim_space, trim_right, concat, join}
use musecat_backend_core.Prelude.Text.Trim.{
  trim_right-concat, trim_right_of_trimmed, trim_right-visible, trim_right-join, trim_space_of_ends,
  x_visible, colon_visible,
}
use musecat_backend_core.Prelude.Text.Unique.{Clean, unique_strings-IsSorted}
use musecat_backend_core.Xp.Kinds.{
  Time, arcade_edit_kind, arcade_game_edit_grant_kind, unique_game_entry_ids,
}
use musecat_backend_core.Xp.Kinds.Decimal.{format_int}

ends_of_Clean : (ids : List String) → All Clean ids → All (λ id. trim_right id ≡ id) ids
ends_of_Clean [] h = tt
ends_of_Clean (id ∷ ids) h = (trim_right_of_trimmed id h.0.0, ends_of_Clean ids h.1)

ids_end :
    (entries : List String)
    → trim_right (join "," (unique_game_entry_ids entries))
      ≡ join "," (unique_game_entry_ids entries)
unfolding unique_game_entry_ids
ids_end entries =
    let (_, _, clean) = unique_strings-IsSorted entries in trim_right-join _ (ends_of_Clean _ clean)

pub trim_space-game_kind :
    (arcade : String) (at : Time) (entries : List String)
    → trim_space (arcade_game_edit_grant_kind arcade at entries)
      ≡ arcade_game_edit_grant_kind arcade at entries
unfolding arcade_game_edit_grant_kind arcade_edit_kind concat
trim_space-game_kind arcade at entries =
    let joined = join "," (unique_game_entry_ids entries) in
    let stamp = format_int at in
    trim_space_of_ends "x" _ x_visible (
      trim_right-concat (arcade_edit_kind arcade "game") ":" _ (
        trim_right-visible ":" _ colon_visible (
          trim_right-concat stamp ":" joined
            (trim_right-visible ":" joined colon_visible (ids_end entries)))))
