-- ===== src/Xp/Kinds/RoundTrip.antt =====
-- A grant of arcade game edits carries its entry ids, and they are read back from its kind.
use musecat_backend_core.Prelude.{refl, ◌≡◌, sym, ap, ◌∙◌, String, List, [], ◌∷◌, All}
use musecat_backend_core.Prelude.Text.{
  trim_space, concat, cut_prefix, cut_prefix-concat, concat_assoc, split_once-concat, Lacks, split,
  join, split-join,
}
use musecat_backend_core.Prelude.Text.Unique.{unique_strings, unique_strings_idem}
use musecat_backend_core.Xp.Kinds.{
  Time, arcade_edit_kind, arcade_game_edit_grant_kind, game_entry_ids_from_grant_kind,
  unique_game_entry_ids, entries_of_rest, entries_of_part,
}
use musecat_backend_core.Xp.Kinds.Decimal.{format_int, format_int-Lacks_colon}

entries_back :
    (ids : List String)
    → All (Lacks b',') ids
    → unique_strings (split b',' (join "," ids)) ≡ unique_strings ids
entries_back [] h = unfold split join unique_strings trim_space in refl
entries_back (id ∷ ids) h = ap unique_strings (split-join "," id ids h.0 h.1)

-- Reading the kind of a grant gives the entry ids that it was made of, if none of them holds a comma.
pub game_entry_ids-grant_kind :
    (arcade : String) (at : Time) (entries : List String)
    → All (Lacks b',') (unique_game_entry_ids entries)
    → game_entry_ids_from_grant_kind (arcade_game_edit_grant_kind arcade at entries) arcade
      ≡ unique_game_entry_ids entries
unfolding game_entry_ids_from_grant_kind arcade_game_edit_grant_kind unique_game_entry_ids concat
game_entry_ids-grant_kind arcade at entries h =
    let ids = unique_strings entries in
    let base = arcade_edit_kind arcade "game" in
    let joined = join "," ids in
    let rest = concat (format_int at) (concat ":" joined) in
    ap entries_of_rest (
      ap (cut_prefix (concat base ":")) (sym (concat_assoc base ":" rest))
      ∙ cut_prefix-concat (concat base ":") rest)
    ∙ ap (λ r. entries_of_part r.1)
        (split_once-concat b':' (format_int at) joined (format_int-Lacks_colon at) ":" refl)
    ∙ entries_back ids h
    ∙ unique_strings_idem entries
