-- ===== src/Xp/Kinds.antt =====
-- The ledger kinds of service/xp/xp.go: the keys under which experience is granted once.
-- A time is 0 for Go's zero time and otherwise the nanoseconds since 1970-01-01 UTC.
pub mod Decimal
pub mod RoundTrip
pub mod Trimmed
use musecat_backend_core.Prelude.{
  ℕ, zero, suc, ◌+◌, ◌*◌, ◌/◌, ◌%◌, String, Option, none, some, List, [], ◌∷◌, leb, ltb, ◌==◌,
  if◌then◌else◌,
}
use musecat_backend_core.Prelude.Text.{trim_space, concat, cut_prefix, split_once, split, join}
use musecat_backend_core.Prelude.Text.Unique.{unique_strings}
use Decimal.{format_int}

abbrev pub Time : Type 0
Time = ℕ

-- CheckInKind
unfoldable pub check_in_kind : String → String
check_in_kind day = concat "xp:attendance:service:" (trim_space day)

-- ArcadePublicKind
unfoldable pub arcade_public_kind : String → String
arcade_public_kind arcade = concat "xp:arcade-public:" (trim_space arcade)

-- ArcadeEditKind
unfoldable pub arcade_edit_kind : String → String → String
arcade_edit_kind arcade part =
    concat "xp:arcade-edit:" (concat (trim_space part) (concat ":" (trim_space arcade)))

-- ArcadePublicBackfillKind
unfoldable pub arcade_public_backfill_kind : String → String → String
arcade_public_backfill_kind arcade part = arcade_edit_kind arcade part

-- ArcadeEditGrantKind
unfoldable pub arcade_edit_grant_kind : String → String → Time → String
arcade_edit_grant_kind arcade part at =
    concat (arcade_edit_kind arcade part) (concat ":" (format_int at))

-- uniqueGameEntryIDs
unfoldable pub unique_game_entry_ids : List String → List String
unique_game_entry_ids ids = unique_strings ids

-- ArcadeGameEditGrantKind
unfoldable pub arcade_game_edit_grant_kind : String → Time → List String → String
arcade_game_edit_grant_kind arcade at entries =
    concat (arcade_edit_kind arcade "game")
      (concat ":" (concat (format_int at) (concat ":" (join "," (unique_game_entry_ids entries)))))

-- the second of the two parts, if there are two
entries_of_part : Option String → List String
entries_of_part none = []
entries_of_part (some entries) = unique_game_entry_ids (split b',' entries)

entries_of_rest : Option String → List String
unfolding entries_of_part
entries_of_rest none = []
entries_of_rest (some rest) = entries_of_part (split_once b':' rest).1

-- gameEntryIDsFromGrantKind; Go's nil is the empty list
unfoldable pub game_entry_ids_from_grant_kind : String → String → List String
unfolding entries_of_rest
game_entry_ids_from_grant_kind kind arcade =
    entries_of_rest (cut_prefix (concat (arcade_edit_kind arcade "game") ":") kind)

-- ArcadeGameEditExp; the argument is the length of a map
unfoldable pub arcade_game_edit_exp : ℕ → ℕ
arcade_game_edit_exp changed =
    if leb changed 0 then 0 else if ltb (2 * changed) 10 then 2 * changed else 10

-- ArcadePhotoSubmissionKind
unfoldable pub arcade_photo_submission_kind : String → String
arcade_photo_submission_kind arcade = concat "xp:arcade-photo-submission:" (trim_space arcade)

-- ArcadePhotoGrantKind
unfoldable pub arcade_photo_grant_kind : String → String → String
arcade_photo_grant_kind arcade atom =
    concat "xp:arcade-photo:" (concat (trim_space arcade) (concat ":" (trim_space atom)))

-- ArcadeVisitKind
unfoldable pub arcade_visit_kind : String → String
arcade_visit_kind visit = concat "xp:arcade-visit:" (trim_space visit)

-- FlagKind
unfoldable pub flag_kind : String → String
flag_kind flag = concat "xp:flag:" (trim_space flag)

-- FlagReactionKind
unfoldable pub flag_reaction_kind : String → String
flag_reaction_kind reaction = concat "xp:flag-reaction:" (trim_space reaction)
