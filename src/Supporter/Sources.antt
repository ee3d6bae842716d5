-- ===== src/Supporter/Sources.antt =====
-- How the ledger of supporters reads the kinds that service/xp writes.
use musecat_backend_core.Prelude.{String, Option, none, some, ◌≡◌, refl, ap}
use musecat_backend_core.Prelude.Text.{
  trim_space, trim_space_idem, cut_prefix, split_once, concat, Lacks, split_once-concat,
}
use musecat_backend_core.Prelude.Text.Trim.{trim_space-kind}
use musecat_backend_core.Xp.Kinds.{
  check_in_kind, arcade_public_kind, arcade_edit_kind, arcade_photo_grant_kind, arcade_visit_kind,
  flag_kind, flag_reaction_kind,
}
use musecat_backend_core.Supporter.Ledger.{LedgerKind, plain_kind, parse_supporter_ledger_kind}

flag_kind-read :
    (id : String)
    → parse_supporter_ledger_kind (flag_kind id)
      ≡ record (plain_kind "flag" "flag") { target_id = trim_space id }
unfolding parse_supporter_ledger_kind flag_kind concat cut_prefix
flag_kind-read id = rw (trim_space-kind "p:flag" id, trim_space_idem id) refl

flag_reaction_kind-read :
    (id : String)
    → parse_supporter_ledger_kind (flag_reaction_kind id)
      ≡ record (plain_kind "flag_reaction" "reaction") { target_id = trim_space id }
unfolding parse_supporter_ledger_kind flag_reaction_kind concat cut_prefix
flag_reaction_kind-read id = rw (trim_space-kind "p:flag-reaction" id, trim_space_idem id) refl

arcade_visit_kind-read :
    (id : String)
    → parse_supporter_ledger_kind (arcade_visit_kind id)
      ≡ record (plain_kind "visit" "verified_visit") { target_id = trim_space id }
unfolding parse_supporter_ledger_kind arcade_visit_kind concat cut_prefix
arcade_visit_kind-read id = rw (trim_space-kind "p:arcade-visit" id, trim_space_idem id) refl

arcade_public_kind-read :
    (id : String)
    → parse_supporter_ledger_kind (arcade_public_kind id)
      ≡ record (plain_kind "arcade" "public") { arcade_id = trim_space id }
unfolding parse_supporter_ledger_kind arcade_public_kind concat cut_prefix
arcade_public_kind-read id = rw (trim_space-kind "p:arcade-public" id, trim_space_idem id) refl

check_in_kind-read :
    (day : String)
    → parse_supporter_ledger_kind (check_in_kind day)
      ≡ record (plain_kind "attendance" "check_in") { day = some (trim_space day) }
unfolding parse_supporter_ledger_kind check_in_kind concat cut_prefix
check_in_kind-read day = rw (trim_space-kind "p:attendance:service" day) refl

arcade_photo_grant_kind-read :
    (arcade atom : String)
    → parse_supporter_ledger_kind (arcade_photo_grant_kind arcade atom) ≡ plain_kind "other" "other"
unfolding parse_supporter_ledger_kind arcade_photo_grant_kind concat cut_prefix
arcade_photo_grant_kind-read arcade atom =
    rw (trim_space-kind (concat "p:arcade-photo:" (trim_space arcade)) atom) refl

split_once-Lacks : (text : String) → Lacks b':' text → split_once b':' text ≡ (text, none)
unfolding split_once
split_once-Lacks String.[] h = refl
split_once-Lacks (String.◌∷◌ c text) (here, there) = rw (split_once-Lacks text there, here) refl

arcade_edit_kind-read :
    (arcade part : String)
    → Lacks b':' (trim_space part)
    → Lacks b':' (trim_space arcade)
    → parse_supporter_ledger_kind (arcade_edit_kind arcade part)
      ≡ record (plain_kind "arcade" (trim_space part)) { arcade_id = trim_space arcade }
unfolding parse_supporter_ledger_kind arcade_edit_kind concat cut_prefix
arcade_edit_kind-read arcade part no_colon no_colon' =
    let whole = split_once-Lacks (trim_space arcade) no_colon' in
    rw
      (
        trim_space-kind (concat "p:arcade-edit:" (trim_space part)) arcade,
        split_once-concat b':' (trim_space part) (trim_space arcade) no_colon ":" refl,
        ap (λ (parts : String × Option String). parts.0) whole,
        ap (λ (parts : String × Option String). parts.1) whole,
        trim_space_idem arcade,
      )
      refl

-- what the ledger says of a grant with an arcade or a target
abbrev pub Says : String → LedgerKind → Type 0
Says kind said = parse_supporter_ledger_kind kind ≡ said

-- The ledger of supporters reads back the kinds of flags, reactions, visits, publications, check-ins and edits, with the
-- trimmed identifiers and the day that they were written with; the part and the arcade of an edit hold no colon.
-- The kind under which a photo is granted it does not know: it reads it as one of the source "other".
pub ledger_reads_kinds :
    (id arcade part day : String)
    → Lacks b':' (trim_space part)
    → Lacks b':' (trim_space arcade)
    → Says (flag_kind id) (record (plain_kind "flag" "flag") { target_id = trim_space id })
      × Says
          (flag_reaction_kind id)
          (record (plain_kind "flag_reaction" "reaction") { target_id = trim_space id })
      × Says
          (arcade_visit_kind id)
          (record (plain_kind "visit" "verified_visit") { target_id = trim_space id })
      × Says
          (arcade_public_kind arcade)
          (record (plain_kind "arcade" "public") { arcade_id = trim_space arcade })
      × Says
          (check_in_kind day)
          (record (plain_kind "attendance" "check_in") { day = some (trim_space day) })
      × Says
          (arcade_edit_kind arcade part)
          (record (plain_kind "arcade" (trim_space part)) { arcade_id = trim_space arcade })
      × Says (arcade_photo_grant_kind arcade id) (plain_kind "other" "other")
ledger_reads_kinds id arcade part day no_colon no_colon' = (
  flag_kind-read id,
  flag_reaction_kind-read id,
  arcade_visit_kind-read id,
  arcade_public_kind-read arcade,
  check_in_kind-read day,
  arcade_edit_kind-read arcade part no_colon no_colon',
  arcade_photo_grant_kind-read arcade id,
)
