-- ===== src/Supporter/Ledger.antt =====
-- parseSupporterLedgerKind, and the totals of BuildSupporterScore.
use musecat_backend_core.Prelude.{
  String, Option, none, some, List, [], ◌∷◌, Bool, true, false, ◌&&◌, if◌then◌else◌, str_eq,
}
use musecat_backend_core.Prelude.Int.{ℤ, pos, ◌+ℤ◌, leb_ℤ}
use musecat_backend_core.Prelude.Text.{trim_space, cut_prefix, split_once}

-- what a kind of the log says; of the details, the day and the key of a grant
pub record LedgerKind : Type 0 where
  pub source : String
  pub action : String
  pub arcade_id : String
  pub target_id : String
  pub day : Option String
  pub grant_key : Option String

abbrev pub plain_kind : String → String → LedgerKind
plain_kind source action = record {
  source = source;
  action = action;
  arcade_id = "";
  target_id = "";
  day = none;
  grant_key = none;
}

-- one case of the switch: what follows the prefix, or the next case
abbrev pub on_prefix : Option String → (String → LedgerKind) → LedgerKind → LedgerKind
on_prefix none found next = next
on_prefix (some rest) found next = found rest

abbrev or_empty : Option String → String
or_empty none = ""
or_empty (some text) = text

-- the third part, if it is not empty
abbrev key_of : Option String → Option String
key_of none = none
key_of (some key) = if str_eq key "" then none else some key

abbrev third_part : Option String → Option String
third_part none = none
third_part (some rest) = (split_once b':' rest).1

abbrev second_part : Option String → String
second_part none = ""
second_part (some rest) = (split_once b':' rest).0

-- strings.SplitN(rest, ":", 3)
abbrev pub edit_kind : String → LedgerKind
edit_kind rest =
    let parts = split_once b':' rest in
    record (plain_kind "arcade" parts.0) {
      arcade_id = trim_space (second_part parts.1);
      grant_key = key_of (third_part parts.1);
    }

-- parseSupporterLedgerKind
unfoldable pub parse_supporter_ledger_kind : String → LedgerKind
unfolding cut_prefix split_once
parse_supporter_ledger_kind text =
    let kind = trim_space text in
    on_prefix (cut_prefix "xp:attendance:service:" kind)
      (λ rest. record (plain_kind "attendance" "check_in") { day = some rest })
      (on_prefix (cut_prefix "xp:arcade-public:" kind)
        (λ rest. record (plain_kind "arcade" "public") { arcade_id = trim_space rest })
        (on_prefix (cut_prefix "xp:arcade-edit:" kind) (λ rest. edit_kind rest)
          (on_prefix (cut_prefix "xp:arcade-photo-submission:" kind)
            (λ rest. record (plain_kind "arcade" "photo_submission") {
              arcade_id = trim_space rest;
            })
            (on_prefix (cut_prefix "xp:arcade-visit:" kind)
              (λ rest. record (plain_kind "visit" "verified_visit") { target_id = trim_space rest })
              (on_prefix (cut_prefix "xp:flag-reaction:" kind)
                (λ rest. record (plain_kind "flag_reaction" "reaction") {
                  target_id = trim_space rest;
                })
                (on_prefix (cut_prefix "xp:flag:" kind)
                  (λ rest. record (plain_kind "flag" "flag") { target_id = trim_space rest })
                  (plain_kind "other" "other")))))))

-- the column status of a request
pub data RequestStatus : Type 0 where
  pending approved other_status : RequestStatus

-- a row of user_level_log of the user
pub record LogLine : Type 0 where
  pub kind : String
  pub diff_exp : ℤ

abbrev exp_of : String → ℤ → ℤ
exp_of source diff = if str_eq source "attendance" then diff else pos 0

-- AttendanceExp
unfoldable pub attendance_exp : List LogLine → ℤ
unfolding parse_supporter_ledger_kind
attendance_exp [] = pos 0
attendance_exp (row ∷ rows) =
    exp_of (parse_supporter_ledger_kind row.kind).source row.diff_exp +ℤ attendance_exp rows

-- SupporterScoreThreshold, and Qualified
unfoldable pub qualified : ℤ → Bool
qualified total = leb_ℤ (pos 300) total

abbrev is_closed : Option RequestStatus → Bool
is_closed none = true
is_closed (some pending) = false
is_closed (some approved) = false
is_closed (some other_status) = true

-- CanRequest, with the status of the latest request
unfoldable pub can_request : ℤ → Option RequestStatus → Bool
unfolding qualified
can_request total latest = qualified total && is_closed latest
