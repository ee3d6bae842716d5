-- ===== src/Messaging/Blocks.antt =====
-- Blocks and the preference to receive: Block, Preference and Receive of service/messaging/write.go and policy.go.
use musecat_backend_core.Prelude.{
  ℕ, suc, String, Option, none, some, List, [], ◌∷◌, Bool, not, ◌&&◌, any, leb, if◌then◌else◌,
  str_eq, Result, ok, err,
}
use musecat_backend_core.Messaging.Rows.{ChatError, bad_request, forbidden, not_found, too_many}

-- the rows of messaging_block: a user and a user that it blocks
abbrev pub BlockRows : Type 0
BlockRows = List (String × String)

abbrev pub is_block : String → String → String × String → Bool
is_block user other row = str_eq row.0 user && str_eq row.1 other

abbrev pub has_block : String → String → BlockRows → Bool
has_block user other rows = any (is_block user other) rows

abbrev pub count_blocks : String → BlockRows → ℕ
count_blocks user [] = 0
count_blocks user (row ∷ rows) =
    let rest = count_blocks user rows in if str_eq row.0 user then suc rest else rest

-- the deletion of the row that the lookup finds
unfoldable pub delete_block : String → String → BlockRows → BlockRows
delete_block user other [] = []
delete_block user other (row ∷ rows) =
    let rest = delete_block user other rows in if is_block user other row then rows else row ∷ rest

abbrev pub add_block : BlockRows → String → String → Bool → Result ChatError BlockRows
add_block rows user other exists =
    if not exists
    then err not_found
    else if leb 100 (count_blocks user rows)
    then err too_many
    else ok ((user, other) ∷ rows)

-- Block: whether the account is active, and whether the other one exists
unfoldable pub block : BlockRows → String → String → Bool → Bool → Bool → Result ChatError BlockRows
unfolding delete_block
block rows user other remove active exists =
    if str_eq user other
    then err bad_request
    else if not active
    then err forbidden
    else if remove
    then ok (delete_block user other rows)
    else if has_block user other rows
    then ok rows
    else add_block rows user other exists

-- the column receive of messaging_preference
pub data Receive : Type 0 where
  nobody everyone : Receive

-- the rows of messaging_preference
abbrev pub PreferenceRows : Type 0
PreferenceRows = List (String × Receive)

-- Receive
unfoldable pub receive_of : String → PreferenceRows → Receive
receive_of user [] = everyone
receive_of user (row ∷ rows) =
    let rest = receive_of user rows in if str_eq row.0 user then row.1 else rest

abbrev pub put_preference : String → Receive → PreferenceRows → PreferenceRows
put_preference user choice [] = (user, choice) ∷ []
put_preference user choice (row ∷ rows) =
    let rest = put_preference user choice rows in
    if str_eq row.0 user then (row.0, choice) ∷ rows else row ∷ rest

abbrev parse_receive : String → Option Receive
parse_receive text =
    if str_eq text "nobody"
    then some nobody
    else if str_eq text "everyone"
    then some everyone
    else none

abbrev or_refused :
    Option Receive → PreferenceRows → String → Bool → Result ChatError PreferenceRows
or_refused none rows user active = err bad_request
or_refused (some choice) rows user active =
    if active then ok (put_preference user choice rows) else err forbidden

-- Preference
unfoldable pub preference :
    PreferenceRows → String → String → Bool → Result ChatError PreferenceRows
preference rows user text active = or_refused (parse_receive text) rows user active
