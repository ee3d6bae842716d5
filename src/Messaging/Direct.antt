-- ===== src/Messaging/Direct.antt =====
-- Direct conversations: the branch of CreateFor in service/messaging/write.go for them.
use musecat_backend_core.Prelude.{
  ℕ, String, Option, none, some, List, [], ◌∷◌, Bool, true, false, not, if◌then◌else◌, str_eq,
  Result, ok, ◌>>=◌,
}
use musecat_backend_core.Prelude.Text.{join}
use musecat_backend_core.Prelude.Text.Order.{sort_strings}
use musecat_backend_core.Messaging.Rows.{
  user, same_type, Participant, Event, changed_event, ChatError, bad_request, forbidden,
}
use musecat_backend_core.Messaging.Input.{rate_limit}
use musecat_backend_core.Messaging.Policy.{Reach, can_dm}
use musecat_backend_core.Messaging.Send.{demand}

-- a row of messaging_conversation of the kind dm, with the users of its rows of messaging_party
pub record DirectChat : Type 0 where
  pub id : String
  pub created_by : String
  pub pair_key : String
  pub parties : List String

-- the rows and the events of a successful request, with the conversation and whether it was there
pub record Opened : Type 0 where
  pub rows : List DirectChat
  pub conversation : DirectChat
  pub replayed : Bool
  pub events : List Event

abbrev pub found_in : List DirectChat → DirectChat → Opened
found_in rows c = record { rows = rows; conversation = c; replayed = true; events = [] }

abbrev pub opened_in : List DirectChat → DirectChat → Opened
opened_in rows c = record {
  rows = c ∷ rows;
  conversation = c;
  replayed = false;
  events = changed_event c.id 0 "created" c.parties ∷ [];
}

abbrev pub pair_of : String → String → List String
pair_of a b = sort_strings (a ∷ b ∷ [])

abbrev pub pair_key_of : String → String → String
pair_key_of a b = join ":" (pair_of a b)

abbrev pub find_pair : String → List DirectChat → Option DirectChat
find_pair key [] = none
find_pair key (c ∷ cs) =
    let rest = find_pair key cs in if str_eq c.pair_key key then some c else rest

abbrev pub new_direct : String → String → String → DirectChat
new_direct me peer id = record {
  id = id;
  created_by = me;
  pair_key = pair_key_of me peer;
  parties = pair_of me peer;
}

abbrev pub open_direct :
    List DirectChat
    → String
    → String
    → Reach
    → ℕ
    → String
    → Option DirectChat
    → Result ChatError Opened
open_direct rows me peer reach recent id (some found) = ok (found_in rows found)
open_direct rows me peer reach recent id none = do
  allowed ← demand forbidden (can_dm reach me peer)
  room ← rate_limit 10 recent
  ok (opened_in rows (new_direct me peer id))

-- CreateFor for a direct conversation of a viewer that is resolved;
-- `reach` is what the transaction reads of the peer, and `recent` the number of conversations that the
-- viewer created in the last minute
unfoldable pub create_dm :
    List DirectChat → Participant → String → Reach → ℕ → String → Result ChatError Opened
unfolding can_dm rate_limit sort_strings join
create_dm rows u peer reach recent id = do
  account ← demand forbidden (same_type u.party user)
  another ← demand bad_request (not (str_eq u.id peer))
  open_direct rows u.id peer reach recent id (find_pair (pair_key_of u.id peer) rows)
