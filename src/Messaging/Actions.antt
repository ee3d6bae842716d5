-- ===== src/Messaging/Actions.antt =====
-- SetReadFor and SetStatusFor of service/messaging/write.go.
use musecat_backend_core.Prelude.{
  ℕ, String, Option, none, some, List, [], ◌∷◌, Bool, true, false, not, ◌&&◌, any, ltb,
  if◌then◌else◌, str_eq, Result, ok, err, ◌>>=◌, select,
}
use musecat_backend_core.Prelude.Int.{ℤ, pos, negsuc}
use musecat_backend_core.Messaging.Rows.{
  Participant, Status, same_status, Conversation, Inquiry, Event, Read, Chat, changed_event,
  after_commit, ChatError, bad_request, not_found,
}
use musecat_backend_core.Messaging.Notices.{read_notices}
use musecat_backend_core.Messaging.Policy.{is_dm, responder, inquiry_policy, may_access}
use musecat_backend_core.Messaging.Write.{Surroundings, change_with_entry}
use musecat_backend_core.Messaging.Send.{demand}

abbrev pub last_read : String → List Read → ℕ
last_read user [] = 0
last_read user (r ∷ rs) =
    let rest = last_read user rs in if str_eq r.user user then r.last_read_sequence else rest

-- the row of the user moves forward or is created
unfoldable pub move_read : String → ℕ → List Read → List Read
move_read user through [] = record { user = user; last_read_sequence = through } ∷ []
move_read user through (r ∷ rs) =
    let rest = move_read user through rs in
    if str_eq r.user user
    then (if ltb r.last_read_sequence through then record r { last_read_sequence = through } else r)
      ∷ rs
    else r ∷ rest

abbrev pub read_event : Conversation → String → ℕ → Event
read_event c user last = record {
  audience = [];
  name = "conversation.read";
  id = c.id;
  latest_sequence = 0;
  last_read_sequence = last;
  reason = "";
  user_id = user;
}

abbrev pub tell_peer : Chat → Conversation → String → Bool → Chat
tell_peer chat c peer true = chat
tell_peer chat c peer false =
    after_commit (record (changed_event c.id c.last_sequence "read" []) { user_id = peer }) chat

-- the peers of a direct conversation learn of a position that moved
abbrev pub peer_events : Chat → Conversation → String → List String → Chat
peer_events chat c user [] = chat
peer_events chat c user (peer ∷ peers) =
    peer_events (tell_peer chat c peer (str_eq peer user)) c user peers

abbrev pub tell_peers :
    Chat → Conversation → String → Bool → Result ChatError (List String) → Result ChatError Chat
tell_peers chat c user false audience = ok chat
tell_peers chat c user true audience =
    audience >>= λ (peers : List String). ok (peer_events chat c user peers)

-- the rows with the position and the notices that it reads
abbrev pub with_position : Participant → Chat → ℕ → ℕ → Chat
with_position u chat through last =
    after_commit (read_event chat.conversation u.id last) (record chat {
      reads = move_read u.id through chat.reads;
      notices = read_notices u.id last chat.notices;
    })

-- SetReadFor: the rows and the position of the user
unfoldable pub set_read : Participant → Chat → ℤ → Surroundings → Result ChatError (Chat × ℕ)
unfolding may_access move_read read_notices
set_read u chat (negsuc n) around =
    demand not_found (may_access u chat around.parties) >>= λ (allowed : Unit). err bad_request
set_read u chat (pos through) around = do
  allowed ← demand not_found (may_access u chat around.parties)
  let c = chat.conversation
  known ← demand bad_request (not (ltb c.last_sequence through))
  let last = last_read u.id (move_read u.id through chat.reads)
  told ←
      tell_peers (with_position u chat through last) c u.id
        (is_dm c.kind && ltb (last_read u.id chat.reads) last) around.audience
  ok (told, last)

-- the transaction on the case; `responds` says which users of the audience are active responders
abbrev pub set_case_status :
    Participant
    → Chat
    → Status
    → Surroundings
    → (String → Bool)
    → String
    → Option Inquiry
    → Result ChatError Chat
set_case_status u chat status around responds id none = err not_found
set_case_status u chat status around responds id (some q) = do
  permitted ←
      demand bad_request (any (same_status status) (inquiry_policy u q (responder u q)).statuses)
  if same_status q.status status then ok chat else (do
    changed ← change_with_entry u chat q status id
    reached ← around.audience
    ok (
        after_commit
          (changed_event chat.conversation.id changed.conversation.last_sequence "status"
            (select responds reached))
          changed))

-- SetStatusFor, with the identifier of the history entry
unfoldable pub set_status :
    Participant → Chat → Status → Surroundings → (String → Bool) → String → Result ChatError Chat
unfolding may_access inquiry_policy responder change_with_entry
set_status u chat status around responds id = do
  allowed ← demand not_found (may_access u chat around.parties)
  case ← demand bad_request (not (is_dm chat.conversation.kind))
  set_case_status u chat status around responds id chat.case
