-- ===== src/Messaging/Send.antt =====
-- SendFor of service/messaging/write.go.
use musecat_backend_core.Prelude.{
  String, Option, none, some, List, [], ◌∷◌, Bool, true, false, not, ◌||◌, if◌then◌else◌, str_eq,
  Result, ok, err, ◌>>=◌,
}
use musecat_backend_core.Xp.Kinds.{Time}
use musecat_backend_core.Messaging.Rows.{
  PartyType, user, guest, team, same_type, Identity, same_identity, Participant, Kind, dm, inquiry,
  BotState, Inquiry, Message, Chat, ChatError, bad_request, not_found, conflict,
}
use musecat_backend_core.Messaging.Input.{
  BotSelection, SendInput, Payload, input_hash, validate_mentions, rate_limit,
}
use musecat_backend_core.Messaging.Insert.{existing_retry}
use musecat_backend_core.Messaging.Policy.{actor, may_access}
use musecat_backend_core.Messaging.Bot.{bot_transition, append_bot_reply, set_bot_state}
use musecat_backend_core.Messaging.Write.{Surroundings, save_message}

-- the rows after the transaction, the message, and whether it is an earlier one
abbrev pub Sent : Type 0
Sent = Chat × Message × Bool

abbrev pub demand : ChatError → Bool → Result ChatError Unit
demand why holds = if holds then ok tt else err why

abbrev pub inbox_type : Option Inquiry → PartyType
inbox_type none = team
inbox_type (some q) = q.inbox.party

abbrev pub other_identity : Option Identity → Message → Bool
other_identity none prior = false
other_identity (some requested) prior = not (same_identity requested prior.acting)

-- the answer to a key that the user wrote before
abbrev pub replay : Chat → SendInput → String → Message → Result ChatError Sent
replay chat input hash prior =
    if not (str_eq prior.payload_hash hash) || other_identity input.acting_as prior
    then err conflict
    else ok (chat, prior, true)

-- only the requester selects a reply
abbrev pub may_select : Option BotSelection → Identity → Bool
may_select none acting = true
may_select (some _) acting = same_type acting.party user || same_type acting.party guest

-- the case and the transition of its replies
abbrev pub Reply : Type 0
Reply = Inquiry × BotState × String

abbrev pub case_reply :
    Participant → Chat → SendInput → Option Inquiry → Result ChatError (Option Reply)
case_reply u chat input none = err not_found
case_reply u chat input (some q) =
    bot_transition chat.conversation q u input >>= λ (moved : BotState × String).
    ok (some (q, moved.0, moved.1))

abbrev pub dm_reply : Option BotSelection → Result ChatError (Option Reply)
dm_reply none = ok none
dm_reply (some _) = err bad_request

abbrev pub reply_of : Participant → Chat → SendInput → Kind → Result ChatError (Option Reply)
reply_of u chat input dm = dm_reply input.bot_choice
reply_of u chat input inquiry = case_reply u chat input chat.case

-- the end of the transaction: the reply, or the end of the replies
abbrev pub settle_bot :
    Chat → String → Time → Result ChatError (List String) → Option Reply → Result ChatError Chat
settle_bot chat id now audience none = ok chat
settle_bot chat id now audience (some (q, state, next)) =
    if not (str_eq next "")
    then append_bot_reply chat q state.config next "" "" id now audience
    else if state.active
    then ok (record chat { case = set_bot_state (record state { active = false }) chat.case })
    else ok chat

abbrev pub with_newest : Chat → List Message → Result ChatError Message
with_newest chat [] = err not_found
with_newest chat (m ∷ ms) = ok m

-- the transaction of a new message, with the identifiers of the message and of the reply
unfoldable pub send_new :
    Participant
    → Chat
    → SendInput
    → String
    → Surroundings
    → String
    → String
    → Time
    → Result ChatError Sent
unfolding actor rate_limit bot_transition save_message append_bot_reply set_bot_state
send_new u chat input hash around id reply_id now = do
  acting ← actor u chat around.peer input.acting_as
  everywhere ← rate_limit 60 around.recent.messages
  here ← rate_limit 30 around.recent.messages_here
  requester ← demand bad_request (may_select input.bot_choice acting)
  reply ← reply_of u chat input chat.conversation.kind
  saved ← save_message u chat input acting hash around id now
  m ← with_newest saved saved.messages
  settled ← settle_bot saved reply_id now around.audience reply
  ok (settled, m, false)

abbrev pub answer_retry :
    Chat → SendInput → String → Option Message → Result ChatError Sent → Result ChatError Sent
answer_retry chat input hash none fresh = fresh
answer_retry chat input hash (some prior) fresh = replay chat input hash prior

-- SendFor on a viewer that is resolved and a conversation that exists
unfoldable pub send_for :
    (Payload → String)
    → Participant
    → Chat
    → SendInput
    → Surroundings
    → String
    → String
    → Time
    → Result ChatError Sent
unfolding input_hash may_access validate_mentions existing_retry send_new
send_for digest u chat given around id reply_id now = do
  checked ← input_hash digest given
  let input = checked.0
  let hash = checked.1
  allowed ← demand not_found (may_access u chat around.parties)
  mentions ← validate_mentions chat.conversation.kind (inbox_type chat.case) input.mentions
  answer_retry chat input hash (existing_retry chat u.id input.client_message_id)
      (send_new u chat input hash around id reply_id now)
