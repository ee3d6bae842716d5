-- ===== src/Messaging/Earlier.antt =====
-- What CreateFor of service/messaging/write.go finds of an earlier request, and who may inquire.
use musecat_backend_core.Prelude.{
  String, Option, none, some, List, [], ◌∷◌, Bool, true, false, not, ◌&&◌, ◌||◌, ◌==◌,
  if◌then◌else◌, str_eq, Result, ok, err,
}
use musecat_backend_core.Messaging.Rows.{
  user, guest, team, arcade, same_type, Identity, same_identity, Participant, Message, Inquiry,
  Chat, ChatError, unauthorized, not_found, conflict,
}
use musecat_backend_core.Messaging.Insert.{is_retry}
use musecat_backend_core.Messaging.Policy.{is_dm, requests}
use musecat_backend_core.Messaging.InquiryBot.{CreateInput, InquiryMode, ArcadeInbox, internal_mode}

abbrev is_internal : InquiryMode → Bool
is_internal internal_mode = true
is_internal _ = false

abbrev pub known_inbox : Identity → Bool
known_inbox inbox =
    same_type inbox.party arcade || (same_type inbox.party team && str_eq inbox.id "musecat")

-- the opening message of an earlier request of the user with the key
abbrev pub own_opening : Participant → String → Chat → Message → Bool
own_opening u key chat m =
    not (is_dm chat.conversation.kind) && is_retry u.id key m && (m.sequence == 1)

-- the opening reply that an earlier request wrote
abbrev pub bot_opening : String → Chat → Message → Bool
bot_opening key chat m = (m.sequence == 1) && str_eq m.client_message_id key && m.automated

abbrev pub message_where : (Message → Bool) → List Message → Option Message
message_where test [] = none
message_where test (m ∷ ms) = let rest = message_where test ms in if test m then some m else rest

abbrev pub or_later : Chat → Option Message → Option (Chat × Message) → Option (Chat × Message)
or_later chat none later = later
or_later chat (some m) later = some (chat, m)

-- a message of any conversation
abbrev pub find_message : (Chat → Message → Bool) → List Chat → Option (Chat × Message)
find_message test [] = none
find_message test (chat ∷ chats) =
    or_later chat (message_where (test chat) chat.messages) (find_message test chats)

abbrev pub first_of : Option (Chat × Message) → Option (Chat × Message) → Option (Chat × Message)
first_of none second = second
first_of (some found) second = some found

-- the message of an earlier request: the opening reply before the user's own message
unfoldable pub earlier : Participant → String → String → List Chat → Option (Chat × Message)
earlier u key automated chats =
    first_of (find_message (bot_opening automated) chats) (find_message (own_opening u key) chats)

-- the answer to an earlier request
abbrev pub of_earlier :
    Participant → CreateInput → String → Message → Chat → Option Inquiry → Result ChatError Chat
of_earlier u input hash m chat none = err conflict
of_earlier u input hash m chat (some q) =
    if not (requests u q)
      || not (same_identity q.inbox input.inbox)
      || not (str_eq m.payload_hash hash)
    then err conflict
    else ok chat

abbrev not_for_guests : Participant → ArcadeInbox → Bool
not_for_guests u a = same_type u.party guest && a.official_account && a.login_required

abbrev pub may_inquire : Participant → Option ArcadeInbox → Result ChatError Unit
may_inquire u none = err not_found
may_inquire u (some a) =
    if not a.public
      && (not (same_type u.party user) || not (str_eq a.created_by u.id))
      && not a.manages
    then err not_found
    else if a.official_account && not (is_internal a.mode)
    then err conflict
    else if not_for_guests u a
    then err unauthorized
    else ok tt
