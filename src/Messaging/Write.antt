-- ===== src/Messaging/Write.antt =====
-- The transactions that write a conversation: SendFor, saveMessage, SetReadFor and SetStatusFor of
-- service/messaging/write.go, and changeInquiryStatus of service/messaging/status.go.
-- A transaction that fails leaves the rows as they were.
use musecat_backend_core.Prelude.{
  ℕ, ◌+◌, String, Option, none, some, List, [], ◌∷◌, Bool, false, ◌||◌, ltb, if◌then◌else◌, Result,
  ok, err, ◌>>=◌, length,
}
use musecat_backend_core.Prelude.Text.{concat}
use musecat_backend_core.Xp.Kinds.{Time}
use musecat_backend_core.Xp.Kinds.Decimal.{format_int}
use musecat_backend_core.Messaging.Rows.{
  user, guest, same_type, Identity, Participant, Status, waiting, recognised, same_status,
  StatusChange, Conversation, Inquiry, Message, Chat, Photo, changed_event, after_commit, ChatError,
  not_found, too_many,
}
use musecat_backend_core.Messaging.Input.{SendInput}
use musecat_backend_core.Messaging.Insert.{insert_message}
use musecat_backend_core.Messaging.Notices.{notify_message}
use musecat_backend_core.Messaging.Policy.{is_dm, Peer, responder}

-- the sender columns of a participant
abbrev pub sender_user : Participant → String
sender_user u = if same_type u.party user then u.id else ""

abbrev pub sender_guest : Participant → String
sender_guest u = if same_type u.party user then "" else u.id

-- writes the change on the message that the transaction created, the newest one
abbrev pub mark_newest : StatusChange → List Message → List Message
mark_newest change [] = []
mark_newest change (m ∷ ms) = record m { status_change = some change } ∷ ms

abbrev set_status_of : Status → Option Inquiry → Option Inquiry
set_status_of status none = none
set_status_of status (some q) = some (record q { status = status })

-- the write of the change and of the case
abbrev pub write_change : Chat → Status → Status → Chat
write_change chat before after = record chat {
  messages = mark_newest (record { before = before; after = after }) chat.messages;
  case = set_status_of after chat.case;
}

-- the history entry of an explicit change of the status
abbrev pub status_message : Participant → Conversation → Inquiry → String → Message
status_message u c q id =
    let own : Identity = record { party = u.party; id = u.id } in
    record {
      id = id;
      sequence = c.last_sequence + 1;
      sender_user = sender_user u;
      sender_guest = sender_guest u;
      acting = (if responder u q then q.inbox else own);
      client_message_id =
          concat "status:" (concat c.id (concat ":" (format_int (c.last_sequence + 1))));
      payload_hash = "";
      text = "";
      mentions = [];
      photos = [];
      automated = false;
      bot_choices = [];
      status_change = none;
    }

-- changeInquiryStatus with the message that the transaction created
unfoldable pub change_with_message : Chat → Inquiry → Status → Chat
change_with_message chat q status =
    if same_status q.status status then chat else write_change chat q.status status

-- changeInquiryStatus without a message
unfoldable pub change_with_entry :
    Participant → Chat → Inquiry → Status → String → Result ChatError Chat
unfolding responder insert_message
change_with_entry u chat q status id =
    let c = chat.conversation in
    if same_status q.status status
    then ok chat
    else (insert_message chat (status_message u c q id) >>= λ (entered : Chat). ok (
        write_change
          (record entered { conversation = record c { last_sequence = c.last_sequence + 1 } })
          q.status status))

-- the messages and photos of the sender in the last minute: everywhere, and the messages in the conversation
pub record Recent : Type 0 where
  pub messages : ℕ
  pub messages_here : ℕ
  pub photos : ℕ

abbrev pub photos_fit : Recent → List Photo → Result ChatError Unit
photos_fit recent [] = ok tt
photos_fit recent (f ∷ fs) =
    if ltb 12 (recent.photos + length (f ∷ fs)) then err too_many else ok tt

abbrev pub new_message :
    Participant → Conversation → SendInput → Identity → String → String → Message
new_message u c input acting hash id = record {
  id = id;
  sequence = c.last_sequence + 1;
  sender_user = sender_user u;
  sender_guest = sender_guest u;
  acting = acting;
  client_message_id = input.client_message_id;
  payload_hash = hash;
  text = input.text;
  mentions = input.mentions;
  photos = input.photos;
  automated = false;
  bot_choices = [];
  status_change = none;
}

-- the status that a message gives to its case
abbrev pub status_of : Identity → Status
status_of acting =
    if same_type acting.party user || same_type acting.party guest then waiting else recognised

abbrev pub after_message : Identity → Chat → Option Inquiry → Result ChatError Chat
after_message acting chat none = err not_found
after_message acting chat (some q) = ok (change_with_message chat q (status_of acting))

-- what the transaction reads outside the conversation: the users of its parties, the peer, the recent
-- activity of the sender, conversationAudience, and who takes a notice
pub record Surroundings : Type 0 where
  pub parties : List String
  pub peer : Peer
  pub recent : Recent
  pub audience : Result ChatError (List String)
  pub wanted : String → Bool

-- saveMessage, with the identifier of the message and the clock
unfoldable pub save_message :
    Participant
    → Chat
    → SendInput
    → Identity
    → String
    → Surroundings
    → String
    → Time
    → Result ChatError Chat
unfolding insert_message change_with_message notify_message
save_message u chat input acting hash around id now = do
  fits ← photos_fit around.recent input.photos
  let c = chat.conversation
  let m = new_message u c input acting hash id
  inserted ← insert_message chat m
  let saved : Chat = record inserted {
    conversation = record c {
      last_sequence = c.last_sequence + 1;
      last_message = id;
      last_message_at = now;
    };
  }
  changed ← if is_dm c.kind then ok saved else after_message acting saved saved.case
  reached ← around.audience
  ok (
      after_commit (changed_event c.id (c.last_sequence + 1) "message" reached)
        (notify_message around.wanted reached m changed))
