-- ===== src/Messaging/Insert.antt =====
-- The table messaging_message of one conversation: record and existingRetry of
-- service/messaging/write.go, with the unique indexes idx_messaging_sequence and idx_messaging_retry of
-- service/messaging/schema.go.
use musecat_backend_core.Prelude.{
  String, Option, none, some, List, [], ◌∷◌, Bool, not, ◌&&◌, ◌||◌, any, ◌==◌, if◌then◌else◌,
  str_eq, Result, ok, err,
}
use musecat_backend_core.Messaging.Rows.{Message, Chat, ChatError, internal}

-- whether the user wrote the message with that key
abbrev pub is_retry : String → String → Message → Bool
is_retry user key m =
    (str_eq m.sender_user user || str_eq m.sender_guest user) && str_eq m.client_message_id key

abbrev pub first_retry : String → String → List Message → Option Message
first_retry user key [] = none
first_retry user key (m ∷ ms) =
    let rest = first_retry user key ms in if is_retry user key m then some m else rest

-- existingRetry
unfoldable pub existing_retry : Chat → String → String → Option Message
existing_retry chat user key = first_retry user key chat.messages

-- whether the two rows are equal for idx_messaging_retry, which leaves out rows without a sender
abbrev pub same_retry : Message → Message → Bool
same_retry m n =
    not (str_eq m.sender_user "" && str_eq m.sender_guest "")
    && str_eq m.sender_user n.sender_user
    && str_eq m.sender_guest n.sender_guest
    && str_eq m.client_message_id n.client_message_id

abbrev pub is_taken : Message → List Message → Bool
is_taken m rows = any (λ n. (m.sequence == n.sequence) || same_retry m n) rows

-- record for a message: the store refuses a row that an index has
unfoldable pub insert_message : Chat → Message → Result ChatError Chat
insert_message chat m =
    if is_taken m chat.messages
    then err internal
    else ok (record chat { messages = m ∷ chat.messages })
