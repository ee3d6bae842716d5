-- ===== src/Messaging/Notices.antt =====
-- The notices of a message: notifyMessageTx of service/messaging/notification.go, and the part of SetReadFor
-- in service/messaging/write.go that reads them.
use musecat_backend_core.Prelude.{
  ℕ, String, List, [], ◌∷◌, ◌++◌, Bool, true, false, not, ◌&&◌, ◌||◌, any, leb, if◌then◌else◌,
  str_eq,
}
use musecat_backend_core.Messaging.Rows.{Notice, Message, Chat}

-- the loop over the audience, with the recipients found before; `wanted` says whether a user is active
-- (activeRecipients) and takes the message (notificationRecipient)
unfoldable pub recipients : (String → Bool) → String → List String → List String → List String
recipients wanted sender found [] = []
recipients wanted sender found (id ∷ ids) =
    let skipped = recipients wanted sender found ids in
    let kept = recipients wanted sender (id ∷ found) ids in
    if not (wanted id) || str_eq id sender || any (str_eq id) found then skipped else id ∷ kept

abbrev notices_for : ℕ → List String → List Notice
notices_for sequence [] = []
notices_for sequence (id ∷ ids) =
    record { user = id; sequence = sequence; read = false } ∷ notices_for sequence ids

-- notifyMessageTx
unfoldable pub notify_message : (String → Bool) → List String → Message → Chat → Chat
unfolding recipients
notify_message wanted audience m chat = record chat {
  notices = notices_for m.sequence (recipients wanted m.sender_user [] audience) ++ chat.notices;
}

-- the loop of SetReadFor over the notices up to the sequence
unfoldable pub read_notices : String → ℕ → List Notice → List Notice
read_notices user last [] = []
read_notices user last (n ∷ ns) =
    let rest = read_notices user last ns in
    if str_eq n.user user && leb n.sequence last then record n { read = true } ∷ rest else n ∷ rest
