-- ===== src/Messaging/Rows.antt =====
-- The rows of a conversation: messaging_conversation, messaging_inquiry, messaging_message and
-- messaging_read, and the identities of service/messaging/types.go and principal.go.
use musecat_backend_core.Prelude.{ℕ, String, Option, List, ◌∷◌, Bool, true, false, ◌&&◌, str_eq}
use musecat_backend_core.Xp.Kinds.{Time}

pub data PartyType : Type 0 where
  user guest team arcade : PartyType

abbrev pub same_type : PartyType → PartyType → Bool
same_type user user = true
same_type guest guest = true
same_type team team = true
same_type arcade arcade = true
same_type _ _ = false

-- Identity
pub record Identity : Type 0 where
  pub party : PartyType
  pub id : String

abbrev pub same_identity : Identity → Identity → Bool
same_identity a b = same_type a.party b.party && str_eq a.id b.id

-- participant: who asks, as Principal.resolve returns it; `staff` and `official` are what IsStaff and
-- IsOfficial of service/supportfeedback say of the account for the conversation's inbox
pub record Participant : Type 0 where
  pub id : String
  pub party : PartyType
  pub guest_hash : String
  pub staff : Bool
  pub official : Bool

pub data Kind : Type 0 where
  dm inquiry : Kind

pub data Status : Type 0 where
  waiting recognised solved : Status

abbrev pub same_status : Status → Status → Bool
same_status waiting waiting = true
same_status recognised recognised = true
same_status solved solved = true
same_status _ _ = false

-- BotChoice, BotNode and BotConfig
pub record BotChoice : Type 0 where
  pub id : String
  pub label : String
  pub next : String

pub record BotNode : Type 0 where
  pub id : String
  pub text : String
  pub choices : List BotChoice

pub record BotConfig : Type 0 where
  pub enabled : Bool
  pub start : String
  pub nodes : List BotNode

-- botState
pub record BotState : Type 0 where
  pub config : BotConfig
  pub node : String
  pub message_id : String
  pub active : Bool

-- InquiryStatusChange
pub record StatusChange : Type 0 where
  pub before : Status
  pub after : Status

-- a row of messaging_conversation
pub record Conversation : Type 0 where
  pub id : String
  pub kind : Kind
  pub last_sequence : ℕ
  pub last_message : String
  pub last_message_at : Time

-- a row of messaging_inquiry
pub record Inquiry : Type 0 where
  pub requester : String
  pub requester_type : PartyType
  pub guest_key_hash : String
  pub inbox : Identity
  pub status : Status
  pub bot_state : BotState

-- an uploaded file: whether it is there and opens, its declared size, what the type detection says of it,
-- the bytes it holds and their digest
pub record Photo : Type 0 where
  pub present : Bool
  pub opens : Bool
  pub size : ℕ
  pub mime : String
  pub bytes : ℕ
  pub digest : String

-- a row of messaging_message
pub record Message : Type 0 where
  pub id : String
  pub sequence : ℕ
  pub sender_user : String
  pub sender_guest : String
  pub acting : Identity
  pub client_message_id : String
  pub payload_hash : String
  pub text : String
  pub mentions : List String
  pub photos : List Photo
  pub automated : Bool
  pub bot_choices : List BotChoice
  pub status_change : Option StatusChange

-- a row of messaging_read
pub record Read : Type 0 where
  pub user : String
  pub last_read_sequence : ℕ

-- a row of user_notification of the kind message, with the sequence of its message
pub record Notice : Type 0 where
  pub user : String
  pub sequence : ℕ
  pub read : Bool

-- Event
pub record Event : Type 0 where
  pub audience : List String
  pub name : String
  pub id : String
  pub latest_sequence : ℕ
  pub last_read_sequence : ℕ
  pub reason : String
  pub user_id : String

-- conversation.changed for an audience
abbrev pub changed_event : String → ℕ → String → List String → Event
changed_event id sequence reason audience = record {
  audience = audience;
  name = "conversation.changed";
  id = id;
  latest_sequence = sequence;
  last_read_sequence = 0;
  reason = reason;
  user_id = "";
}

-- The rows of one conversation, its messages from the newest to the oldest, its notices, and
-- the events that afterCommit publishes once the transaction is committed, the last one first.
pub record Chat : Type 0 where
  pub conversation : Conversation
  pub case : Option Inquiry
  pub messages : List Message
  pub reads : List Read
  pub notices : List Notice
  pub events : List Event

pub data ChatError : Type 0 where
  bad_request unauthorized forbidden not_found conflict too_large too_many internal : ChatError

-- afterCommit
abbrev pub after_commit : Event → Chat → Chat
after_commit event chat = record chat { events = event ∷ chat.events }
