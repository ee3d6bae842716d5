-- ===== src/Messaging/Create.antt =====
-- The creation of an inquiry: the branch of CreateFor in service/messaging/write.go for inquiries.
use musecat_backend_core.Prelude.{
  ℕ, String, Option, none, some, List, [], Bool, true, false, not, ◌||◌, if◌then◌else◌, str_eq,
  Result, ok, err, ◌>>=◌,
}
use musecat_backend_core.Xp.Kinds.{Time}
use musecat_backend_core.Messaging.Rows.{
  PartyType, arcade, Identity, Participant, inquiry, waiting, BotConfig, BotState, Message, Inquiry,
  Chat, ChatError, bad_request, not_found, conflict,
}
use musecat_backend_core.Messaging.Input.{
  BotSelection, SendInput, input_hash, validate_mentions, rate_limit,
}
use musecat_backend_core.Messaging.Bot.{append_bot_reply, bot_transition, set_bot_state}
use musecat_backend_core.Messaging.Write.{Surroundings, save_message}
use musecat_backend_core.Messaging.Send.{demand}
use musecat_backend_core.Messaging.InquiryBot.{CreateInput, ArcadeInbox, Codes, no_bot, inquiry_bot}
use musecat_backend_core.Messaging.Earlier.{known_inbox, earlier, of_earlier, may_inquire}

abbrev pub no_state : BotState
no_state = record { config = no_bot; node = ""; message_id = ""; active = false }

-- the rows of a new conversation, before its first message
abbrev pub new_inquiry : Participant → Identity → String → Chat
new_inquiry u inbox id = record {
  conversation = record {
    id = id;
    kind = inquiry;
    last_sequence = 0;
    last_message = "";
    last_message_at = 0;
  };
  case = some (record {
    requester = u.id;
    requester_type = u.party;
    guest_key_hash = u.guest_hash;
    inbox = inbox;
    status = waiting;
    bot_state = no_state;
  });
  messages = [];
  reads = [];
  notices = [];
  events = [];
}

-- the identifiers of the conversation and of its messages, which the store gives, and the clock
pub record Stamps : Type 0 where
  pub conversation : String
  pub opening : String
  pub message : String
  pub reply : String
  pub now : Time

abbrev pub with_case :
    Chat → Option Inquiry → (Inquiry → Result ChatError Chat) → Result ChatError Chat
with_case chat none next = err not_found
with_case chat (some q) next = next q

-- the opening reply
abbrev pub open_bot :
    Chat → BotConfig → String → String → Surroundings → Stamps → Result ChatError Chat
open_bot chat cfg key hash around stamps =
    if cfg.enabled
    then with_case chat chat.case (λ q.
      append_bot_reply chat q cfg cfg.start key hash stamps.opening stamps.now around.audience)
    else ok chat

abbrev pub case_step :
    Participant → Chat → SendInput → Option Inquiry → Result ChatError (BotState × String)
case_step u chat input none = err not_found
case_step u chat input (some q) = bot_transition chat.conversation q u input

-- the choice that the request makes at once: the node of its reply, or ""
abbrev pub initial_step :
    Participant → Chat → CreateInput → SendInput → BotConfig → Result ChatError (BotState × String)
initial_step u chat input message cfg =
    if str_eq input.initial_choice ""
    then ok (no_state, "")
    else if not cfg.enabled || str_eq input.initial_choice "__restart"
    then err bad_request
    else case_step u chat
        (record message {
          bot_choice = some (record {
            message_id = chat.conversation.last_message;
            choice_id = input.initial_choice;
          });
        })
        chat.case

abbrev pub stop_bot : Chat → Option Inquiry → Chat
stop_bot chat none = chat
stop_bot chat (some q) = record chat {
  case = set_bot_state (record q.bot_state { active = false }) chat.case;
}

-- the end of the transaction: the reply to the choice, or the end of the replies
abbrev pub finish_bot :
    Chat → BotConfig → BotState → String → Surroundings → Stamps → Result ChatError Chat
finish_bot chat cfg state next around stamps =
    if not (str_eq next "")
    then with_case chat chat.case (λ q.
      append_bot_reply chat q state.config next "" "" stamps.reply stamps.now around.audience)
    else if cfg.enabled
    then ok (stop_bot chat chat.case)
    else ok chat

-- the conversation of a new request
unfoldable pub start_inquiry :
    Codes
    → Participant
    → CreateInput
    → SendInput
    → String
    → Option ArcadeInbox
    → Surroundings
    → Stamps
    → Result ChatError Chat
unfolding inquiry_bot append_bot_reply bot_transition save_message set_bot_state
start_inquiry codes u input message hash place around stamps = do
  cfg ← inquiry_bot codes.encoded_size input place
  known ←
      demand conflict
        (str_eq input.bot_revision "" || str_eq input.bot_revision (codes.revision cfg))
  opened ←
      open_bot (new_inquiry u input.inbox stamps.conversation) cfg
        (codes.request_key u.id message.client_message_id) hash around stamps
  step ← initial_step u opened input message cfg
  let own : Identity = record { party = u.party; id = u.id }
  saved ← save_message u opened message own hash around stamps.message stamps.now
  finish_bot saved cfg step.0 step.1 around stamps

abbrev pub answer_earlier :
    Participant
    → CreateInput
    → String
    → Option (Chat × Message)
    → Result ChatError Chat
    → Result ChatError Chat
answer_earlier u input hash none fresh = fresh
answer_earlier u input hash (some found) fresh =
    of_earlier u input hash found.1 found.0 found.0.case

abbrev pub place_check : Participant → PartyType → Option ArcadeInbox → Result ChatError Unit
place_check u arcade place = may_inquire u place
place_check u _ place = ok tt

abbrev pub has_no_choice : Option BotSelection → Bool
has_no_choice none = true
has_no_choice (some _) = false

-- the hash of a request, with the context if there is one
abbrev pub request_hash : Codes → CreateInput → String → String
request_hash codes input hash =
    if str_eq input.inquiry_context "" then hash else codes.context_digest input hash

-- CreateFor for an inquiry of a viewer that is resolved: the conversation, new or of an earlier request; `recent`
-- is the number of conversations of the last minute
unfoldable pub create_inquiry :
    Codes
    → List Chat
    → Participant
    → CreateInput
    → Option ArcadeInbox
    → Surroundings
    → ℕ
    → Stamps
    → Result ChatError Chat
unfolding input_hash validate_mentions rate_limit earlier start_inquiry
create_inquiry codes chats u input place around recent stamps = do
  plain ← demand bad_request (has_no_choice input.initial_message.bot_choice)
  mentions ← validate_mentions inquiry input.inbox.party input.initial_message.mentions
  checked ← input_hash codes.digest input.initial_message
  let hash = request_hash codes input checked.1
  inbox ← demand bad_request (known_inbox input.inbox)
  let key = checked.0.client_message_id
  answer_earlier u input hash (earlier u key (codes.request_key u.id key) chats) (
      place_check u input.inbox.party place >>= λ (allowed : Unit).
      rate_limit 10 recent >>= λ (room : Unit).
      start_inquiry codes u input checked.0 hash place around stamps)
