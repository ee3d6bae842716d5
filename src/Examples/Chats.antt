-- ===== src/Examples/Chats.antt =====
-- A conversation with the automatic replies of an arcade, and the hub with two events.
use musecat_backend_core.Prelude.{
  ℕ, String, none, some, [], ◌∷◌, true, false, ◌≡◌, refl, Result, ok, err,
}
use musecat_backend_core.Prelude.Int.{pos}
use musecat_backend_core.Prelude.Text.{trim_space}
use musecat_backend_core.Prelude.Text.Measure.{rune_count, byte_count}
use musecat_backend_core.Messaging.Rows.{
  user, arcade, Participant, inquiry, waiting, recognised, BotChoice, BotConfig, Inquiry, Message,
  Chat, ChatError,
}
use musecat_backend_core.Messaging.Input.{SendInput, Payload, plain, mentioning, choosing}
use musecat_backend_core.Messaging.Policy.{requests}
use musecat_backend_core.Messaging.BotConfig.{validate}
use musecat_backend_core.Messaging.Bot.{bot_transition}
use musecat_backend_core.Messaging.Write.{Surroundings}
use musecat_backend_core.Messaging.Send.{Sent, send_for, Reply, settle_bot}
use musecat_backend_core.Messaging.Actions.{set_read, set_status}
use musecat_backend_core.Messaging.Sound.{IsSound}
use musecat_backend_core.Messaging.Reached.{
  IsNew, ChatReached, opened, sent, moved, ChatReached-IsSound,
}
use musecat_backend_core.Messaging.Resend.{send_for_again}
use musecat_backend_core.Messaging.Permits.{IsOwn, send_for-IsOwn}
use musecat_backend_core.Messaging.Replies.{IsSettledTo, settle_bot_succeeds}
use musecat_backend_core.Messaging.Positions.{IsMoved, set_read_lem}

abbrev text_digest : Payload → String
text_digest (plain text hashes) = text
text_digest (mentioning text hashes mentions) = text
text_digest (choosing p choice) = text_digest p

abbrev alice : Participant
alice = record { id = "alice"; party = user; guest_hash = ""; staff = false; official = false }

abbrev manager : Participant
manager = record { id = "mia"; party = user; guest_hash = ""; staff = false; official = true }

abbrev hours_choice : BotChoice
hours_choice = record { id = "hours"; label = "Hours"; next = "hours" }

abbrev replies : BotConfig
replies = record {
  enabled = true;
  start = "welcome";
  nodes =
      record { id = "welcome"; text = "Hello"; choices = hours_choice ∷ [] }
      ∷ record { id = "hours"; text = "10 to 24"; choices = [] }
      ∷ [];
}

abbrev alice_case : Inquiry
alice_case = record {
  requester = "alice";
  requester_type = user;
  guest_key_hash = "";
  inbox = record { party = arcade; id = "a1" };
  status = waiting;
  bot_state = record { config = replies; node = "welcome"; message_id = "b1"; active = true };
}

abbrev new_chat : Chat
new_chat = record {
  conversation = record {
    id = "c1";
    kind = inquiry;
    last_sequence = 0;
    last_message = "";
    last_message_at = 0;
  };
  case = some alice_case;
  messages = [];
  reads = [];
  notices = [];
  events = [];
}

abbrev around : Surroundings
around = record {
  parties = [];
  peer = record { id = none; reach = record { receives = false; active = false; blocks = [] } };
  recent = record { messages = 0; messages_here = 0; photos = 0 };
  audience = ok ("alice" ∷ "mia" ∷ []);
  wanted = λ id. true;
}

abbrev hours_input : SendInput
hours_input = record {
  bot_choice = some (record { message_id = "b1"; choice_id = "hours" });
  legacy_original = false;
  text = " Hours ";
  mentions = [];
  client_message_id = "k1";
  acting_as = none;
  photos = [];
}

abbrev hours_message : Message
hours_message = record {
  id = "m1";
  sequence = 1;
  sender_user = "alice";
  sender_guest = "";
  acting = record { party = user; id = "alice" };
  client_message_id = "k1";
  payload_hash = "Hours";
  text = "Hours";
  mentions = [];
  photos = [];
  automated = false;
  bot_choices = [];
  status_change = none;
}

abbrev chat_of : Result ChatError Sent → Chat
chat_of (ok answer) = answer.0
chat_of (err why) = new_chat

-- the rows after the message of alice and its reply
abbrev answered : Chat
answered = chat_of (send_for text_digest alice new_chat hours_input around "m1" "m2" 5)

answered_run :
    send_for text_digest alice new_chat hours_input around "m1" "m2" 5
    ≡ ok (answered, hours_message, false)
unfolding send_for trim_space rune_count byte_count
answered_run = refl

abbrev or_new_chat : Result ChatError Chat → Chat
or_new_chat (ok chat) = chat
or_new_chat (err why) = new_chat

-- the rows after the manager recognises the case
abbrev handled : Chat
handled = or_new_chat (set_status manager answered recognised around (λ id. true) "m3")

handled_run : set_status manager answered recognised around (λ id. true) "m3" ≡ ok handled
unfolding set_status send_for trim_space rune_count byte_count
handled_run = refl

new_chat-IsNew : IsNew new_chat
new_chat-IsNew = record { counted = refl; messages = refl; reads = refl; case = refl }

handled-ChatReached : ChatReached text_digest handled
handled-ChatReached =
    moved manager answered handled recognised around (λ id. true) "m3"
      (sent alice new_chat hours_input around "m1" "m2" 5 (answered, hours_message, false)
        (opened new_chat new_chat-IsNew) answered_run)
      handled_run

ChatReached-IsSound_example : IsSound handled
ChatReached-IsSound_example = ChatReached-IsSound text_digest handled handled-ChatReached

answered-IsSound : IsSound answered
answered-IsSound = ChatReached-IsSound text_digest answered (
    sent alice new_chat hours_input around "m1" "m2" 5 (answered, hours_message, false)
      (opened new_chat new_chat-IsNew) answered_run)

send_for_again_example :
    send_for text_digest alice answered hours_input around "m8" "m9" 70
    ≡ ok (answered, hours_message, true)
send_for_again_example =
    send_for_again text_digest alice new_chat answered hours_input around around "m1" "m8" "m2" "m9"
      5 70 hours_message false refl refl answered_run

send_for-IsOwn_example : IsOwn alice new_chat around.peer "k1" hours_message
send_for-IsOwn_example =
    send_for-IsOwn text_digest alice new_chat answered hours_input around "m1" "m2" 5 hours_message
      answered_run

abbrev hours_kept : SendInput
hours_kept = record hours_input { text = "Hours" }

abbrev hours_reply : Reply
hours_reply = (alice_case, alice_case.bot_state, "hours")

settle_bot_succeeds_example :
    (after : Chat) × (settle_bot answered "m4" 6 (ok ("alice" ∷ [])) (some hours_reply) ≡ ok after)
    × IsSettledTo hours_kept.bot_choice answered "m4" (some hours_reply) after
unfolding validate bot_transition requests trim_space rune_count byte_count
settle_bot_succeeds_example =
    settle_bot_succeeds (λ config. 100) alice new_chat answered hours_kept "m4" 6 ("alice" ∷ [])
      (some hours_reply) refl answered-IsSound refl

abbrev position_of : Result ChatError (Chat × ℕ) → Chat × ℕ
position_of (ok answer) = answer
position_of (err why) = (new_chat, 0)

abbrev seen : Chat × ℕ
seen = position_of (set_read alice answered (pos 1) around)

set_read_lem_example : IsMoved "alice" 1 answered seen
unfolding set_read send_for trim_space rune_count byte_count
set_read_lem_example = set_read_lem alice answered 1 around seen refl
