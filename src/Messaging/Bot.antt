-- ===== src/Messaging/Bot.antt =====
-- Automatic replies: service/messaging/bot.go.
use musecat_backend_core.Prelude.{
  ◌+◌, String, Option, none, some, List, [], ◌∷◌, Bool, true, false, not, ◌&&◌, ◌||◌, if◌then◌else◌,
  str_eq, Result, ok, err, ◌>>=◌,
}
use musecat_backend_core.Prelude.Text.{trim_space, concat}
use musecat_backend_core.Xp.Kinds.{Time}
use musecat_backend_core.Xp.Kinds.Decimal.{format_int}
use musecat_backend_core.Messaging.Rows.{
  Participant, BotChoice, BotNode, BotConfig, BotState, Message, Inquiry, Conversation, Chat, Photo,
  changed_event, after_commit, ChatError, bad_request, internal,
}
use musecat_backend_core.Messaging.Input.{BotSelection, SendInput, is_empty}
use musecat_backend_core.Messaging.Insert.{insert_message}
use musecat_backend_core.Messaging.Policy.{requests}

abbrev pub find_node : String → List BotNode → Option BotNode
find_node id [] = none
find_node id (n ∷ ns) = let rest = find_node id ns in if str_eq n.id id then some n else rest

abbrev pub has_choices : Option BotNode → Bool
has_choices none = false
has_choices (some n) = not (is_empty n.choices)

-- canRestartBot
unfoldable pub can_restart_bot : Conversation → Inquiry → Bool
can_restart_bot c q =
    let state = q.bot_state in
    if str_eq state.message_id ""
      || not (str_eq c.last_message state.message_id)
      || str_eq state.node state.config.start
    then false
    else has_choices (find_node state.config.start state.config.nodes)

-- the choice of a node that the message selects
abbrev pub chosen : String → String → List Photo → List BotChoice → Option String
chosen id text photos [] = none
chosen id text photos (c ∷ cs) =
    let rest = chosen id text photos cs in
    if str_eq c.id id && str_eq (trim_space c.label) text && is_empty photos
    then some c.next
    else rest

abbrev pub or_else : Option String → Option String → Option String
or_else none later = later
or_else (some next) later = some next

-- the loop over the nodes of the state
abbrev pub chosen_next : String → String → String → List Photo → List BotNode → Option String
chosen_next node id text photos [] = none
chosen_next node id text photos (n ∷ ns) =
    let rest = chosen_next node id text photos ns in
    if str_eq n.id node then or_else (chosen id text photos n.choices) rest else rest

abbrev valid_label : String → Bool
valid_label text = str_eq text "처음으로 돌아가기" || str_eq text "Back to the start" || str_eq text "最初に戻る"

abbrev pub or_invalid : BotState → Option String → Result ChatError (BotState × String)
or_invalid state none = err bad_request
or_invalid state (some next) = ok (state, next)

abbrev pub restart_refused : Conversation → Inquiry → Participant → SendInput → BotSelection → Bool
restart_refused c q u input choice =
    not (requests u q)
    || not (can_restart_bot c q)
    || not (str_eq q.bot_state.message_id choice.message_id)
    || not (valid_label input.text)
    || not (is_empty input.photos)

abbrev pub choice_refused : Inquiry → Participant → BotSelection → Bool
choice_refused q u choice =
    not (requests u q)
    || not q.bot_state.active
    || not (str_eq q.bot_state.message_id choice.message_id)

abbrev pub select_reply :
    Conversation
    → Inquiry
    → Participant
    → SendInput
    → Option BotSelection
    → Result ChatError (BotState × String)
select_reply c q u input none = ok (q.bot_state, "")
select_reply c q u input (some choice) =
    let state = q.bot_state in
    if str_eq choice.choice_id "__restart"
    then if restart_refused c q u input choice
      then err bad_request
      else ok (state, state.config.start)
    else if choice_refused q u choice
    then err bad_request
    else or_invalid state
        (chosen_next state.node choice.choice_id input.text input.photos state.config.nodes)

-- botTransition: the state of the replies and the node to reply with, or ""
unfoldable pub bot_transition :
    Conversation → Inquiry → Participant → SendInput → Result ChatError (BotState × String)
unfolding can_restart_bot
bot_transition c q u input = select_reply c q u input input.bot_choice

-- the key of a reply without a request key
abbrev pub reply_key : Conversation → String → String
reply_key c key =
    if str_eq key ""
    then concat "bot:" (concat c.id (concat ":" (format_int (c.last_sequence + 1))))
    else key

abbrev pub reply_message : Conversation → Inquiry → BotNode → String → String → String → Message
reply_message c q node key hash id = record {
  id = id;
  sequence = c.last_sequence + 1;
  sender_user = "";
  sender_guest = "";
  acting = q.inbox;
  client_message_id = reply_key c key;
  payload_hash = hash;
  text = node.text;
  mentions = [];
  photos = [];
  automated = true;
  bot_choices = node.choices;
  status_change = none;
}

-- the write of bot_state: saving a row writes its changed columns only, whatever the copy holds in others
unfoldable pub set_bot_state : BotState → Option Inquiry → Option Inquiry
set_bot_state state none = none
set_bot_state state (some q) = some (record q { bot_state = state })

abbrev pub append_node :
    Chat
    → Inquiry
    → BotConfig
    → String
    → String
    → String
    → String
    → Time
    → Result ChatError (List String)
    → Option BotNode
    → Result ChatError Chat
append_node chat q config node_id key hash id now audience none = err internal
append_node chat q config node_id key hash id now audience (some node) = do
  let c = chat.conversation
  after ← insert_message chat (reply_message c q node key hash id)
  reached ← audience
  ok (
      after_commit (changed_event c.id (c.last_sequence + 1) "message" reached) (record after {
        conversation = record c {
          last_sequence = c.last_sequence + 1;
          last_message = id;
          last_message_at = now;
        };
        case =
            set_bot_state
              (record {
                config = config;
                node = node_id;
                message_id = id;
                active = not (is_empty node.choices);
              })
              after.case;
      }))

-- appendBotReply, with the copy `q` of the case that the caller holds, the identifier of the new
-- message, the clock and the audience of the conversation
unfoldable pub append_bot_reply :
    Chat
    → Inquiry
    → BotConfig
    → String
    → String
    → String
    → String
    → Time
    → Result ChatError (List String)
    → Result ChatError Chat
unfolding insert_message set_bot_state
append_bot_reply chat q config node_id key hash id now audience =
    append_node chat q config node_id key hash id now audience (find_node node_id config.nodes)
