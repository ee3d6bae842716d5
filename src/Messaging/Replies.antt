-- ===== src/Messaging/Replies.antt =====
-- Automatic replies always find their node: what BotConfig.Validate is for.
use musecat_backend_core.Prelude.{
  ℕ, ◌<◌, ◌≡◌, refl, arith, inl, inr, String, Option, none, some, List, [], ◌∷◌, true, false, not,
  if◌then◌else◌, ◌+◌, ◌||◌, str_eq, ◌==◌, Result, ok, ◌>>=◌, >>=-Ensures, Ensures, of_Ensures,
  length, Bool-cases,
}
use musecat_backend_core.Xp.Kinds.{Time}
use musecat_backend_core.Messaging.Rows.{
  Participant, Kind, dm, inquiry, BotState, BotConfig, BotNode, Inquiry, Message, Chat, ChatError,
}
use musecat_backend_core.Messaging.Input.{BotSelection, SendInput, is_empty}
use musecat_backend_core.Messaging.Insert.{insert_message, is_taken, same_retry}
use musecat_backend_core.Messaging.BotConfig.{validate}
use musecat_backend_core.Messaging.Bot.{
  bot_transition, append_bot_reply, append_node, reply_message, set_bot_state, find_node,
}
use musecat_backend_core.Messaging.Send.{Reply, reply_of, settle_bot, dm_reply, case_reply}
use musecat_backend_core.Messaging.Sound.{IsSound, IsNumbered}
use musecat_backend_core.Messaging.Answers.{IsAnswer, select_reply-IsAnswer}

fresh-is_taken :
    (m : Message) (ms : List Message)
    → m.sender_user ≡ ""
    → m.sender_guest ≡ ""
    → IsNumbered ms
    → length ms < m.sequence
    → is_taken m ms ≡ false
fresh-is_taken m [] no_user no_guest numbered later = refl
fresh-is_taken m (n ∷ ns) no_user no_guest (here, there) later =
    let older : length ns < m.sequence = omega (arith, later) in
    let other : (m.sequence == n.sequence) ≡ false = ground (arith, here, later) in
    let apart : ((m.sequence == n.sequence) || same_retry m n) ≡ false =
      rw (other, no_user, no_guest) refl in
    rw apart (fresh-is_taken m ns no_user no_guest there older)

then-succeeds :
    {X Y : Type 0} (first : Result ChatError X) (f : X → Y) (x : X)
    → first ≡ ok x
    → (first >>= λ (a : X). ok (f a)) ≡ ok (f x)
then-succeeds first f x e = rw e refl

-- the newest message is the reply of a node: its text and choices under the next number, from no user or guest and
-- for the inbox of the case, and the case waits for a choice of that message if there are any
pub record IsReplied (before : Chat) (q : Inquiry) (config : BotConfig) (next id : String)
    (after : Chat) : Type 0 where
  pub node : BotNode
  pub found : find_node next config.nodes ≡ some node
  pub message : Message
  pub messages : after.messages ≡ message ∷ before.messages
  pub text : message.text ≡ node.text
  pub choices : message.bot_choices ≡ node.choices
  pub automated : message.automated ≡ true
  pub unsent : (message.sender_user ≡ "") × (message.sender_guest ≡ "") × (message.acting ≡ q.inbox)
  pub number : message.sequence ≡ before.conversation.last_sequence + 1
  pub counted : after.conversation.last_sequence ≡ message.sequence
  pub newest : (message.id ≡ id) × (after.conversation.last_message ≡ id)
  pub waits :
      after.case
      ≡ set_bot_state
          (record {
            config = config;
            node = next;
            message_id = id;
            active = not (is_empty node.choices);
          })
          before.case

-- no reply: the messages stay, and the replies of the case end
pub record IsQuiet (before : Chat) (state : BotState) (after : Chat) : Type 0 where
  pub messages : after.messages ≡ before.messages
  pub conversation : after.conversation ≡ before.conversation
  pub case : after.case ≡ (
      if state.active
      then set_bot_state (record state { active = false }) before.case
      else before.case)

-- what the end of a transaction makes of the rows with the message: a chosen reply is added, and without a choice the
-- replies of a case end
abbrev pub IsSettledTo : Option BotSelection → Chat → String → Option Reply → Chat → Type 0
IsSettledTo choice before id none after = after ≡ before
IsSettledTo none before id (some (q, state, next)) after = IsQuiet before state after
IsSettledTo (some _) before id (some (q, state, next)) after =
    IsReplied before q state.config next id after

abbrev IsSettled : Option BotSelection → Chat → String → Time → List String → Option Reply → Type 0
IsSettled choice saved id now reached reply =
    (after : Chat) × (settle_bot saved id now (ok reached) reply ≡ ok after)
    × IsSettledTo choice saved id reply after

-- a reply is appended to sound rows
append_node-IsReplied :
    (chat : Chat) (q : Inquiry) (config : BotConfig) (node_id id : String) (now : Time)
    (reached : List String) (node : BotNode)
    → IsSound chat
    → find_node node_id config.nodes ≡ some node
    → (after : Chat) × (append_node chat q config node_id "" "" id now (ok reached) (some node)
        ≡ ok after)
      × IsReplied chat q config node_id id after
unfolding insert_message
append_node-IsReplied chat q config node_id id now reached node s found =
    let m = reply_message chat.conversation q node "" "" id in
    let free = fresh-is_taken m chat.messages refl refl s.numbered (omega (arith, s.counted)) in
    (
      _,
      then-succeeds (insert_message chat m) _ (record chat { messages = m ∷ chat.messages })
          (rw free refl),
      record {
        node = node;
        found = found;
        message = m;
        messages = refl;
        text = refl;
        choices = refl;
        automated = refl;
        unsent = (refl, refl, refl);
        number = refl;
        counted = refl;
        newest = (refl, refl);
        waits = refl;
      },
    )

quiet-IsSettled :
    (saved : Chat) (id : String) (now : Time) (reached : List String) (q : Inquiry)
    (state : BotState) (next : String)
    → str_eq next "" ≡ true
    → IsSettled none saved id now reached (some (q, state, next))
quiet-IsSettled saved id now reached q state next e = elim (Bool-cases state.active) [
  | inl a ↦ (
    record saved { case = set_bot_state (record state { active = false }) saved.case },
    rw (e, a) refl,
    record { messages = refl; conversation = refl; case = rw a refl },
  )
  | inr a ↦
      (saved, rw (e, a) refl, record { messages = refl; conversation = refl; case = rw a refl })
]

answered-IsSettled :
    (choice : Option BotSelection) (saved : Chat) (id : String) (now : Time) (reached : List String)
    (q : Inquiry) (answer : BotState × String)
    → IsSound saved
    → IsAnswer choice answer
    → IsSettled choice saved id now reached (some (q, answer.0, answer.1))
unfolding append_bot_reply
answered-IsSettled none saved id now reached q answer s quiet =
    quiet-IsSettled saved id now reached q answer.0 answer.1 quiet
answered-IsSettled (some _) saved id now reached q answer s ((node, found), named) =
    let (after, done, replied) =
      append_node-IsReplied saved q answer.0.config answer.1 id now reached node s found in
    (after, rw (named, found) done, replied)

-- the configuration that a case keeps has passed Validate
abbrev pub HasValidBot : (BotConfig → ℕ) → Option Inquiry → Type 0
HasValidBot size none = Unit
HasValidBot size (some q) = validate size q.bot_state.config ≡ ok tt

dm_reply-IsSettled :
    (saved : Chat) (id : String) (now : Time) (reached : List String) (choice : Option BotSelection)
    → Ensures (IsSettled choice saved id now reached) (dm_reply choice)
dm_reply-IsSettled saved id now reached none = (saved, refl, refl)
dm_reply-IsSettled saved id now reached (some choice) = tt

case_reply-IsSettled :
    (size : BotConfig → ℕ) (u : Participant) (chat saved : Chat) (input : SendInput)
    (case : Option Inquiry) (id : String) (now : Time) (reached : List String)
    → HasValidBot size case
    → IsSound saved
    → Ensures (IsSettled input.bot_choice saved id now reached) (case_reply u chat input case)
unfolding bot_transition
case_reply-IsSettled size u chat saved input none id now reached valid s = tt
case_reply-IsSettled size u chat saved input (some q) id now reached valid s =
    >>=-Ensures (IsSettled input.bot_choice saved id now reached)
      (bot_transition chat.conversation q u input) _
      (λ moved h. answered-IsSettled input.bot_choice saved id now reached q moved s (
        of_Ensures (IsAnswer input.bot_choice) _
          (select_reply-IsAnswer size chat.conversation q u input input.bot_choice valid) h))

reply_of-IsSettled :
    (size : BotConfig → ℕ) (u : Participant) (chat saved : Chat) (input : SendInput) (kind : Kind)
    (id : String) (now : Time) (reached : List String)
    → HasValidBot size chat.case
    → IsSound saved
    → Ensures (IsSettled input.bot_choice saved id now reached) (reply_of u chat input kind)
reply_of-IsSettled size u chat saved input dm id now reached valid s =
    dm_reply-IsSettled saved id now reached input.bot_choice
reply_of-IsSettled size u chat saved input inquiry id now reached valid s =
    case_reply-IsSettled size u chat saved input chat.case id now reached valid s

-- Once a message is accepted in a conversation, its transaction does not fail on the automatic replies, and writes them. If
-- the configuration of the case has passed Validate, the choice of the message, if there is one, was accepted, the
-- rows with the message are sound and the audience can be read, then after a choice the node that the transition
-- names is one of the configuration and its reply is added as the newest message; without a choice no message is added
-- and the replies of the case end, and in a direct conversation nothing changes.
pub settle_bot_succeeds :
    (size : BotConfig → ℕ) (u : Participant) (chat saved : Chat) (input : SendInput) (id : String)
    (now : Time) (reached : List String) (reply : Option Reply)
    → HasValidBot size chat.case
    → IsSound saved
    → reply_of u chat input chat.conversation.kind ≡ ok reply
    → (after : Chat) × (settle_bot saved id now (ok reached) reply ≡ ok after)
      × IsSettledTo input.bot_choice saved id reply after
settle_bot_succeeds size u chat saved input id now reached reply valid s h =
    of_Ensures (IsSettled input.bot_choice saved id now reached) _
      (reply_of-IsSettled size u chat saved input chat.conversation.kind id now reached valid s) h
