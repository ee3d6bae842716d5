-- ===== src/Messaging/Found.antt =====
-- What a lookup of a message's key finds in the rows that the message leaves.
use musecat_backend_core.Prelude.{
  ◌≡◌, refl, arith, inl, inr, String, Option, none, some, List, ◌∷◌, true, false, not, str_eq,
  eq_refl, Result, >>=-Ensures, Ensures, if-Ensures, Bool-cases,
}
use musecat_backend_core.Xp.Kinds.{Time}
use musecat_backend_core.Messaging.Rows.{
  user, same_type, Identity, Participant, BotConfig, BotNode, Inquiry, Message, Chat, ChatError,
}
use musecat_backend_core.Messaging.Input.{SendInput}
use musecat_backend_core.Messaging.Insert.{first_retry, is_retry, existing_retry, insert_message}
use musecat_backend_core.Messaging.Bot.{append_bot_reply, append_node, reply_message}
use musecat_backend_core.Messaging.Send.{Sent, Reply, settle_bot, other_identity}
use musecat_backend_core.Messaging.Sound.{insert_message-eq-ok}
use musecat_backend_core.Messaging.Retry.{SameOwner, IsWritten, owner_of_state}

-- what a lookup of the key finds in the rows that a message leaves
pub record IsFound (u : Participant) (input : SendInput) (digest : String) (before : Chat)
    (sent : Sent) : Type 0 where
  pub found : existing_retry sent.0 u.id input.client_message_id ≡ some sent.1
  pub hash : str_eq sent.1.payload_hash digest ≡ true
  pub acting : other_identity input.acting_as sent.1 ≡ false
  pub kind : sent.0.conversation.kind ≡ before.conversation.kind
  pub owner : SameOwner before.case sent.0.case

pub is_retry-IsWritten :
    (u : Participant) (name digest : String) (sender : Identity) (m : Message)
    → IsWritten u name digest sender m
    → is_retry u.id name m ≡ true
is_retry-IsWritten u name digest sender m w = elim (Bool-cases (same_type u.party user)) [
  | inl e ↦ rw (w.user, w.guest, w.key, e, eq_refl u.id, eq_refl name) refl
  | inr e ↦ ground (arith, w.user, w.guest, w.key, e, eq_refl u.id, eq_refl name)
]

pub own_message-found :
    (u : Participant) (m : Message) (ms : List Message) (c : Chat) (name : String)
    → c.messages ≡ m ∷ ms
    → is_retry u.id name m ≡ true
    → existing_retry c u.id name ≡ some m
unfolding existing_retry
own_message-found u m ms c name rows own = rw (rows, own) refl

abbrev pub FoundIn : Participant → SendInput → String → Chat → Message → Chat → Type 0
FoundIn u input digest before m settled = IsFound u input digest before (settled, m, false)

later_reply :
    (u : Participant) (chat : Chat) (reply m : Message) (name : String)
    → str_eq "" u.id ≡ false
    → reply.sender_user ≡ ""
    → reply.sender_guest ≡ ""
    → existing_retry chat u.id name ≡ some m
    → first_retry u.id name (reply ∷ chat.messages) ≡ some m
unfolding existing_retry
later_reply u chat reply m name named no_user no_guest found = rw (no_user, no_guest, named) found

append_node-IsFound :
    (u : Participant) (chat : Chat) (q : Inquiry) (config : BotConfig) (node_id hash id : String)
    (now : Time) (audience : Result ChatError (List String)) (node : Option BotNode)
    (input : SendInput) (digest : String) (before : Chat) (m : Message)
    → str_eq "" u.id ≡ false
    → IsFound u input digest before (chat, m, false)
    → Ensures
        (FoundIn u input digest before m)
        (append_node chat q config node_id "" hash id now audience node)
unfolding existing_retry
append_node-IsFound u chat q config node_id hash id now audience none input digest before m named
      f =
    tt
append_node-IsFound u chat q config node_id hash id now audience (some node) input digest before m
      named f =
    let found = FoundIn u input digest before m in
    let reply = reply_message chat.conversation q node "" hash id in
    >>=-Ensures found (insert_message chat reply) _ (λ inserted ins.
      >>=-Ensures found audience _ (λ reached _.
        rw (insert_message-eq-ok chat inserted reply ins) (record {
          found = later_reply u chat reply m input.client_message_id named refl refl f.found;
          hash = f.hash;
          acting = f.acting;
          kind = f.kind;
          owner = owner_of_state before.case chat.case _ f.owner;
        })))

pub settle_bot-IsFound :
    (u : Participant) (chat : Chat) (id : String) (now : Time)
    (audience : Result ChatError (List String)) (reply : Option Reply) (input : SendInput)
    (digest : String) (before : Chat) (m : Message)
    → str_eq "" u.id ≡ false
    → IsFound u input digest before (chat, m, false)
    → Ensures (FoundIn u input digest before m) (settle_bot chat id now audience reply)
unfolding append_bot_reply existing_retry
settle_bot-IsFound u chat id now audience none input digest before m named f = f
settle_bot-IsFound u chat id now audience (some (q, state, next)) input digest before m named f =
    let found = FoundIn u input digest before m in
    if-Ensures found (not (str_eq next "")) _ _
      (append_node-IsFound u chat q state.config next "" id now audience _ input digest before m
        named f)
      (if-Ensures found state.active _ _
        (record {
          found = f.found;
          hash = f.hash;
          acting = f.acting;
          kind = f.kind;
          owner = owner_of_state before.case chat.case _ f.owner;
        })
        f)
