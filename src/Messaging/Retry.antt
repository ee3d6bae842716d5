-- ===== src/Messaging/Retry.antt =====
-- A message that is sent again: what a successful SendFor leaves for the lookup of its key.
use musecat_backend_core.Prelude.{
  ◌+◌, ◌≡◌, refl, subst, inl, inr, String, Option, none, some, List, ◌∷◌, Bool, true, false,
  if◌then◌else◌, ok, >>=-Ensures, Ensures, of_Ensures, if-Ensures, Bool-cases,
}
use musecat_backend_core.Xp.Kinds.{Time}
use musecat_backend_core.Messaging.Rows.{
  Identity, Participant, Status, same_status, BotState, Inquiry, Message, Event, after_commit, Chat,
}
use musecat_backend_core.Messaging.Input.{SendInput}
use musecat_backend_core.Messaging.Insert.{insert_message}
use musecat_backend_core.Messaging.Notices.{notify_message}
use musecat_backend_core.Messaging.Policy.{is_dm}
use musecat_backend_core.Messaging.Bot.{set_bot_state}
use musecat_backend_core.Messaging.Write.{
  Surroundings, sender_user, sender_guest, change_with_message, photos_fit, new_message,
  after_message, status_of, save_message,
}
use musecat_backend_core.Messaging.Sound.{insert_message-eq-ok}

-- whom a case belongs to
abbrev pub SameOwner : Option Inquiry → Option Inquiry → Type 0
SameOwner none none = Unit
SameOwner (some q) (some q') =
    (q'.requester ≡ q.requester)
    × (q'.requester_type ≡ q.requester_type)
    × (q'.guest_key_hash ≡ q.guest_key_hash)
    × (q'.inbox ≡ q.inbox)
SameOwner _ _ = false ≡ true

pub SameOwner-refl : (case : Option Inquiry) → SameOwner case case
SameOwner-refl none = tt
SameOwner-refl (some q) = (refl, refl, refl, refl)

owner_of_status :
    (case : Option Inquiry) (q : Inquiry) (status : Status)
    → SameOwner case (some q)
    → SameOwner case (some (record q { status = status }))
owner_of_status none q status o = o
owner_of_status (some q') q status o = o

pub owner_of_state :
    (case case' : Option Inquiry) (state : BotState)
    → SameOwner case case'
    → SameOwner case (set_bot_state state case')
unfolding set_bot_state
owner_of_state none none state o = o
owner_of_state none (some q') state o = o
owner_of_state (some q) none state o = o
owner_of_state (some q) (some q') state o = o

-- the columns of a message that a lookup reads
pub record IsWritten (u : Participant) (name digest : String) (sender : Identity) (m : Message)
    : Type 0 where
  pub user : m.sender_user ≡ sender_user u
  pub guest : m.sender_guest ≡ sender_guest u
  pub key : m.client_message_id ≡ name
  pub hash : m.payload_hash ≡ digest
  pub acting : m.acting ≡ sender

-- the rows that a message leaves in a conversation
pub record Wrote (u : Participant) (name digest : String) (sender : Identity) (before after : Chat)
    : Type 0 where
  pub newest :
      (m : Message) × (ms : List Message) × (after.messages ≡ m ∷ ms)
      × IsWritten u name digest sender m
  pub kind : after.conversation.kind ≡ before.conversation.kind
  pub owner : SameOwner before.case after.case

change-Wrote :
    (u : Participant) (name digest : String) (sender : Identity) (before after : Chat) (q : Inquiry)
    (status : Status)
    → after.case ≡ some q
    → Wrote u name digest sender before after
    → Wrote u name digest sender before (change_with_message after q status)
unfolding change_with_message
change-Wrote u name digest sender before after q status same w =
    let (m, ms, rows, written) = w.newest in
    let owner = owner_of_status before.case q status (subst (SameOwner before.case) same w.owner) in
    elim (Bool-cases (same_status q.status status)) [
      | inl e ↦ rw e w
      | inr e ↦
          rw (e, same, rows)
            (record {
              newest = (
                record m { status_change = some (record { before = q.status; after = status }) },
                ms,
                refl,
                record {
                  user = written.user;
                  guest = written.guest;
                  key = written.key;
                  hash = written.hash;
                  acting = written.acting;
                },
              );
              kind = w.kind;
              owner = owner;
            })
    ]

after_message-Wrote :
    (u : Participant) (name digest : String) (sender : Identity) (before after : Chat)
    (case : Option Inquiry)
    → after.case ≡ case
    → Wrote u name digest sender before after
    → Ensures (Wrote u name digest sender before) (after_message sender after case)
after_message-Wrote u name digest sender before after none same w = tt
after_message-Wrote u name digest sender before after (some q) same w =
    change-Wrote u name digest sender before after q (status_of sender) same w

notify-Wrote :
    (u : Participant) (name digest : String) (sender : Identity) (before after : Chat)
    (wanted : String → Bool) (audience : List String) (m : Message) (event : Event)
    → Wrote u name digest sender before after
    → Wrote u name digest sender before
        (after_commit event (notify_message wanted audience m after))
unfolding notify_message
notify-Wrote u name digest sender before after wanted audience m event w = record {
  newest = w.newest;
  kind = w.kind;
  owner = w.owner;
}

inserted-Wrote :
    (u : Participant) (chat inserted : Chat) (input : SendInput) (sender : Identity)
    (digest id : String) (now : Time)
    → insert_message chat (new_message u chat.conversation input sender digest id) ≡ ok inserted
    → Wrote u input.client_message_id digest sender chat (record inserted {
      conversation = record chat.conversation {
        last_sequence = chat.conversation.last_sequence + 1;
        last_message = id;
        last_message_at = now;
      };
    })
inserted-Wrote u chat inserted input sender digest id now ins =
    let m = new_message u chat.conversation input sender digest id in
    rw (insert_message-eq-ok chat inserted m ins) (record {
      newest = (
        m,
        chat.messages,
        refl,
        record { user = refl; guest = refl; key = refl; hash = refl; acting = refl },
      );
      kind = refl;
      owner = SameOwner-refl chat.case;
    })

pub save_message-Wrote :
    (u : Participant) (chat : Chat) (input : SendInput) (sender : Identity) (digest : String)
    (around : Surroundings) (id : String) (now : Time)
    → Ensures
        (Wrote u input.client_message_id digest sender chat)
        (save_message u chat input sender digest around id now)
unfolding save_message
save_message-Wrote u chat input sender digest around id now =
    let wrote = Wrote u input.client_message_id digest sender chat in
    let c = chat.conversation in
    >>=-Ensures wrote (photos_fit around.recent input.photos) _ (λ _ _.
      >>=-Ensures wrote (insert_message chat (new_message u c input sender digest id)) _
        (λ inserted ins.
          let saved = inserted-Wrote u chat inserted input sender digest id now ins in
          >>=-Ensures wrote (if is_dm c.kind then _ else _) _ (λ changed done.
            >>=-Ensures wrote around.audience _ (λ reached _.
              notify-Wrote u input.client_message_id digest sender chat changed around.wanted
                reached (new_message u c input sender digest id) _
                (of_Ensures wrote _
                  (if-Ensures wrote (is_dm c.kind) _ _ saved (
                    after_message-Wrote u input.client_message_id digest sender chat _ inserted.case
                      refl saved))
                  done)))))
