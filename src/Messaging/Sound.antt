-- ===== src/Messaging/Sound.antt =====
-- The rows of a conversation stay sound: what the transactions of Messaging/Write, Send and Actions keep.
use musecat_backend_core.Prelude.{
  ℕ, suc, ◌+◌, ◌≤◌, ◌≡◌, refl, subst, ap, arith, inl, inr, String, Option, none, some, List, [],
  ◌∷◌, Bool, false, if◌then◌else◌, Result, ok, >>=-Ensures, Ensures, of_Ensures, if-Ensures, length,
  All, Bool-cases,
}
use musecat_backend_core.Xp.Kinds.{Time}
use musecat_backend_core.Messaging.Rows.{
  Identity, Participant, Status, waiting, same_status, BotNode, BotConfig, BotState, StatusChange,
  Inquiry, Message, Read, Chat, ChatError,
}
use musecat_backend_core.Messaging.Insert.{insert_message}
use musecat_backend_core.Messaging.Input.{SendInput}
use musecat_backend_core.Messaging.Notices.{notify_message}
use musecat_backend_core.Messaging.Policy.{is_dm}
use musecat_backend_core.Messaging.Bot.{append_bot_reply, set_bot_state, append_node, reply_message}
use musecat_backend_core.Messaging.Write.{
  Surroundings, change_with_message, change_with_entry, save_message, new_message, photos_fit,
  after_message, status_of, status_message,
}

-- the messages are numbered from 1, the oldest, without a gap
abbrev pub IsNumbered : List Message → Type 0
IsNumbered [] = Unit
IsNumbered (m ∷ ms) = (m.sequence ≡ suc (length ms)) × IsNumbered ms

abbrev pub after_change : Option StatusChange → Status → Status
after_change none before = before
after_change (some change) before = change.after

-- the status that the history of the messages leaves
abbrev pub history : List Message → Status
history [] = waiting
history (m ∷ ms) = after_change m.status_change (history ms)

abbrev pub Continues : Option StatusChange → Status → Type 0
Continues none before = Unit
Continues (some change) before =
    (change.before ≡ before) × (same_status change.before change.after ≡ false)

-- every change begins at the status before it and moves it
abbrev pub IsChained : List Message → Type 0
IsChained [] = Unit
IsChained (m ∷ ms) = Continues m.status_change (history ms) × IsChained ms

abbrev pub HasStatus : Status → Option Inquiry → Type 0
HasStatus status none = Unit
HasStatus status (some q) = q.status ≡ status

abbrev pub IsRead : ℕ → Read → Type 0
IsRead last r = r.last_read_sequence ≤ last

pub record SoundRows (last : ℕ) (messages : List Message) (case : Option Inquiry)
    (reads : List Read) : Type 0 where
  pub counted : last ≡ length messages
  pub numbered : IsNumbered messages
  pub chained : IsChained messages
  pub current : HasStatus (history messages) case
  pub bounded : All (IsRead last) reads

abbrev pub IsSound : Chat → Type 0
IsSound chat = SoundRows chat.conversation.last_sequence chat.messages chat.case chat.reads

reads_later :
    (last : ℕ) (reads : List Read) → All (IsRead last) reads → All (IsRead (last + 1)) reads
reads_later last [] h = tt
reads_later last (r ∷ rs) (here, there) = (omega (arith, here), reads_later last rs there)

-- one more message without a change
grow-SoundRows :
    (last : ℕ) (messages : List Message) (case : Option Inquiry) (reads : List Read) (m : Message)
    → m.sequence ≡ last + 1
    → m.status_change ≡ none
    → SoundRows last messages case reads
    → SoundRows (last + 1) (m ∷ messages) case reads
grow-SoundRows last messages case reads m seq plain s = record {
  counted = omega (arith, s.counted);
  numbered = (omega (arith, seq, s.counted), s.numbered);
  chained = (rw plain tt, s.chained);
  current = rw plain s.current;
  bounded = reads_later last reads s.bounded;
}

-- the newest message carries a change of the case
change-SoundRows :
    (last : ℕ) (m : Message) (messages : List Message) (q : Inquiry) (reads : List Read)
    (after : Status)
    → m.status_change ≡ none
    → same_status q.status after ≡ false
    → SoundRows last (m ∷ messages) (some q) reads
    → SoundRows last
        (record m { status_change = some (record { before = q.status; after = after }) } ∷ messages)
        (some (record q { status = after }))
        reads
change-SoundRows last m messages q reads after plain moves s =
    let same : q.status ≡ history messages =
      subst (λ c. q.status ≡ after_change c (history messages)) plain s.current in
    record {
      counted = s.counted;
      numbered = s.numbered;
      chained = ((same, moves), s.chained.1);
      current = refl;
      bounded = s.bounded;
    }

pub set_bot_state-SoundRows :
    (last : ℕ) (messages : List Message) (case : Option Inquiry) (reads : List Read)
    (state : BotState)
    → SoundRows last messages case reads
    → SoundRows last messages (set_bot_state state case) reads
unfolding set_bot_state
set_bot_state-SoundRows last messages none reads state s = s
set_bot_state-SoundRows last messages (some q) reads state s = record {
  counted = s.counted;
  numbered = s.numbered;
  chained = s.chained;
  current = s.current;
  bounded = s.bounded;
}

pub insert_message-eq-ok :
    (chat chat' : Chat) (m : Message)
    → insert_message chat m ≡ ok chat'
    → chat' ≡ record chat { messages = m ∷ chat.messages }
unfolding insert_message
insert_message-eq-ok chat chat' m h = ground arith

change_with_message-IsSound :
    (chat : Chat) (m : Message) (ms : List Message) (q : Inquiry) (after : Status)
    → chat.messages ≡ m ∷ ms
    → m.status_change ≡ none
    → chat.case ≡ some q
    → IsSound chat
    → IsSound (change_with_message chat q after)
unfolding change_with_message
change_with_message-IsSound chat m ms q after rows plain same s =
    let last = chat.conversation.last_sequence in
    let here : SoundRows last (m ∷ ms) (some q) chat.reads =
      subst (λ rows'. SoundRows last rows' (some q) chat.reads) rows
        (subst (λ c. SoundRows last chat.messages c chat.reads) same s) in
    elim (Bool-cases (same_status q.status after)) [
      | inl e ↦ rw e s
      | inr e ↦ rw (e, rows, same) (change-SoundRows last m ms q chat.reads after plain e here)
    ]

after_message-IsSound :
    (acting : Identity) (chat : Chat) (m : Message) (ms : List Message) (case : Option Inquiry)
    → chat.messages ≡ m ∷ ms
    → m.status_change ≡ none
    → chat.case ≡ case
    → IsSound chat
    → Ensures IsSound (after_message acting chat case)
after_message-IsSound acting chat m ms none rows plain same s = tt
after_message-IsSound acting chat m ms (some q) rows plain same s =
    change_with_message-IsSound chat m ms q (status_of acting) rows plain same s

notify-IsSound :
    (wanted : String → Bool) (audience : List String) (m : Message) (chat : Chat)
    → IsSound chat
    → IsSound (notify_message wanted audience m chat)
unfolding notify_message
notify-IsSound wanted audience m chat s = s

-- the rows that saveMessage leaves before the status
saved-IsSound :
    (chat inserted : Chat) (m : Message) (id : String) (now : Time)
    → insert_message chat m ≡ ok inserted
    → m.sequence ≡ chat.conversation.last_sequence + 1
    → m.status_change ≡ none
    → IsSound chat
    → IsSound (record inserted {
      conversation = record chat.conversation {
        last_sequence = chat.conversation.last_sequence + 1;
        last_message = id;
        last_message_at = now;
      };
    })
saved-IsSound chat inserted m id now ins seq plain s =
    rw (insert_message-eq-ok chat inserted m ins) (
      grow-SoundRows chat.conversation.last_sequence chat.messages chat.case chat.reads m seq plain
        s)

pub save_message-IsSound :
    (u : Participant) (chat : Chat) (input : SendInput) (acting : Identity) (hash : String)
    (around : Surroundings) (id : String) (now : Time)
    → IsSound chat
    → Ensures IsSound (save_message u chat input acting hash around id now)
unfolding save_message
save_message-IsSound u chat input acting hash around id now s =
    let c = chat.conversation in
    let m = new_message u c input acting hash id in
    >>=-Ensures IsSound (photos_fit around.recent input.photos) _ (λ fits _.
      >>=-Ensures IsSound (insert_message chat m) _ (λ inserted ins.
        let saved = saved-IsSound chat inserted m id now ins refl refl s in
        let rows = ap (λ (r : Chat). r.messages) (insert_message-eq-ok chat inserted m ins) in
        >>=-Ensures IsSound (if is_dm c.kind then _ else _) _ (λ changed done.
          >>=-Ensures IsSound around.audience _ (λ reached _.
            notify-IsSound around.wanted reached m changed (
              of_Ensures IsSound _
                (if-Ensures IsSound (is_dm c.kind) _ _ saved (
                  after_message-IsSound acting _ m chat.messages inserted.case rows refl refl
                    saved))
                done)))))

append_node-IsSound :
    (chat : Chat) (q : Inquiry) (config : BotConfig) (node_id key hash id : String) (now : Time)
    (audience : Result ChatError (List String)) (node : Option BotNode)
    → IsSound chat
    → Ensures IsSound (append_node chat q config node_id key hash id now audience node)
append_node-IsSound chat q config node_id key hash id now audience none s = tt
append_node-IsSound chat q config node_id key hash id now audience (some node) s =
    let m = reply_message chat.conversation q node key hash id in
    >>=-Ensures IsSound (insert_message chat m) _ (λ inserted ins.
      >>=-Ensures IsSound audience _ (λ reached _.
        let saved = saved-IsSound chat inserted m id now ins refl refl s in
        set_bot_state-SoundRows _ _ _ _ _ saved))

pub append_bot_reply-IsSound :
    (chat : Chat) (q : Inquiry) (config : BotConfig) (node_id key hash id : String) (now : Time)
    (audience : Result ChatError (List String))
    → IsSound chat
    → Ensures IsSound (append_bot_reply chat q config node_id key hash id now audience)
unfolding append_bot_reply
append_bot_reply-IsSound chat q config node_id key hash id now audience s =
    append_node-IsSound chat q config node_id key hash id now audience _ s

-- the entry of an explicit change
pub change_with_entry-IsSound :
    (u : Participant) (chat : Chat) (q : Inquiry) (status : Status) (id : String)
    → chat.case ≡ some q
    → IsSound chat
    → Ensures IsSound (change_with_entry u chat q status id)
unfolding change_with_entry
change_with_entry-IsSound u chat q status id same s =
    let m = status_message u chat.conversation q id in
    elim (Bool-cases (same_status q.status status)) [
      | inl e ↦ rw e s
      | inr e ↦ rw e (
          >>=-Ensures IsSound (insert_message chat m) _ (λ inserted ins.
            rw (insert_message-eq-ok chat inserted m ins, same)
              (change-SoundRows (chat.conversation.last_sequence + 1) m chat.messages q chat.reads
                status refl e
                (subst
                  (λ case.
                    SoundRows (chat.conversation.last_sequence + 1) (m ∷ chat.messages) case
                      chat.reads)
                  same
                  (grow-SoundRows chat.conversation.last_sequence chat.messages chat.case chat.reads
                    m refl refl s)))))
    ]
