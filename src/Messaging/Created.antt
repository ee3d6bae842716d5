-- ===== src/Messaging/Created.antt =====
-- The rows that the creation of an inquiry leaves.
use musecat_backend_core.Prelude.{
  ℕ, String, Option, none, some, List, [], ◌∷◌, Bool, not, ◌||◌, str_eq, Result, ok,
}
use musecat_backend_core.Messaging.Rows.{
  Identity, same_identity, Participant, inquiry, BotConfig, BotState, Message, Inquiry, Chat,
  ChatError, bad_request, conflict,
}
use musecat_backend_core.Messaging.Input.{SendInput, input_hash, validate_mentions, rate_limit}
use musecat_backend_core.Messaging.Policy.{requests}
use musecat_backend_core.Messaging.Write.{Surroundings, save_message}
use musecat_backend_core.Messaging.Send.{demand}
use musecat_backend_core.Prelude.{◌≡◌, refl, All, >>=-Ensures, Ensures, of_Ensures, if-Ensures}
use musecat_backend_core.Messaging.InquiryBot.{CreateInput, ArcadeInbox, Codes, inquiry_bot}
use musecat_backend_core.Messaging.Earlier.{
  known_inbox, earlier, of_earlier, message_where, or_later, find_message, first_of, bot_opening,
  own_opening,
}
use musecat_backend_core.Messaging.Create.{
  Stamps, new_inquiry, with_case, open_bot, initial_step, stop_bot, finish_bot, start_inquiry,
  answer_earlier, place_check, request_hash, has_no_choice, create_inquiry,
}
use musecat_backend_core.Messaging.Sound.{
  IsSound, save_message-IsSound, append_bot_reply-IsSound, set_bot_state-SoundRows,
}

new_inquiry-IsSound :
    (u : Participant) (inbox : Identity) (id : String) → IsSound (new_inquiry u inbox id)
new_inquiry-IsSound u inbox id = record {
  counted = refl;
  numbered = tt;
  chained = tt;
  current = refl;
  bounded = tt;
}

with_case-IsSound :
    (chat : Chat) (case : Option Inquiry) (next : Inquiry → Result ChatError Chat)
    → ((q : Inquiry) → Ensures IsSound (next q))
    → Ensures IsSound (with_case chat case next)
with_case-IsSound chat none next step = tt
with_case-IsSound chat (some q) next step = step q

open_bot-IsSound :
    (chat : Chat) (cfg : BotConfig) (key hash : String) (around : Surroundings) (stamps : Stamps)
    → IsSound chat
    → Ensures IsSound (open_bot chat cfg key hash around stamps)
open_bot-IsSound chat cfg key hash around stamps s =
    if-Ensures IsSound cfg.enabled _ _
      (with_case-IsSound chat chat.case _ (λ q.
        append_bot_reply-IsSound chat q cfg cfg.start key hash stamps.opening stamps.now
          around.audience s))
      s

stop_bot-IsSound :
    (chat : Chat) (case : Option Inquiry) → IsSound chat → IsSound (stop_bot chat case)
stop_bot-IsSound chat none s = s
stop_bot-IsSound chat (some q) s = set_bot_state-SoundRows _ _ chat.case _ _ s

finish_bot-IsSound :
    (chat : Chat) (cfg : BotConfig) (state : BotState) (next : String) (around : Surroundings)
    (stamps : Stamps)
    → IsSound chat
    → Ensures IsSound (finish_bot chat cfg state next around stamps)
finish_bot-IsSound chat cfg state next around stamps s =
    if-Ensures IsSound (not (str_eq next "")) _ _
      (with_case-IsSound chat chat.case _ (λ q.
        append_bot_reply-IsSound chat q state.config next "" "" stamps.reply stamps.now
          around.audience s))
      (if-Ensures IsSound cfg.enabled _ _ (stop_bot-IsSound chat chat.case s) s)

start_inquiry-IsSound :
    (codes : Codes) (u : Participant) (input : CreateInput) (message : SendInput) (hash : String)
    (place : Option ArcadeInbox) (around : Surroundings) (stamps : Stamps)
    → Ensures IsSound (start_inquiry codes u input message hash place around stamps)
unfolding start_inquiry
start_inquiry-IsSound codes u input message hash place around stamps =
    let fresh = new_inquiry u input.inbox stamps.conversation in
    let own : Identity = record { party = u.party; id = u.id } in
    >>=-Ensures IsSound (inquiry_bot codes.encoded_size input place) _ (λ cfg _.
      >>=-Ensures IsSound
        (demand conflict
          (str_eq input.bot_revision "" || str_eq input.bot_revision (codes.revision cfg)))
        _
        (λ _ _.
          let key = codes.request_key u.id message.client_message_id in
          >>=-Ensures IsSound (open_bot fresh cfg key hash around stamps) _ (λ opened h.
            let sound =
              of_Ensures IsSound _
                (open_bot-IsSound fresh cfg key hash around stamps
                  (new_inquiry-IsSound u input.inbox stamps.conversation))
                h in
            >>=-Ensures IsSound (initial_step u opened input message cfg) _ (λ step _.
              >>=-Ensures IsSound
                (save_message u opened message own hash around stamps.message stamps.now) _
                (λ saved h'. finish_bot-IsSound saved cfg step.0 step.1 around stamps (
                  of_Ensures IsSound _
                    (save_message-IsSound u opened message own hash around stamps.message stamps.now
                      sound)
                    h'))))))

-- a message that is found stands in sound rows
abbrev FoundSound : Option (Chat × Message) → Type 0
FoundSound none = Unit
FoundSound (some found) = IsSound found.0

or_later-FoundSound :
    (chat : Chat) (m : Option Message) (later : Option (Chat × Message))
    → IsSound chat
    → FoundSound later
    → FoundSound (or_later chat m later)
or_later-FoundSound chat none later s l = l
or_later-FoundSound chat (some m) later s l = s

find_message-FoundSound :
    (test : Chat → Message → Bool) (chats : List Chat)
    → All IsSound chats
    → FoundSound (find_message test chats)
find_message-FoundSound test [] h = tt
find_message-FoundSound test (chat ∷ chats) (here, there) =
    or_later-FoundSound chat (message_where (test chat) chat.messages) (find_message test chats)
      here (find_message-FoundSound test chats there)

first_of-FoundSound :
    (a b : Option (Chat × Message)) → FoundSound a → FoundSound b → FoundSound (first_of a b)
first_of-FoundSound none b l r = r
first_of-FoundSound (some found) b l r = l

of_earlier-IsSound :
    (u : Participant) (input : CreateInput) (hash : String) (m : Message) (chat : Chat)
    (case : Option Inquiry)
    → IsSound chat
    → Ensures IsSound (of_earlier u input hash m chat case)
of_earlier-IsSound u input hash m chat none s = tt
of_earlier-IsSound u input hash m chat (some q) s =
    if-Ensures IsSound
      (not (requests u q)
        || not (same_identity q.inbox input.inbox)
        || not (str_eq m.payload_hash hash))
      _ _ tt s

answer_earlier-IsSound :
    (u : Participant) (input : CreateInput) (hash : String) (found : Option (Chat × Message))
    (fresh : Result ChatError Chat)
    → FoundSound found
    → Ensures IsSound fresh
    → Ensures IsSound (answer_earlier u input hash found fresh)
answer_earlier-IsSound u input hash none fresh f s = s
answer_earlier-IsSound u input hash (some found) fresh f s =
    of_earlier-IsSound u input hash found.1 found.0 found.0.case f

create-Ensures :
    (codes : Codes) (chats : List Chat) (u : Participant) (input : CreateInput)
    (place : Option ArcadeInbox) (around : Surroundings) (recent : ℕ) (stamps : Stamps)
    → All IsSound chats
    → Ensures IsSound (create_inquiry codes chats u input place around recent stamps)
unfolding create_inquiry earlier
create-Ensures codes chats u input place around recent stamps all =
    >>=-Ensures IsSound (demand bad_request (has_no_choice input.initial_message.bot_choice)) _
      (λ _ _.
        >>=-Ensures IsSound
          (validate_mentions inquiry input.inbox.party input.initial_message.mentions) _
          (λ _ _.
            >>=-Ensures IsSound (input_hash codes.digest input.initial_message) _ (λ checked _.
              let hash = request_hash codes input checked.1 in
              let key = checked.0.client_message_id in
              >>=-Ensures IsSound (demand bad_request (known_inbox input.inbox)) _ (λ _ _.
                answer_earlier-IsSound u input hash _ _
                  (first_of-FoundSound _ _
                    (find_message-FoundSound (bot_opening (codes.request_key u.id key)) chats all)
                    (find_message-FoundSound (own_opening u key) chats all))
                  (>>=-Ensures IsSound (place_check u input.inbox.party place) _ (λ _ _.
                    >>=-Ensures IsSound (rate_limit 10 recent) _ (λ _ _.
                      start_inquiry-IsSound codes u input checked.0 hash place around stamps)))))))

-- The conversation that a request for an inquiry is answered with, whether it is new, with or without automatic replies and
-- a first choice, or that of an earlier request, has sound rows, if those of all conversations are.
pub create_inquiry-IsSound :
    (codes : Codes) (chats : List Chat) (u : Participant) (input : CreateInput)
    (place : Option ArcadeInbox) (around : Surroundings) (recent : ℕ) (stamps : Stamps)
    (chat : Chat)
    → All IsSound chats
    → create_inquiry codes chats u input place around recent stamps ≡ ok chat
    → IsSound chat
create_inquiry-IsSound codes chats u input place around recent stamps chat all h =
    of_Ensures IsSound _ (create-Ensures codes chats u input place around recent stamps all) h
