-- ===== src/Messaging/Reached.antt =====
-- The requests on a conversation, SendFor, SetReadFor and SetStatusFor, and the rows that any sequence of
-- them reaches.
use musecat_backend_core.Prelude.{
  ℕ, ◌≤◌, ◌≡◌, refl, arith, inl, inr, String, Option, none, some, List, [], ◌∷◌, Bool, true, false,
  not, ◌&&◌, ◌||◌, str_eq, ltb, Result, ok, >>=-Ensures, Ensures, of_Ensures, if-Ensures, All, any,
  Bool-cases,
}
use musecat_backend_core.Prelude.Int.{ℤ, pos, negsuc}
use musecat_backend_core.Xp.Kinds.{Time}
use musecat_backend_core.Messaging.Rows.{
  Participant, Status, waiting, same_status, Inquiry, Message, Read, Conversation, Chat, ChatError,
  bad_request, not_found,
}
use musecat_backend_core.Messaging.Input.{
  SendInput, Payload, input_hash, validate_mentions, rate_limit,
}
use musecat_backend_core.Messaging.Policy.{is_dm, actor, may_access, inquiry_policy, responder}
use musecat_backend_core.Messaging.Write.{Surroundings, save_message, change_with_entry}
use musecat_backend_core.Messaging.Send.{
  Sent, Reply, demand, may_select, reply_of, settle_bot, with_newest, answer_retry, other_identity,
  inbox_type, send_new, send_for,
}
use musecat_backend_core.Messaging.Actions.{
  last_read, move_read, set_read, set_status, set_case_status, tell_peers, peer_events, tell_peer,
  with_position,
}
use musecat_backend_core.Messaging.Sound.{
  IsSound, IsRead, HasStatus, SoundRows, set_bot_state-SoundRows, save_message-IsSound,
  append_bot_reply-IsSound, change_with_entry-IsSound,
}

settle_bot-IsSound :
    (chat : Chat) (id : String) (now : Time) (audience : Result ChatError (List String))
    (reply : Option Reply)
    → IsSound chat
    → Ensures IsSound (settle_bot chat id now audience reply)
settle_bot-IsSound chat id now audience none s = s
settle_bot-IsSound chat id now audience (some (q, state, next)) s =
    if-Ensures IsSound (not (str_eq next "")) _ _
      (append_bot_reply-IsSound chat q state.config next "" "" id now audience s)
      (if-Ensures IsSound state.active _ _ (set_bot_state-SoundRows _ _ chat.case _ _ s) s)

abbrev SentIsSound : Sent → Type 0
SentIsSound sent = IsSound sent.0

send_new-IsSound :
    (u : Participant) (chat : Chat) (input : SendInput) (hash : String) (around : Surroundings)
    (id reply_id : String) (now : Time)
    → IsSound chat
    → Ensures SentIsSound (send_new u chat input hash around id reply_id now)
unfolding send_new
send_new-IsSound u chat input hash around id reply_id now s =
    >>=-Ensures SentIsSound (actor u chat around.peer input.acting_as) _ (λ acting _.
      >>=-Ensures SentIsSound (rate_limit 60 around.recent.messages) _ (λ _ _.
        >>=-Ensures SentIsSound (rate_limit 30 around.recent.messages_here) _ (λ _ _.
          >>=-Ensures SentIsSound (demand bad_request (may_select input.bot_choice acting)) _
            (λ _ _.
              >>=-Ensures SentIsSound (reply_of u chat input chat.conversation.kind) _ (λ reply _.
                >>=-Ensures SentIsSound (save_message u chat input acting hash around id now) _
                  (λ saved done.
                    let sound =
                      of_Ensures IsSound _
                        (save_message-IsSound u chat input acting hash around id now s) done in
                    >>=-Ensures SentIsSound (with_newest saved saved.messages) _ (λ m _.
                      >>=-Ensures SentIsSound (settle_bot saved reply_id now around.audience reply)
                        _
                        (λ settled last.
                          of_Ensures IsSound _
                            (settle_bot-IsSound saved reply_id now around.audience reply sound)
                            last))))))))

answer_retry-IsSound :
    (chat : Chat) (input : SendInput) (hash : String) (prior : Option Message)
    (fresh : Result ChatError Sent)
    → IsSound chat
    → Ensures SentIsSound fresh
    → Ensures SentIsSound (answer_retry chat input hash prior fresh)
answer_retry-IsSound chat input hash none fresh s f = f
answer_retry-IsSound chat input hash (some prior) fresh s f =
    if-Ensures SentIsSound
      (not (str_eq prior.payload_hash hash) || other_identity input.acting_as prior) _ _ tt s

send_for-IsSound :
    (digest : Payload → String) (u : Participant) (chat : Chat) (given : SendInput)
    (around : Surroundings) (id reply_id : String) (now : Time)
    → IsSound chat
    → Ensures SentIsSound (send_for digest u chat given around id reply_id now)
unfolding send_for
send_for-IsSound digest u chat given around id reply_id now s =
    >>=-Ensures SentIsSound (input_hash digest given) _ (λ checked _.
      >>=-Ensures SentIsSound (demand not_found (may_access u chat around.parties)) _ (λ _ _.
        >>=-Ensures SentIsSound
          (validate_mentions chat.conversation.kind (inbox_type chat.case) checked.0.mentions) _
          (λ _ _.
            answer_retry-IsSound chat checked.0 checked.1 _ _ s
              (send_new-IsSound u chat checked.0 checked.1 around id reply_id now s))))

move_read-IsRead :
    (user : String) (through last : ℕ) (reads : List Read)
    → through ≤ last
    → All (IsRead last) reads
    → All (IsRead last) (move_read user through reads)
unfolding move_read
move_read-IsRead user through last [] le h = (le, tt)
move_read-IsRead user through last (r ∷ rs) le (here, there) =
    let rest = move_read-IsRead user through last rs le there in
    elim (Bool-cases (str_eq r.user user)) [
      | inl e ↦ rw e (elim (Bool-cases (ltb r.last_read_sequence through)) [
        | inl e' ↦ rw e' (le, there)
        | inr e' ↦ rw e' (here, there)
      ])
      | inr e ↦ rw e (here, rest)
    ]

abbrev ReadIsSound : Chat × ℕ → Type 0
ReadIsSound answer = IsSound answer.0

tell_peer-IsSound :
    (chat : Chat) (c : Conversation) (peer : String) (own : Bool)
    → IsSound chat
    → IsSound (tell_peer chat c peer own)
tell_peer-IsSound chat c peer true s = s
tell_peer-IsSound chat c peer false s = s

peer_events-IsSound :
    (chat : Chat) (c : Conversation) (user : String) (peers : List String)
    → IsSound chat
    → IsSound (peer_events chat c user peers)
peer_events-IsSound chat c user [] s = s
peer_events-IsSound chat c user (peer ∷ peers) s =
    peer_events-IsSound (tell_peer chat c peer (str_eq peer user)) c user peers
      (tell_peer-IsSound chat c peer (str_eq peer user) s)

tell_peers-IsSound :
    (chat : Chat) (c : Conversation) (user : String) (tells : Bool)
    (audience : Result ChatError (List String))
    → IsSound chat
    → Ensures IsSound (tell_peers chat c user tells audience)
tell_peers-IsSound chat c user false audience s = s
tell_peers-IsSound chat c user true audience s =
    >>=-Ensures IsSound audience _ (λ peers _. peer_events-IsSound chat c user peers s)

set_read-IsSound :
    (u : Participant) (chat : Chat) (through : ℤ) (around : Surroundings)
    → IsSound chat
    → Ensures ReadIsSound (set_read u chat through around)
unfolding set_read
set_read-IsSound u chat (negsuc n) around s =
    >>=-Ensures ReadIsSound (demand not_found (may_access u chat around.parties)) _ (λ _ _. tt)
set_read-IsSound u chat (pos through) around s =
    let c = chat.conversation in
    >>=-Ensures ReadIsSound (demand not_found (may_access u chat around.parties)) _ (λ _ _.
      >>=-Ensures ReadIsSound (demand bad_request (not (ltb c.last_sequence through))) _
        (λ _ within.
          let bounded =
            move_read-IsRead u.id through c.last_sequence chat.reads (ground arith) s.bounded in
          let moved : SoundRows c.last_sequence chat.messages chat.case
              (move_read u.id through chat.reads) =
            record {
              counted = s.counted;
              numbered = s.numbered;
              chained = s.chained;
              current = s.current;
              bounded = bounded;
            } in
          let last = last_read u.id (move_read u.id through chat.reads) in
          let rows = with_position u chat through last in
          let tells = is_dm c.kind && ltb (last_read u.id chat.reads) last in
          >>=-Ensures ReadIsSound (tell_peers rows c u.id tells around.audience) _ (λ told done.
            of_Ensures IsSound _ (tell_peers-IsSound rows c u.id tells around.audience moved)
              done)))

set_case_status-IsSound :
    (u : Participant) (chat : Chat) (status : Status) (around : Surroundings)
    (responds : String → Bool) (id : String) (case : Option Inquiry)
    → chat.case ≡ case
    → IsSound chat
    → Ensures IsSound (set_case_status u chat status around responds id case)
set_case_status-IsSound u chat status around responds id none same s = tt
set_case_status-IsSound u chat status around responds id (some q) same s =
    >>=-Ensures IsSound
      (demand bad_request (any (same_status status) (inquiry_policy u q (responder u q)).statuses))
      _
      (λ _ _. if-Ensures IsSound (same_status q.status status) _ _ s (
        >>=-Ensures IsSound (change_with_entry u chat q status id) _ (λ changed done.
          >>=-Ensures IsSound around.audience _ (λ reached _.
            of_Ensures IsSound _ (change_with_entry-IsSound u chat q status id same s) done))))

set_status-IsSound :
    (u : Participant) (chat : Chat) (status : Status) (around : Surroundings)
    (responds : String → Bool) (id : String)
    → IsSound chat
    → Ensures IsSound (set_status u chat status around responds id)
unfolding set_status
set_status-IsSound u chat status around responds id s =
    >>=-Ensures IsSound (demand not_found (may_access u chat around.parties)) _ (λ _ _.
      >>=-Ensures IsSound (demand bad_request (not (is_dm chat.conversation.kind))) _
        (λ _ _. set_case_status-IsSound u chat status around responds id chat.case refl s))

-- a conversation without messages, whose case waits
pub record IsNew (chat : Chat) : Type 0 where
  pub counted : chat.conversation.last_sequence ≡ 0
  pub messages : chat.messages ≡ []
  pub reads : chat.reads ≡ []
  pub case : HasStatus waiting chat.case

-- the rows that successful requests of any participants reach, in any order; a request that fails is
-- rolled back
pub data ChatReached (digest : Payload → String) : Chat → Type 0 where
  opened : (chat : Chat) → IsNew chat → ChatReached digest chat
  sent :
      (u : Participant) (chat : Chat) (given : SendInput) (around : Surroundings)
      (id reply_id : String) (now : Time) (answer : Sent)
      → ChatReached digest chat
      → send_for digest u chat given around id reply_id now ≡ ok answer
      → ChatReached digest answer.0
  read :
      (u : Participant) (chat : Chat) (through : ℤ) (around : Surroundings) (answer : Chat × ℕ)
      → ChatReached digest chat
      → set_read u chat through around ≡ ok answer
      → ChatReached digest answer.0
  moved :
      (u : Participant) (chat chat' : Chat) (status : Status) (around : Surroundings)
      (responds : String → Bool) (id : String)
      → ChatReached digest chat
      → set_status u chat status around responds id ≡ ok chat'
      → ChatReached digest chat'

new-IsSound : (chat : Chat) → IsNew chat → IsSound chat
new-IsSound chat new =
    let rows : SoundRows 0 [] chat.case [] = record {
      counted = refl;
      numbered = tt;
      chained = tt;
      current = new.case;
      bounded = tt;
    } in
    rw (new.counted, new.messages, new.reads) rows

-- Whatever sequence of sent messages, read positions and status changes a new conversation goes through, its
-- messages are numbered from 1 without a gap up to the last sequence, every status change among them begins
-- at the status that the earlier ones leave and ends at another, the status of the case is the one that
-- they all leave, and no read position exceeds the last sequence.
pub ChatReached-IsSound :
    (digest : Payload → String) (chat : Chat) → ChatReached digest chat → IsSound chat
ChatReached-IsSound digest _ (opened chat new) = new-IsSound chat new
ChatReached-IsSound digest _ (sent u chat given around id reply_id now answer before done) =
    of_Ensures SentIsSound _
      (send_for-IsSound digest u chat given around id reply_id now
        (ChatReached-IsSound digest chat before))
      done
ChatReached-IsSound digest _ (read u chat through around answer before done) =
    of_Ensures ReadIsSound _
      (set_read-IsSound u chat through around (ChatReached-IsSound digest chat before)) done
ChatReached-IsSound digest _ (moved u chat chat' status around responds id before done) =
    of_Ensures IsSound _
      (set_status-IsSound u chat status around responds id (ChatReached-IsSound digest chat before))
      done
