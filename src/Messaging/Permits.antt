-- ===== src/Messaging/Permits.antt =====
-- Who a new message speaks as.
use musecat_backend_core.Prelude.{
  ◌≡◌, refl, subst, arith, ◌⊎◌, inl, inr, String, Option, none, some, List, [], ◌∷◌, ◌++◌, Bool,
  true, false, not, ◌||◌, if◌then◌else◌, str_eq, ltb, Result, ok, >>=-Ensures, Ensures, of_Ensures,
  if-Ensures, Ensures-map, any, All, length, Bool-cases,
}
use musecat_backend_core.Xp.Kinds.{Time}
use musecat_backend_core.Messaging.Rows.{
  Identity, same_identity, Participant, Inquiry, Message, Chat, ChatError, bad_request, not_found,
}
use musecat_backend_core.Messaging.Input.{
  SendInput, Payload, input_hash, misses_limits, kept_input, photo_hashes, validate_mentions,
  rate_limit,
}
use musecat_backend_core.Messaging.Insert.{existing_retry}
use musecat_backend_core.Messaging.Policy.{
  is_dm, Peer, actor, may_access, case_actor, chosen_identity, choose, requests, responder,
  own_requested, peer_open, can_dm, inquiry_policy,
}
use musecat_backend_core.Messaging.Write.{Surroundings, sender_user, sender_guest, save_message}
use musecat_backend_core.Messaging.Send.{
  Sent, demand, may_select, reply_of, settle_bot, with_newest, answer_retry, other_identity,
  inbox_type, send_new, send_for,
}
use musecat_backend_core.Messaging.Retry.{Wrote, save_message-Wrote}

abbrev pub own_identity : Participant → Identity
own_identity u = record { party = u.party; id = u.id }

-- the case is requested by the participant, who speaks for itself, or answered by one who responds, who speaks for
-- the inbox
abbrev pub SpeaksIn : Participant → Option Inquiry → Identity → Type 0
SpeaksIn u none acting = false ≡ true
SpeaksIn u (some q) acting =
    ((acting ≡ own_identity u) × (requests u q ≡ true))
    ⊎ ((acting ≡ q.inbox) × (responder u q ≡ true))

-- the peer of a direct conversation receives from the participant
abbrev pub SpeaksTo : Participant → Peer → Identity → Type 0
SpeaksTo u peer acting =
    (acting ≡ own_identity u)
    × (to : String) × (peer.id ≡ some to)
    × (can_dm peer.reach u.id to ≡ true)

abbrev pub MaySpeak : Participant → Chat → Peer → Identity → Type 0
MaySpeak u chat peer acting =
    if is_dm chat.conversation.kind then SpeaksTo u peer acting else SpeaksIn u chat.case acting

chosen_identity-All :
    (holds : Identity → Type 0) (requested : Identity) (is : List Identity)
    → All holds is
    → Ensures holds (chosen_identity requested is)
chosen_identity-All holds requested [] h = tt
chosen_identity-All holds requested (i ∷ is) (here, there) =
    if-Ensures holds (same_identity requested i) _ _ here
      (chosen_identity-All holds requested is there)

choose-All :
    (holds : Identity → Type 0) (requested : Option Identity) (is : List Identity)
    → All holds is
    → Ensures holds (choose requested is)
choose-All holds none [] h = tt
choose-All holds none (i ∷ []) (here, there) = here
choose-All holds none (i ∷ j ∷ is) h = tt
choose-All holds (some requested) is h = chosen_identity-All holds requested is h

guarded-All :
    (holds : Identity → Type 0) (asks answers : Bool) (own inbox : Identity)
    → (asks ≡ true → holds own)
    → (answers ≡ true → holds inbox)
    → All holds ((if asks then own ∷ [] else []) ++ (if answers then inbox ∷ [] else []))
guarded-All holds true true own inbox a b = (a refl, (b refl, tt))
guarded-All holds true false own inbox a b = (a refl, tt)
guarded-All holds false true own inbox a b = (b refl, tt)
guarded-All holds false false own inbox a b = tt

identities-SpeaksIn :
    (u : Participant) (q : Inquiry)
    → All (SpeaksIn u (some q)) (inquiry_policy u q (responder u q)).identities
unfolding inquiry_policy
identities-SpeaksIn u q =
    guarded-All (SpeaksIn u (some q)) (requests u q) (responder u q) (own_identity u) q.inbox
      (λ e. inl (refl, e)) (λ e. inr (refl, e))

case_actor-SpeaksIn :
    (u : Participant) (case : Option Inquiry) (requested : Option Identity)
    → Ensures (SpeaksIn u case) (case_actor u case requested)
case_actor-SpeaksIn u none requested = tt
case_actor-SpeaksIn u (some q) requested =
    choose-All (SpeaksIn u (some q)) requested _ (identities-SpeaksIn u q)

peer-SpeaksTo :
    (u : Participant) (peer : Peer) (to : Option String)
    → peer.id ≡ to
    → peer_open u peer to ≡ true
    → SpeaksTo u peer (own_identity u)
peer-SpeaksTo u peer none same h = absurd (ground arith)
peer-SpeaksTo u peer (some to) same h = (refl, to, same, h)

actor-MaySpeak :
    (u : Participant) (chat : Chat) (peer : Peer) (requested : Option Identity)
    → Ensures (MaySpeak u chat peer) (actor u chat peer requested)
unfolding actor
actor-MaySpeak u chat peer requested = elim (Bool-cases (is_dm chat.conversation.kind)) [
  | inl e ↦
      Ensures-map (SpeaksTo u peer) (MaySpeak u chat peer) _ (λ acting may. rw e may)
        (rw e (
          if-Ensures (SpeaksTo u peer) (not (own_requested (own_identity u) requested)) _ _ tt
            (elim (Bool-cases (peer_open u peer peer.id)) [
              | inl o ↦ rw o (peer-SpeaksTo u peer peer.id refl o)
              | inr o ↦ rw o tt
            ])))
  | inr e ↦
      Ensures-map (SpeaksIn u chat.case) (MaySpeak u chat peer) _ (λ acting may. rw e may)
        (rw e (case_actor-SpeaksIn u chat.case requested))
]

-- what a new message of a participant is: spoken as an identity that the participant may use, and written in the
-- columns of the participant under the input's key
pub record IsOwn (u : Participant) (chat : Chat) (peer : Peer) (name : String) (m : Message)
    : Type 0 where
  pub speaks : MaySpeak u chat peer m.acting
  pub user : m.sender_user ≡ sender_user u
  pub guest : m.sender_guest ≡ sender_guest u
  pub key : m.client_message_id ≡ name

abbrev OwnIfNew : Participant → Chat → Peer → String → Sent → Type 0
OwnIfNew u chat peer name sent = if sent.2 then Unit else IsOwn u chat peer name sent.1

saved-IsOwn :
    (u : Participant) (chat saved : Chat) (peer : Peer) (name digest : String) (acting : Identity)
    (m : Message)
    → MaySpeak u chat peer acting
    → Wrote u name digest acting chat saved
    → with_newest saved saved.messages ≡ ok m
    → IsOwn u chat peer name m
saved-IsOwn u chat saved peer name digest acting m may wrote newest =
    let (n, ns, rows, written) = wrote.newest in
    let first : with_newest saved (n ∷ ns) ≡ ok m =
      subst (λ ms. with_newest saved ms ≡ ok m) rows newest in
    let same : n ≡ m = ground arith in
    subst (IsOwn u chat peer name) same (record {
      speaks = rw written.acting may;
      user = written.user;
      guest = written.guest;
      key = written.key;
    })

send_new-OwnIfNew :
    (u : Participant) (chat : Chat) (input : SendInput) (digest : String) (around : Surroundings)
    (id reply_id : String) (now : Time)
    → Ensures
        (OwnIfNew u chat around.peer input.client_message_id)
        (send_new u chat input digest around id reply_id now)
unfolding send_new
send_new-OwnIfNew u chat input digest around id reply_id now =
    let own = OwnIfNew u chat around.peer input.client_message_id in
    >>=-Ensures own (actor u chat around.peer input.acting_as) _ (λ acting chosen.
      >>=-Ensures own (rate_limit 60 around.recent.messages) _ (λ _ _.
        >>=-Ensures own (rate_limit 30 around.recent.messages_here) _ (λ _ _.
          >>=-Ensures own (demand bad_request (may_select input.bot_choice acting)) _ (λ _ _.
            >>=-Ensures own (reply_of u chat input chat.conversation.kind) _ (λ reply _.
              >>=-Ensures own (save_message u chat input acting digest around id now) _
                (λ saved done. >>=-Ensures own (with_newest saved saved.messages) _ (λ m newest.
                  >>=-Ensures own (settle_bot saved reply_id now around.audience reply) _
                    (λ settled last.
                      saved-IsOwn u chat saved around.peer input.client_message_id digest acting m
                        (of_Ensures (MaySpeak u chat around.peer) _
                          (actor-MaySpeak u chat around.peer input.acting_as) chosen)
                        (of_Ensures (Wrote u input.client_message_id digest acting chat) _
                          (save_message-Wrote u chat input acting digest around id now) done)
                        newest))))))))

abbrev HasKey : String → SendInput × String → Type 0
HasKey name checked = checked.0.client_message_id ≡ name

input_hash-HasKey :
    (digest : Payload → String) (given : SendInput)
    → Ensures (HasKey given.client_message_id) (input_hash digest given)
unfolding input_hash
input_hash-HasKey digest given =
    let keyed = HasKey given.client_message_id in
    if-Ensures keyed (ltb 16 (length given.mentions)) _ _ tt (
      if-Ensures keyed (any (λ mention. not (str_eq mention "musecat")) given.mentions) _ _ tt (
        if-Ensures keyed (misses_limits (kept_input given)) _ _ tt
          (>>=-Ensures keyed (photo_hashes given.photos) _ (λ hashes _. refl))))

answer_retry-OwnIfNew :
    (u : Participant) (chat : Chat) (peer : Peer) (input : SendInput) (digest : String)
    (prior : Option Message) (fresh : Result ChatError Sent)
    → Ensures (OwnIfNew u chat peer input.client_message_id) fresh
    → Ensures
        (OwnIfNew u chat peer input.client_message_id)
        (answer_retry chat input digest prior fresh)
answer_retry-OwnIfNew u chat peer input digest none fresh f = f
answer_retry-OwnIfNew u chat peer input digest (some prior) fresh f =
    if-Ensures (OwnIfNew u chat peer input.client_message_id)
      (not (str_eq prior.payload_hash digest) || other_identity input.acting_as prior) _ _ tt tt

send_for-OwnIfNew :
    (digest : Payload → String) (u : Participant) (chat : Chat) (given : SendInput)
    (around : Surroundings) (id reply_id : String) (now : Time)
    → Ensures
        (OwnIfNew u chat around.peer given.client_message_id)
        (send_for digest u chat given around id reply_id now)
unfolding send_for
send_for-OwnIfNew digest u chat given around id reply_id now =
    let own = OwnIfNew u chat around.peer given.client_message_id in
    >>=-Ensures own (input_hash digest given) _ (λ checked inp.
      >>=-Ensures own (demand not_found (may_access u chat around.parties)) _ (λ may allowed.
        >>=-Ensures own
          (validate_mentions chat.conversation.kind (inbox_type chat.case) checked.0.mentions) _
          (λ must mentions.
            subst
              (λ name. Ensures (OwnIfNew u chat around.peer name) (
                answer_retry chat checked.0 checked.1
                  (existing_retry chat u.id checked.0.client_message_id)
                  (send_new u chat checked.0 checked.1 around id reply_id now)))
              (of_Ensures (HasKey given.client_message_id) _ (input_hash-HasKey digest given) inp)
              (answer_retry-OwnIfNew u chat around.peer checked.0 checked.1 _ _
                (send_new-OwnIfNew u chat checked.0 checked.1 around id reply_id now)))))

-- A new message speaks as an identity that its sender may use: in a direct conversation as the sender, to a peer
-- that receives from the sender; in an inquiry as the sender who requested it, or as the inbox when the
-- sender responds for it. Its sender columns are the sender's and its key is the input's.
pub send_for-IsOwn :
    (digest : Payload → String) (u : Participant) (chat chat' : Chat) (given : SendInput)
    (around : Surroundings) (id reply_id : String) (now : Time) (m : Message)
    → send_for digest u chat given around id reply_id now ≡ ok (chat', m, false)
    → IsOwn u chat around.peer given.client_message_id m
send_for-IsOwn digest u chat chat' given around id reply_id now m h =
    of_Ensures (OwnIfNew u chat around.peer given.client_message_id) _
      (send_for-OwnIfNew digest u chat given around id reply_id now) h
