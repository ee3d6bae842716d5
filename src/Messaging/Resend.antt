-- ===== src/Messaging/Resend.antt =====
-- A second SendFor with the same input.
use musecat_backend_core.Prelude.{
  ◌≡◌, refl, subst, ap, arith, inl, inr, String, Option, none, some, List, [], ◌∷◌, Bool, true,
  false, not, str_eq, eq_refl, Result, ok, >>=-Ensures, Ensures, of_Ensures, Ensures-map,
  Bool-cases,
}
use musecat_backend_core.Xp.Kinds.{Time}
use musecat_backend_core.Messaging.Rows.{
  Identity, same_identity, Participant, Inquiry, Message, Chat, ChatError, bad_request, not_found,
}
use musecat_backend_core.Messaging.Input.{
  SendInput, Payload, input_hash, validate_mentions, rate_limit,
}
use musecat_backend_core.Messaging.Insert.{existing_retry}
use musecat_backend_core.Messaging.Policy.{
  is_dm, Peer, actor, may_access, case_access, case_actor, chosen_identity, requests, responder,
}
use musecat_backend_core.Messaging.Write.{Surroundings, save_message}
use musecat_backend_core.Messaging.Send.{
  Sent, demand, may_select, reply_of, settle_bot, with_newest, answer_retry, replay, other_identity,
  inbox_type, send_new, send_for,
}
use musecat_backend_core.Messaging.Retry.{SameOwner, SameOwner-refl, Wrote, save_message-Wrote}
use musecat_backend_core.Messaging.Found.{
  IsFound, FoundIn, is_retry-IsWritten, own_message-found, settle_bot-IsFound,
}

chosen_identity-same :
    (requested acting : Identity) (is : List Identity)
    → chosen_identity requested is ≡ ok acting
    → same_identity requested acting ≡ true
chosen_identity-same requested acting [] h = absurd (ground arith)
chosen_identity-same requested acting (i ∷ is) h = elim (Bool-cases (same_identity requested i)) [
  | inl e ↦ subst (λ a. same_identity requested a ≡ true) (ground arith) e
  | inr e ↦ chosen_identity-same requested acting is (ground arith)
]

case_actor-requested :
    (u : Participant) (case : Option Inquiry) (requested acting : Identity)
    → case_actor u case (some requested) ≡ ok acting
    → same_identity requested acting ≡ true
case_actor-requested u none requested acting h = absurd (ground arith)
case_actor-requested u (some q) requested acting h = chosen_identity-same requested acting _ h

dm_requested :
    (u : Participant) (chat : Chat) (peer : Peer) (requested : Identity) (m : Message)
    → is_dm chat.conversation.kind ≡ true
    → actor u chat peer (some requested) ≡ ok m.acting
    → not (same_identity requested m.acting) ≡ false
unfolding actor
dm_requested u chat peer requested m e h =
    let own : Identity = record { party = u.party; id = u.id } in
    elim (Bool-cases (same_identity requested own)) [
      | inl same ↦
          subst (λ a. not (same_identity requested a) ≡ false) {x = own} (ground arith)
            (ap not same)
      | inr other ↦ absurd (ground arith)
    ]

actor-requested :
    (u : Participant) (chat : Chat) (peer : Peer) (requested : Option Identity) (m : Message)
    → actor u chat peer requested ≡ ok m.acting
    → other_identity requested m ≡ false
unfolding actor
actor-requested u chat peer none m h = refl
actor-requested u chat peer (some requested) m h =
    elim (Bool-cases (is_dm chat.conversation.kind)) [
      | inl e ↦ dm_requested u chat peer requested m e h
      | inr e ↦ ap not (case_actor-requested u chat.case requested m.acting (ground arith))
    ]

case_access-owner :
    (u : Participant) (case case' : Option Inquiry)
    → SameOwner case case'
    → case_access u case' ≡ case_access u case
unfolding requests responder
case_access-owner u none none o = refl
case_access-owner u none (some q) o = absurd (ground arith)
case_access-owner u (some q) none o = absurd (ground arith)
case_access-owner u (some q) (some q') o = rw (o.0, o.1, o.2, o.3) refl

inbox_type-owner :
    (case case' : Option Inquiry) → SameOwner case case' → inbox_type case' ≡ inbox_type case
inbox_type-owner none none o = refl
inbox_type-owner none (some q) o = absurd (ground arith)
inbox_type-owner (some q) none o = absurd (ground arith)
inbox_type-owner (some q) (some q') o = ap (λ (i : Identity). i.party) o.3

may_access-owner :
    (u : Participant) (chat chat' : Chat) (parties : List String)
    → chat'.conversation.kind ≡ chat.conversation.kind
    → SameOwner chat.case chat'.case
    → may_access u chat' parties ≡ may_access u chat parties
unfolding may_access
may_access-owner u chat chat' parties kind owner =
    rw (kind, case_access-owner u chat.case chat'.case owner) refl

Wrote-IsFound :
    (u : Participant) (chat saved : Chat) (input : SendInput) (digest : String) (acting : Identity)
    (peer : Peer) (m : Message)
    → actor u chat peer input.acting_as ≡ ok acting
    → Wrote u input.client_message_id digest acting chat saved
    → with_newest saved saved.messages ≡ ok m
    → IsFound u input digest chat (saved, m, false)
Wrote-IsFound u chat saved input digest acting peer m chosen wrote newest =
    let (n, ns, rows, written) = wrote.newest in
    let first : with_newest saved (n ∷ ns) ≡ ok m =
      subst (λ ms. with_newest saved ms ≡ ok m) rows newest in
    let same : n ≡ m = ground arith in
    subst (λ m'. IsFound u input digest chat (saved, m', false)) same
      (record {
        found =
            own_message-found u n ns saved input.client_message_id rows
              (is_retry-IsWritten u input.client_message_id digest acting n written);
        hash = rw written.hash (eq_refl digest);
        acting = actor-requested u chat peer input.acting_as n (rw written.acting chosen);
        kind = wrote.kind;
        owner = wrote.owner;
      })

send_new-IsFound :
    (u : Participant) (chat : Chat) (input : SendInput) (digest : String) (around : Surroundings)
    (id reply_id : String) (now : Time)
    → str_eq "" u.id ≡ false
    → Ensures (IsFound u input digest chat) (send_new u chat input digest around id reply_id now)
unfolding send_new existing_retry
send_new-IsFound u chat input digest around id reply_id now named =
    let found = IsFound u input digest chat in
    >>=-Ensures found (actor u chat around.peer input.acting_as) _ (λ acting chosen.
      >>=-Ensures found (rate_limit 60 around.recent.messages) _ (λ _ _.
        >>=-Ensures found (rate_limit 30 around.recent.messages_here) _ (λ _ _.
          >>=-Ensures found (demand bad_request (may_select input.bot_choice acting)) _ (λ _ _.
            >>=-Ensures found (reply_of u chat input chat.conversation.kind) _ (λ reply _.
              >>=-Ensures found (save_message u chat input acting digest around id now) _
                (λ saved done.
                  let wrote =
                    of_Ensures (Wrote u input.client_message_id digest acting chat) _
                      (save_message-Wrote u chat input acting digest around id now) done in
                  >>=-Ensures found (with_newest saved saved.messages) _ (λ m newest.
                    >>=-Ensures found (settle_bot saved reply_id now around.audience reply) _
                      (λ settled last.
                        of_Ensures (FoundIn u input digest chat m) _
                          (settle_bot-IsFound u saved reply_id now around.audience reply input
                            digest chat m named
                            (Wrote-IsFound u chat saved input digest acting around.peer m chosen
                              wrote newest))
                          last))))))))

replay-IsFound :
    (u : Participant) (chat : Chat) (input : SendInput) (digest : String) (prior : Message)
    → existing_retry chat u.id input.client_message_id ≡ some prior
    → Ensures (IsFound u input digest chat) (replay chat input digest prior)
replay-IsFound u chat input digest prior found =
    elim (Bool-cases (str_eq prior.payload_hash digest)) [
      | inr e ↦ rw e tt
      | inl e ↦ elim (Bool-cases (other_identity input.acting_as prior)) [
        | inl e' ↦ rw (e, e') tt
        | inr e' ↦
            rw (e, e')
              (record {
                found = found;
                hash = e;
                acting = e';
                kind = refl;
                owner = SameOwner-refl chat.case;
              })
      ]
    ]

answer_retry-IsFound :
    (u : Participant) (chat : Chat) (input : SendInput) (digest : String) (prior : Option Message)
    (fresh : Result ChatError Sent)
    → existing_retry chat u.id input.client_message_id ≡ prior
    → Ensures (IsFound u input digest chat) fresh
    → Ensures (IsFound u input digest chat) (answer_retry chat input digest prior fresh)
answer_retry-IsFound u chat input digest none fresh same f = f
answer_retry-IsFound u chat input digest (some prior) fresh same f =
    replay-IsFound u chat input digest prior same

-- the answer to the same input from the rows that a message leaves
answer_again :
    (digest : Payload → String) (u : Participant) (chat : Chat) (given : SendInput)
    (around : Surroundings) (id reply_id : String) (now : Time) (checked : SendInput × String)
    (sent : Sent) (may must : Unit)
    → input_hash digest given ≡ ok checked
    → demand not_found (may_access u chat around.parties) ≡ ok may
    → validate_mentions chat.conversation.kind (inbox_type chat.case) checked.0.mentions ≡ ok must
    → IsFound u checked.0 checked.1 chat sent
    → send_for digest u sent.0 given around id reply_id now ≡ ok (sent.0, sent.1, true)
unfolding send_for
answer_again digest u chat given around id reply_id now checked sent may must inp allowed mentions
      f =
    rw
      (
        inp,
        may_access-owner u chat sent.0 around.parties f.kind f.owner,
        allowed,
        f.kind,
        inbox_type-owner chat.case sent.0.case f.owner,
        mentions,
        f.found,
        f.hash,
        f.acting,
      )
      refl

abbrev Repeats :
    (Payload → String)
    → Participant
    → SendInput
    → Surroundings
    → String
    → String
    → Time
    → Sent
    → Type 0
Repeats digest u given around id reply_id now sent =
    send_for digest u sent.0 given around id reply_id now ≡ ok (sent.0, sent.1, true)

send_for-Repeats :
    (digest : Payload → String) (u : Participant) (chat : Chat) (given : SendInput)
    (around around' : Surroundings) (id id' reply_id reply_id' : String) (now now' : Time)
    → str_eq "" u.id ≡ false
    → around'.parties ≡ around.parties
    → Ensures
        (Repeats digest u given around' id' reply_id' now')
        (send_for digest u chat given around id reply_id now)
unfolding send_for
send_for-Repeats digest u chat given around around' id id' reply_id reply_id' now now' named
      parties =
    let again = Repeats digest u given around' id' reply_id' now' in
    >>=-Ensures again (input_hash digest given) _ (λ checked inp.
      >>=-Ensures again (demand not_found (may_access u chat around.parties)) _ (λ may allowed.
        >>=-Ensures again
          (validate_mentions chat.conversation.kind (inbox_type chat.case) checked.0.mentions) _
          (λ must mentions.
            Ensures-map (IsFound u checked.0 checked.1 chat) again _
              (λ sent f.
                answer_again digest u chat given around' id' reply_id' now' checked sent may must
                  inp (rw parties allowed) mentions f)
              (answer_retry-IsFound u chat checked.0 checked.1 _ _ refl
                (send_new-IsFound u chat checked.0 checked.1 around id reply_id now named)))))

-- A message that was sent, or answered from an earlier one, is answered again from the rows that it left:
-- whatever the peers, blocks and rate limits have become, the same participant sending the same input gets the
-- same message back, marked as a replay, and no row changes. The participant's identifier is not empty, and
-- the users of the conversation are the same.
pub send_for_again :
    (digest : Payload → String) (u : Participant) (chat chat' : Chat) (given : SendInput)
    (around around' : Surroundings) (id id' reply_id reply_id' : String) (now now' : Time)
    (m : Message) (replayed : Bool)
    → str_eq "" u.id ≡ false
    → around'.parties ≡ around.parties
    → send_for digest u chat given around id reply_id now ≡ ok (chat', m, replayed)
    → send_for digest u chat' given around' id' reply_id' now' ≡ ok (chat', m, true)
send_for_again digest u chat chat' given around around' id id' reply_id reply_id' now now' m
      replayed named parties h =
    of_Ensures (Repeats digest u given around' id' reply_id' now') _
      (send_for-Repeats digest u chat given around around' id id' reply_id reply_id' now now' named
        parties)
      h
