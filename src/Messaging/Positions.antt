-- ===== src/Messaging/Positions.antt =====
-- Read positions: what SetReadFor leaves.
use musecat_backend_core.Prelude.{
  ℕ, ◌≤◌, ◌≡◌, refl, sym, subst, ap, arith, inl, inr, String, List, [], ◌∷◌, Bool, true, false, not,
  ◌&&◌, if◌then◌else◌, str_eq, eq_refl, eq_iff, ltb, leb, Result, ok, >>=-Ensures, Ensures,
  of_Ensures, Bool-cases,
}
use musecat_backend_core.Prelude.Int.{pos}
use musecat_backend_core.Messaging.Rows.{
  Participant, Read, Notice, Conversation, Chat, ChatError, bad_request, not_found,
}
use musecat_backend_core.Messaging.Notices.{read_notices}
use musecat_backend_core.Messaging.Policy.{is_dm, may_access}
use musecat_backend_core.Messaging.Write.{Surroundings}
use musecat_backend_core.Messaging.Send.{demand}
use musecat_backend_core.Messaging.Actions.{
  last_read, move_read, set_read, tell_peers, peer_events, tell_peer, with_position,
}

abbrev later : ℕ → ℕ → ℕ
later old through = if ltb old through then through else old

last_read-move_read :
    (me : String) (through : ℕ) (reads : List Read)
    → last_read me (move_read me through reads) ≡ later (last_read me reads) through
unfolding move_read
last_read-move_read me through [] = rw (eq_refl me) (ground arith)
last_read-move_read me through (r ∷ rs) = elim (Bool-cases (str_eq r.user me)) [
  | inl e ↦ elim (Bool-cases (ltb r.last_read_sequence through)) [
    | inl e' ↦ rw (e, e', e) refl
    | inr e' ↦ rw (e, e', e) refl
  ]
  | inr e ↦ rw (e, e) (last_read-move_read me through rs)
]

other-move_read :
    (me other : String) (through : ℕ) (reads : List Read)
    → str_eq me other ≡ false
    → last_read other (move_read me through reads) ≡ last_read other reads
unfolding move_read
other-move_read me other through [] apart = rw apart refl
other-move_read me other through (r ∷ rs) apart = elim (Bool-cases (str_eq r.user me)) [
  | inl e ↦
      let o : str_eq r.user other ≡ false =
        subst (λ x. str_eq x other ≡ false) (sym ((eq_iff r.user me).0 e)) apart in
      elim (Bool-cases (ltb r.last_read_sequence through)) [
        | inl e' ↦ rw (e, e', o) refl
        | inr e' ↦ rw (e, e', o) refl
      ]
  | inr e ↦ rw (e, other-move_read me other through rs apart) refl
]

any-move_read :
    (me any : String) (through : ℕ) (reads : List Read)
    → last_read any (move_read me through reads)
      ≡ (if str_eq me any then last_read me (move_read me through reads) else last_read any reads)
any-move_read me any through reads = elim (Bool-cases (str_eq me any)) [
  | inl e ↦
      rw e (ap (λ name. last_read name (move_read me through reads)) (sym ((eq_iff me any).0 e)))
  | inr e ↦ rw e (other-move_read me any through reads e)
]

-- every notice of the user up to the sequence is read
abbrev pub AreRead : String → ℕ → List Notice → Type 0
AreRead me last [] = Unit
AreRead me last (n ∷ ns) =
    ((str_eq n.user me && leb n.sequence last && not n.read) ≡ false) × AreRead me last ns

read_notices-AreRead :
    (me : String) (last : ℕ) (notices : List Notice)
    → AreRead me last (read_notices me last notices)
unfolding read_notices
read_notices-AreRead me last [] = tt
read_notices-AreRead me last (n ∷ ns) =
    elim (Bool-cases (str_eq n.user me && leb n.sequence last)) [
      | inl e ↦ rw e (ground arith, read_notices-AreRead me last ns)
      | inr e ↦ rw e (ground arith, read_notices-AreRead me last ns)
    ]

-- what a position that was set leaves: the position is the later of the old one and the one asked for, and not
-- past the conversation; the others keep theirs, and the messages and the case stay
pub record IsMoved (me : String) (through : ℕ) (before : Chat) (answer : Chat × ℕ) : Type 0 where
  pub position : answer.1 ≡ later (last_read me before.reads) through
  pub within : through ≤ before.conversation.last_sequence
  pub others :
      (any : String)
      → last_read any answer.0.reads
        ≡ (if str_eq me any then answer.1 else last_read any before.reads)
  pub notices : AreRead me answer.1 answer.0.notices
  pub messages : answer.0.messages ≡ before.messages
  pub case : answer.0.case ≡ before.case

abbrev MovedTo : String → ℕ → Chat → ℕ → Chat → Type 0
MovedTo me through before last after = IsMoved me through before (after, last)

tell_peer-MovedTo :
    (me : String) (through : ℕ) (before : Chat) (last : ℕ) (chat : Chat) (c : Conversation)
    (peer : String) (own : Bool)
    → MovedTo me through before last chat
    → MovedTo me through before last (tell_peer chat c peer own)
tell_peer-MovedTo me through before last chat c peer true i = i
tell_peer-MovedTo me through before last chat c peer false i = record {
  position = i.position;
  within = i.within;
  others = i.others;
  notices = i.notices;
  messages = i.messages;
  case = i.case;
}

peer_events-MovedTo :
    (me : String) (through : ℕ) (before : Chat) (last : ℕ) (c : Conversation) (peers : List String)
    (chat : Chat)
    → MovedTo me through before last chat
    → MovedTo me through before last (peer_events chat c me peers)
peer_events-MovedTo me through before last c [] chat i = i
peer_events-MovedTo me through before last c (peer ∷ peers) chat i =
    peer_events-MovedTo me through before last c peers (tell_peer chat c peer (str_eq peer me))
      (tell_peer-MovedTo me through before last chat c peer (str_eq peer me) i)

tell_peers-MovedTo :
    (me : String) (through : ℕ) (before : Chat) (last : ℕ) (chat : Chat) (c : Conversation)
    (tells : Bool) (audience : Result ChatError (List String))
    → MovedTo me through before last chat
    → Ensures (MovedTo me through before last) (tell_peers chat c me tells audience)
tell_peers-MovedTo me through before last chat c false audience i = i
tell_peers-MovedTo me through before last chat c true audience i =
    >>=-Ensures (MovedTo me through before last) audience _
      (λ peers _. peer_events-MovedTo me through before last c peers chat i)

with_position-MovedTo :
    (u : Participant) (chat : Chat) (through : ℕ)
    → ltb chat.conversation.last_sequence through ≡ false
    → let last = last_read u.id (move_read u.id through chat.reads) in
      MovedTo u.id through chat last (with_position u chat through last)
with_position-MovedTo u chat through within = record {
  position = last_read-move_read u.id through chat.reads;
  within = ground arith;
  others = λ any. any-move_read u.id any through chat.reads;
  notices = read_notices-AreRead u.id _ chat.notices;
  messages = refl;
  case = refl;
}

set_read-IsMoved :
    (u : Participant) (chat : Chat) (through : ℕ) (around : Surroundings)
    → Ensures (IsMoved u.id through chat) (set_read u chat (pos through) around)
unfolding set_read
set_read-IsMoved u chat through around =
    let moved = IsMoved u.id through chat in
    let c = chat.conversation in
    let last = last_read u.id (move_read u.id through chat.reads) in
    let rows = with_position u chat through last in
    let tells = is_dm c.kind && ltb (last_read u.id chat.reads) last in
    >>=-Ensures moved (demand not_found (may_access u chat around.parties)) _ (λ _ _.
      >>=-Ensures moved (demand bad_request (not (ltb c.last_sequence through))) _ (λ _ within.
        >>=-Ensures moved (tell_peers rows c u.id tells around.audience) _ (λ told done.
          of_Ensures (MovedTo u.id through chat last) _
            (tell_peers-MovedTo u.id through chat last rows c tells around.audience
              (with_position-MovedTo u chat through (ground arith)))
            done)))

-- A read position that is accepted is not past the conversation and moves the position of the user forward to
-- it, never back; the positions of all others, the messages and the case stay, and no notice of the user up
-- to the position is left unread.
pub set_read_lem :
    (u : Participant) (chat : Chat) (through : ℕ) (around : Surroundings) (answer : Chat × ℕ)
    → set_read u chat (pos through) around ≡ ok answer
    → IsMoved u.id through chat answer
set_read_lem u chat through around answer h =
    of_Ensures (IsMoved u.id through chat) _ (set_read-IsMoved u chat through around) h
