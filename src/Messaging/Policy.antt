-- ===== src/Messaging/Policy.antt =====
-- Who may write what: principal.go and policy.go of service/messaging.
use musecat_backend_core.Prelude.{
  String, Option, none, some, List, [], ◌∷◌, ◌++◌, Bool, true, false, not, ◌&&◌, ◌||◌, any,
  if◌then◌else◌, str_eq, Result, ok, err,
}
use musecat_backend_core.Messaging.Rows.{
  PartyType, user, guest, arcade, same_type, Identity, same_identity, Participant, Kind, dm,
  inquiry, Status, waiting, recognised, solved, Inquiry, Chat, ChatError, forbidden, bad_request,
  not_found,
}

abbrev pub is_dm : Kind → Bool
is_dm dm = true
is_dm inquiry = false

-- requesterType
unfoldable pub requester_type : Inquiry → PartyType
requester_type q = if same_type q.requester_type guest then guest else user

-- participant.requests
unfoldable pub requests : Participant → Inquiry → Bool
unfolding requester_type
requests u q =
    if not (same_type (requester_type q) u.party) || not (str_eq q.requester u.id)
    then false
    else same_type u.party user
      || (not (str_eq u.guest_hash "") && str_eq q.guest_key_hash u.guest_hash)

-- Responder
unfoldable pub responder : Participant → Inquiry → Bool
responder u q = u.staff || (same_type q.inbox.party arcade && u.official)

-- inquiryPermissions
pub record InquiryPermissions : Type 0 where
  pub identities : List Identity
  pub statuses : List Status

-- inquiryPolicy
unfoldable pub inquiry_policy : Participant → Inquiry → Bool → InquiryPermissions
unfolding requests
inquiry_policy u q responds = record {
  identities =
      (if requests u q then (record { party = u.party; id = u.id }) ∷ [] else [])
      ++ (if responds then q.inbox ∷ [] else []);
  statuses = (if responds then waiting ∷ recognised ∷ solved ∷ [] else []);
}

-- the direct messages between two users: whether `to` receives, is active, and the blocks, as pairs of the
-- user and the blocked user
pub record Reach : Type 0 where
  pub receives : Bool
  pub active : Bool
  pub blocks : List (String × String)

abbrev pub blocks_between : String → String → List (String × String) → Bool
blocks_between a b blocks =
    any
      (λ (row : String × String).
        (str_eq row.0 a && str_eq row.1 b) || (str_eq row.0 b && str_eq row.1 a))
      blocks

-- CanDM
unfoldable pub can_dm : Reach → String → String → Bool
can_dm reach from to =
    if str_eq from to || not reach.receives
    then false
    else if not reach.active
    then false
    else not (blocks_between from to reach.blocks)

-- the peer of a direct conversation, if there is one, and how it is reached
pub record Peer : Type 0 where
  pub id : Option String
  pub reach : Reach

abbrev pub peer_open : Participant → Peer → Option String → Bool
peer_open u peer none = false
peer_open u peer (some to) = can_dm peer.reach u.id to

abbrev pub own_requested : Identity → Option Identity → Bool
own_requested own none = true
own_requested own (some requested) = same_identity requested own

-- the choice of an inquiry's sender among the permitted ones
abbrev pub first_identity : List Identity → Result ChatError Identity
first_identity [] = err forbidden
first_identity (i ∷ []) = ok i
first_identity (i ∷ j ∷ is) = err bad_request

abbrev pub chosen_identity : Identity → List Identity → Result ChatError Identity
chosen_identity requested [] = err forbidden
chosen_identity requested (i ∷ is) =
    let rest = chosen_identity requested is in if same_identity requested i then ok i else rest

abbrev pub choose : Option Identity → List Identity → Result ChatError Identity
choose none is = first_identity is
choose (some requested) is = chosen_identity requested is

abbrev pub case_actor : Participant → Option Inquiry → Option Identity → Result ChatError Identity
case_actor u none requested = err not_found
case_actor u (some q) requested = choose requested (inquiry_policy u q (responder u q)).identities

-- actor
unfoldable pub actor : Participant → Chat → Peer → Option Identity → Result ChatError Identity
unfolding can_dm inquiry_policy responder
actor u chat peer requested =
    let own : Identity = record { party = u.party; id = u.id } in
    if is_dm chat.conversation.kind
    then (if not (own_requested own requested)
        then err forbidden
        else if peer_open u peer peer.id
        then ok own
        else err forbidden)
    else case_actor u chat.case requested

abbrev pub case_access : Participant → Option Inquiry → Bool
case_access u none = false
case_access u (some q) = requests u q || responder u q

-- access, once the participant is resolved and the conversation found; `parties` are the users of the
-- conversation
unfoldable pub may_access : Participant → Chat → List String → Bool
unfolding requests responder
may_access u chat parties =
    if is_dm chat.conversation.kind
    then same_type u.party user && any (str_eq u.id) parties
    else case_access u chat.case
