-- ===== src/Messaging/Hub.antt =====
-- The hub of events: Subscribe, Unsubscribe and Publish of service/messaging/events.go. A call holds the
-- hub's lock, so calls happen one after the other; a subscription is a pointer there and a number here.
use musecat_backend_core.Prelude.{
  ℕ, suc, String, Option, none, some, List, [], ◌∷◌, ◌++◌, Bool, true, false, not, ◌&&◌, ◌||◌, any,
  if◌then◌else◌, str_eq, ltb, leb, ◌==◌, length, select,
}
use musecat_backend_core.Messaging.Rows.{Event}

-- Subscription: the buffered events, the oldest first, and whether the overflow is flagged
pub record Subscription : Type 0 where
  pub id : ℕ
  pub user : String
  pub events : List Event
  pub overflow : Bool

-- Hub.clients
abbrev pub Hub : Type 0
Hub = List Subscription

abbrev pub count_of : String → Hub → ℕ
count_of user [] = 0
count_of user (s ∷ ss) =
    let rest = count_of user ss in if str_eq s.user user then suc rest else rest

-- Subscribe, with the number of the new subscription
unfoldable pub subscribe : Hub → String → ℕ → Option Hub
subscribe hub user id =
    if leb 4 (count_of user hub) || leb 1024 (length hub)
    then none
    else some (record { id = id; user = user; events = []; overflow = false } ∷ hub)

-- Unsubscribe
unfoldable pub unsubscribe : Hub → ℕ → Hub
unsubscribe hub id = select (λ s. not (s.id == id)) hub

-- whom an event is for
unfoldable pub is_addressed : Event → Subscription → Bool
is_addressed event s =
    not (
      not (str_eq event.id "")
      && str_eq event.user_id ""
      && not (any (str_eq s.user) event.audience))
    && not (not (str_eq event.user_id "") && not (str_eq event.user_id s.user))

-- the send on the two channels, whose capacities are 32 and 1
unfoldable pub deliver : Event → Subscription → Subscription
deliver event s =
    if ltb (length s.events) 32
    then record s { events = s.events ++ (event ∷ []) }
    else record s { overflow = true }

-- Publish
unfoldable pub publish : Hub → Event → Hub
unfolding is_addressed deliver
publish [] event = []
publish (s ∷ ss) event = (if is_addressed event s then deliver event s else s) ∷ publish ss event

abbrev pub rest : List Event → List Event
rest [] = []
rest (e ∷ es) = es

-- a client receives its oldest event
unfoldable pub receive : Hub → ℕ → Hub
receive [] id = []
receive (s ∷ ss) id =
    (if s.id == id then record s { events = rest s.events } else s) ∷ receive ss id
