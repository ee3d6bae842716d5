-- ===== src/Aime/Subscriptions.antt =====
-- The subscriptions to the recovery: GetAimeStatus's flag, SetAimeSubscription and DrainAimeRecoveries.
use musecat_backend_core.Prelude.{
  ℕ, zero, suc, String, Option, none, some, List, [], ◌∷◌, ◌++◌, Bool, false, ◌&&◌, ◌||◌, any,
  if◌then◌else◌, str_eq, Result, ok, err,
}
use musecat_backend_core.Prelude.Text.{concat}
use musecat_backend_core.Aime.Probe.{AimeState}

-- a row of aime_recovery_subscription, in the order of their identifiers; a user has at most one
pub record AimeSubscription : Type 0 where
  pub user : String
  pub incident : String

-- a row of user_notification of the kind aime_recovery, and one of user_notification_delivery for it
pub record Notice : Type 0 where
  pub user : String
  pub event_key : String

pub record Delivery : Type 0 where
  pub notice : Notice
  pub device : String

pub data AimeError : Type 0 where
  aime_not_blocked : AimeError

abbrev pub without : String → List AimeSubscription → List AimeSubscription
without user [] = []
without user (s ∷ ss) = let rest = without user ss in if str_eq s.user user then ss else s ∷ rest

abbrev pub put_subscription : String → String → List AimeSubscription → List AimeSubscription
put_subscription user incident [] = record { user = user; incident = incident } ∷ []
put_subscription user incident (s ∷ ss) =
    let rest = put_subscription user incident ss in
    if str_eq s.user user then record { user = user; incident = incident } ∷ ss else s ∷ rest

abbrev subscribe_to :
    Option AimeState → String → List AimeSubscription → Result AimeError (List AimeSubscription)
subscribe_to none user rows = err aime_not_blocked
subscribe_to (some state) user rows =
    if str_eq state.incident "" || state.recovered
    then err aime_not_blocked
    else ok (put_subscription user state.incident rows)

-- SetAimeSubscription
unfoldable pub set_aime_subscription :
    Option AimeState
    → List AimeSubscription
    → String
    → Bool
    → Result AimeError (List AimeSubscription)
set_aime_subscription state rows user enabled =
    if enabled then subscribe_to state user rows else ok (without user rows)

-- the rows that a drain works on
pub record Inbox : Type 0 where
  pub notices : List Notice
  pub deliveries : List Delivery

abbrev pub event_of : AimeSubscription → Notice
event_of s = record { user = s.user; event_key = concat "aime:" s.incident }

abbrev pub same_notice : Notice → Notice → Bool
same_notice a b = str_eq a.user b.user && str_eq a.event_key b.event_key

abbrev deliveries_for : Notice → List String → List Delivery
deliveries_for n [] = []
deliveries_for n (d ∷ ds) = record { notice = n; device = d } ∷ deliveries_for n ds

abbrev pub add_notice : (String → List String) → Inbox → Notice → Inbox
add_notice devices inbox n = record {
  notices = n ∷ inbox.notices;
  deliveries = deliveries_for n (devices n.user) ++ inbox.deliveries;
}

-- one round of the loop: a notice for an active user that has none, with a delivery for each device
unfoldable pub notify_subscriber :
    (String → Bool) → (String → List String) → Inbox → AimeSubscription → Inbox
notify_subscriber withdrawn devices inbox s =
    if withdrawn s.user || any (same_notice (event_of s)) inbox.notices
    then inbox
    else add_notice devices inbox (event_of s)

-- the loop over at most `n` rows, each of which is deleted
unfoldable pub drain_rows :
    ℕ
    → (String → Bool)
    → (String → List String)
    → List AimeSubscription
    → Inbox
    → List AimeSubscription × Inbox
unfolding notify_subscriber
drain_rows zero withdrawn devices rows inbox = (rows, inbox)
drain_rows (suc n) withdrawn devices [] inbox = ([], inbox)
drain_rows (suc n) withdrawn devices (s ∷ ss) inbox =
    drain_rows n withdrawn devices ss (notify_subscriber withdrawn devices inbox s)

abbrev is_recovered : Option AimeState → Bool
is_recovered none = false
is_recovered (some state) = state.recovered

-- DrainAimeRecoveries, where every subscriber has an account
unfoldable pub drain_aime_recoveries :
    Option AimeState
    → (String → Bool)
    → (String → List String)
    → List AimeSubscription
    → Inbox
    → List AimeSubscription × Inbox
unfolding drain_rows
drain_aime_recoveries state withdrawn devices rows inbox =
    if is_recovered state then drain_rows 100 withdrawn devices rows inbox else (rows, inbox)
