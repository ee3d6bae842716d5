-- ===== src/Examples/Recoveries.antt =====
-- The hub with a subscription, and an incident of Aime from its first probe to its notices.
use musecat_backend_core.Prelude.{All, some, List, [], ◌∷◌, true, false, ◌≡◌, refl, arith, str_eq}
use musecat_backend_core.Messaging.Rows.{changed_event}
use musecat_backend_core.Messaging.Hub.{Hub, Subscription, subscribe, publish}
use musecat_backend_core.Messaging.HubBounds.{
  IsBounded, HubReached, opened, subscribed, published, HubReached-IsBounded,
}
use musecat_backend_core.Aime.Probe.{
  available, blocked, web, Source, AimeState, minutes, new_state, next_state,
}
use musecat_backend_core.Aime.Recovery.{begun, probed, telegram_told, IsSound, AimeReached-IsSound}
use musecat_backend_core.Aime.Progress.{SameIncident, recovery_is_final, five_pages_recover}
use musecat_backend_core.Aime.Subscriptions.{AimeSubscription, Inbox, drain_aime_recoveries}
use musecat_backend_core.Aime.Notified.{AreDistinct, IsServed, drain_aime_recoveries_lem}

abbrev client : Subscription
client = record { id = 1; user = "alice"; events = []; overflow = false }

abbrev client_hub : Hub
client_hub = client ∷ []

client-HubReached : HubReached client_hub
unfolding subscribe
client-HubReached = subscribed [] client_hub "alice" 1 opened refl

HubReached-IsBounded_example :
    IsBounded (publish client_hub (changed_event "c1" 1 "message" ("alice" ∷ [])))
HubReached-IsBounded_example =
    HubReached-IsBounded _
      (published client_hub (changed_event "c1" 1 "message" ("alice" ∷ [])) client-HubReached)

abbrev maintenance : Source
maintenance = record { status = blocked; http_status = 200 }

-- the row after the first page of a maintenance
abbrev down : AimeState
down = next_state new_state maintenance "20261126T100000" 1

AimeReached-IsSound_example : IsSound (record down { ops_telegram_sent = true })
AimeReached-IsSound_example =
    AimeReached-IsSound new_state (record down { ops_telegram_sent = true }) (omega arith)
      (telegram_told down (probed new_state maintenance "20261126T100000" 1 begun))

abbrev told : AimeState
told = record {
  status = web blocked;
  http_status = 200;
  checked_at = 1;
  incident = "20261126T100000";
  recovered = false;
  confirmations = 0;
  confirmation_at = 1;
  ops_candidate_at = 0;
  ops_telegram_sent = true;
  ops_discord_sent = true;
}

abbrev page : Source
page = record { status = available; http_status = 200 }

-- an available page was seen before the second channel was told, and the next pages come at uneven times
abbrev seen_once : AimeState
seen_once = record told {
  status = web available;
  confirmation_at = minutes 6;
  ops_candidate_at = minutes 6;
}

five_pages_recover_example :
    (next_state
      (next_state
        (next_state
          (next_state (next_state seen_once page "" (minutes 10)) page "" (minutes 20))
          page
          ""
          (minutes 25))
        page
        ""
        (minutes 32))
      page
      ""
      (minutes 37)).recovered
    ≡ true
five_pages_recover_example =
    five_pages_recover seen_once 200 "" (minutes 10) (minutes 20) (minutes 25) (minutes 32)
      (minutes 37) (record { named = refl; telegram = refl; discord = refl }) (omega arith)
      (omega arith) (omega arith) (omega arith) (omega arith) (omega arith) (omega arith)
      (omega arith) (omega arith)

abbrev recovered_row : AimeState
recovered_row = record told { recovered = true; confirmations = 3 }

recovery_is_final_example :
    SameIncident recovered_row (next_state recovered_row maintenance "20261127T090000" (minutes 90))
recovery_is_final_example =
    recovery_is_final recovered_row _ refl
      (probed recovered_row maintenance "20261127T090000" (minutes 90) begun)

abbrev followers : List AimeSubscription
followers =
    record { user = "alice"; incident = "20261126T100000" }
    ∷ record { user = "bob"; incident = "20261126T100000" }
    ∷ []

abbrev empty_inbox : Inbox
empty_inbox = record { notices = []; deliveries = [] }

drain_aime_recoveries_lem_example :
    let out =
      drain_aime_recoveries
        (some recovered_row)
        (str_eq "bob")
        (λ user. "d1" ∷ [])
        followers
        empty_inbox in
    (out.0 ≡ []) × All (IsServed (str_eq "bob") out.1) followers × AreDistinct out.1.notices
drain_aime_recoveries_lem_example =
    drain_aime_recoveries_lem recovered_row (str_eq "bob") (λ user. "d1" ∷ []) followers empty_inbox
      refl (omega arith) tt
