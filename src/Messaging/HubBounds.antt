-- ===== src/Messaging/HubBounds.antt =====
-- The bounds of the hub of events, over any sequence of its calls.
use musecat_backend_core.Prelude.{
  ℕ, suc, ◌≤◌, ◌≡◌, refl, sym, subst, arith, inl, inr, String, some, List, [], ◌∷◌, false, ◌||◌,
  All, str_eq, eq_iff, ltb, leb, ◌==◌, length, Bool-cases, length-append,
}
use musecat_backend_core.Messaging.Rows.{Event}
use musecat_backend_core.Messaging.Hub.{
  Subscription, Hub, count_of, subscribe, unsubscribe, is_addressed, deliver, publish, receive,
  rest,
}

-- the bounds of a hub: 1024 subscriptions, of which 4 of one user, and 32 events in a buffer
pub record IsBounded (hub : Hub) : Type 0 where
  pub clients : length hub ≤ 1024
  pub per_user : (user : String) → count_of user hub ≤ 4
  pub buffers : All (λ s. length s.events ≤ 32) hub

subscribe-IsBounded :
    (hub hub' : Hub) (user : String) (id : ℕ)
    → subscribe hub user id ≡ some hub'
    → IsBounded hub
    → IsBounded hub'
unfolding subscribe
subscribe-IsBounded hub hub' user id h b =
    elim (Bool-cases (leb 4 (count_of user hub) || leb 1024 (length hub))) [
      | inl e ↦ absurd (ground arith)
      | inr e ↦
          subst IsBounded {x = record { id = id; user = user; events = []; overflow = false } ∷ hub}
            (ground arith)
            (record {
              clients = ground arith;
              per_user = λ other. elim (Bool-cases (str_eq user other)) [
                | inl e' ↦ rw e' (
                    subst (λ x. suc (count_of x hub) ≤ 4) ((eq_iff user other).0 e') (ground arith))
                | inr e' ↦ rw e' (b.per_user other)
              ];
              buffers = (omega arith, b.buffers);
            })
    ]

abbrev Fits : Subscription → Type 0
Fits s = length s.events ≤ 32

unsubscribe-length : (hub : Hub) (id : ℕ) → length (unsubscribe hub id) ≤ length hub
unfolding unsubscribe
unsubscribe-length [] id = omega arith
unsubscribe-length (s ∷ ss) id = ground (arith, unsubscribe-length ss id)

unsubscribe-count :
    (hub : Hub) (id : ℕ) (user : String) → count_of user (unsubscribe hub id) ≤ count_of user hub
unfolding unsubscribe
unsubscribe-count [] id user = omega arith
unsubscribe-count (s ∷ ss) id user = ground (arith, unsubscribe-count ss id user)

unsubscribe-Fits : (hub : Hub) (id : ℕ) → All Fits hub → All Fits (unsubscribe hub id)
unfolding unsubscribe
unsubscribe-Fits [] id h = tt
unsubscribe-Fits (s ∷ ss) id (here, there) = elim (Bool-cases (s.id == id)) [
  | inl e ↦ rw e (unsubscribe-Fits ss id there)
  | inr e ↦ rw e (here, unsubscribe-Fits ss id there)
]

deliver-Fits : (event : Event) (s : Subscription) → Fits s → Fits (deliver event s)
unfolding deliver
deliver-Fits event s h = elim (Bool-cases (ltb (length s.events) 32)) [
  | inl e ↦ rw e (subst (λ n. n ≤ 32) (sym (length-append s.events (event ∷ []))) (ground arith))
  | inr e ↦ rw e h
]

deliver-user : (event : Event) (s : Subscription) → (deliver event s).user ≡ s.user
unfolding deliver
deliver-user event s = elim (Bool-cases (ltb (length s.events) 32)) [
  | inl e ↦ rw e refl
  | inr e ↦ rw e refl
]

-- what a call that rewrites subscriptions in place keeps
record SameClients (a b : Hub) : Type 0 where
  clients : length b ≡ length a
  per_user : (user : String) → count_of user b ≡ count_of user a

publish-SameClients : (hub : Hub) (event : Event) → SameClients hub (publish hub event)
unfolding publish
publish-SameClients [] event = record { clients = refl; per_user = λ user. refl }
publish-SameClients (s ∷ ss) event =
    let there = publish-SameClients ss event in
    record {
      clients = ground (arith, there.clients);
      per_user = λ user. elim (Bool-cases (is_addressed event s)) [
        | inl e ↦ rw (e, deliver-user event s, there.per_user user) refl
        | inr e ↦ rw (e, there.per_user user) refl
      ];
    }

publish-Fits : (hub : Hub) (event : Event) → All Fits hub → All Fits (publish hub event)
unfolding publish
publish-Fits [] event h = tt
publish-Fits (s ∷ ss) event (here, there) = elim (Bool-cases (is_addressed event s)) [
  | inl e ↦ rw e (deliver-Fits event s here, publish-Fits ss event there)
  | inr e ↦ rw e (here, publish-Fits ss event there)
]

rest-length : (es : List Event) → length (rest es) ≤ length es
rest-length [] = omega arith
rest-length (e ∷ es) = omega arith

receive-SameClients : (hub : Hub) (id : ℕ) → SameClients hub (receive hub id)
unfolding receive
receive-SameClients [] id = record { clients = refl; per_user = λ user. refl }
receive-SameClients (s ∷ ss) id =
    let there = receive-SameClients ss id in
    record {
      clients = ground (arith, there.clients);
      per_user = λ user. elim (Bool-cases (s.id == id)) [
        | inl e ↦ rw (e, there.per_user user) refl
        | inr e ↦ rw (e, there.per_user user) refl
      ];
    }

receive-Fits : (hub : Hub) (id : ℕ) → All Fits hub → All Fits (receive hub id)
unfolding receive
receive-Fits [] id h = tt
receive-Fits (s ∷ ss) id (here, there) = elim (Bool-cases (s.id == id)) [
  | inl e ↦ rw e (omega (arith, here, rest-length s.events), receive-Fits ss id there)
  | inr e ↦ rw e (here, receive-Fits ss id there)
]

-- the hubs that calls reach, in any order
pub data HubReached : Hub → Type 0 where
  opened : HubReached []
  subscribed :
      (hub hub' : Hub) (user : String) (id : ℕ)
      → HubReached hub
      → subscribe hub user id ≡ some hub'
      → HubReached hub'
  unsubscribed : (hub : Hub) (id : ℕ) → HubReached hub → HubReached (unsubscribe hub id)
  published : (hub : Hub) (event : Event) → HubReached hub → HubReached (publish hub event)
  received : (hub : Hub) (id : ℕ) → HubReached hub → HubReached (receive hub id)

of_SameClients : (a b : Hub) → SameClients a b → All Fits b → IsBounded a → IsBounded b
of_SameClients a b same fits bounded = record {
  clients = omega (arith, same.clients, bounded.clients);
  per_user = λ user. omega (arith, same.per_user user, bounded.per_user user);
  buffers = fits;
}

-- Whatever sequence of subscriptions, cancellations, publications and receptions a hub goes through, it has at
-- most 1024 subscriptions, at most 4 of one user, and at most 32 events in the buffer of each.
pub HubReached-IsBounded : (hub : Hub) → HubReached hub → IsBounded hub
HubReached-IsBounded _ opened = record {
  clients = omega arith;
  per_user = λ user. omega arith;
  buffers = tt;
}
HubReached-IsBounded _ (subscribed hub hub' user id before h) =
    subscribe-IsBounded hub hub' user id h (HubReached-IsBounded hub before)
HubReached-IsBounded _ (unsubscribed hub id before) =
    let b = HubReached-IsBounded hub before in
    record {
      clients = omega (arith, unsubscribe-length hub id, b.clients);
      per_user = λ user. omega (arith, unsubscribe-count hub id user, b.per_user user);
      buffers = unsubscribe-Fits hub id b.buffers;
    }
HubReached-IsBounded _ (published hub event before) =
    let b = HubReached-IsBounded hub before in
    of_SameClients hub _ (publish-SameClients hub event) (publish-Fits hub event b.buffers) b
HubReached-IsBounded _ (received hub id before) =
    let b = HubReached-IsBounded hub before in
    of_SameClients hub _ (receive-SameClients hub id) (receive-Fits hub id b.buffers) b
