-- ===== src/Aime/Notified.antt =====
-- What a drain of the subscriptions leaves.
use musecat_backend_core.Prelude.{
  ℕ, zero, suc, ◌≤◌, ◌≡◌, refl, arith, String, some, List, [], ◌∷◌, Bool, true, false, ◌||◌, any,
  All, if-holds, if-holds_when, eq_refl, length,
}
use musecat_backend_core.Aime.Probe.{AimeState}
use musecat_backend_core.Aime.Subscriptions.{
  AimeSubscription, Notice, Inbox, event_of, same_notice, notify_subscriber, drain_rows,
  drain_aime_recoveries,
}

-- no notice is there twice
abbrev pub AreDistinct : List Notice → Type 0
AreDistinct [] = Unit
AreDistinct (n ∷ ns) = (any (same_notice n) ns ≡ false) × AreDistinct ns

-- the subscriber is withdrawn or has the notice
abbrev pub IsServed : (String → Bool) → Inbox → AimeSubscription → Type 0
IsServed withdrawn inbox s =
    (withdrawn s.user || any (same_notice (event_of s)) inbox.notices) ≡ true

abbrev Unique : Inbox → Type 0
Unique inbox = AreDistinct inbox.notices

notify-Unique :
    (withdrawn : String → Bool) (devices : String → List String) (inbox : Inbox)
    (s : AimeSubscription)
    → Unique inbox
    → Unique (notify_subscriber withdrawn devices inbox s)
unfolding notify_subscriber
notify-Unique withdrawn devices inbox s u =
    if-holds_when Unique (withdrawn s.user || any (same_notice (event_of s)) inbox.notices) (λ e. u)
      (λ e. (ground arith, u))

drain_rows-Unique :
    (n : ℕ) (withdrawn : String → Bool) (devices : String → List String)
    (rows : List AimeSubscription) (inbox : Inbox)
    → Unique inbox
    → Unique (drain_rows n withdrawn devices rows inbox).1
unfolding drain_rows
drain_rows-Unique zero withdrawn devices rows inbox u = u
drain_rows-Unique (suc n) withdrawn devices [] inbox u = u
drain_rows-Unique (suc n) withdrawn devices (s ∷ ss) inbox u =
    drain_rows-Unique n withdrawn devices ss (notify_subscriber withdrawn devices inbox s)
      (notify-Unique withdrawn devices inbox s u)

same_notice_refl : (n : Notice) → same_notice n n ≡ true
same_notice_refl n = rw (eq_refl n.user, eq_refl n.event_key) refl

notify-IsServed :
    (withdrawn : String → Bool) (devices : String → List String) (inbox : Inbox)
    (s : AimeSubscription)
    → IsServed withdrawn (notify_subscriber withdrawn devices inbox s) s
unfolding notify_subscriber
notify-IsServed withdrawn devices inbox s =
    if-holds_when (λ out. IsServed withdrawn out s)
      (withdrawn s.user || any (same_notice (event_of s)) inbox.notices) (λ e. e)
      (λ e. rw (same_notice_refl (event_of s)) (ground arith))

notify_keeps :
    (withdrawn : String → Bool) (devices : String → List String) (inbox : Inbox)
    (s t : AimeSubscription)
    → IsServed withdrawn inbox t
    → IsServed withdrawn (notify_subscriber withdrawn devices inbox s) t
unfolding notify_subscriber
notify_keeps withdrawn devices inbox s t h =
    if-holds (λ out. IsServed withdrawn out t)
      (withdrawn s.user || any (same_notice (event_of s)) inbox.notices) h (ground (arith, h))

drain_rows_keeps :
    (n : ℕ) (withdrawn : String → Bool) (devices : String → List String)
    (rows : List AimeSubscription) (inbox : Inbox) (t : AimeSubscription)
    → IsServed withdrawn inbox t
    → IsServed withdrawn (drain_rows n withdrawn devices rows inbox).1 t
unfolding drain_rows
drain_rows_keeps zero withdrawn devices rows inbox t h = h
drain_rows_keeps (suc n) withdrawn devices [] inbox t h = h
drain_rows_keeps (suc n) withdrawn devices (s ∷ ss) inbox t h =
    drain_rows_keeps n withdrawn devices ss (notify_subscriber withdrawn devices inbox s) t
      (notify_keeps withdrawn devices inbox s t h)

drain_rows_serves :
    (n : ℕ) (withdrawn : String → Bool) (devices : String → List String)
    (rows : List AimeSubscription) (inbox : Inbox)
    → length rows ≤ n
    → let out = drain_rows n withdrawn devices rows inbox in
      (out.0 ≡ []) × All (IsServed withdrawn out.1) rows
unfolding drain_rows
drain_rows_serves zero withdrawn devices [] inbox short = (refl, tt)
drain_rows_serves zero withdrawn devices (s ∷ ss) inbox short = absurd (omega (arith, short))
drain_rows_serves (suc n) withdrawn devices [] inbox short = (refl, tt)
drain_rows_serves (suc n) withdrawn devices (s ∷ ss) inbox short =
    let next = notify_subscriber withdrawn devices inbox s in
    let (gone, served) = drain_rows_serves n withdrawn devices ss next (omega (arith, short)) in
    (
      gone,
      (
        drain_rows_keeps n withdrawn devices ss next s (notify-IsServed withdrawn devices inbox s),
        served,
      ),
    )

-- After the recovery a drain of at most 100 subscriptions consumes them all; each subscriber that is not withdrawn has
-- the notice of its incident, and no notice is there twice if none was.
pub drain_aime_recoveries_lem :
    (state : AimeState) (withdrawn : String → Bool) (devices : String → List String)
    (rows : List AimeSubscription) (inbox : Inbox)
    → state.recovered ≡ true
    → length rows ≤ 100
    → AreDistinct inbox.notices
    → let out = drain_aime_recoveries (some state) withdrawn devices rows inbox in
      (out.0 ≡ []) × All (IsServed withdrawn out.1) rows × AreDistinct out.1.notices
unfolding drain_aime_recoveries
drain_aime_recoveries_lem state withdrawn devices rows inbox done short distinct = rw done (
  (drain_rows_serves 100 withdrawn devices rows inbox short).0,
  (drain_rows_serves 100 withdrawn devices rows inbox short).1,
  drain_rows-Unique 100 withdrawn devices rows inbox distinct,
)
