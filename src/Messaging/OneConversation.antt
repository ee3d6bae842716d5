-- ===== src/Messaging/OneConversation.antt =====
-- Two users have one direct conversation.
use musecat_backend_core.Prelude.{
  ℕ, String, Option, none, some, List, true, false, not, str_eq, eq_refl, ok, >>=-Ensures, Ensures,
  of_Ensures, ◌≡◌, refl, subst,
}
use musecat_backend_core.Prelude.Text.{join}
use musecat_backend_core.Prelude.Text.Order.{sort_two_comm}
use musecat_backend_core.Messaging.Rows.{user, same_type, Participant, bad_request, forbidden}
use musecat_backend_core.Messaging.Input.{rate_limit}
use musecat_backend_core.Messaging.Policy.{Reach, can_dm}
use musecat_backend_core.Messaging.Send.{demand}
use musecat_backend_core.Messaging.Direct.{
  DirectChat, Opened, found_in, pair_key_of, find_pair, open_direct, create_dm,
}

abbrev IsThere : String → Opened → Type 0
IsThere key opened = find_pair key opened.rows ≡ some opened.conversation

open_direct-IsThere :
    (rows : List DirectChat) (me peer : String) (reach : Reach) (recent : ℕ) (id : String)
    (found : Option DirectChat)
    → find_pair (pair_key_of me peer) rows ≡ found
    → Ensures (IsThere (pair_key_of me peer)) (open_direct rows me peer reach recent id found)
open_direct-IsThere rows me peer reach recent id (some c) same = same
open_direct-IsThere rows me peer reach recent id none same =
    let there = IsThere (pair_key_of me peer) in
    >>=-Ensures there (demand forbidden (can_dm reach me peer)) _ (λ _ _.
      >>=-Ensures there (rate_limit 10 recent) _ (λ _ _. rw (eq_refl (pair_key_of me peer)) refl))

create_dm-IsThere :
    (rows : List DirectChat) (u : Participant) (peer : String) (reach : Reach) (recent : ℕ)
    (id : String)
    → Ensures (IsThere (pair_key_of u.id peer)) (create_dm rows u peer reach recent id)
unfolding create_dm
create_dm-IsThere rows u peer reach recent id =
    let there = IsThere (pair_key_of u.id peer) in
    >>=-Ensures there (demand forbidden (same_type u.party user)) _ (λ _ _.
      >>=-Ensures there (demand bad_request (not (str_eq u.id peer))) _
        (λ _ _. open_direct-IsThere rows u.id peer reach recent id _ refl))

replayed :
    (rows : List DirectChat) (c : DirectChat) (v : Participant) (peer : String) (reach : Reach)
    (recent : ℕ) (id : String)
    → same_type v.party user ≡ true
    → str_eq v.id peer ≡ false
    → find_pair (pair_key_of v.id peer) rows ≡ some c
    → create_dm rows v peer reach recent id ≡ ok (found_in rows c)
unfolding create_dm
replayed rows c v peer reach recent id account apart there = rw (account, apart, there) refl

-- Two users have one direct conversation: after one of them opened it, or found it, the other one who opens it finds the same
-- conversation, changes no row and publishes no event, whatever the blocks, preferences and limits are then.
pub create_dm_once :
    (rows : List DirectChat) (u v : Participant) (reach reach' : Reach) (recent recent' : ℕ)
    (id id' : String) (opened : Opened)
    → same_type v.party user ≡ true
    → str_eq v.id u.id ≡ false
    → create_dm rows u v.id reach recent id ≡ ok opened
    → create_dm opened.rows v u.id reach' recent' id'
      ≡ ok (found_in opened.rows opened.conversation)
create_dm_once rows u v reach reach' recent recent' id id' opened account apart h =
    replayed opened.rows opened.conversation v u.id reach' recent' id' account apart (
      subst (λ ids. find_pair (join ":" ids) opened.rows ≡ some opened.conversation)
        (sort_two_comm u.id v.id)
        (of_Ensures (IsThere (pair_key_of u.id v.id)) _
          (create_dm-IsThere rows u v.id reach recent id) h))
