-- ===== src/Flag/Votes/Tally.antt =====
-- The votes of a round: one for each user, the latest.
use musecat_backend_core.Prelude.{
  String, Option, none, some, List, [], ◌∷◌, ◌&&◌, if◌then◌else◌, str_eq, eq_iff, ◌≡◌, refl, ◌∙◌,
  ap, arith,
}
use musecat_backend_core.Flag.Rows.{ReactionRow}
use musecat_backend_core.Flag.Votes.{
  FlagResolutionVote, counts_in, vote_of, put_vote, votes_from, find_current_flag_votes,
  find_flag_reactions,
}

-- findCurrentUserVote of handlers/arcade/flag/reaction.go, over the votes that it has read
unfoldable pub find_current_user_vote : String → List FlagResolutionVote → Option FlagResolutionVote
find_current_user_vote user [] = none
find_current_user_vote user (v ∷ vs) =
    let rest = find_current_user_vote user vs in if str_eq v.user user then some v else rest

-- the last row of a user that counts in the round, with an earlier choice
abbrev pub latest_vote :
    String → String → Option FlagResolutionVote → List ReactionRow → Option FlagResolutionVote
latest_vote round user earlier [] = earlier
latest_vote round user earlier (row ∷ rows) =
    latest_vote round user
      (if counts_in round row && str_eq row.created_by user then some (vote_of row) else earlier)
      rows

user_vote-put_vote :
    (user : String) (v : FlagResolutionVote) (vs : List FlagResolutionVote)
    → find_current_user_vote user (put_vote v vs)
      ≡ (if str_eq v.user user then some v else find_current_user_vote user vs)
unfolding find_current_user_vote put_vote
user_vote-put_vote user v [] = refl
user_vote-put_vote user v (u ∷ us) = ground (
  arith,
  user_vote-put_vote user v us,
  eq_iff u.user v.user,
  eq_iff u.user user,
  eq_iff v.user user,
)

user_vote-counted :
    (round user : String) (votes : List FlagResolutionVote) (row : ReactionRow)
    → find_current_user_vote user
        (if counts_in round row then put_vote (vote_of row) votes else votes)
      ≡ (if counts_in round row && str_eq row.created_by user
          then some (vote_of row)
          else find_current_user_vote user votes)
unfolding vote_of
user_vote-counted round user votes row = ground (arith, user_vote-put_vote user (vote_of row) votes)

user_vote-votes_from :
    (round user : String) (votes : List FlagResolutionVote) (rows : List ReactionRow)
    → find_current_user_vote user (votes_from round votes rows)
      ≡ latest_vote round user (find_current_user_vote user votes) rows
unfolding votes_from
user_vote-votes_from round user votes [] = refl
user_vote-votes_from round user votes (row ∷ rows) =
    user_vote-votes_from round user
      (if counts_in round row then put_vote (vote_of row) votes else votes) rows
    ∙ ap (λ e. latest_vote round user e rows) (user_vote-counted round user votes row)

-- The vote of a user in a round is the user's last reaction in the flag's rows that counts in it.
pub find_current_user_vote_lem :
    (flag round user : String) (rows : List ReactionRow)
    → find_current_user_vote user (find_current_flag_votes flag round rows)
      ≡ latest_vote round user none (find_flag_reactions flag rows)
unfolding find_current_flag_votes find_current_user_vote
find_current_user_vote_lem flag round user rows =
    user_vote-votes_from round user [] (find_flag_reactions flag rows)
