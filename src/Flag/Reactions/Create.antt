-- ===== src/Flag/Reactions/Create.antt =====
-- The transactions of CreateArcadeFlag and DeleteArcadeFlag, handlers/arcade/flag/create.go and delete.go.
use musecat_backend_core.Prelude.{
  ◌+◌, String, false, not, ◌||◌, leb, ◌==◌, if◌then◌else◌, str_eq, Result, ok, ◌>>=◌,
}
use musecat_backend_core.Prelude.Int.{pos, negsuc}
use musecat_backend_core.Prelude.Text.{concat}
use musecat_backend_core.Xp.Kinds.{Time, flag_kind}
use musecat_backend_core.Xp.Level.{ExpFeedback, build_exp_feedback}
use musecat_backend_core.Xp.Store.{LevelDb}
use musecat_backend_core.Xp.Award.{load_current_exp, has_level_log_kind, award_exp, Grant}
use musecat_backend_core.Flag.Rows.{idle, standard, Flag, minutes}
use musecat_backend_core.Flag.Rules.{
  ReactionError, already_solved, report_external, write_forbidden, not_creator, window_closed,
  ArcadeAccess, guard, or_xp_failed,
}

module _ (D : LevelDb) where
  open D use {Db}

  -- The transaction of DeleteArcadeFlag on a flag that exists: the exp of the account. The reactions
  -- go with the flag.
  unfoldable pub delete_arcade_flag :
      ArcadeAccess → Flag → Db → String → Time → Result ReactionError (ExpFeedback × Db)
  unfolding guard or_xp_failed
  delete_arcade_flag access flag db user now = do
    unsolved ← guard (not flag.solved) already_solved
    base ← or_xp_failed (load_current_exp D db user)
    own ← guard (str_eq flag.created_by user) not_creator
    recent ← guard ((flag.created == 0) || leb now (flag.created + minutes 15)) window_closed
    awarded ←
        or_xp_failed
          (if access.public then has_level_log_kind D db user (flag_kind flag.id) else ok false)
    (exp, levels) ←
        if awarded
        then (or_xp_failed (award_exp D db user (concat "xp:flag-delete:" flag.id) (negsuc 4) base)
            >>= λ (g : Grant D). ok (g.0, g.2))
        else ok (base, db)
    ok (build_exp_feedback base exp, levels)

  -- The transaction of CreateArcadeFlag with a game entry that is active in the arcade: the new flag,
  -- with the identifier that the store gives it.
  unfoldable pub create_arcade_flag :
      ArcadeAccess
      → Db
      → String
      → String
      → String
      → Time
      → Result ReactionError (Flag × ExpFeedback × Db)
  unfolding guard or_xp_failed
  create_arcade_flag access db arcade user id now = do
    internal ← guard (not access.external) report_external
    allowed ← guard access.writable write_forbidden
    base ← or_xp_failed (load_current_exp D db user)
    (exp, levels) ←
        if access.public
        then (or_xp_failed (award_exp D db user (flag_kind id) (pos 5) base) >>= λ (g : Grant D).
            ok (g.0, g.2))
        else ok (base, db)
    ok (
      record {
        id = id;
        arcade = arcade;
        created_by = user;
        created = now;
        updated = now;
        solved = false;
        vote_state = idle;
        vote_mode = standard;
        vote_round = "";
        vote_started_at = 0;
        vote_resolve_at = 0;
      },
      build_exp_feedback base exp,
      levels,
    )
