-- ===== src/Xp/Public.antt =====
-- Publishing an arcade (service/xp/xp.go): what earlier contributions are worth, the preview of it and
-- the grants. The three queries of collectArcadePublicBackfillGrants are joins over tables that this
-- part does not write, so their results are an argument.
pub mod Ledger
use musecat_backend_core.Prelude.{
  ℕ, String, Option, List, [], ◌∷◌, ◌++◌, ◌||◌, ltb, if◌then◌else◌, str_eq, Result, ok, err, ◌>>=◌,
}
use musecat_backend_core.Prelude.Int.{ℤ, pos, ◌+ℤ◌, ◌-ℤ◌}
use musecat_backend_core.Prelude.Text.{trim_space}
use musecat_backend_core.Prelude.Text.Order.{has}
use musecat_backend_core.Xp.Level.{ExpFeedback, build_exp_feedback}
use musecat_backend_core.Xp.Kinds.{
  arcade_public_kind, arcade_public_backfill_kind, flag_kind, flag_reaction_kind,
}
use musecat_backend_core.Xp.Store.{
  XpError, user_id_required, arcade_id_required, LevelDb, or_database,
}
use musecat_backend_core.Xp.Award.{load_current_exp, is_exp_eligible, has_level_log_kind, award_exp}

-- What the queries return for a user and an arcade: the column changed, the flag ids, and the
-- reactions with their ids. `none` is a failing query.
pub record Contributions : Type 0 where
  pub changes : Option (List String)
  pub flags : Option (List String)
  pub reactions : Option (List (String × String))

-- arcadePublicBackfillGrant
pub record BackfillGrant : Type 0 where
  pub kind : String
  pub diff : ℕ

-- ArcadePublicExpPreview
pub record ArcadePublicExpPreview : Type 0 where
  pub current_exp : ℤ
  pub public_exp : ℤ
  pub backfill_exp : ℤ
  pub estimated_exp : ℤ
  pub estimated_gain : ℤ
  pub xp_feedback : ExpFeedback

-- the first row of each part but photos
unfoldable pub change_grants : String → List String → List String → List BackfillGrant
change_grants arcade seen [] = []
change_grants arcade seen (row ∷ rows) =
    let changed = trim_space row in
    let skip = str_eq changed "" || has changed seen in
    let rest = change_grants arcade (if skip then seen else seen ++ changed ∷ []) rows in
    if skip || str_eq changed "photo"
    then rest
    else (record { kind = arcade_public_backfill_kind arcade changed; diff = 2 }) ∷ rest

unfoldable pub flag_grants : List String → List BackfillGrant
flag_grants [] = []
flag_grants (id ∷ ids) = (record { kind = flag_kind id; diff = 5 }) ∷ flag_grants ids

unfoldable pub backfill_reaction_exp : String → ℕ
backfill_reaction_exp reaction =
    if str_eq (trim_space reaction) "issue_persist"
    then 2
    else if str_eq (trim_space reaction) "fixed"
    then 3
    else 0

unfoldable pub reaction_grants : List (String × String) → List BackfillGrant
reaction_grants [] = []
reaction_grants ((id, reaction) ∷ rows) =
    let diff = backfill_reaction_exp reaction in
    let rest = reaction_grants rows in
    if ltb 0 diff then (record { kind = flag_reaction_kind id; diff = diff }) ∷ rest else rest

-- collectArcadePublicBackfillGrants
unfoldable pub collect_arcade_public_backfill_grants :
    Contributions → String → Result XpError (List BackfillGrant)
unfolding change_grants flag_grants reaction_grants backfill_reaction_exp
collect_arcade_public_backfill_grants from arcade = do
  changes ← or_database from.changes
  flags ← or_database from.flags
  reactions ← or_database from.reactions
  ok (change_grants arcade [] changes ++ (flag_grants flags ++ reaction_grants reactions))

module _ (D : LevelDb) where
  open D use {Db}

  -- for _, grant := range grants { … } of the preview: the backfill and the estimate
  unfoldable pub preview_grants : Db → String → ℤ → ℤ → List BackfillGrant → Result XpError (ℤ × ℤ)
  preview_grants db user backfill current [] = ok (backfill, current)
  preview_grants db user backfill current (grant ∷ grants) = do
    awarded ← has_level_log_kind D db user grant.kind
    preview_grants db user (if awarded then backfill else backfill +ℤ pos grant.diff)
        (if awarded then current else current +ℤ pos grant.diff) grants

  -- PreviewArcadePublicExp of an eligible account
  unfoldable pub preview_eligible :
      Db → Contributions → String → String → ℤ → Result XpError ArcadePublicExpPreview
  unfolding preview_grants
  preview_eligible db from user arcade base = do
    awarded ← has_level_log_kind D db user (arcade_public_kind arcade)
    let public_exp : ℤ = if awarded then pos 0 else pos 5
    grants ← collect_arcade_public_backfill_grants from arcade
    (backfill, current) ← preview_grants db user (pos 0) (base +ℤ public_exp) grants
    ok (record {
      current_exp = base;
      public_exp = public_exp;
      backfill_exp = backfill;
      estimated_exp = current;
      estimated_gain = current -ℤ base;
      xp_feedback = build_exp_feedback base current;
    })

  -- PreviewArcadePublicExp
  unfoldable pub preview_arcade_public_exp :
      Db → Contributions → String → String → Result XpError ArcadePublicExpPreview
  unfolding preview_eligible
  preview_arcade_public_exp db from user arcade =
      let id = trim_space user in
      let place = trim_space arcade in
      if str_eq id ""
      then err user_id_required
      else if str_eq place ""
      then err arcade_id_required
      else do
        base ← load_current_exp D db id
        eligible ← is_exp_eligible D db id
        if eligible
            then preview_eligible db from id place base
            else ok (record {
              current_exp = base;
              public_exp = pos 0;
              backfill_exp = pos 0;
              estimated_exp = base;
              estimated_gain = pos 0;
              xp_feedback = build_exp_feedback base base;
            })

  -- for _, grant := range grants { … } of the backfill
  unfoldable pub backfill_grants : Db → String → ℤ → List BackfillGrant → Result XpError (ℤ × Db)
  backfill_grants db user current [] = ok (current, db)
  backfill_grants db user current (grant ∷ grants) = do
    (next, granted, db') ← award_exp D db user grant.kind (pos grant.diff) current
    backfill_grants db' user (if granted then next else current) grants

  -- GrantArcadePublicBackfillTx
  unfoldable pub grant_arcade_public_backfill :
      Db → Contributions → String → String → ℤ → Result XpError (ℤ × Db)
  unfolding backfill_grants
  grant_arcade_public_backfill db from user arcade base =
      let id = trim_space user in
      let place = trim_space arcade in
      if str_eq id ""
      then err user_id_required
      else if str_eq place ""
      then err arcade_id_required
      else do
        eligible ← is_exp_eligible D db id
        if eligible
            then (do
              grants ← collect_arcade_public_backfill_grants from place
              backfill_grants db id base grants)
            else ok (base, db)
