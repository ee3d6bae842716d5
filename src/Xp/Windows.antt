-- ===== src/Xp/Windows.antt =====
-- The grants of service/xp/xp.go that look at a window of seven days: edits of an arcade, edits of
-- its games, photos.
pub mod Sums
pub mod Caps
use musecat_backend_core.Prelude.{
  ℕ, String, Option, none, some, List, [], ◌∷◌, Bool, true, false, not, ◌&&◌, ◌||◌, if◌then◌else◌,
  str_eq, length, Result, ok, err, ◌>>=◌,
}
use musecat_backend_core.Prelude.Int.{ℤ, pos, ◌-ℤ◌, eqb_ℤ, ltb_ℤ, leb_ℤ}
use musecat_backend_core.Prelude.Text.{trim_space, concat}
use musecat_backend_core.Xp.Kinds.{
  Time, arcade_edit_kind, arcade_public_backfill_kind, arcade_edit_grant_kind,
  unique_game_entry_ids, arcade_game_edit_grant_kind, arcade_game_edit_exp, arcade_photo_grant_kind,
}
use musecat_backend_core.Xp.Store.{
  XpError, user_id_required, arcade_id_required, part_required, LevelDb, or_database,
}
use musecat_backend_core.Xp.Award.{
  Grant, within_week, last_created, mark_seen, game_rows, photo_awarded, logs_of, is_exp_eligible,
  ensure_user_level_base, award_exp, is_nil,
}

module _ (D : LevelDb) where
  open D use {Db, list_logs, like}

  -- AwardArcadeEditExpTx behind its checks
  unfoldable pub award_edit_eligible :
      Db → String → String → String → ℤ → ℤ → Time → Result XpError (Grant D)
  award_edit_eligible db user arcade part diff base now = do
    (current, db') ← ensure_user_level_base D db user base
    rows ← or_database (list_logs db')
    let pattern = concat (arcade_edit_kind arcade part) "%"
    let backfill = arcade_public_backfill_kind arcade part
    let recent = logs_of D user (λ kind. like kind pattern && not (str_eq kind backfill)) rows
    if within_week now (last_created recent)
        then ok (current, false, db')
        else award_exp D db' user (arcade_edit_grant_kind arcade part now) diff base

  -- AwardArcadeEditExpTx
  unfoldable pub award_arcade_edit_exp :
      Db → String → String → String → ℤ → ℤ → Time → Result XpError (Grant D)
  unfolding award_edit_eligible
  award_arcade_edit_exp db user arcade part diff base now =
      let id = trim_space user in
      let place = trim_space arcade in
      let field = trim_space part in
      if str_eq id ""
      then err user_id_required
      else if str_eq place ""
      then err arcade_id_required
      else if str_eq field ""
      then err part_required
      else if eqb_ℤ diff (pos 0)
      then ok (base, false, db)
      else do
        eligible ← is_exp_eligible D db id
        if eligible
            then award_edit_eligible db id place field diff base now
            else ok (base, false, db)

  -- the entries of the window and of this edit, and the exp that the window has awarded
  unfoldable pub game_window :
      Db → String → String → List String → Time → Result XpError (List String × ℤ)
  game_window db user arcade entries now = do
    rows ← or_database (list_logs db)
    let pattern = concat (arcade_edit_kind arcade "game") ":%"
    ok (
        game_rows arcade now (mark_seen [] entries, pos 0)
          (logs_of D user (λ kind. like kind pattern) rows))

  -- AwardArcadeGameEditExpTx behind its checks
  unfoldable pub award_game_eligible :
      Db → String → String → List String → ℤ → Time → Result XpError (Grant D)
  unfolding game_window
  award_game_eligible db user arcade entries base now = do
    (current, db') ← ensure_user_level_base D db user base
    (seen, awarded) ← game_window db' user arcade entries now
    let diff = pos (arcade_game_edit_exp (length seen)) -ℤ awarded
    if leb_ℤ diff (pos 0)
        then ok (current, false, db')
        else award_exp D db' user (arcade_game_edit_grant_kind arcade now entries) diff base

  -- AwardArcadeGameEditExpTx
  unfoldable pub award_arcade_game_edit_exp :
      Db → String → String → List String → ℤ → Time → Result XpError (Grant D)
  unfolding award_game_eligible
  award_arcade_game_edit_exp db user arcade entry_ids base now =
      let id = trim_space user in
      let place = trim_space arcade in
      let entries = unique_game_entry_ids entry_ids in
      if str_eq id ""
      then err user_id_required
      else if str_eq place ""
      then err arcade_id_required
      else if is_nil entries
      then ok (base, false, db)
      else do
        eligible ← is_exp_eligible D db id
        if eligible then award_game_eligible db id place entries base now else ok (base, false, db)

  -- for _, atomID := range atomIDs { … }
  unfoldable pub photo_loop :
      String → String → ℤ → List String → Db → ℤ → ℤ → Bool → Result XpError (Grant D)
  photo_loop user arcade photo_exp [] db current remaining granted = ok (current, granted, db)
  photo_loop user arcade photo_exp (atom ∷ atoms) db current remaining granted =
      if leb_ℤ remaining (pos 0) then ok (current, granted, db) else do
        let grant = if ltb_ℤ remaining photo_exp then remaining else photo_exp
        (next, did, db') ← award_exp D db user (arcade_photo_grant_kind arcade atom) grant current
        photo_loop user arcade photo_exp atoms db' (if did then next else current)
            (if did then remaining -ℤ grant else remaining) (did || granted)

  -- AwardArcadePhotoExpTx behind its checks
  unfoldable pub award_photo_eligible :
      Db → String → String → List String → Bool → ℤ → Time → Result XpError (Grant D)
  unfolding photo_loop
  award_photo_eligible db user arcade atoms campaign base now = do
    (current, db') ← ensure_user_level_base D db user base
    rows ← or_database (list_logs db')
    let cap_exp : ℤ = if campaign then pos 20 else pos 10
    let photo_exp : ℤ = if campaign then pos 4 else pos 2
    let pattern = concat "xp:arcade-photo:" (concat arcade ":%")
    let awarded = photo_awarded now (pos 0) (logs_of D user (λ kind. like kind pattern) rows)
    let remaining = cap_exp -ℤ awarded
    if leb_ℤ remaining (pos 0)
        then ok (current, false, db')
        else photo_loop user arcade photo_exp atoms db' current remaining false

  -- AwardArcadePhotoExpTx; `now` is not the zero time, which the code replaces by the clock
  unfoldable pub award_arcade_photo_exp :
      Db → String → String → List String → Bool → ℤ → Time → Result XpError (Grant D)
  unfolding award_photo_eligible
  award_arcade_photo_exp db user arcade atom_ids campaign base now =
      let id = trim_space user in
      let place = trim_space arcade in
      let atoms = unique_game_entry_ids atom_ids in
      if str_eq id ""
      then err user_id_required
      else if str_eq place ""
      then err arcade_id_required
      else if is_nil atoms
      then ok (base, false, db)
      else do
        eligible ← is_exp_eligible D db id
        if eligible
            then award_photo_eligible db id place atoms campaign base now
            else ok (base, false, db)
