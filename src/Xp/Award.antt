-- ===== src/Xp/Award.antt =====
-- Granting experience: the functions of service/xp/xp.go that run inside a transaction. The exp of
-- user_level and the rows of user_level_log are read and written through `LevelDb`.
pub mod Rows
pub mod Inversion
pub mod Ledger
pub mod Granted
pub mod Once
use musecat_backend_core.Prelude.{
  ℕ, ◌+◌, String, Option, none, some, List, [], ◌∷◌, ◌++◌, Bool, true, false, not, ◌&&◌, ◌||◌, any,
  select, length, if◌then◌else◌, ltb, str_eq, Result, ok, err, ◌>>=◌,
}
use musecat_backend_core.Prelude.Int.{ℤ, pos, ◌+ℤ◌, ◌-ℤ◌, eqb_ℤ, ltb_ℤ, leb_ℤ}
use musecat_backend_core.Prelude.Text.{trim_space, concat}
use musecat_backend_core.Prelude.Text.Order.{has}
use musecat_backend_core.Xp.Kinds.{
  Time, arcade_edit_kind, arcade_public_backfill_kind, arcade_edit_grant_kind,
  unique_game_entry_ids, arcade_game_edit_grant_kind, game_entry_ids_from_grant_kind,
  arcade_game_edit_exp, arcade_photo_grant_kind,
}
use musecat_backend_core.Xp.Store.{
  Lookup, found, absent, failed, LevelLog, XpError, user_id_required, kind_required,
  arcade_id_required, part_required, database, LevelDb, or_database,
}

-- 7 * 24 * time.Hour in nanoseconds
abbrev pub week : ℕ
week = 604_800_000_000_000

-- lastCreated.After(now - 7 days), false where the column cannot be parsed
unfoldable pub within_week : Time → Option Time → Bool
within_week now none = false
within_week now (some created) = ltb now (created + week)

unfoldable pub last_created : List LevelLog → Option Time
last_created [] = none
last_created (row ∷ []) = row.created
last_created (row ∷ next ∷ rows) = last_created (next ∷ rows)

-- the keys of a Go map after `seen[id] = struct{}{}` for each id
unfoldable pub mark_seen : List String → List String → List String
mark_seen seen [] = seen
mark_seen seen (id ∷ ids) = mark_seen (if has id seen then seen else seen ++ id ∷ []) ids

unfoldable pub is_nil : List String → Bool
is_nil [] = true
is_nil (id ∷ ids) = false

-- one row of the window of AwardArcadeGameEditExpTx: the entries seen and the exp awarded so far
unfoldable pub game_row : String → Time → List String × ℤ → LevelLog → List String × ℤ
game_row arcade now (seen, awarded) row =
    let prior = game_entry_ids_from_grant_kind row.kind arcade in
    if not (within_week now row.created)
    then (seen, awarded)
    else if is_nil prior
    then (seen, awarded)
    else (
      mark_seen seen prior,
      if ltb_ℤ (pos 0) row.diff_exp then awarded +ℤ row.diff_exp else awarded,
    )

unfoldable pub game_rows : String → Time → List String × ℤ → List LevelLog → List String × ℤ
game_rows arcade now state [] = state
game_rows arcade now state (row ∷ rows) = game_rows arcade now (game_row arcade now state row) rows

-- the exp of the rows of AwardArcadePhotoExpTx that lie in the window
unfoldable pub photo_awarded : Time → ℤ → List LevelLog → ℤ
photo_awarded now awarded [] = awarded
photo_awarded now awarded (row ∷ rows) =
    photo_awarded now
      (if not (within_week now row.created) || leb_ℤ row.diff_exp (pos 0)
        then awarded
        else awarded +ℤ row.diff_exp)
      rows

module _ (D : LevelDb) where
  open D use {Db, find_username, find_level, save_level, list_logs, add_log, like}

  -- what a granting function returns: the exp, whether it was granted now, and the new database
  abbrev pub Grant : Type 0
  Grant = ℤ × Bool × Db

  unfoldable pub logs_of : String → (String → Bool) → List LevelLog → List LevelLog
  logs_of user test = select (λ row. str_eq row.user user && test row.kind)

  level_or_zero : Lookup ℤ → Result XpError ℤ
  level_or_zero (found exp) = ok exp
  level_or_zero absent = ok (pos 0)
  level_or_zero failed = err database

  -- LoadCurrentExp
  unfoldable pub load_current_exp : Db → String → Result XpError ℤ
  unfolding level_or_zero
  load_current_exp db user =
      let id = trim_space user in
      if str_eq id "" then err user_id_required else level_or_zero (find_level db id)

  name_eligible : Lookup String → Result XpError Bool
  name_eligible (found name) = ok (not (str_eq (trim_space name) ""))
  name_eligible absent = err database
  name_eligible failed = err database

  -- IsExpEligible
  unfoldable pub is_exp_eligible : Db → String → Result XpError Bool
  unfolding name_eligible
  is_exp_eligible db user =
      let id = trim_space user in
      if str_eq id "" then err user_id_required else name_eligible (find_username db id)

  -- HasLevelLogKind
  unfoldable pub has_level_log_kind : Db → String → String → Result XpError Bool
  has_level_log_kind db user kind =
      let id = trim_space user in
      let key = trim_space kind in
      if str_eq id "" then err user_id_required else if str_eq key "" then err kind_required else do
        rows ← or_database (list_logs db)
        ok (any (λ row. str_eq row.user id && str_eq row.kind key) rows)

  base_or_create : Db → String → ℤ → Lookup ℤ → Result XpError (ℤ × Db)
  base_or_create db user base (found exp) = ok (exp, db)
  base_or_create db user base failed = err database
  base_or_create db user base absent = do
    db' ← or_database (save_level db user base)
    ok (base, db')

  -- ensureUserLevelBaseTx
  unfoldable pub ensure_user_level_base : Db → String → ℤ → Result XpError (ℤ × Db)
  unfolding base_or_create
  ensure_user_level_base db user base =
      let id = trim_space user in
      if str_eq id "" then err user_id_required else base_or_create db id base (find_level db id)

  save_if_found : Db → String → ℤ → Lookup ℤ → Result XpError Db
  save_if_found db user exp (found old) = or_database (save_level db user exp)
  save_if_found db user exp absent = err database
  save_if_found db user exp failed = err database

  -- updateUserLevelExpTx
  unfoldable pub update_user_level_exp : Db → String → ℤ → Result XpError Db
  unfolding save_if_found
  update_user_level_exp db user exp = save_if_found db user exp (find_level db user)

  -- createUserLevelLogTx
  unfoldable pub create_user_level_log : Db → String → String → ℤ → ℤ → ℤ → Result XpError Db
  create_user_level_log db user kind previous new diff =
      or_database (add_log db user kind previous new diff)

  -- the end of AwardExpTx: the new total and its row in the log
  unfoldable pub write_grant : Db → String → String → ℤ → ℤ → Result XpError Grant
  unfolding update_user_level_exp create_user_level_log
  write_grant db user kind current diff = do
    let next = current +ℤ diff
    saved ← update_user_level_exp db user next
    logged ← create_user_level_log saved user kind current next diff
    ok (next, true, logged)

  -- AwardExpTx behind its checks: the account is eligible and the kind is new
  unfoldable pub award_new : Db → String → String → ℤ → ℤ → Result XpError Grant
  unfolding write_grant ensure_user_level_base
  award_new db user kind diff base = do
    (current, db') ← ensure_user_level_base db user base
    rows ← or_database (list_logs db')
    if any (λ row. str_eq row.user user && str_eq row.kind kind) rows
        then ok (current, false, db')
        else write_grant db' user kind current diff

  -- AwardExpTx
  unfoldable pub award_exp : Db → String → String → ℤ → ℤ → Result XpError Grant
  unfolding award_new is_exp_eligible
  award_exp db user kind diff base =
      let id = trim_space user in
      let key = trim_space kind in
      if str_eq id ""
      then err user_id_required
      else if str_eq key ""
      then err kind_required
      else if eqb_ℤ diff (pos 0)
      then ok (base, false, db)
      else do
        eligible ← is_exp_eligible db id
        if eligible then award_new db id key diff base else ok (base, false, db)
