-- ===== src/Xp/Award/Once.antt =====
-- A kind is granted once.
use musecat_backend_core.Prelude.{
  String, some, List, [], ◌∷◌, ◌++◌, true, false, ◌&&◌, any-append, ◌≡◌, refl, ◌∙◌, str_eq, eq_iff,
  eq_refl, ok, arith,
}
use musecat_backend_core.Prelude.Int.{ℤ, pos, eqb_ℤ}
use musecat_backend_core.Prelude.Text.{trim_space, trim_space_idem}
use musecat_backend_core.Xp.Store.{found, LevelLog, LevelDb}
use musecat_backend_core.Xp.Award.{is_exp_eligible, award_new, award_exp}
use musecat_backend_core.Xp.Award.Rows.{logged}
use musecat_backend_core.Xp.Award.Granted.{ensure_found, granted-eq-ok, award_exp-IsGranted}

module _ (D : LevelDb) where
  open D use {Db, find_username, find_level, save_level, list_logs, add_log}

  eligible_still :
      (db db' : Db) (id : String)
      → ((other : String) → find_username db' other ≡ find_username db other)
      → is_exp_eligible D db' id ≡ is_exp_eligible D db id
  unfolding is_exp_eligible
  eligible_still db db' id names = rw (names (trim_space id))

  logged-append :
      (user kind : String) (rows : List LevelLog) (row : LevelLog)
      → row.user ≡ user
      → row.kind ≡ kind
      → logged user kind (rows ++ row ∷ []) ≡ true
  logged-append user kind rows row u k =
      any-append (λ (r : LevelLog). str_eq r.user user && str_eq r.kind kind) rows (row ∷ [])
      ∙ ground (arith, eq_iff row.user user, eq_iff row.kind kind)

  award_new_again :
      (db : Db) (user kind : String) (diff base exp : ℤ) (rows : List LevelLog)
      → trim_space user ≡ user
      → str_eq user "" ≡ false
      → find_level db user ≡ found exp
      → list_logs db ≡ some rows
      → logged user kind rows ≡ true
      → award_new D db user kind diff base ≡ ok (exp, false, db)
  unfolding award_new
  award_new_again db user kind diff base exp rows trimmed named f r old =
      rw (ensure_found D db user base exp trimmed named f) (rw r (rw old))

  -- After a granted call, every further call for the same user and kind that asks for some exp returns
  -- the same total, grants nothing and changes nothing.
  pub award_exp_again :
      (db db' : Db) (user kind : String) (diff base next : ℤ)
      → award_exp D db user kind diff base ≡ ok (next, true, db')
      → (diff' base' : ℤ) → eqb_ℤ diff' (pos 0) ≡ false
      → award_exp D db' user kind diff' base' ≡ ok (next, false, db')
  unfolding award_exp
  award_exp_again db db' user kind diff base next h diff' base' asks =
      let id = trim_space user in
      let key = trim_space kind in
      let (named, keyed, eligible, _) = granted-eq-ok D db db' user kind diff base next h in
      let g = award_exp-IsGranted D db db' user kind diff base next h in
      rw (named, keyed, asks, eligible_still db db' id g.names ∙ eligible)
        (award_new_again db' id key diff' base' next _ (trim_space_idem user) named
          (g.levels id ∙ rw (eq_refl id)) g.after (logged-append id key g.rows _ refl refl))
