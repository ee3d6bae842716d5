-- ===== src/Xp/Windows/Caps.antt =====
-- The cap of the seven-day window of game edits, AwardArcadeGameEditExpTx of service/xp/xp.go.
use musecat_backend_core.Prelude.{
  ℕ, String, some, List, [], ◌∷◌, ◌++◌, true, false, ◌&&◌, ◌≡◌, refl, sym, ◌∙◌, ap, inl, inr,
  select, length, if◌then◌else◌, str_eq, ok, >>=-eq-ok, arith, Bool-cases, Option-cases,
  Result-cases, All, subst, eq_refl,
}
use musecat_backend_core.Prelude.Int.{ℤ, pos, ◌+ℤ◌, ◌-ℤ◌, ◌≤ℤ◌, leb_ℤ}
use musecat_backend_core.Prelude.Text.{trim_space, trim_space_idem, concat, Lacks}
use musecat_backend_core.Xp.Kinds.Trimmed.{trim_space-game_kind}
use musecat_backend_core.Xp.Kinds.RoundTrip.{game_entry_ids-grant_kind}
use musecat_backend_core.Xp.Award.Inversion.{ensure-eq-ok}
use musecat_backend_core.Xp.Kinds.{
  Time, arcade_edit_kind, arcade_game_edit_exp, arcade_game_edit_grant_kind, unique_game_entry_ids,
  game_entry_ids_from_grant_kind,
}
use musecat_backend_core.Xp.Store.{LevelLog, LevelDb}
use musecat_backend_core.Xp.Award.{
  within_week, is_nil, logs_of, award_exp, ensure_user_level_base, is_exp_eligible,
}
use musecat_backend_core.Xp.Award.Granted.{award_exp-IsGranted}
use musecat_backend_core.Xp.Windows.{game_window, award_game_eligible, award_arcade_game_edit_exp}
use musecat_backend_core.Xp.Windows.Sums.{
  game_sum, game_sum-append, select-append, part_of_entries, game_sum_of_state, capped_by, part_le,
  unique_ids_idem, MatchesPrefixes, game_like,
}

module _ (D : LevelDb) where
  open D use {Db, list_logs, like}

  -- the rows of the window of game edits
  abbrev pub game_logs : String → String → List LevelLog → List LevelLog
  game_logs user arcade =
      let pattern = concat (arcade_edit_kind arcade "game") ":%" in
      logs_of D user (λ kind. like kind pattern)

  -- a grant for the entries of an edit: one new row, which carries the entries, counts in full while it
  -- lies in the window, and leaves the window within 10 exp
  pub record IsWindowGrant (db db' : Db) (user arcade : String) (entries : List String) (now : Time)
      : Type 0 where
    pub rows : List LevelLog
    pub before : list_logs db ≡ some rows
    pub row : LevelLog
    pub after : list_logs db' ≡ some (rows ++ row ∷ [])
    pub owner : row.user ≡ user
    pub carried : game_entry_ids_from_grant_kind row.kind arcade ≡ entries
    pub positive : leb_ℤ row.diff_exp (pos 0) ≡ false
    pub counted :
        game_sum arcade now (game_logs user arcade (rows ++ row ∷ []))
        ≡ game_sum arcade now (game_logs user arcade rows)
          +ℤ (if within_week now row.created then row.diff_exp else pos 0)
    pub capped : game_sum arcade now (game_logs user arcade (rows ++ row ∷ [])) ≤ℤ pos 10

  -- a row of the pattern that has entries counts
  game_logs-counted :
      (user arcade : String) (now : Time) (rows : List LevelLog) (row : LevelLog)
      (ids : List String)
      → str_eq row.user user ≡ true
      → like row.kind (concat (arcade_edit_kind arcade "game") ":%") ≡ true
      → game_entry_ids_from_grant_kind row.kind arcade ≡ ids
      → is_nil ids ≡ false
      → leb_ℤ row.diff_exp (pos 0) ≡ false
      → game_sum arcade now (game_logs user arcade (rows ++ row ∷ []))
        ≡ game_sum arcade now (game_logs user arcade rows)
          +ℤ (if within_week now row.created then row.diff_exp else pos 0)
  unfolding logs_of
  game_logs-counted user arcade now rows row ids own alike carried some_id more =
      let test = λ (r : LevelLog).
        str_eq r.user user && like r.kind (concat (arcade_edit_kind arcade "game") ":%") in
      let picked : test row ≡ true = rw (own, alike) refl in
      rw (select-append test rows row, picked)
        (game_sum-append arcade now (select test rows) row
          ∙ ap (λ part. game_sum arcade now (select test rows) +ℤ part)
              (part_of_entries arcade now row ids carried some_id more))

  game_window-eq-ok :
      (db : Db) (user arcade : String) (entries seen : List String) (awarded : ℤ) (now : Time)
      → game_window D db user arcade entries now ≡ ok (seen, awarded)
      → (rows : List LevelLog) × (list_logs db ≡ some rows)
        × (awarded ≡ game_sum arcade now (game_logs user arcade rows))
  unfolding game_window
  game_window-eq-ok db user arcade entries seen awarded now h = elim (Option-cases (list_logs db)) [
    | inl e ↦ absurd (ground arith)
    | inr (rows, e) ↦ (
      rows,
      e,
      game_sum_of_state arcade now entries seen awarded (game_logs user arcade rows) (rw e at h),
    )
  ]

  granted-IsWindowGrant :
      (mid db' : Db) (user arcade : String) (entries : List String) (base next awarded : ℤ) (n : ℕ)
      (now : Time) (rows : List LevelLog)
      → MatchesPrefixes like
      → All (Lacks b',') (unique_game_entry_ids entries)
      → unique_game_entry_ids entries ≡ entries
      → is_nil entries ≡ false
      → trim_space user ≡ user
      → list_logs mid ≡ some rows
      → awarded ≡ game_sum arcade now (game_logs user arcade rows)
      → leb_ℤ (pos (arcade_game_edit_exp n) -ℤ awarded) (pos 0) ≡ false
      → award_exp D mid user
          (arcade_game_edit_grant_kind arcade now entries)
          (pos (arcade_game_edit_exp n) -ℤ awarded)
          base
        ≡ ok (next, true, db')
      → IsWindowGrant mid db' user arcade entries now
  granted-IsWindowGrant mid db' user arcade entries base next awarded n now rows matches lacks
        unique some_id trimmed read sum more h =
      let kind = arcade_game_edit_grant_kind arcade now entries in
      let diff = pos (arcade_game_edit_exp n) -ℤ awarded in
      let g = award_exp-IsGranted D mid db' user kind diff base next h in
      let same : g.rows ≡ rows = ground (arith, g.before) in
      let row : LevelLog = record {
        user = trim_space user;
        kind = trim_space kind;
        previous_exp = g.current;
        new_exp = next;
        diff_exp = diff;
        created = g.stamp;
      } in
      let carried : game_entry_ids_from_grant_kind row.kind arcade ≡ entries =
        rw (trim_space-game_kind arcade now entries)
          (game_entry_ids-grant_kind arcade now entries lacks ∙ unique) in
      let alike : like row.kind (concat (arcade_edit_kind arcade "game") ":%") ≡ true =
        rw (trim_space-game_kind arcade now entries) (game_like like arcade now entries matches) in
      let counted =
        game_logs-counted user arcade now rows row entries (rw trimmed (eq_refl user)) alike carried
          some_id more in
      record {
        rows = rows;
        before = read;
        row = row;
        after = subst (λ rs. list_logs db' ≡ some (rs ++ row ∷ [])) same g.after;
        owner = trimmed;
        carried = carried;
        positive = more;
        counted = counted;
        capped =
            rw counted (
              capped_by _ awarded diff _ n sum refl (ground arith)
                (part_le now row (ground arith)));
      }

  -- the level that the grant may create leaves the log as it is
  based-IsWindowGrant :
      (db mid db' : Db) (user arcade : String) (entries : List String) (base current : ℤ)
      (now : Time)
      → ensure_user_level_base D db user base ≡ ok (current, mid)
      → IsWindowGrant mid db' user arcade entries now
      → IsWindowGrant db db' user arcade entries now
  based-IsWindowGrant db mid db' user arcade entries base current now based g =
      let same : list_logs mid ≡ list_logs db =
        elim (ensure-eq-ok D db mid user base current based) [
          | inl (_, e) ↦ ap list_logs e
          | inr (_, e, _) ↦ D.list_logs-save_level db mid (trim_space user) base e
        ] in
      record {
        rows = g.rows;
        before = sym same ∙ g.before;
        row = g.row;
        after = g.after;
        owner = g.owner;
        carried = g.carried;
        positive = g.positive;
        counted = g.counted;
        capped = g.capped;
      }

  eligible-IsWindowGrant :
      (db db' : Db) (user arcade : String) (entries : List String) (base next : ℤ) (now : Time)
      → MatchesPrefixes like
      → All (Lacks b',') (unique_game_entry_ids entries)
      → unique_game_entry_ids entries ≡ entries
      → is_nil entries ≡ false
      → trim_space user ≡ user
      → award_game_eligible D db user arcade entries base now ≡ ok (next, true, db')
      → IsWindowGrant db db' user arcade entries now
  unfolding award_game_eligible
  eligible-IsWindowGrant db db' user arcade entries base next now matches lacks unique some_id
        trimmed h =
      let ((current, mid), based, h') = >>=-eq-ok (ensure_user_level_base D db user base) _ h in
      let ((seen, awarded), window, h'') =
        >>=-eq-ok (game_window D mid user arcade entries now) _ h' in
      let (rows, read, sum) = game_window-eq-ok mid user arcade entries seen awarded now window in
      let diff = pos (arcade_game_edit_exp (length seen)) -ℤ awarded in
      elim (Bool-cases (leb_ℤ diff (pos 0))) [
        | inl spent ↦ absurd (ground arith)
        | inr more ↦ based-IsWindowGrant db mid db' user arcade entries base current now based (
            granted-IsWindowGrant mid db' user arcade entries base next awarded (length seen) now
              rows matches lacks unique some_id trimmed read sum more (rw more at h''))
      ]

  -- A grant for game edits logs one row that is read back as the entries of the edit and counts in full in the window
  -- of seven days that ends now, if its time lies in it, and leaves at most 10 exp of game edits of that user and
  -- arcade in the window, provided that LIKE matches each text with the pattern of its beginning and `%`, and
  -- that no entry holds a comma.
  pub award_arcade_game_edit_exp-capped :
      (db db' : Db) (user arcade : String) (entries : List String) (base next : ℤ) (now : Time)
      → MatchesPrefixes like
      → All (Lacks b',') (unique_game_entry_ids entries)
      → award_arcade_game_edit_exp D db user arcade entries base now ≡ ok (next, true, db')
      → IsWindowGrant db db'
          (trim_space user)
          (trim_space arcade)
          (unique_game_entry_ids entries)
          now
  unfolding award_arcade_game_edit_exp
  award_arcade_game_edit_exp-capped db db' user arcade entries base next now matches lacks h =
      let ids = unique_game_entry_ids entries in
      let again = unique_ids_idem entries in
      let granted : award_game_eligible D db (trim_space user) (trim_space arcade) ids base now
          ≡ ok (next, true, db') =
        elim (Result-cases (is_exp_eligible D db (trim_space user))) [
          | inl (true, e) ↦ ground arith
          | inl (false, e) ↦ absurd (ground arith)
          | inr (x, e) ↦ absurd (ground arith)
        ] in
      eligible-IsWindowGrant db db' (trim_space user) (trim_space arcade) ids base next now matches
        (subst (All (Lacks b',')) (sym again) lacks) again (ground arith) (trim_space_idem user)
        granted
