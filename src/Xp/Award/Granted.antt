-- ===== src/Xp/Award/Granted.antt =====
-- What a granted call of AwardExpTx writes.
use musecat_backend_core.Prelude.{
  String, Option, some, List, [], ◌∷◌, ◌++◌, true, false, ◌≡◌, sym, ◌∙◌, ap, subst, inl, inr, ◌⊎◌,
  if◌then◌else◌, str_eq, eq_iff, eq_refl, ok, >>=-eq-ok, arith, Bool-cases, Result-cases,
}
use musecat_backend_core.Prelude.Int.{ℤ, ◌+ℤ◌}
use musecat_backend_core.Prelude.Text.{trim_space, trim_space_idem}
use musecat_backend_core.Xp.Kinds.{Time}
use musecat_backend_core.Xp.Store.{found, absent, LevelLog, LevelDb, or_database}
use musecat_backend_core.Xp.Award.{
  is_exp_eligible, ensure_user_level_base, write_grant, award_new, award_exp, base_or_create,
}
use musecat_backend_core.Xp.Award.Rows.{logged}
use musecat_backend_core.Xp.Award.Inversion.{write_grant-eq-ok, ensure-eq-ok}

module _ (D : LevelDb) where
  open D use {Db, find_username, find_level, save_level, list_logs, add_log}

  rows_of :
      (db : Db) (rows : List LevelLog)
      → or_database (list_logs db) ≡ ok rows
      → list_logs db ≡ some rows
  rows_of db rows h = ground arith

  -- The writes of one grant: the total of the user alone, and one new row of the log.
  pub record IsGranted (db db' : Db) (user kind : String) (diff base next : ℤ) : Type 0 where
    pub current : ℤ
    pub based :
        (find_level db user ≡ found current) ⊎ ((find_level db user ≡ absent) × (current ≡ base))
    pub sum : next ≡ current +ℤ diff
    pub levels :
        (other : String)
        → find_level db' other ≡ (if str_eq user other then found next else find_level db other)
    pub names : (other : String) → find_username db' other ≡ find_username db other
    pub rows : List LevelLog
    pub before : list_logs db ≡ some rows
    pub fresh : logged user kind rows ≡ false
    pub stamp : Option Time
    pub after :
        list_logs db'
        ≡ some (
            rows
            ++ (record {
              user = user;
              kind = kind;
              previous_exp = current;
              new_exp = next;
              diff_exp = diff;
              created = stamp;
            })
              ∷ [])

  pub ensure_found :
      (db : Db) (user : String) (base exp : ℤ)
      → trim_space user ≡ user
      → str_eq user "" ≡ false
      → find_level db user ≡ found exp
      → ensure_user_level_base D db user base ≡ ok (exp, db)
  unfolding ensure_user_level_base
  ensure_found db user base exp trimmed named f = rw (trimmed, named, f, base_or_create)

  write_grant-IsGranted :
      (db db' : Db) (user kind : String) (current diff base next : ℤ) (rows : List LevelLog)
      → find_level db user ≡ found current
      → list_logs db ≡ some rows
      → logged user kind rows ≡ false
      → write_grant D db user kind current diff ≡ ok (next, true, db')
      → IsGranted db db' user kind diff base next
  write_grant-IsGranted db db' user kind current diff base next rows f r fresh h =
      let (saved, e, g, same, _) =
        write_grant-eq-ok D db db' user kind current diff next true f h in
      let total = current +ℤ diff in
      let (stamp, after) =
        D.list_logs-add_log saved db' user kind current total diff g rows
          (D.list_logs-save_level db saved user total e ∙ r) in
      record {
        current = current;
        based = inl f;
        sum = same;
        levels = λ other.
            D.find_level-add_log saved db' user kind current total diff g other
            ∙ rw same (D.find_level-save_level db saved user total e other);
        names = λ other.
            D.find_username-add_log saved db' user kind current total diff g other
            ∙ D.find_username-save_level db saved user total e other;
        rows = rows;
        before = r;
        fresh = fresh;
        stamp = stamp;
        after = rw same after;
      }

  -- A level that was created just before the grant.
  created-IsGranted :
      (db mid db' : Db) (user kind : String) (diff base next : ℤ)
      → find_level db user ≡ absent
      → save_level db user base ≡ some mid
      → IsGranted mid db' user kind diff base next
      → IsGranted db db' user kind diff base next
  created-IsGranted db mid db' user kind diff base next a e g = record {
    current = g.current;
    based =
        inr (a, ground (arith, D.find_level-save_level db mid user base e user, eq_iff user user));
    sum = g.sum;
    levels =
        λ other. ground (arith, g.levels other, D.find_level-save_level db mid user base e other);
    names = λ other. g.names other ∙ D.find_username-save_level db mid user base e other;
    rows = g.rows;
    before = sym (D.list_logs-save_level db mid user base e) ∙ g.before;
    fresh = g.fresh;
    stamp = g.stamp;
    after = g.after;
  }

  new-IsGranted :
      (db mid db' : Db) (user kind : String) (current diff base next : ℤ) (rows : List LevelLog)
      → find_level mid user ≡ found current
      → list_logs mid ≡ some rows
      → (if logged user kind rows
          then ok (current, false, mid)
          else write_grant D mid user kind current diff)
        ≡ ok (next, true, db')
      → IsGranted mid db' user kind diff base next
  new-IsGranted db mid db' user kind current diff base next rows f r h =
      elim (Bool-cases (logged user kind rows)) [
        | inl old ↦ absurd (ground arith)
        | inr fresh ↦
            write_grant-IsGranted mid db' user kind current diff base next rows f r fresh
              (rw fresh at h)
      ]

  award_new-IsGranted :
      (db db' : Db) (user kind : String) (diff base next : ℤ)
      → trim_space user ≡ user
      → award_new D db user kind diff base ≡ ok (next, true, db')
      → IsGranted db db' user kind diff base next
  unfolding award_new
  award_new-IsGranted db db' user kind diff base next trimmed h =
      let ((current, mid), based, h') = >>=-eq-ok (ensure_user_level_base D db user base) _ h in
      let (rows, read, h'') = >>=-eq-ok (or_database (list_logs mid)) _ h' in
      let readable : list_logs mid ≡ some rows = rows_of mid rows read in
      elim (ensure-eq-ok D db mid user base current based) [
        | inl (f, same) ↦
            subst (λ d. IsGranted d db' user kind diff base next) same
              (new-IsGranted db mid db' user kind current diff base next rows
                (rw same (rw trimmed at f)) readable h'')
        | inr (f, e, same) ↦
            created-IsGranted db mid db' user kind diff base next (rw trimmed at f)
              (rw trimmed at e)
              (new-IsGranted db mid db' user kind current diff base next rows
                (D.find_level-save_level db mid user base (rw trimmed at e) user
                  ∙ rw (eq_refl user) (ap found (sym same)))
                readable h'')
      ]

  -- The checks that a granted call has passed.
  pub granted-eq-ok :
      (db db' : Db) (user kind : String) (diff base next : ℤ)
      → award_exp D db user kind diff base ≡ ok (next, true, db')
      → (str_eq (trim_space user) "" ≡ false)
        × (str_eq (trim_space kind) "" ≡ false)
        × (is_exp_eligible D db (trim_space user) ≡ ok true)
        × (award_new D db (trim_space user) (trim_space kind) diff base ≡ ok (next, true, db'))
  unfolding award_exp
  granted-eq-ok db db' user kind diff base next h =
      elim (Result-cases (is_exp_eligible D db (trim_space user))) [
        | inl (true, e) ↦ (ground arith, ground arith, e, ground arith)
        | inl (false, e) ↦ absurd (ground arith)
        | inr (x, e) ↦ absurd (ground arith)
      ]

  -- A granted call leaves every other total as it was, adds `diff` to the user's, which was `base`
  -- if the account had none, and appends one row that records the step; the kind was new.
  pub award_exp-IsGranted :
      (db db' : Db) (user kind : String) (diff base next : ℤ)
      → award_exp D db user kind diff base ≡ ok (next, true, db')
      → IsGranted db db' (trim_space user) (trim_space kind) diff base next
  award_exp-IsGranted db db' user kind diff base next h =
      award_new-IsGranted db db' (trim_space user) (trim_space kind) diff base next
        (trim_space_idem user) (granted-eq-ok db db' user kind diff base next h).3
