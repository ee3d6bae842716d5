-- ===== src/Xp/Award/Ledger.antt =====
-- The ledger of experience: what AwardExpTx keeps true of user_level and user_level_log.
use musecat_backend_core.Prelude.{
  String, some, List, Bool, false, All, All-append, ◌≡◌, refl, sym, ◌∙◌, ap, subst, inl, inr,
  if◌then◌else◌, eq_iff, eq_refl, ok, >>=-eq-ok, arith, Bool-cases,
}
use musecat_backend_core.Prelude.Int.{ℤ, pos, ◌+ℤ◌}
use musecat_backend_core.Prelude.Text.{trim_space, trim_space_idem}
use musecat_backend_core.Xp.Store.{found, absent, LevelLog, LevelDb}
use musecat_backend_core.Xp.Award.{ensure_user_level_base, write_grant, award_new, award_exp}
use musecat_backend_core.Xp.Award.Rows.{
  total, logged, GrantedOnce, +ℤ_zero, total-append, GrantedOnce-append,
}
use musecat_backend_core.Xp.Award.Inversion.{write_grant-eq-ok, ensure-eq-ok, award_exp-eq-ok}

module _ (D : LevelDb) where
  open D use {Db, find_username, find_level, save_level, list_logs, add_log}

  -- The log can be read; the exp of every account is the sum of its rows, an account without
  -- user_level has sum 0; each row adds up; no user has two rows of one kind.
  pub record IsLedger (db : Db) : Type 0 where
    pub rows : List LevelLog
    pub read : list_logs db ≡ some rows
    pub sums : (user : String) (exp : ℤ) → find_level db user ≡ found exp → exp ≡ total user rows
    pub empty : (user : String) → find_level db user ≡ absent → total user rows ≡ pos 0
    pub steps : All (λ (r : LevelLog). r.new_exp ≡ r.previous_exp +ℤ r.diff_exp) rows
    pub once : GrantedOnce rows

  save_level-IsLedger :
      (db db' : Db) (user : String) (exp : ℤ)
      → (l : IsLedger db) → exp ≡ total user l.rows
      → save_level db user exp ≡ some db'
      → IsLedger db'
  save_level-IsLedger db db' user exp l h e = record {
    rows = l.rows;
    read = D.list_logs-save_level db db' user exp e ∙ l.read;
    sums = λ u x f.
        ground (arith, D.find_level-save_level db db' user exp e u, eq_iff user u, l.sums u x);
    empty = λ u f.
        ground (arith, D.find_level-save_level db db' user exp e u, eq_iff user u, l.empty u);
    steps = l.steps;
    once = l.once;
  }

  -- The two writes of a grant together keep the ledger.
  write-IsLedger :
      (db saved logged_db : Db) (user kind : String) (current diff : ℤ)
      → (l : IsLedger db) → find_level db user ≡ found current
      → logged user kind l.rows ≡ false
      → save_level db user (current +ℤ diff) ≡ some saved
      → add_log saved user kind current (current +ℤ diff) diff ≡ some logged_db
      → IsLedger logged_db
  write-IsLedger db saved logged_db user kind current diff l f fresh e g =
      let next = current +ℤ diff in
      let (stamp, after) =
        D.list_logs-add_log saved logged_db user kind current next diff g l.rows
          (D.list_logs-save_level db saved user next e ∙ l.read) in
      record {
        rows = _;
        read = after;
        sums = λ u x h. rw (total-append u l.rows) (
            ground (
              arith,
              D.find_level-add_log saved logged_db user kind current next diff g u,
              D.find_level-save_level db saved user next e u,
              eq_iff user u,
              l.sums user current f,
              l.sums u x,
              +ℤ_zero (total u l.rows),
            ));
        empty = λ u h. rw (total-append u l.rows) (
            ground (
              arith,
              D.find_level-add_log saved logged_db user kind current next diff g u,
              D.find_level-save_level db saved user next e u,
              eq_iff user u,
              l.sums user current f,
              l.empty u,
              +ℤ_zero (total u l.rows),
            ));
        steps = All-append _ l.rows _ l.steps (refl, tt);
        once = GrantedOnce-append l.rows _ fresh l.once;
      }

  -- Creating a missing user_level with the sum 0 keeps the ledger; after it the level is there.
  pub ensure-IsLedger :
      (db db' : Db) (user : String) (base current : ℤ)
      → (l : IsLedger db) → (find_level db (trim_space user) ≡ absent → base ≡ pos 0)
      → ensure_user_level_base D db user base ≡ ok (current, db')
      → (l' : IsLedger db') × (l'.rows ≡ l.rows)
        × (find_level db' (trim_space user) ≡ found current)
  unfolding save_level-IsLedger
  ensure-IsLedger db db' user base current l zero_base h =
      let id = trim_space user in
      elim (ensure-eq-ok D db db' user base current h) [
        | inl (f, same) ↦
            subst (λ d. (l' : IsLedger d) × (l'.rows ≡ l.rows) × (find_level d id ≡ found current))
              (sym same) (l, refl, f)
        | inr (f, e, same) ↦ (
          save_level-IsLedger db db' id base l (zero_base f ∙ sym (l.empty id f)) e,
          refl,
          D.find_level-save_level db db' id base e id ∙ (rw (eq_refl id) (ap found (sym same))),
        )
      ]

  granted_or_not :
      (mid db' : Db) (user kind : String) (current diff next : ℤ) (granted : Bool)
      → (l : IsLedger mid) → find_level mid user ≡ found current
      → (if logged user kind l.rows
          then ok (current, false, mid)
          else write_grant D mid user kind current diff)
        ≡ ok (next, granted, db')
      → IsLedger db'
  granted_or_not mid db' user kind current diff next granted l f h =
      elim (Bool-cases (logged user kind l.rows)) [
        | inl old ↦ let same : mid ≡ db' = ground arith in subst IsLedger same l
        | inr fresh ↦
            let (saved, e, g, _, _) =
              write_grant-eq-ok D mid db' user kind current diff next granted f (rw fresh at h) in
            write-IsLedger mid saved db' user kind current diff l f fresh e g
      ]

  award_new-IsLedger :
      (db db' : Db) (user kind : String) (diff base next : ℤ) (granted : Bool)
      → trim_space user ≡ user
      → IsLedger db
      → (find_level db user ≡ absent → base ≡ pos 0)
      → award_new D db user kind diff base ≡ ok (next, granted, db')
      → IsLedger db'
  unfolding award_new
  award_new-IsLedger db db' user kind diff base next granted trimmed l zero_base h =
      let ((current, mid), based, h') = >>=-eq-ok (ensure_user_level_base D db user base) _ h in
      let (l', same, f) = ensure-IsLedger db mid user base current l (rw trimmed zero_base) based in
      granted_or_not mid db' user kind current diff next granted l' (rw trimmed at f)
        (rw l'.read at h')

  -- Every result of AwardExpTx keeps the ledger, if a missing account is based on 0: each total is the
  -- sum of the log rows of its user, a user without a total has rows of sum 0, each row steps from the
  -- previous total to the new one, and no user has a kind twice.
  pub award_exp-IsLedger :
      (db db' : Db) (user kind : String) (diff base next : ℤ) (granted : Bool)
      → IsLedger db
      → (find_level db (trim_space user) ≡ absent → base ≡ pos 0)
      → award_exp D db user kind diff base ≡ ok (next, granted, db')
      → IsLedger db'
  award_exp-IsLedger db db' user kind diff base next granted l zero_base h =
      let id = trim_space user in
      let key = trim_space kind in
      elim (award_exp-eq-ok D db db' user kind diff base next granted h) [
        | inl (_, _, same) ↦ subst IsLedger (sym same) l
        | inr e ↦
            award_new-IsLedger db db' id key diff base next granted (trim_space_idem user) l
              zero_base e
      ]
