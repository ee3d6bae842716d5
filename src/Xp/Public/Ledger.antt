-- ===== src/Xp/Public/Ledger.antt =====
-- The grants of a publication, GrantArcadePublicBackfillTx of service/xp/xp.go, keep the ledger.
use musecat_backend_core.Prelude.{
  String, List, [], ◌∷◌, Bool, true, false, ◌≡◌, sym, ◌∙◌, ap, subst, inl, inr, if◌then◌else◌,
  eq_refl, ok, >>=-eq-ok, arith, Result-cases,
}
use musecat_backend_core.Prelude.Int.{ℤ, pos, ◌+ℤ◌}
use musecat_backend_core.Prelude.Text.{trim_space, trim_space_idem}
use musecat_backend_core.Xp.Store.{found, absent, LevelDb, or_database}
use musecat_backend_core.Xp.Award.{
  is_exp_eligible, ensure_user_level_base, write_grant, award_new, award_exp,
}
use musecat_backend_core.Xp.Award.Rows.{logged}
use musecat_backend_core.Xp.Award.Inversion.{write_grant-eq-ok, ensure-eq-ok, award_exp-eq-ok}
use musecat_backend_core.Xp.Award.Ledger.{IsLedger, award_exp-IsLedger}
use musecat_backend_core.Xp.Public.{
  Contributions, BackfillGrant, backfill_grants, collect_arcade_public_backfill_grants,
  grant_arcade_public_backfill,
}

module _ (D : LevelDb) where
  open D use {Db, find_level, save_level, list_logs, add_log}

  ensured-found :
      (db mid : Db) (user : String) (base current : ℤ)
      → trim_space user ≡ user
      → ensure_user_level_base D db user base ≡ ok (current, mid)
      → find_level mid user ≡ found current
  ensured-found db mid user base current trimmed h =
      elim (ensure-eq-ok D db mid user base current h) [
        | inl (f, same) ↦
            subst (λ d. find_level d user ≡ found current) (sym same) (rw trimmed at f)
        | inr (f, e, same) ↦
            D.find_level-save_level db mid user base (rw trimmed at e) user
            ∙ rw (eq_refl user) (ap found (sym same))
      ]

  written-found :
      (mid db' : Db) (user kind : String) (current diff next : ℤ) (granted old : Bool)
      → find_level mid user ≡ found current
      → (if old then ok (current, false, mid) else write_grant D mid user kind current diff)
        ≡ ok (next, granted, db')
      → find_level db' user ≡ found next
  written-found mid db' user kind current diff next granted true f h =
      subst (λ d. find_level d user ≡ found next) {x = mid} (ground arith)
        (f ∙ ap found (ground arith))
  written-found mid db' user kind current diff next granted false f h =
      let (saved, e, g, same, _) =
        write_grant-eq-ok D mid db' user kind current diff next granted f h in
      D.find_level-add_log saved db' user kind current (current +ℤ diff) diff g user
      ∙ D.find_level-save_level mid saved user (current +ℤ diff) e user
      ∙ rw (eq_refl user) (ap found (sym same))

  award_new-found :
      (db db' : Db) (user kind : String) (diff base next : ℤ) (granted : Bool)
      → trim_space user ≡ user
      → award_new D db user kind diff base ≡ ok (next, granted, db')
      → find_level db' user ≡ found next
  unfolding award_new
  award_new-found db db' user kind diff base next granted trimmed h =
      let ((current, mid), based, h') = >>=-eq-ok (ensure_user_level_base D db user base) _ h in
      let (rows, read, h'') = >>=-eq-ok (or_database (list_logs mid)) _ h' in
      written-found mid db' user kind current diff next granted (logged user kind rows)
        (ensured-found db mid user base current trimmed based) h''

  -- the total that the loop goes on with is 0 if the account is still missing
  base_kept :
      (db db' : Db) (user kind : String) (diff current next : ℤ) (granted : Bool)
      → award_exp D db user kind diff current ≡ ok (next, granted, db')
      → (find_level db (trim_space user) ≡ absent → current ≡ pos 0)
      → find_level db' (trim_space user) ≡ absent
      → (if granted then next else current) ≡ pos 0
  base_kept db db' user kind diff current next granted h zero_base missing =
      elim (award_exp-eq-ok D db db' user kind diff current next granted h) [
        | inl (_, denied, same) ↦
            rw denied
              (zero_base (subst (λ d. find_level d (trim_space user) ≡ absent) same missing))
        | inr e ↦
            let f =
              award_new-found db db' (trim_space user) (trim_space kind) diff current next granted
                (trim_space_idem user) e in
            absurd (ground arith)
      ]

  backfill_grants-IsLedger :
      (db db' : Db) (user : String) (current next : ℤ) (grants : List BackfillGrant)
      → IsLedger D db
      → (find_level db (trim_space user) ≡ absent → current ≡ pos 0)
      → backfill_grants D db user current grants ≡ ok (next, db')
      → IsLedger D db'
  unfolding backfill_grants
  backfill_grants-IsLedger db db' user current next [] l zero_base h =
      subst (IsLedger D) {x = db} (ground arith) l
  backfill_grants-IsLedger db db' user current next (grant ∷ grants) l zero_base h =
      let ((n, granted, mid), awarded, h') =
        >>=-eq-ok (award_exp D db user grant.kind (pos grant.diff) current) _ h in
      backfill_grants-IsLedger mid db' user (if granted then n else current) next grants
        (award_exp-IsLedger D db mid user grant.kind (pos grant.diff) current n granted l zero_base
          awarded)
        (base_kept db mid user grant.kind (pos grant.diff) current n granted awarded zero_base) h'

  -- The grants for the publication of an arcade keep the ledger, if a missing account is based on 0.
  pub grant_arcade_public_backfill-IsLedger :
      (db db' : Db) (from : Contributions) (user arcade : String) (base next : ℤ)
      → IsLedger D db
      → (find_level db (trim_space user) ≡ absent → base ≡ pos 0)
      → grant_arcade_public_backfill D db from user arcade base ≡ ok (next, db')
      → IsLedger D db'
  unfolding grant_arcade_public_backfill
  grant_arcade_public_backfill-IsLedger db db' from user arcade base next l zero_base h =
      let id = trim_space user in
      elim (Result-cases (is_exp_eligible D db id)) [
        | inl (true, e) ↦
            elim (Result-cases (collect_arcade_public_backfill_grants from (trim_space arcade))) [
              | inl (grants, c) ↦
                  backfill_grants-IsLedger db db' id base next grants l
                    (rw (trim_space_idem user) zero_base) (ground arith)
              | inr (x, c) ↦ absurd (ground arith)
            ]
        | inl (false, e) ↦ subst (IsLedger D) {x = db} (ground arith) l
        | inr (x, e) ↦ absurd (ground arith)
      ]
