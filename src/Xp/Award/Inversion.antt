-- ===== src/Xp/Award/Inversion.antt =====
-- What a call of a granting function has done when it succeeds.
use musecat_backend_core.Prelude.{
  String, some, Bool, true, false, ◌≡◌, inl, inr, ◌⊎◌, if◌then◌else◌, str_eq, ok, >>=-eq-ok, arith,
  Bool-cases, Option-cases,
}
use musecat_backend_core.Prelude.Int.{ℤ, pos, ◌+ℤ◌, eqb_ℤ}
use musecat_backend_core.Prelude.Text.{trim_space}
use musecat_backend_core.Xp.Store.{found, absent, LevelDb, Lookup-cases}
use musecat_backend_core.Xp.Award.{
  is_exp_eligible, ensure_user_level_base, write_grant, award_new, award_exp,
}

module _ (D : LevelDb) where
  open D use {Db, find_username, find_level, save_level, list_logs, add_log}

  -- A grant that succeeds has made both writes.
  pub write_grant-eq-ok :
      (db db' : Db) (user kind : String) (current diff next : ℤ) (granted : Bool)
      → find_level db user ≡ found current
      → write_grant D db user kind current diff ≡ ok (next, granted, db')
      → (saved : Db) × (save_level db user (current +ℤ diff) ≡ some saved)
        × (add_log saved user kind current (current +ℤ diff) diff ≡ some db')
        × (next ≡ current +ℤ diff)
        × (granted ≡ true)
  unfolding write_grant
  write_grant-eq-ok db db' user kind current diff next granted f h =
      elim (Option-cases (save_level db user (current +ℤ diff))) [
        | inl e ↦ absurd (ground arith)
        | inr (saved, e) ↦
            elim (Option-cases (add_log saved user kind current (current +ℤ diff) diff)) [
              | inl g ↦ absurd (ground arith)
              | inr (logged_db, g) ↦ (saved, e, ground arith, ground arith, ground arith)
            ]
      ]

  -- A base that succeeds was read, or was created with the given exp.
  pub ensure-eq-ok :
      (db db' : Db) (user : String) (base current : ℤ)
      → ensure_user_level_base D db user base ≡ ok (current, db')
      → ((find_level db (trim_space user) ≡ found current) × (db' ≡ db))
        ⊎ ((find_level db (trim_space user) ≡ absent)
            × (save_level db (trim_space user) base ≡ some db')
            × (current ≡ base))
  unfolding ensure_user_level_base
  ensure-eq-ok db db' user base current h = elim (Lookup-cases (find_level db (trim_space user))) [
    | inl (exp, f) ↦ inl (ground arith, ground arith)
    | inr (inl f) ↦ elim (Option-cases (save_level db (trim_space user) base)) [
      | inl e ↦ absurd (ground arith)
      | inr (saved, e) ↦ inr (f, ground arith, ground arith)
    ]
    | inr (inr f) ↦ absurd (ground arith)
  ]

  eligible-eq-ok :
      (db db' : Db) (id key : String) (diff base next : ℤ) (granted : Bool) (eligible : Bool)
      → (if eligible then award_new D db id key diff base else ok (base, false, db))
        ≡ ok (next, granted, db')
      → ((next ≡ base) × (granted ≡ false) × (db' ≡ db))
        ⊎ (award_new D db id key diff base ≡ ok (next, granted, db'))
  eligible-eq-ok db db' id key diff base next granted true h = inr h
  eligible-eq-ok db db' id key diff base next granted false h =
      inl (ground arith, ground arith, ground arith)

  -- A call of AwardExpTx that succeeds changed nothing, or went on to the grant.
  pub award_exp-eq-ok :
      (db db' : Db) (user kind : String) (diff base next : ℤ) (granted : Bool)
      → award_exp D db user kind diff base ≡ ok (next, granted, db')
      → ((next ≡ base) × (granted ≡ false) × (db' ≡ db))
        ⊎ (award_new D db (trim_space user) (trim_space kind) diff base ≡ ok (next, granted, db'))
  unfolding award_exp
  award_exp-eq-ok db db' user kind diff base next granted h =
      let id = trim_space user in
      let key = trim_space kind in
      elim (Bool-cases (str_eq id "")) [
        | inl e ↦ absurd (ground arith)
        | inr e ↦ elim (Bool-cases (str_eq key "")) [
          | inl k ↦ absurd (ground arith)
          | inr k ↦ elim (Bool-cases (eqb_ℤ diff (pos 0))) [
            | inl z ↦ inl (ground arith, ground arith, ground arith)
            | inr z ↦
                let (eligible, _, rest) =
                  >>=-eq-ok (is_exp_eligible D db id)
                    (λ eligible.
                      if eligible then award_new D db id key diff base else ok (base, false, db))
                    (rw (e, k, z) at h) in
                eligible-eq-ok db db' id key diff base next granted eligible rest
          ]
        ]
      ]
