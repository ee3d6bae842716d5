-- ===== src/Xp/Award/Rows.antt =====
-- The rows of user_level_log as a ledger: sums by user, and grants made once.
use musecat_backend_core.Prelude.{
  String, List, [], ◌∷◌, ◌++◌, Bool, false, ◌&&◌, any, any-append, ◌≡◌, refl, sym, if◌then◌else◌,
  str_eq, eq_iff, arith,
}
use musecat_backend_core.Prelude.Int.{ℤ, pos, ◌+ℤ◌, +ℤ_assoc, +ℤ_comm, int_laws}
use musecat_backend_core.Xp.Store.{LevelLog}

-- the sum of the rows of a user
abbrev pub total : String → List LevelLog → ℤ
total user [] = pos 0
total user (row ∷ rows) = (if str_eq row.user user then row.diff_exp else pos 0) +ℤ total user rows

-- a row of this user and kind is there
abbrev pub logged : String → String → List LevelLog → Bool
logged user kind = any (λ row. str_eq row.user user && str_eq row.kind kind)

-- no user has two rows of one kind
abbrev pub GrantedOnce : List LevelLog → Type 0
GrantedOnce [] = Unit
GrantedOnce (row ∷ rows) = (logged row.user row.kind rows ≡ false) × GrantedOnce rows

pub +ℤ_zero : (a : ℤ) → a +ℤ pos 0 ≡ a
+ℤ_zero a = omega int_laws

pub total-append :
    (user : String) (rows : List LevelLog) (row : LevelLog)
    → total user (rows ++ row ∷ [])
      ≡ total user rows +ℤ (if str_eq row.user user then row.diff_exp else pos 0)
total-append user [] row = +ℤ_comm _ _
total-append user (r ∷ rows) row = rw (total-append user rows row) (sym (+ℤ_assoc _ _ _))

pub GrantedOnce-append :
    (rows : List LevelLog) (row : LevelLog)
    → logged row.user row.kind rows ≡ false
    → GrantedOnce rows
    → GrantedOnce (rows ++ row ∷ [])
GrantedOnce-append [] row h g = (refl, tt)
GrantedOnce-append (r ∷ rows) row h g = (
  ground (
    arith,
    any-append (λ (q : LevelLog). str_eq q.user r.user && str_eq q.kind r.kind) rows (row ∷ []),
    eq_iff row.user r.user,
    eq_iff row.kind r.kind,
    eq_iff r.user row.user,
    eq_iff r.kind row.kind,
  ),
  GrantedOnce-append rows row (ground arith) g.1,
)
