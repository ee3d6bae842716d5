-- ===== src/Xp/Store.antt =====
-- What service/xp/xp.go asks of the database: the collections user, user_level and user_level_log
-- behind the calls that the code makes. A call may fail; a transaction whose function returns an
-- error is rolled back by the database, so an error carries no state.
use musecat_backend_core.Prelude.{
  String, Option, none, some, List, [], ◌∷◌, ◌++◌, ◌≡◌, if◌then◌else◌, str_eq, Result, ok, err,
  Bool, refl, ◌⊎◌, inl, inr,
}
use musecat_backend_core.Prelude.Int.{ℤ}
use musecat_backend_core.Xp.Kinds.{Time}

-- FindRecordById: the record, sql.ErrNoRows, or another error
pub data Lookup (A : Type 0) : Type 0 where
  found : A → Lookup A
  absent failed : Lookup A

-- A row of user_level_log; `created` is what parseLevelLogCreated reads in that column.
pub record LevelLog : Type 0 where
  pub user : String
  pub kind : String
  pub previous_exp : ℤ
  pub new_exp : ℤ
  pub diff_exp : ℤ
  pub created : Option Time

pub data XpError : Type 0 where
  user_id_required kind_required arcade_id_required part_required database : XpError

pub record LevelDb : Type 1 where
  pub Db : Type 0
  -- the field username of a user
  pub find_username : Db → String → Lookup String
  -- the field exp of user_level
  pub find_level : Db → String → Lookup ℤ
  pub save_level : Db → String → ℤ → Option Db
  -- every row of user_level_log, oldest first
  pub list_logs : Db → Option (List LevelLog)
  -- a new row: user, kind, previous_exp, new_exp, diff_exp; the database stamps `created`
  pub add_log : Db → String → String → ℤ → ℤ → ℤ → Option Db
  -- SQLite's LIKE: the text, the pattern
  pub like : String → String → Bool
  -- What is written is read back, and nothing else changes.
  pub find_level-save_level :
      (db db' : Db) (user : String) (exp : ℤ)
      → save_level db user exp ≡ some db'
      → (other : String)
      → find_level db' other ≡ (if str_eq user other then found exp else find_level db other)
  pub list_logs-save_level :
      (db db' : Db) (user : String) (exp : ℤ)
      → save_level db user exp ≡ some db'
      → list_logs db' ≡ list_logs db
  pub find_username-save_level :
      (db db' : Db) (user : String) (exp : ℤ)
      → save_level db user exp ≡ some db'
      → (other : String) → find_username db' other ≡ find_username db other
  pub find_level-add_log :
      (db db' : Db) (user kind : String) (previous new diff : ℤ)
      → add_log db user kind previous new diff ≡ some db'
      → (other : String) → find_level db' other ≡ find_level db other
  pub find_username-add_log :
      (db db' : Db) (user kind : String) (previous new diff : ℤ)
      → add_log db user kind previous new diff ≡ some db'
      → (other : String) → find_username db' other ≡ find_username db other
  pub list_logs-add_log :
      (db db' : Db) (user kind : String) (previous new diff : ℤ)
      → add_log db user kind previous new diff ≡ some db'
      → (rows : List LevelLog) → list_logs db ≡ some rows
      → (stamp : Option Time) × (list_logs db'
          ≡ some (
              rows
              ++ (record {
                user = user;
                kind = kind;
                previous_exp = previous;
                new_exp = new;
                diff_exp = diff;
                created = stamp;
              })
                ∷ []))

-- the result of a call that only succeeds or fails
abbrev pub or_database : {A : Type 0} → Option A → Result XpError A
or_database none = err database
or_database (some a) = ok a

pub Lookup-cases :
    {A : Type 0} (x : Lookup A) → ((a : A) × (x ≡ found a)) ⊎ (x ≡ absent) ⊎ (x ≡ failed)
Lookup-cases (found a) = inl (a, refl)
Lookup-cases absent = inr (inl refl)
Lookup-cases failed = inr (inr refl)
