-- ===== src/Xp/Memory.antt =====
-- A database in memory that meets what the grants ask of one.
use musecat_backend_core.Prelude.{
  String, some, List, [], ◌∷◌, ◌++◌, Bool, true, false, ◌≡◌, refl, arith, sym, ap, ◌∙◌,
  if◌then◌else◌, str_eq, ◌==◌,
}
use Prim.Native.Char.{code}
use musecat_backend_core.Prelude.Int.{ℤ}
use musecat_backend_core.Prelude.Text.{concat}
use musecat_backend_core.Xp.Kinds.{Time}
use musecat_backend_core.Xp.Store.{Lookup, found, absent, LevelLog, LevelDb}

pub record Memory : Type 0 where
  pub users : List (String × String)
  pub levels : List (String × ℤ)
  pub logs : List LevelLog
  pub clock : Time

abbrev pub look : {A : Type 0} → List (String × A) → String → Lookup A
look [] key = absent
look ((k, v) ∷ rest) key = if str_eq k key then found v else look rest key

-- a pattern whose only wildcard is a `%` at its end
abbrev pub like_prefix : String → String → Bool
like_prefix String.[] String.[] = true
like_prefix (String.◌∷◌ c s) String.[] = false
like_prefix String.[] (String.◌∷◌ p ps) = code p == b'%'
like_prefix (String.◌∷◌ c s) (String.◌∷◌ p ps) =
    let rest = like_prefix s ps in
    if code p == b'%' then true else if code p == code c then rest else false

-- what LIKE does with a pattern that ends in `%`
pub like_prefix-concat :
    (front rest : String) → like_prefix (concat front rest) (concat front "%") ≡ true
unfolding concat
like_prefix-concat String.[] String.[] = refl
like_prefix-concat String.[] (String.◌∷◌ c rest) = refl
like_prefix-concat (String.◌∷◌ c front) rest = ground (arith, like_prefix-concat front rest)

abbrev pub save : Memory → String → ℤ → Memory
save db user exp = record db { levels = (user, exp) ∷ db.levels }

abbrev pub append_log : Memory → String → String → ℤ → ℤ → ℤ → Memory
append_log db user kind previous new diff = record db {
  logs =
      db.logs
      ++ (record {
        user = user;
        kind = kind;
        previous_exp = previous;
        new_exp = new;
        diff_exp = diff;
        created = some db.clock;
      })
        ∷ [];
}

pub same : {A : Type 0} {a b : A} → some a ≡ some b → a ≡ b
same h = cc

pub appended :
    (db db' : Memory) (user kind : String) (p n d : ℤ) (rows : List LevelLog)
    → some (append_log db user kind p n d) ≡ some db'
    → some db.logs ≡ some rows
    → some db'.logs
      ≡ some (
          rows
          ++ (record {
            user = user;
            kind = kind;
            previous_exp = p;
            new_exp = n;
            diff_exp = d;
            created = some db.clock;
          })
            ∷ [])
appended db db' user kind p n d rows h r =
    ap (λ (e : Memory). some e.logs) (sym (same h))
    ∙ ap (λ (rs : List LevelLog). some (rs ++ row ∷ [])) (same r)
  where
    row : LevelLog
    row = record {
      user = user;
      kind = kind;
      previous_exp = p;
      new_exp = n;
      diff_exp = d;
      created = some db.clock;
    }

abbrev pub memory_db : LevelDb
memory_db = record {
  Db = Memory;
  find_username = λ db user. look db.users user;
  find_level = λ db user. look db.levels user;
  save_level = λ db user exp. some (save db user exp);
  list_logs = λ db. some db.logs;
  add_log = λ db user kind previous new diff. some (append_log db user kind previous new diff);
  like = like_prefix;
  find_level-save_level =
      λ db db' user exp h other. ap (λ (d : Memory). look d.levels other) (sym (same h));
  list_logs-save_level = λ db db' user exp h. ap (λ (d : Memory). some d.logs) (sym (same h));
  find_username-save_level =
      λ db db' user exp h other. ap (λ (d : Memory). look d.users other) (sym (same h));
  find_level-add_log =
      λ db db' user kind p n d h other. ap (λ (e : Memory). look e.levels other) (sym (same h));
  find_username-add_log =
      λ db db' user kind p n d h other. ap (λ (e : Memory). look e.users other) (sym (same h));
  list_logs-add_log =
      λ db db' user kind p n d h rows r. (some db.clock, appended db db' user kind p n d rows h r);
}
