-- ===== src/Examples/Grants.antt =====
-- Grants of exp in a small database.
use musecat_backend_core.Prelude.{All, [], ◌∷◌, true, false, ◌≡◌, refl, arith, ok, some}
use musecat_backend_core.Prelude.Int.{pos, ◌+ℤ◌, ◌-ℤ◌}
use musecat_backend_core.Prelude.Text.{trim_space, concat, join, Lacks}
use musecat_backend_core.Prelude.Text.Order.{sort_strings, insert_text, text_lt}
use musecat_backend_core.Prelude.Text.Unique.{unique_strings}
use musecat_backend_core.Xp.Kinds.{
  arcade_game_edit_grant_kind, unique_game_entry_ids, arcade_game_edit_exp, arcade_edit_kind,
}
use musecat_backend_core.Xp.Kinds.Decimal.{format_int}
use musecat_backend_core.Xp.Memory.{Memory, memory_db, like_prefix-concat, save, append_log}
use musecat_backend_core.Xp.Award.{
  award_exp, is_nil, mark_seen, game_rows, game_row, logs_of, is_exp_eligible,
  ensure_user_level_base,
}
use musecat_backend_core.Xp.Award.Ledger.{IsLedger, award_exp-IsLedger}
use musecat_backend_core.Xp.Award.Granted.{IsGranted, award_exp-IsGranted}
use musecat_backend_core.Xp.Award.Once.{award_exp_again}
use musecat_backend_core.Xp.Public.{
  Contributions, collect_arcade_public_backfill_grants, grant_arcade_public_backfill,
}
use musecat_backend_core.Xp.Public.Ledger.{grant_arcade_public_backfill-IsLedger}
use musecat_backend_core.Xp.Kinds.{arcade_public_backfill_kind}
use musecat_backend_core.Xp.Windows.{award_arcade_game_edit_exp, award_game_eligible, game_window}
use musecat_backend_core.Xp.Windows.Caps.{award_arcade_game_edit_exp-capped, IsWindowGrant}

-- one account and no exp, on 2023-11-14
abbrev alice : Memory
alice = record {
  users = ("u1", "alice") ∷ [];
  levels = [];
  logs = [];
  clock = 1_700_000_000_000_000_000;
}

abbrev alice_after : Memory
alice_after =
    append_log (save (save alice "u1" (pos 0)) "u1" (pos 10)) "u1" "xp:visit:7" (pos 0) (pos 10)
      (pos 10)

granted :
    award_exp memory_db alice " u1" "xp:visit:7" (pos 10) (pos 0) ≡ ok (pos 10, true, alice_after)
unfolding award_exp trim_space ◌+ℤ◌
granted = refl

alice-IsLedger : IsLedger memory_db alice
alice-IsLedger = record {
  rows = [];
  read = refl;
  sums = λ u e h. absurd (ground arith);
  empty = λ u h. refl;
  steps = tt;
  once = tt;
}

award_exp-IsLedger_example : IsLedger memory_db alice_after
award_exp-IsLedger_example =
    award_exp-IsLedger memory_db alice alice_after " u1" "xp:visit:7" (pos 10) (pos 0) (pos 10) true
      alice-IsLedger (λ h. refl) granted

award_exp-IsGranted_example :
    IsGranted memory_db alice alice_after
      (trim_space " u1")
      (trim_space "xp:visit:7")
      (pos 10)
      (pos 0)
      (pos 10)
award_exp-IsGranted_example =
    award_exp-IsGranted memory_db alice alice_after " u1" "xp:visit:7" (pos 10) (pos 0) (pos 10)
      granted

award_exp_again_example :
    award_exp memory_db alice_after " u1" "xp:visit:7" (pos 3) (pos 2)
    ≡ ok (pos 10, false, alice_after)
award_exp_again_example =
    award_exp_again memory_db alice alice_after " u1" "xp:visit:7" (pos 10) (pos 0) (pos 10) granted
      (pos 3) (pos 2) refl

abbrev alice_edited : Memory
alice_edited =
    append_log (save (save alice "u1" (pos 0)) "u1" (pos 4)) "u1"
      (arcade_game_edit_grant_kind "arc" 1_700_000_000_000_000_000 ("g1" ∷ "g2" ∷ [])) (pos 0)
      (pos 4) (pos 4)

edited :
    award_arcade_game_edit_exp memory_db alice "u1" "arc"
      ("g1" ∷ "g2" ∷ [])
      (pos 0)
      1_700_000_000_000_000_000
    ≡ ok (pos 4, true, alice_edited)
unfolding award_arcade_game_edit_exp award_game_eligible game_window arcade_game_edit_exp
    arcade_game_edit_grant_kind arcade_edit_kind unique_game_entry_ids unique_strings sort_strings
    insert_text text_lt is_nil mark_seen game_rows game_row logs_of is_exp_eligible
    ensure_user_level_base award_exp trim_space concat join format_int ◌+ℤ◌ ◌-ℤ◌
edited = refl

no_comma : All (Lacks b',') (unique_game_entry_ids ("g1" ∷ "g2" ∷ []))
unfolding unique_game_entry_ids unique_strings sort_strings insert_text text_lt trim_space
no_comma = ((refl, (refl, tt)), ((refl, (refl, tt)), tt))

award_arcade_game_edit_exp-capped_example :
    IsWindowGrant memory_db alice alice_edited
      (trim_space "u1")
      (trim_space "arc")
      (unique_game_entry_ids ("g1" ∷ "g2" ∷ []))
      1_700_000_000_000_000_000
award_arcade_game_edit_exp-capped_example =
    award_arcade_game_edit_exp-capped memory_db alice alice_edited "u1" "arc" ("g1" ∷ "g2" ∷ [])
      (pos 0) (pos 4) 1_700_000_000_000_000_000 like_prefix-concat no_comma edited

-- two parts of an arcade were edited by its user before it was published
abbrev contributions : Contributions
contributions = record {
  changes = some ("hour" ∷ "photo" ∷ []);
  flags = some [];
  reactions = some [];
}

abbrev alice_published : Memory
alice_published =
    append_log (save (save alice "u1" (pos 0)) "u1" (pos 2)) "u1"
      (arcade_public_backfill_kind "arc" "hour") (pos 0) (pos 2) (pos 2)

published :
    grant_arcade_public_backfill memory_db alice contributions "u1" "arc" (pos 0)
    ≡ ok (pos 2, alice_published)
unfolding arcade_edit_kind grant_arcade_public_backfill collect_arcade_public_backfill_grants
    arcade_public_backfill_kind is_exp_eligible award_exp trim_space concat ◌+ℤ◌
published = refl

grant_arcade_public_backfill-IsLedger_example : IsLedger memory_db alice_published
grant_arcade_public_backfill-IsLedger_example =
    grant_arcade_public_backfill-IsLedger memory_db alice alice_published contributions "u1" "arc"
      (pos 0) (pos 2) alice-IsLedger (λ h. refl) published
