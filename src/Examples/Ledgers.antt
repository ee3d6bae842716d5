-- ===== src/Examples/Ledgers.antt =====
-- Kinds of the log as the ledger of supporters reads them.
use musecat_backend_core.Prelude.{some, refl}
use musecat_backend_core.Prelude.Text.{trim_space}
use musecat_backend_core.Xp.Kinds.{
  check_in_kind, arcade_public_kind, arcade_edit_kind, arcade_photo_grant_kind, arcade_visit_kind,
  flag_kind, flag_reaction_kind,
}
use musecat_backend_core.Supporter.Ledger.{plain_kind}
use musecat_backend_core.Supporter.Sources.{Says, ledger_reads_kinds}

ledger_reads_kinds_example :
    Says (flag_kind "f1") (record (plain_kind "flag" "flag") { target_id = "f1" })
    × Says
        (flag_reaction_kind "f1")
        (record (plain_kind "flag_reaction" "reaction") { target_id = "f1" })
    × Says
        (arcade_visit_kind "f1")
        (record (plain_kind "visit" "verified_visit") { target_id = "f1" })
    × Says (arcade_public_kind "a1") (record (plain_kind "arcade" "public") { arcade_id = "a1" })
    × Says
        (check_in_kind "20261126")
        (record (plain_kind "attendance" "check_in") { day = some "20261126" })
    × Says
        (arcade_edit_kind "a1" "basic")
        (record (plain_kind "arcade" "basic") { arcade_id = "a1" })
    × Says (arcade_photo_grant_kind "a1" "f1") (plain_kind "other" "other")
unfolding trim_space
ledger_reads_kinds_example =
    ledger_reads_kinds "f1" "a1" "basic" "20261126" (refl, (refl, (refl, (refl, (refl, tt)))))
      (refl, (refl, tt))
