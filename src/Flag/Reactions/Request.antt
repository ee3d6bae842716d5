-- ===== src/Flag/Reactions/Request.antt =====
-- What a whole request that reacts to a flag has checked and preserves.
use musecat_backend_core.Prelude.{
  String, some, Bool, true, false, not, if◌then◌else◌, ok, >>=-eq-ok, ◌≡◌, arith,
}
use musecat_backend_core.Prelude.Int.{ℤ}
use musecat_backend_core.Xp.Kinds.{Time}
use musecat_backend_core.Xp.Level.{ExpFeedback}
use musecat_backend_core.Xp.Store.{LevelDb}
use musecat_backend_core.Xp.Award.{load_current_exp}
use musecat_backend_core.Flag.Rows.{Reaction}
use musecat_backend_core.Flag.Rounds.{reconcile_flag_resolution}
use musecat_backend_core.Flag.Rounds.Sound.{IsRoundSound, reconcile-IsRoundSound}
use musecat_backend_core.Flag.Rounds.Reconcile.{reconcile-solves, is_due}
use musecat_backend_core.Flag.Rules.{ArcadeAccess, or_flag_failed, or_xp_failed, guard}
use musecat_backend_core.Flag.Reactions.{
  FlagWorld, add_reaction, delete_reaction, deletable_row, update_arcade_flag_reaction,
}
use musecat_backend_core.Flag.Reactions.Preserve.{
  or_flag_failed-eq-ok, guard-eq-ok, add_reaction-IsRoundSound, delete_row-IsRoundSound,
}

module _ (D : LevelDb) where
  open D use {Db}

  acted-IsRoundSound :
      (adds : Bool) (access : ArcadeAccess) (w w' : FlagWorld D) (user : String)
      (reaction : Reaction) (id : String) (now : Time) (base : ℤ) (f : ExpFeedback)
      → (if adds
          then add_reaction D access w user reaction id now base
          else delete_reaction D w user reaction now base)
        ≡ ok (w', f)
      → w.flag.solved ≡ false
      → IsRoundSound w.flag
      → IsRoundSound w'.flag
  unfolding delete_reaction
  acted-IsRoundSound true access w w' user reaction id now base f h unsolved s =
      add_reaction-IsRoundSound D access w w' user reaction id now base f h unsolved s
  acted-IsRoundSound false access w w' user reaction id now base f h unsolved s =
      delete_row-IsRoundSound D w w' user reaction now base (deletable_row D w user reaction) f h s

  -- A request to add or delete a reaction that succeeds, of a flag with a sound round, has found the
  -- flag unsolved and its deadline not come, in an arcade that takes reports and that the user may
  -- write, and leaves a sound round.
  pub update_arcade_flag_reaction-IsRoundSound :
      (access : ArcadeAccess) (w w' : FlagWorld D) (user : String) (reaction : Reaction)
      (adds : Bool) (id : String) (now : Time) (f : ExpFeedback)
      → update_arcade_flag_reaction D access w user reaction adds id now ≡ ok (w', f)
      → IsRoundSound w.flag
      → (w.flag.solved ≡ false)
        × (is_due w.flag now ≡ false)
        × (access.external ≡ false)
        × (access.writable ≡ true)
        × IsRoundSound w'.flag
  unfolding update_arcade_flag_reaction
  update_arcade_flag_reaction-IsRoundSound access w w' user reaction adds id now f h s =
      let (_, unsolved, h1) = >>=-eq-ok (guard (not w.flag.solved) _) _ h in
      let rec = reconcile_flag_resolution true (some w.reactions) w.flag now false in
      let ((solved, flag), done, h2) = >>=-eq-ok (or_flag_failed rec) _ h1 in
      let (_, still, h3) = >>=-eq-ok (guard (not solved) _) _ h2 in
      let (_, inside, h4) = >>=-eq-ok (guard (not access.external) _) _ h3 in
      let (_, allowed, h5) = >>=-eq-ok (guard access.writable _) _ h4 in
      let (base, _, h6) = >>=-eq-ok (or_xp_failed (load_current_exp D w.levels user)) _ h5 in
      let reconciled = or_flag_failed-eq-ok rec (solved, flag) done in
      let (due, same) =
        reconcile-solves true (some w.reactions) w.flag flag now false solved reconciled in
      let sound =
        reconcile-IsRoundSound true (some w.reactions) w.flag flag now false solved reconciled s in
      let open_flag = guard-eq-ok (not w.flag.solved) _ unsolved in
      let undue = guard-eq-ok (not solved) _ still in
      (
        ground arith,
        ground arith,
        ground (arith, guard-eq-ok (not access.external) _ inside),
        guard-eq-ok access.writable _ allowed,
        acted-IsRoundSound adds access (record w { flag = flag }) w' user reaction id now base f h6
            (ground arith) sound,
      )
