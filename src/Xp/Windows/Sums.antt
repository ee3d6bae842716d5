-- ===== src/Xp/Windows/Sums.antt =====
-- The exp that the seven-day window of game edits has awarded, as the sum of its rows; AwardArcadeGameEditExpTx of
-- service/xp/xp.go adds it up in a loop.
use musecat_backend_core.Prelude.{
  ℕ, ◌≤◌, String, List, [], ◌∷◌, ◌++◌, Bool, true, false, not, ◌≡◌, sym, ◌∙◌, ap, select,
  if◌then◌else◌, Result, ok, arith, subst,
}
use musecat_backend_core.Prelude.Int.{
  ℤ, pos, pos_part, neg_part, ◌+ℤ◌, ◌-ℤ◌, ◌≤ℤ◌, ltb_ℤ, leb_ℤ, +ℤ_assoc, +ℤ_comm, int_laws,
}
use musecat_backend_core.Prelude.Text.{concat, concat_assoc, join}
use musecat_backend_core.Prelude.Text.Unique.{unique_strings_idem}
use musecat_backend_core.Xp.Kinds.Decimal.{format_int}
use musecat_backend_core.Xp.Kinds.{
  Time, arcade_edit_kind, arcade_game_edit_exp, arcade_game_edit_grant_kind, unique_game_entry_ids,
  game_entry_ids_from_grant_kind,
}
use musecat_backend_core.Xp.Store.{XpError, LevelLog}
use musecat_backend_core.Xp.Award.{within_week, mark_seen, is_nil, game_row, game_rows}
use musecat_backend_core.Xp.Award.Rows.{+ℤ_zero}

-- what one row adds to the exp that the window of game edits has awarded
abbrev game_part : String → Time → LevelLog → ℤ
game_part arcade now row =
    if not (within_week now row.created)
    then pos 0
    else if is_nil (game_entry_ids_from_grant_kind row.kind arcade)
    then pos 0
    else if ltb_ℤ (pos 0) row.diff_exp
    then row.diff_exp
    else pos 0

abbrev pub game_sum : String → Time → List LevelLog → ℤ
game_sum arcade now [] = pos 0
game_sum arcade now (row ∷ rows) = game_part arcade now row +ℤ game_sum arcade now rows

zero_+ℤ : (a : ℤ) → pos 0 +ℤ a ≡ a
zero_+ℤ a = omega int_laws

game_row-part :
    (arcade : String) (now : Time) (seen : List String) (awarded : ℤ) (row : LevelLog)
    → (game_row arcade now (seen, awarded) row).1 ≡ awarded +ℤ game_part arcade now row
unfolding game_row
game_row-part arcade now seen awarded row = ground (arith, +ℤ_zero awarded)

-- the exp that the loop accumulates is the sum over the rows
game_rows-sum :
    (arcade : String) (now : Time) (seen : List String) (awarded : ℤ) (rows : List LevelLog)
    → (game_rows arcade now (seen, awarded) rows).1 ≡ awarded +ℤ game_sum arcade now rows
unfolding game_rows game_row
game_rows-sum arcade now seen awarded [] = sym (+ℤ_zero awarded)
game_rows-sum arcade now seen awarded (row ∷ rows) =
    let state = game_row arcade now (seen, awarded) row in
    game_rows-sum arcade now state.0 state.1 rows
    ∙ ap (λ x. x +ℤ game_sum arcade now rows) (game_row-part arcade now seen awarded row)
    ∙ +ℤ_assoc awarded (game_part arcade now row) (game_sum arcade now rows)

pub game_sum-append :
    (arcade : String) (now : Time) (rows : List LevelLog) (row : LevelLog)
    → game_sum arcade now (rows ++ row ∷ []) ≡ game_sum arcade now rows +ℤ game_part arcade now row
game_sum-append arcade now [] row = +ℤ_comm _ _
game_sum-append arcade now (r ∷ rows) row =
    rw (game_sum-append arcade now rows row) (sym (+ℤ_assoc _ _ _))

exp_le_10 : (n : ℕ) → arcade_game_edit_exp n ≤ 10
unfolding arcade_game_edit_exp
exp_le_10 n = ground arith

pub select-append {ℓ} :
    {A : Type ℓ} (p : A → Bool) (xs : List A) (x : A)
    → select p (xs ++ x ∷ []) ≡ (if p x then select p xs ++ x ∷ [] else select p xs)
select-append p [] x = ground arith
select-append p (y ∷ ys) x = ground (arith, select-append p ys x)

-- what a row of the window that has entries and more than no exp adds
pub part_of_entries :
    (arcade : String) (now : Time) (row : LevelLog) (ids : List String)
    → game_entry_ids_from_grant_kind row.kind arcade ≡ ids
    → is_nil ids ≡ false
    → leb_ℤ row.diff_exp (pos 0) ≡ false
    → game_part arcade now row ≡ (if within_week now row.created then row.diff_exp else pos 0)
part_of_entries arcade now row ids e h more =
    let positive : ltb_ℤ (pos 0) row.diff_exp ≡ true = ground arith in
    rw (e, h, positive) (ground arith)

pub game_sum_of_state :
    (arcade : String) (now : Time) (entries seen : List String) (awarded : ℤ) (rows : List LevelLog)
    → ◌≡◌ {A = Result XpError (List String × ℤ)}
        (ok (game_rows arcade now (mark_seen [] entries, pos 0) rows))
        (ok (seen, awarded))
    → awarded ≡ game_sum arcade now rows
game_sum_of_state arcade now entries seen awarded rows h = ground (
  arith,
  game_rows-sum arcade now (mark_seen [] entries) (pos 0) rows,
  zero_+ℤ (game_sum arcade now rows),
)

pub capped_by :
    (before awarded diff part : ℤ) (n : ℕ)
    → awarded ≡ before
    → diff ≡ pos (arcade_game_edit_exp n) -ℤ awarded
    → pos 0 ≤ℤ diff
    → part ≤ℤ diff
    → before +ℤ part ≤ℤ pos 10
capped_by before awarded diff part n e d h le =
    omega (int_laws, exp_le_10 n, ap pos_part e, ap neg_part e, ap pos_part d, ap neg_part d)

-- what a row adds while it lies in the window is not above its exp
pub part_le :
    (now : Time) (row : LevelLog)
    → pos 0 ≤ℤ row.diff_exp
    → (if within_week now row.created then row.diff_exp else pos 0) ≤ℤ row.diff_exp
part_le now row h = ground arith

pub unique_ids_idem :
    (entries : List String)
    → unique_game_entry_ids (unique_game_entry_ids entries) ≡ unique_game_entry_ids entries
unfolding unique_game_entry_ids
unique_ids_idem entries = unique_strings_idem entries

-- a pattern that ends in `%` matches each text that begins with what stands before it
abbrev pub MatchesPrefixes : (String → String → Bool) → Type 0
MatchesPrefixes like = (front rest : String) → like (concat front rest) (concat front "%") ≡ true

pub game_like :
    (like : String → String → Bool) (arcade : String) (now : Time) (entries : List String)
    → MatchesPrefixes like
    → like
        (arcade_game_edit_grant_kind arcade now entries)
        (concat (arcade_edit_kind arcade "game") ":%")
      ≡ true
unfolding arcade_game_edit_grant_kind concat
game_like like arcade now entries matches =
    let base = arcade_edit_kind arcade "game" in
    let rest = concat (format_int now) (concat ":" (join "," (unique_game_entry_ids entries))) in
    subst (λ kind. like kind (concat base ":%") ≡ true) (concat_assoc base ":" rest)
      (subst (λ pattern. like (concat (concat base ":") rest) pattern ≡ true)
        (concat_assoc base ":" "%") (matches (concat base ":") rest))
