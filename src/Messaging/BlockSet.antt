-- ===== src/Messaging/BlockSet.antt =====
-- The rows of blocks as the set of pairs that they stand for.
use musecat_backend_core.Prelude.{
  suc, ◌≤◌, ◌≡◌, refl, sym, subst, ◌∙◌, arith, inl, inr, String, [], ◌∷◌, Bool, true, false, not,
  ◌||◌, leb, if◌then◌else◌, str_eq, eq_refl, eq_iff, ok, Ensures, of_Ensures, if-Ensures,
  Bool-cases,
}
use musecat_backend_core.Messaging.Policy.{Reach, can_dm, blocks_between}
use musecat_backend_core.Messaging.Blocks.{
  BlockRows, is_block, has_block, count_blocks, delete_block, add_block, block,
}

-- no pair stands twice
abbrev pub AreOnce : BlockRows → Type 0
AreOnce [] = Unit
AreOnce (row ∷ rows) = (has_block row.0 row.1 rows ≡ false) × AreOnce rows

-- what the rows of all users satisfy: no pair twice, and at most 100 of one user
pub record IsBlockList (rows : BlockRows) : Type 0 where
  pub once : AreOnce rows
  pub few : (user : String) → count_blocks user rows ≤ 100

-- the pair is in the set afterwards exactly if it was added, or was there and is another one
abbrev pub IsUpdated : String → String → Bool → BlockRows → BlockRows → Type 0
IsUpdated user other present before after =
    (a b : String)
    → has_block a b after ≡ (if is_block a b (user, other) then present else has_block a b before)

is_block-same :
    (user other : String) (row : String × String)
    → is_block user other row ≡ true
    → row ≡ (user, other)
is_block-same user other row h =
    let first : row.0 ≡ user = (eq_iff row.0 user).0 (ground arith) in
    let second : row.1 ≡ other = (eq_iff row.1 other).0 (ground arith) in λ i. (first i, second i)

-- the head of a deletion
deleted-has :
    (user other a b : String) (rows : BlockRows)
    → has_block user other rows ≡ false
    → has_block a b rows ≡ (
        if is_block a b (user, other)
        then false
        else (is_block a b (user, other) || has_block a b rows))
deleted-has user other a b rows alone = elim (Bool-cases (is_block a b (user, other))) [
  | inl e ↦
      let same = is_block-same a b (user, other) e in
      rw e (subst (λ (p : String × String). has_block p.0 p.1 rows ≡ false) same alone)
  | inr e ↦ rw e refl
]

removed_head :
    (user other a b : String) (row : String × String) (rows : BlockRows)
    → row ≡ (user, other)
    → has_block row.0 row.1 rows ≡ false
    → has_block a b rows
      ≡ (if is_block a b (user, other) then false else (is_block a b row || has_block a b rows))
removed_head user other a b row rows same alone =
    subst
      (λ (p : String × String).
        has_block a b rows
        ≡ (if is_block a b (user, other) then false else (is_block a b p || has_block a b rows)))
      (sym same)
      (deleted-has user other a b rows
        (subst (λ (p : String × String). has_block p.0 p.1 rows ≡ false) same alone))

delete-has :
    (user other : String) (rows : BlockRows)
    → AreOnce rows
    → IsUpdated user other false rows (delete_block user other rows)
unfolding delete_block
delete-has user other [] once a b = elim (Bool-cases (is_block a b (user, other))) [
  | inl e ↦ rw e refl
  | inr e ↦ rw e refl
]
delete-has user other (row ∷ rows) (alone, once) a b = elim (Bool-cases (is_block user other row)) [
  | inl e ↦ rw e (removed_head user other a b row rows (is_block-same user other row e) alone)
  | inr e ↦ elim (Bool-cases (is_block a b (user, other))) [
    | inl e' ↦
        let no =
          subst (λ (p : String × String). is_block p.0 p.1 row ≡ false)
            (is_block-same a b (user, other) e') e in
        let rest =
          subst
            (λ t.
              has_block a b (delete_block user other rows)
              ≡ (if t then false else has_block a b rows))
            e' (delete-has user other rows once a b) in
        rw (e, e', no) rest
    | inr e' ↦
        let rest =
          subst
            (λ t.
              has_block a b (delete_block user other rows)
              ≡ (if t then false else has_block a b rows))
            e' (delete-has user other rows once a b) in
        rw (e, e', rest) refl
  ]
]

delete-few :
    (user other any_user : String) (rows : BlockRows)
    → count_blocks any_user (delete_block user other rows) ≤ count_blocks any_user rows
unfolding delete_block
delete-few user other any_user [] = omega arith
delete-few user other any_user (row ∷ rows) = ground (arith, delete-few user other any_user rows)

still_alone :
    (user other : String) (row : String × String) (rows : BlockRows)
    → AreOnce rows
    → has_block row.0 row.1 rows ≡ false
    → has_block row.0 row.1 (delete_block user other rows) ≡ false
still_alone user other row rows once alone =
    elim (Bool-cases (is_block row.0 row.1 (user, other))) [
      | inl e ↦
          subst
            (λ t.
              has_block row.0 row.1 (delete_block user other rows)
              ≡ (if t then false else has_block row.0 row.1 rows))
            e (delete-has user other rows once row.0 row.1)
      | inr e ↦
          subst
            (λ t.
              has_block row.0 row.1 (delete_block user other rows)
              ≡ (if t then false else has_block row.0 row.1 rows))
            e (delete-has user other rows once row.0 row.1)
          ∙ alone
    ]

delete-AreOnce :
    (user other : String) (rows : BlockRows) → AreOnce rows → AreOnce (delete_block user other rows)
unfolding delete_block
delete-AreOnce user other [] once = tt
delete-AreOnce user other (row ∷ rows) (alone, once) = elim (Bool-cases (is_block user other row)) [
  | inl e ↦ rw e once
  | inr e ↦ rw e (still_alone user other row rows once alone, delete-AreOnce user other rows once)
]

-- what a successful call leaves
abbrev Updated : BlockRows → String → String → Bool → BlockRows → Type 0
Updated before user other remove after =
    IsBlockList after × IsUpdated user other (not remove) before after

kept-IsUpdated :
    (user other : String) (rows : BlockRows)
    → has_block user other rows ≡ true
    → IsUpdated user other true rows rows
kept-IsUpdated user other rows there a b = elim (Bool-cases (is_block a b (user, other))) [
  | inl e ↦ rw e (
      subst (λ (p : String × String). has_block p.0 p.1 rows ≡ true)
        (is_block-same a b (user, other) e) there)
  | inr e ↦ rw e refl
]

added-IsUpdated :
    (user other : String) (rows : BlockRows) → IsUpdated user other true rows ((user, other) ∷ rows)
added-IsUpdated user other rows a b = elim (Bool-cases (is_block a b (user, other))) [
  | inl e ↦ rw e refl
  | inr e ↦ rw e refl
]

added-few :
    (user other any_user : String) (rows : BlockRows)
    → leb 100 (count_blocks user rows) ≡ false
    → count_blocks any_user rows ≤ 100
    → count_blocks any_user ((user, other) ∷ rows) ≤ 100
added-few user other any_user rows room few = elim (Bool-cases (str_eq user any_user)) [
  | inl e ↦ rw e (
      subst (λ name. suc (count_blocks name rows) ≤ 100) ((eq_iff user any_user).0 e)
        (ground arith))
  | inr e ↦ rw e few
]

add_block-Updated :
    (rows : BlockRows) (user other : String) (exists : Bool)
    → has_block user other rows ≡ false
    → IsBlockList rows
    → Ensures (Updated rows user other false) (add_block rows user other exists)
add_block-Updated rows user other false free list = tt
add_block-Updated rows user other true free list =
    elim (Bool-cases (leb 100 (count_blocks user rows))) [
      | inl e ↦ rw e tt
      | inr e ↦ rw e (
        record {
          once = (free, list.once);
          few = λ any_user. added-few user other any_user rows e (list.few any_user);
        },
        added-IsUpdated user other rows,
      )
    ]

set_block-Updated :
    (rows : BlockRows) (user other : String) (exists : Bool)
    → IsBlockList rows
    → Ensures
        (Updated rows user other false)
        (if has_block user other rows then ok rows else add_block rows user other exists)
set_block-Updated rows user other exists list = elim (Bool-cases (has_block user other rows)) [
  | inl e ↦ rw e (list, kept-IsUpdated user other rows e)
  | inr e ↦ rw e (add_block-Updated rows user other exists e list)
]

block-Updated :
    (rows : BlockRows) (user other : String) (remove active exists : Bool)
    → IsBlockList rows
    → Ensures (Updated rows user other remove) (block rows user other remove active exists)
unfolding block
block-Updated rows user other remove false exists list =
    if-Ensures (Updated rows user other remove) (str_eq user other) _ _ tt tt
block-Updated rows user other true true exists list =
    if-Ensures (Updated rows user other true) (str_eq user other) _ _ tt (
      record {
        once = delete-AreOnce user other rows list.once;
        few = λ any_user. omega (arith, delete-few user other any_user rows, list.few any_user);
      },
      delete-has user other rows list.once,
    )
block-Updated rows user other false true exists list =
    if-Ensures (Updated rows user other false) (str_eq user other) _ _ tt
      (set_block-Updated rows user other exists list)

-- The rows of blocks stand for a set of pairs: a successful call adds the pair to the set or removes it, and changes
-- no other pair; no pair stands twice in the rows, and no user blocks more than 100, if that was so before.
pub block_lem :
    (rows rows' : BlockRows) (user other : String) (remove active exists : Bool)
    → IsBlockList rows
    → block rows user other remove active exists ≡ ok rows'
    → IsBlockList rows' × IsUpdated user other (not remove) rows rows'
block_lem rows rows' user other remove active exists list h =
    of_Ensures (Updated rows user other remove) _
      (block-Updated rows user other remove active exists list) h

both_ways :
    (a b : String) (rows : BlockRows)
    → has_block a b rows ≡ true
    → (blocks_between a b rows ≡ true) × (blocks_between b a rows ≡ true)
both_ways a b [] h = absurd (ground arith)
both_ways a b (row ∷ rows) h = elim (Bool-cases (is_block a b row)) [
  | inl e ↦ (ground arith, ground arith)
  | inr e ↦
      let there = both_ways a b rows (ground arith) in
      (ground (arith, there.0), ground (arith, there.1))
]

-- After a user has blocked another, neither can write to the other directly, whatever they receive.
pub block_stops_dm :
    (rows rows' : BlockRows) (user other : String) (exists receives active : Bool)
    → IsBlockList rows
    → block rows user other false true exists ≡ ok rows'
    → let reach : Reach = record { receives = receives; active = active; blocks = rows' } in
      (can_dm reach user other ≡ false) × (can_dm reach other user ≡ false)
unfolding can_dm
block_stops_dm rows rows' user other exists receives active list h =
    let (after, updated) = block_lem rows rows' user other false true exists list h in
    let own : is_block user other (user, other) ≡ true = rw (eq_refl user, eq_refl other) refl in
    let there : has_block user other rows' ≡ true =
      subst (λ t. has_block user other rows' ≡ (if t then true else has_block user other rows)) own
        (updated user other) in
    let (one, two) = both_ways user other rows' there in (ground (arith, one), ground (arith, two))
