-- ===== src/Messaging/Answers.antt =====
-- The node that an accepted choice leads to, botTransition of service/messaging/bot.go, is one of a configuration that
-- BotConfig.Validate accepts.
use musecat_backend_core.Prelude.{
  ℕ, ◌≡◌, refl, subst, arith, inl, inr, String, Option, none, some, List, [], ◌∷◌, Bool, true,
  false, ◌&&◌, str_eq, eq_iff, ok, Ensures, if-Ensures, Bool-cases, Option-cases,
}
use musecat_backend_core.Messaging.Rows.{
  Participant, BotState, BotConfig, BotNode, BotChoice, Conversation, Inquiry, Photo,
}
use musecat_backend_core.Messaging.Input.{BotSelection, SendInput, is_empty}
use musecat_backend_core.Messaging.BotConfig.{
  validate, nodes_fit, node_fits, has_id, node_ids, targets_in, all_targets_in,
}
use musecat_backend_core.Messaging.Bot.{
  find_node, chosen, chosen_next, can_restart_bot, select_reply, or_invalid, restart_refused,
  choice_refused,
}
use musecat_backend_core.Prelude.Text.{trim_space}

abbrev pub IsFoundIn : String → List BotNode → Type 0
IsFoundIn id nodes = (n : BotNode) × (find_node id nodes ≡ some n)

&&-eq-true : (a b : Bool) → (a && b) ≡ true → (a ≡ true) × (b ≡ true)
&&-eq-true true b h = (refl, h)
&&-eq-true false b h = absurd (ground arith)

found_of_id :
    (id : String) (nodes : List BotNode) → has_id (node_ids nodes) id ≡ true → IsFoundIn id nodes
found_of_id id [] h = absurd (ground arith)
found_of_id id (n ∷ ns) h = elim (Bool-cases (str_eq n.id id)) [
  | inl e ↦ (n, rw e refl)
  | inr e ↦ let (m, found) = found_of_id id ns (ground arith) in (m, rw e found)
]

chosen-target :
    (ids : List String) (id text : String) (photos : List Photo) (cs : List BotChoice)
    (next : String)
    → targets_in ids cs ≡ true
    → chosen id text photos cs ≡ some next
    → has_id ids next ≡ true
chosen-target ids id text photos [] next t h = absurd (ground arith)
chosen-target ids id text photos (c ∷ cs) next t h =
    let (here, there) = &&-eq-true (has_id ids c.next) (targets_in ids cs) t in
    elim (Bool-cases (str_eq c.id id && str_eq (trim_space c.label) text && is_empty photos)) [
      | inl e ↦ subst (λ x. has_id ids x ≡ true) {x = c.next} (ground arith) here
      | inr e ↦ chosen-target ids id text photos cs next there (ground arith)
    ]

chosen_next-target :
    (ids : List String) (node id text : String) (photos : List Photo) (ns : List BotNode)
    (next : String)
    → all_targets_in ids ns ≡ true
    → chosen_next node id text photos ns ≡ some next
    → has_id ids next ≡ true
chosen_next-target ids node id text photos [] next t h = absurd (ground arith)
chosen_next-target ids node id text photos (n ∷ ns) next t h =
    let (here, there) = &&-eq-true (targets_in ids n.choices) (all_targets_in ids ns) t in
    elim (Bool-cases (str_eq n.id node)) [
      | inl e ↦ elim (Option-cases (chosen id text photos n.choices)) [
        | inl e' ↦ chosen_next-target ids node id text photos ns next there (ground arith)
        | inr (x, e') ↦ chosen-target ids id text photos n.choices next here (ground arith)
      ]
      | inr e ↦ chosen_next-target ids node id text photos ns next there (ground arith)
    ]

restart-found :
    (c : Conversation) (q : Inquiry)
    → can_restart_bot c q ≡ true
    → IsFoundIn q.bot_state.config.start q.bot_state.config.nodes
unfolding can_restart_bot
restart-found c q h =
    elim (Option-cases (find_node q.bot_state.config.start q.bot_state.config.nodes)) [
      | inl e ↦ absurd (ground arith)
      | inr found ↦ found
    ]

validate-targets :
    (size : BotConfig → ℕ) (b : BotConfig)
    → validate size b ≡ ok tt
    → all_targets_in (node_ids b.nodes) b.nodes ≡ true
unfolding validate
validate-targets size b h = ground arith

validate-nodes :
    (size : BotConfig → ℕ) (b : BotConfig) → validate size b ≡ ok tt → nodes_fit [] b.nodes ≡ true
unfolding validate
validate-nodes size b h = ground arith

blank_is_blank : (s : String) → s ≡ "" → str_eq (trim_space s) "" ≡ true
unfolding trim_space
blank_is_blank s h = rw h refl

-- no node of a valid configuration is named ""
found-named :
    (seen : List String) (ns : List BotNode) (id : String) (n : BotNode)
    → nodes_fit seen ns ≡ true
    → find_node id ns ≡ some n
    → str_eq id "" ≡ false
unfolding nodes_fit node_fits
found-named seen [] id n fit h = absurd (ground arith)
found-named seen (m ∷ ns) id n fit h =
    let (here, there) = &&-eq-true (node_fits seen m) (nodes_fit (m.id ∷ seen) ns) fit in
    elim (Bool-cases (str_eq m.id id)) [
      | inl e ↦ elim (Bool-cases (str_eq id "")) [
        | inl empty ↦ absurd (ground (arith, eq_iff m.id id, eq_iff id "", blank_is_blank m.id))
        | inr named ↦ named
      ]
      | inr e ↦ found-named (m.id ∷ seen) ns id n there (ground arith)
    ]

-- what a transition answers: nothing if no choice was made, and otherwise a node of the configuration
abbrev pub IsAnswer : Option BotSelection → BotState × String → Type 0
IsAnswer none answer = str_eq answer.1 "" ≡ true
IsAnswer (some _) answer = IsFoundIn answer.1 answer.0.config.nodes × (str_eq answer.1 "" ≡ false)

named-IsAnswer :
    (size : BotConfig → ℕ) (choice : BotSelection) (answer : BotState × String)
    → validate size answer.0.config ≡ ok tt
    → IsFoundIn answer.1 answer.0.config.nodes
    → IsAnswer (some choice) answer
named-IsAnswer size choice answer valid (n, found) =
    let fit = validate-nodes size answer.0.config valid in
    ((n, found), found-named [] answer.0.config.nodes answer.1 n fit found)

or_invalid-IsAnswer :
    (size : BotConfig → ℕ) (choice : BotSelection) (state : BotState) (found : Option String)
    → validate size state.config ≡ ok tt
    → ((next : String) → found ≡ some next → IsFoundIn next state.config.nodes)
    → Ensures (IsAnswer (some choice)) (or_invalid state found)
or_invalid-IsAnswer size choice state none valid step = tt
or_invalid-IsAnswer size choice state (some next) valid step =
    named-IsAnswer size choice (state, next) valid (step next refl)

-- the node that a transition on a valid configuration answers with
pub select_reply-IsAnswer :
    (size : BotConfig → ℕ) (c : Conversation) (q : Inquiry) (u : Participant) (input : SendInput)
    (choice : Option BotSelection)
    → validate size q.bot_state.config ≡ ok tt
    → Ensures (IsAnswer choice) (select_reply c q u input choice)
select_reply-IsAnswer size c q u input none valid = refl
select_reply-IsAnswer size c q u input (some choice) valid =
    let state = q.bot_state in
    let answers = IsAnswer (some choice) in
    let targets = validate-targets size state.config valid in
    if-Ensures answers (str_eq choice.choice_id "__restart") _ _
      (elim (Bool-cases (restart_refused c q u input choice)) [
        | inl e ↦ rw e tt
        | inr e ↦ rw e (
            named-IsAnswer size choice (state, state.config.start) valid
              (restart-found c q (ground arith)))
      ])
      (if-Ensures answers (choice_refused q u choice) _ _ tt (
        or_invalid-IsAnswer size choice state _ valid (λ next h.
          found_of_id next state.config.nodes (
            chosen_next-target (node_ids state.config.nodes) state.node choice.choice_id input.text
              input.photos state.config.nodes next targets h))))
