-- ===== src/Messaging/BotConfig.antt =====
-- The configuration of automatic replies: BotConfig.Validate of service/messaging/bot.go.
use musecat_backend_core.Prelude.{
  ℕ, String, List, [], ◌∷◌, Bool, true, not, ◌&&◌, ◌||◌, any, ltb, if◌then◌else◌, str_eq, Result,
  ok, err, length,
}
use musecat_backend_core.Prelude.Text.{trim_space}
use musecat_backend_core.Prelude.Text.Measure.{rune_count, byte_count}
use musecat_backend_core.Messaging.Rows.{BotChoice, BotNode, BotConfig, ChatError, bad_request}

abbrev is_blank : String → Bool
is_blank s = str_eq (trim_space s) ""

abbrev pub has_id : List String → String → Bool
has_id ids id = any (λ other. str_eq other id) ids

-- the inner loop of Validate, with the identifiers seen before
pub choices_fit : List String → List BotChoice → Bool
choices_fit seen [] = true
choices_fit seen (c ∷ cs) =
    not (
      str_eq c.id "__restart"
      || str_eq c.id ""
      || ltb 64 (byte_count c.id)
      || has_id seen c.id
      || is_blank c.label
      || ltb 80 (rune_count c.label))
    && choices_fit (c.id ∷ seen) cs

-- the test on one node, with the identifiers seen before
unfoldable pub node_fits : List String → BotNode → Bool
unfolding choices_fit
node_fits seen n =
    not (
      is_blank n.id
      || ltb 64 (byte_count n.id)
      || has_id seen n.id
      || is_blank n.text
      || ltb 2000 (rune_count n.text)
      || ltb 6 (length n.choices))
    && choices_fit [] n.choices

unfoldable pub nodes_fit : List String → List BotNode → Bool
nodes_fit seen [] = true
nodes_fit seen (n ∷ ns) = node_fits seen n && nodes_fit (n.id ∷ seen) ns

abbrev pub node_ids : List BotNode → List String
node_ids [] = []
node_ids (n ∷ ns) = n.id ∷ node_ids ns

abbrev pub targets_in : List String → List BotChoice → Bool
targets_in ids [] = true
targets_in ids (c ∷ cs) = has_id ids c.next && targets_in ids cs

abbrev pub all_targets_in : List String → List BotNode → Bool
all_targets_in ids [] = true
all_targets_in ids (n ∷ ns) = targets_in ids n.choices && all_targets_in ids ns

-- BotConfig.Validate, where `encoded_size` is the length of the JSON encoding
unfoldable pub validate : (BotConfig → ℕ) → BotConfig → Result ChatError Unit
unfolding nodes_fit node_fits choices_fit
validate encoded_size b =
    if ltb 60000 (encoded_size b)
    then err bad_request
    else if ltb 16 (length b.nodes)
    then err bad_request
    else if not (nodes_fit [] b.nodes)
    then err bad_request
    else if b.enabled && not (has_id (node_ids b.nodes) b.start)
    then err bad_request
    else if not (all_targets_in (node_ids b.nodes) b.nodes)
    then err bad_request
    else ok tt
