-- ===== src/Ingester/Cursors.antt =====
-- internal/pipeline/ingester/ingester.go: the decisions on the two cursors of a batch, the one it
-- starts from and the one it moves to.
use multichain_indexer.Prelude.{
  if◌then◌else◌, ℤ, pos, ltb_ℤ, leb_ℤ, eqb_ℤ, Text, eq_text, trim_space, Bool, true, false, ◌&&◌,
  ◌||◌, not, Option, none, some, List, [], ◌∷◌,
}
use multichain_indexer.Identity.{canonical_signature_identity}
use multichain_indexer.Ingester.{NormalizedTransaction, NormalizedBatch, chain_btc}

unfoldable pub or_trimmed : Text → Text → Text
or_trimmed [] raw = trim_space raw
or_trimmed (c ∷ id) raw = c ∷ id

-- The identity of a cursor, or the trimmed cursor where that is empty.
unfoldable pub cursor_identity : Text → Text → Text
cursor_identity chain raw = or_trimmed (canonical_signature_identity chain raw) raw

unfoldable pub no_transactions : List NormalizedTransaction → Bool
no_transactions [] = true
no_transactions (t ∷ ts) = false

unfoldable pub drift_between : NormalizedBatch → Option Text → Option Text → Bool
drift_between b none new_value = false
drift_between b (some prev) none = false
drift_between b (some prev) (some new_value) =
    if eqb_ℤ b.previous_cursor_sequence (pos 0)
    then false
    else if ltb_ℤ b.new_cursor_sequence b.previous_cursor_sequence
    then true
    else if eqb_ℤ b.new_cursor_sequence b.previous_cursor_sequence
        && not (eq_text (cursor_identity b.chain prev) (cursor_identity b.chain new_value))
    then no_transactions b.transactions
    else false

unfoldable pub is_canonicality_drift : NormalizedBatch → Bool
is_canonicality_drift b = drift_between b b.previous_cursor_value b.new_cursor_value

unfoldable pub anchors_differ : Text → Text → Bool
anchors_differ [] new_cursor = false
anchors_differ (c ∷ prev) [] = false
anchors_differ (c ∷ prev) (d ∷ new_cursor) = not (eq_text (c ∷ prev) (d ∷ new_cursor))

unfoldable pub anchor_between : NormalizedBatch → Option Text → Option Text → Bool
anchor_between b none new_value = false
anchor_between b (some prev) none = false
anchor_between b (some prev) (some new_value) =
    if not (eqb_ℤ b.previous_cursor_sequence b.new_cursor_sequence)
      || leb_ℤ b.new_cursor_sequence (pos 0)
    then false
    else if not (no_transactions b.transactions)
    then false
    else anchors_differ (cursor_identity b.chain prev) (cursor_identity b.chain new_value)

unfoldable pub is_btc_restart_anchor_replay : NormalizedBatch → Bool
is_btc_restart_anchor_replay b =
    if not (eq_text b.chain chain_btc)
    then false
    else anchor_between b b.previous_cursor_value b.new_cursor_value

-- The loop of rollbackBTCEarliestCompetingSequence: the least block above zero, or zero.
unfoldable pub earliest_from : ℤ → List NormalizedTransaction → ℤ
earliest_from earliest [] = earliest
earliest_from earliest (t ∷ ts) =
    earliest_from
      (if leb_ℤ t.block_cursor (pos 0)
        then earliest
        else if eqb_ℤ earliest (pos 0) || ltb_ℤ t.block_cursor earliest
        then t.block_cursor
        else earliest)
      ts

unfoldable pub rollback_btc_earliest_competing_sequence : NormalizedBatch → Option ℤ
rollback_btc_earliest_competing_sequence b =
    let earliest = earliest_from (pos 0) b.transactions in
    if not (eq_text b.chain chain_btc) || no_transactions b.transactions
    then none
    else if eqb_ℤ earliest (pos 0) || leb_ℤ b.new_cursor_sequence earliest
    then none
    else some earliest

unfoldable pub or_sequence : Option ℤ → ℤ → ℤ
or_sequence none new_sequence = new_sequence
or_sequence (some btc_floor) new_sequence = btc_floor

unfoldable pub rollback_fork_cursor_sequence : NormalizedBatch → ℤ
rollback_fork_cursor_sequence b =
    if ltb_ℤ b.new_cursor_sequence b.previous_cursor_sequence
    then or_sequence (rollback_btc_earliest_competing_sequence b) b.new_cursor_sequence
    else b.previous_cursor_sequence

unfoldable pub with_rollback_fork_cursor : NormalizedBatch → NormalizedBatch
with_rollback_fork_cursor b = record b {
  previous_cursor_sequence = rollback_fork_cursor_sequence b;
}

unfoldable pub should_continue_competing_branch_replay : NormalizedBatch → Bool
should_continue_competing_branch_replay b =
    eq_text b.chain chain_btc && not (no_transactions b.transactions)

unfoldable pub cursors_differ : Option Text → Option Text → Bool
cursors_differ none none = false
cursors_differ none (some n) = true
cursors_differ (some p) none = true
cursors_differ (some p) (some n) = not (eq_text p n)

unfoldable pub should_advance_commit_checkpoint : NormalizedBatch → Bool
should_advance_commit_checkpoint b =
    if not (no_transactions b.transactions)
    then true
    else if not (eqb_ℤ b.new_cursor_sequence b.previous_cursor_sequence)
    then true
    else cursors_differ b.previous_cursor_value b.new_cursor_value
