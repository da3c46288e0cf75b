-- ===== src/Tests/Ingester.antt =====
-- internal/pipeline/ingester/ingester.go on small tables and batches.
use multichain_indexer.Prelude.{
  ◌==◌, if◌then◌else◌, All, length, ℤ, pos, negsuc, ◌+ℤ◌, ◌-ℤ◌, ◌≤ℤ◌, ltb_ℤ, leb_ℤ, wrap64, sub64,
  Text, codes, eq_text, trim_space, is_digit, digits_from, parse_digits, ℕ, ◌≤◌, ◌≡◌, refl, Bool,
  true, false, none, some, List, [], ◌∷◌, ◌++◌, map, arith,
}
use multichain_indexer.Prelude.Decimal.{
  some_pos, some_neg, parse_big, digits_of, print_digits, print_big,
}
use multichain_indexer.Identity.{negate_parsed, negate_decimal_string, is_staking_activity}
use multichain_indexer.Store.{
  same_key, BalanceRow, InputRow, cast_one, cast_all, max_ℤ, joined, has_row, insert_row,
  insert_rows, without_row, update_by, update_rows, adjust_cast, bulk_adjust_balance,
  rewind_watermark, EventRow,
}
use multichain_indexer.Store.Sums.{
  at_key, amount_at, liquid_key, event_at, applied_at, DistinctRows, has_input, DistinctInput,
}
use multichain_indexer.Store.Adjust.{+ℤ_zero}
use multichain_indexer.Ingester.{NormalizedTransaction, NormalizedBatch}
use multichain_indexer.Ingester.Cursors.{rollback_fork_cursor_sequence, with_rollback_fork_cursor}
use multichain_indexer.Ingester.Forks.{NotAfter, rollback_fork_cursor_sequence_lem}
use multichain_indexer.Ingester.Items.{
  select_events, reorg_rolls_back, adjust_item, reversal_of, build_reversal_adjust_items, finalizes,
  finalize_events, newly_applied,
}
use multichain_indexer.Ingester.Reorg.{handle_reorg}
use multichain_indexer.Ingester.Reversal.{
  Tables, Works, rewind_to, keep_transactions, keep_blocks, guard, settle, adjust_balances,
  revert_events, rewind, reorg_steps, handle_finality_promotion,
}
use multichain_indexer.Ingester.Inputs.{reversal_input}
use multichain_indexer.Ingester.Balanced.{Sound, all_work, Settled}
use multichain_indexer.Ingester.Rollbacks.{Reverted, Cleared, handle_reorg-Sound}
use multichain_indexer.Ingester.Promoted.{Promoted, BlocksFinal}
use multichain_indexer.Ingester.Promotions.{promotion_input, handle_finality_promotion-Sound}
use multichain_indexer.Ingester.Retries.{
  succeeds, fails_transient, returned_nil, effective_retry_max_attempts, after_attempt, retry_from,
  process_batch_with_retry, RunsFrom, process_batch_with_retry-RunsFrom,
}
use multichain_indexer.Ingester.Delays.{quarter, retry_delay, retry_delay-bounds}
use multichain_indexer.Ingester.Amounts.{digits_part, add_decimal_strings}
use multichain_indexer.Ingester.Sums.{InNumeric, add_decimal_strings_lem}

abbrev event_of : Text → ℕ → ℤ → Bool → EventRow
event_of address block delta applied = record {
  token_id = 1;
  address = address;
  watched_address = address;
  delta = delta;
  block_cursor = pos block;
  tx_hash = codes "t";
  wallet_id = none;
  organization_id = none;
  activity_type = codes "DEPOSIT";
  balance_applied = applied;
  finality_state = codes "confirmed";
}

abbrev row_of : Text → ℤ → BalanceRow
row_of address amount = record {
  key = record { address = address; token_id = 1; balance_type = [] };
  wallet_id = none;
  organization_id = none;
  amount = amount;
  last_updated_cursor = pos 7;
  last_updated_tx_hash = codes "t";
}

abbrev first_of : InputRow → List InputRow → InputRow
first_of i is = i

abbrev tx_at : ℤ → NormalizedTransaction
tx_at block = record {
  tx_hash = codes "t";
  block_cursor = block;
  block_time = none;
  fee_amount = [];
  fee_payer = [];
  status = codes "SUCCESS";
  err = none;
  chain_data = none;
  block_hash = [];
  parent_hash = [];
  balance_events = [];
}

abbrev two_events : Tables
two_events = record {
  events = event_of (codes "a") 5 (pos 30) true ∷ event_of (codes "b") 7 (pos 20) true ∷ [];
  balances = row_of (codes "a") (pos 30) ∷ row_of (codes "b") (pos 20) ∷ [];
  transactions = record { tx_hash = codes "t"; block_cursor = pos 7 } ∷ [];
  blocks = [];
  watermark = some (pos 7);
}

two_events-Sound : Sound two_events
unfolding Sound DistinctRows has_row same_key eq_text amount_at applied_at event_at
    is_staking_activity
two_events-Sound = (
  (refl, (refl, tt)),
  λ k. simp (
    +ℤ_zero (at_key k (liquid_key (event_of (codes "a") 5 (pos 30) true)) (pos 30)),
    +ℤ_zero (at_key k (liquid_key (event_of (codes "b") 7 (pos 20) true)) (pos 20)),
  ),
)

handle_reorg-Sound_example :
    (u : Tables) × Reverted (reorg_rolls_back (pos 6)) (pos 6) two_events u
    × Cleared true (pos 6) u
    × ((w : Works)
        → Settled w.commit two_events u (handle_reorg first_of true true w (pos 6) two_events))
    × (handle_reorg first_of true true all_work (pos 6) two_events ≡ (u, true))
unfolding reversal_input select_events reorg_rolls_back is_staking_activity leb_ℤ eq_text
    DistinctInput has_input ◌-ℤ◌
handle_reorg-Sound_example =
    handle_reorg-Sound first_of (λ i. refl) true true (pos 6) two_events two_events-Sound (refl, tt)
      (ground arith)

-- Two events of one balance: the UPDATE takes one of the two joined rows, and 20 is left of 50
-- although both events are gone.
abbrev twice_adjusted : Tables
twice_adjusted = record {
  events = event_of (codes "a") 6 (pos 30) true ∷ event_of (codes "a") 7 (pos 20) true ∷ [];
  balances = row_of (codes "a") (pos 50) ∷ [];
  transactions = [];
  blocks = [];
  watermark = some (pos 7);
}

reorg_of_two_events :
    map
      (λ (b : BalanceRow). b.amount)
      (handle_reorg first_of false true all_work (pos 6) twice_adjusted).0.balances
    ≡ pos 20 ∷ []
unfolding handle_reorg reorg_steps revert_events settle guard select_events reorg_rolls_back leb_ℤ
    build_reversal_adjust_items negate_decimal_string negate_parsed parse_big print_big print_digits
    digits_of parse_digits reversal_of adjust_balances bulk_adjust_balance is_staking_activity
    adjust_item keep_blocks keep_transactions rewind rewind_to some_neg some_pos ltb_ℤ sub64 wrap64
    ◌+ℤ◌ ◌-ℤ◌ digits_from eq_text is_digit adjust_cast cast_all cast_one has_row insert_row
    insert_rows joined max_ℤ rewind_watermark same_key update_by update_rows without_row all_work
reorg_of_two_events = refl

abbrev drift_batch : NormalizedBatch
drift_batch = record {
  chain = codes "btc";
  network = codes "testnet";
  address = codes "b";
  wallet_id = none;
  org_id = none;
  previous_cursor_value = some (codes "old");
  previous_cursor_sequence = pos 9;
  transactions = tx_at (pos 7) ∷ tx_at (pos 6) ∷ [];
  new_cursor_value = some (codes "new");
  new_cursor_sequence = pos 8;
  block_scan_mode = false;
  watched_addresses = [];
}

rollback_fork_cursor_sequence_lem_example :
    let fork = rollback_fork_cursor_sequence drift_batch in
    (fork ≤ℤ pos 8)
    × (rollback_fork_cursor_sequence (with_rollback_fork_cursor drift_batch) ≡ fork)
    × All (NotAfter fork) drift_batch.transactions
unfolding eq_text ltb_ℤ
rollback_fork_cursor_sequence_lem_example = rollback_fork_cursor_sequence_lem drift_batch refl refl

abbrev one_pending : Tables
one_pending = record two_events {
  events = two_events.events ++ event_of (codes "c") 8 (pos 5) false ∷ [];
}

one_pending-Sound : Sound one_pending
unfolding Sound DistinctRows has_row amount_at applied_at event_at is_staking_activity eq_text
    same_key at_key ◌+ℤ◌
one_pending-Sound = two_events-Sound

handle_finality_promotion-Sound_example :
    (u : Tables) × Sound u
    × All (Promoted (pos 8)) u.events
    × BlocksFinal true (pos 8) u.blocks
    × ((w : Works)
        → Settled w.commit one_pending u
            (handle_finality_promotion first_of true w (pos 8) one_pending))
    × (handle_finality_promotion first_of true all_work (pos 8) one_pending ≡ (u, true))
    × (handle_finality_promotion first_of true all_work (pos 8) u ≡ (u, true))
unfolding promotion_input DistinctInput select_events finalize_events newly_applied leb_ℤ finalizes
    eq_text has_input is_staking_activity
handle_finality_promotion-Sound_example =
    handle_finality_promotion-Sound first_of (λ i. refl) true (pos 8) one_pending one_pending-Sound
      (refl, tt)

process_batch_with_retry-RunsFrom_example :
    RunsFrom (λ n. if n == 3 then succeeds else fails_transient) (λ n. true) 1 5 (returned_nil, 3)
unfolding process_batch_with_retry retry_from after_attempt effective_retry_max_attempts
process_batch_with_retry-RunsFrom_example =
    process_batch_with_retry-RunsFrom (λ n. if n == 3 then succeeds else fails_transient)
      (λ n. true) (pos 5)

retry_delay-bounds_example :
    (delay : ℤ) × (retry_delay (λ n. pos 0) (pos 100) (pos 1000) 3 ≡ some delay)
    × (pos 4 ≤ℤ delay)
    × (delay ≤ℤ pos 1000 +ℤ quarter (pos 1000))
retry_delay-bounds_example =
    retry_delay-bounds (λ n. pos 0) (λ n h. (omega arith, h)) (pos 100) (pos 1000) 3 (omega arith)
      (omega arith) (omega arith) (omega arith)

add_decimal_strings_lem_example :
    (InNumeric (pos 7 +ℤ negsuc 9)
      → (c : Text) × (add_decimal_strings (codes " 7") (codes "-10") ≡ some c)
        × (parse_big c ≡ some (pos 7 +ℤ negsuc 9))
        × (length (digits_part c) ≤ 78))
    × (¬ InNumeric (pos 7 +ℤ negsuc 9) → add_decimal_strings (codes " 7") (codes "-10") ≡ none)
unfolding parse_big trim_space parse_digits
add_decimal_strings_lem_example =
    add_decimal_strings_lem (codes " 7") (codes "-10") (pos 7) (negsuc 9) refl refl
