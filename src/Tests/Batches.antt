-- ===== src/Tests/Batches.antt =====
-- internal/pipeline/ingester/ingester.go on one batch, from its events to its commit.
use multichain_indexer.Prelude.{
  pos, negsuc, ◌+ℤ◌, ltb_ℤ, leb_ℤ, eqb_ℤ, codes, eq_text, to_lower, trim_space, strip_prefix?,
  is_digit, digits_from, parse_digits, ◌≡◌, refl, ◌⊎◌, true, false, Option, none, some, [], ◌∷◌,
  map,
}
use multichain_indexer.Prelude.Decimal.{
  some_pos, some_neg, parse_big, digits_of, print_digits, print_big,
}
use multichain_indexer.Identity.{
  is_evm_chain, is_hex_digit, is_hex_string, trim_to, trim_prefix, has_prefix, without_0x,
  canonical_evm, canonical_signature_identity, non_empty, canonicalize_cursor_value, negate_parsed,
  negate_decimal_string, is_staking_activity,
}
use multichain_indexer.Store.{same_key}
use multichain_indexer.Ingester.{NormalizedBalanceEvent, NormalizedTransaction, NormalizedBatch}
use multichain_indexer.Ingester.Cursors.{
  or_trimmed, cursor_identity, no_transactions, drift_between, is_canonicality_drift,
  anchors_differ, anchor_between, is_btc_restart_anchor_replay, earliest_from, or_sequence,
  rollback_fork_cursor_sequence, with_rollback_fork_cursor, should_continue_competing_branch_replay,
  cursors_differ, should_advance_commit_checkpoint,
}
use multichain_indexer.Ingester.Amounts.{
  digits_part, checked, add_parsed, add_decimal_strings, finality_state_rank, is_nonzero,
  meets_balance_threshold, looks_negative, or_signal, metadata_signal, detect_scam_signal, or_text,
  default_token_symbol, default_token_name,
}
use multichain_indexer.Ingester.Collect.{
  or_empty_object, has_tx, has_token, has_text, add_token, add_contract, add_event,
  transaction_model, token_model, native_token_model, collect_balance_events, no_events,
  pays_fee_only, is_fee, collect_fee, add_transaction, canonical_tx_hash_of, collect_transactions,
  collect_events,
}
use multichain_indexer.Ingester.Build.{
  Prefetched, AdjustmentKey, AdjustmentAccum, Building, deref_str, find_balance, set_balance,
  same_adjustment, merge_accum, add_delta, candidate_of, first_candidate, owner_of, event_model,
  adjustment_key, accum_of, adjusted, with_stake, with_model, with_balance, apply_model, add_model,
  judged, identified, build_event, build_event_models,
}
use multichain_indexer.Ingester.Conserved.{
  aggregated_at, models_at, Conserved, build_event_models-Conserved,
}
use multichain_indexer.Ingester.Write.{
  commit_ambiguous, Answers, committed, str_ptr_or_nil, adjust_items, first_finality, has_block,
  blocks_of, reached, commit_ending, send, is_nil, write_bulk_and_commit, write_built,
  ingest_prefetched, ingest_batch, after_rollback, settle_batch, with_canonical_cursors,
  is_committed, process_batch,
}
use multichain_indexer.Ingester.Commits.{Written, RolledBack, process_batch-committed}

abbrev stake : NormalizedBalanceEvent
stake = record {
  outer_instruction_index = pos 0;
  inner_instruction_index = pos 0;
  activity_type = codes "STAKE";
  event_action = codes "delegate";
  program_id = [];
  contract_address = codes "native";
  address = codes "a";
  counterparty_address = [];
  delta = codes "-5";
  chain_data = none;
  token_symbol = [];
  token_name = [];
  token_decimals = pos 9;
  token_type = codes "NATIVE";
  event_id = codes "e";
  block_hash = codes "h";
  tx_index = pos 0;
  event_path = [];
  event_path_type = [];
  actor_address = [];
  asset_type = [];
  asset_id = [];
  finality_state = [];
  decoder_version = [];
  schema_version = [];
}

abbrev stakes : NormalizedTransaction
stakes = record {
  tx_hash = codes "t";
  block_cursor = pos 8;
  block_time = none;
  fee_amount = [];
  fee_payer = [];
  status = codes "SUCCESS";
  err = none;
  chain_data = none;
  block_hash = codes "h";
  parent_hash = codes "g";
  balance_events = stake ∷ [];
}

abbrev batch : NormalizedBatch
batch = record {
  chain = codes "solana";
  network = codes "devnet";
  address = codes "a";
  wallet_id = none;
  org_id = none;
  previous_cursor_value = some (codes "s");
  previous_cursor_sequence = pos 7;
  transactions = stakes ∷ [];
  new_cursor_value = some (codes "t");
  new_cursor_sequence = pos 8;
  block_scan_mode = false;
  watched_addresses = [];
}

abbrev fetched : Prefetched
fetched = record {
  batch = batch;
  tx_ids = λ h. some 1;
  token_ids = λ c. some 1;
  lookup = λ a. none;
  json_signal = λ t. [];
  deny_works = true;
}

abbrev nothing_yet : Building
nothing_yet = record { balances = []; denied = []; event_models = []; aggregated_deltas = [] }

abbrev or_nothing : Option Building → Building
or_nothing none = nothing_yet
or_nothing (some s) = s

abbrev built : Option Building
built = build_event_models fetched (collect_events batch).all_events nothing_yet

build_event_models-Conserved_example : Conserved (or_nothing built)
unfolding Conserved aggregated_at models_at or_empty_object has_tx has_token has_text add_token
    add_contract add_event transaction_model token_model native_token_model collect_balance_events
    no_events pays_fee_only is_fee collect_fee add_transaction canonical_tx_hash_of
    collect_transactions collect_events deref_str find_balance set_balance same_adjustment
    merge_accum add_delta candidate_of first_candidate owner_of event_model adjustment_key accum_of
    adjusted with_stake with_model with_balance apply_model add_model judged identified build_event
    build_event_models digits_part checked add_parsed add_decimal_strings finality_state_rank
    is_nonzero meets_balance_threshold looks_negative or_signal metadata_signal detect_scam_signal
    or_text default_token_symbol default_token_name is_evm_chain is_hex_digit is_hex_string trim_to
    trim_prefix has_prefix without_0x canonical_evm canonical_signature_identity non_empty
    canonicalize_cursor_value negate_parsed negate_decimal_string is_staking_activity some_pos
    some_neg parse_big digits_of print_digits print_big same_key eq_text trim_space strip_prefix?
    to_lower parse_digits digits_from is_digit ◌+ℤ◌ ltb_ℤ leb_ℤ eqb_ℤ
build_event_models-Conserved_example =
    build_event_models-Conserved fetched (collect_events batch).all_events nothing_yet
      (or_nothing built) (λ k. refl) refl

-- Staking moves 5 from the balance to the staked balance.
staked_deltas :
    map (λ (d : AdjustmentKey × AdjustmentAccum). d.1.delta) (or_nothing built).aggregated_deltas
    ≡ negsuc 4 ∷ pos 5 ∷ []
unfolding or_empty_object has_tx has_token has_text add_token add_contract add_event
    transaction_model token_model native_token_model collect_balance_events no_events pays_fee_only
    is_fee collect_fee add_transaction canonical_tx_hash_of collect_transactions collect_events
    deref_str find_balance set_balance same_adjustment merge_accum add_delta candidate_of
    first_candidate owner_of event_model adjustment_key accum_of adjusted with_stake with_model
    with_balance apply_model add_model judged identified build_event build_event_models digits_part
    checked add_parsed add_decimal_strings finality_state_rank is_nonzero meets_balance_threshold
    looks_negative or_signal metadata_signal detect_scam_signal or_text default_token_symbol
    default_token_name is_evm_chain is_hex_digit is_hex_string trim_to trim_prefix has_prefix
    without_0x canonical_evm canonical_signature_identity non_empty canonicalize_cursor_value
    negate_parsed negate_decimal_string is_staking_activity some_pos some_neg parse_big digits_of
    print_digits print_big same_key eq_text trim_space strip_prefix? to_lower parse_digits
    digits_from is_digit ◌+ℤ◌ ltb_ℤ leb_ℤ eqb_ℤ
staked_deltas = refl

abbrev unsure : Answers
unsure = record {
  acquired = true;
  begun = true;
  rollback_works = true;
  rollback_commit = true;
  address_map = true;
  prefetched = some fetched;
  start = nothing_yet;
  events_work = true;
  adjust_works = true;
  has_block_repo = true;
  blocks_work = true;
  watermark_works = true;
  commit = commit_ambiguous;
  probe = some (some (pos 8));
}

process_batch-committed_example :
    let b = with_canonical_cursors batch in
    let r = process_batch batch unsure in
    (RolledBack b unsure (r.0, committed) ⊎ Written b unsure (r.0, committed))
    × (r.2 ≡ some (should_advance_commit_checkpoint b))
unfolding or_empty_object has_tx has_token has_text add_token add_contract add_event
    transaction_model token_model native_token_model collect_balance_events no_events pays_fee_only
    is_fee collect_fee add_transaction canonical_tx_hash_of collect_transactions collect_events
    deref_str find_balance set_balance same_adjustment merge_accum add_delta candidate_of
    first_candidate owner_of event_model adjustment_key accum_of adjusted with_stake with_model
    with_balance apply_model add_model judged identified build_event build_event_models digits_part
    checked add_parsed add_decimal_strings finality_state_rank is_nonzero meets_balance_threshold
    looks_negative or_signal metadata_signal detect_scam_signal or_text default_token_symbol
    default_token_name is_evm_chain is_hex_digit is_hex_string trim_to trim_prefix has_prefix
    without_0x canonical_evm canonical_signature_identity non_empty canonicalize_cursor_value
    negate_parsed negate_decimal_string is_staking_activity some_pos some_neg parse_big digits_of
    print_digits print_big same_key eq_text trim_space strip_prefix? to_lower parse_digits
    digits_from is_digit ◌+ℤ◌ ltb_ℤ leb_ℤ eqb_ℤ str_ptr_or_nil adjust_items first_finality has_block
    blocks_of reached commit_ending send is_nil write_bulk_and_commit write_built ingest_prefetched
    ingest_batch after_rollback settle_batch with_canonical_cursors is_committed process_batch
    or_trimmed cursor_identity no_transactions drift_between is_canonicality_drift anchors_differ
    anchor_between is_btc_restart_anchor_replay earliest_from or_sequence
    rollback_fork_cursor_sequence with_rollback_fork_cursor should_continue_competing_branch_replay
    cursors_differ should_advance_commit_checkpoint
process_batch-committed_example = process_batch-committed batch unsure refl
