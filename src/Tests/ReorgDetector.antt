-- ===== src/Tests/ReorgDetector.antt =====
-- internal/pipeline/reorgdetector/detector.go on a few blocks, in the order of GetUnfinalized: by
-- ascending number.
use multichain_indexer.Prelude.{
  if◌then◌else◌, ℤ, pos, ◌+ℤ◌, ◌-ℤ◌, ltb_ℤ, leb_ℤ, eqb_ℤ, wrap64, add64, sub64, Text, codes,
  eq_text, ℕ, ◌≡◌, refl, true, Option, none, some, List, [], ◌∷◌,
}
use multichain_indexer.Ingester.Reversal.{IndexedBlock}
use multichain_indexer.ReorgDetector.{
  Detector, find_hash, hash_by_number, breaks_with, first_break, verify_parent_hash_chain,
  parents_differ, verdict_of, rpc_error_alert_threshold, count_verdict, limited, emit_reorg, known,
  stop_at, add_alert, on_verdict, or_break, verify_block, scan, scan_tip, check_limited, check,
}

abbrev block_at : ℕ → Text → IndexedBlock
block_at n hash = record {
  block_number = pos n;
  block_hash = hash;
  parent_hash = [];
  finality_state = codes "pending";
}

abbrev three_blocks : List IndexedBlock
three_blocks = block_at 10 (codes "a") ∷ block_at 11 (codes "b") ∷ block_at 12 (codes "c") ∷ []

abbrev detector : Detector
detector = record {
  max_check_depth = pos 256;
  consecutive_rpc_errs = pos 0;
  has_alerter = true;
  last_verified = [];
}

-- The chain has replaced block 12.
abbrev replaced : ℤ → Option (Text × Text)
replaced n =
    if eqb_ℤ n (pos 10)
    then some (codes "a", [])
    else if eqb_ℤ n (pos 11)
    then some (codes "b", [])
    else some (codes "x", [])

-- The first check finds the replaced block.
first_check :
    (check replaced (some three_blocks) detector).0.2
    ≡ some (emit_reorg (block_at 12 (codes "c")) (codes "x"))
unfolding find_hash hash_by_number breaks_with first_break verify_parent_hash_chain parents_differ
    verdict_of rpc_error_alert_threshold count_verdict limited emit_reorg known stop_at add_alert
    on_verdict or_break verify_block scan scan_tip check_limited check eq_text ltb_ℤ leb_ℤ eqb_ℤ
    add64 sub64 wrap64 ◌+ℤ◌ ◌-ℤ◌
first_check = refl

-- Once the blocks were verified, a replacement of the highest one is not seen: the first of the list
-- is the lowest block, and the others are not asked for again.
later_check :
    (check replaced (some three_blocks) (record detector {
      last_verified = (pos 10, codes "a") ∷ (pos 11, codes "b") ∷ (pos 12, codes "c") ∷ [];
    })).0.2
    ≡ none
unfolding find_hash hash_by_number breaks_with first_break verify_parent_hash_chain parents_differ
    verdict_of rpc_error_alert_threshold count_verdict limited emit_reorg known stop_at add_alert
    on_verdict or_break verify_block scan scan_tip check_limited check eq_text ltb_ℤ leb_ℤ eqb_ℤ
    add64 sub64 wrap64 ◌+ℤ◌ ◌-ℤ◌
later_check = refl
