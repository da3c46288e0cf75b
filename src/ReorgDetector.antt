-- ===== src/ReorgDetector.antt =====
-- internal/pipeline/reorgdetector/detector.go: a check of the blocks that are not yet final against
-- the chain. What the chain answers for a block number, its hash and parent hash or an error, is a
-- function; the map lastVerified is a list of pairs.
use multichain_indexer.Prelude.{
  if◌then◌else◌, length, take, ℤ, pos, pos_part, ltb_ℤ, leb_ℤ, eqb_ℤ, add64, sub64, Text, eq_text,
  ℕ, suc, Bool, true, false, ◌&&◌, ◌||◌, not, Option, none, some, List, [], ◌∷◌,
}
use multichain_indexer.Ingester.Reversal.{IndexedBlock}
pub mod Chain
pub mod Evidence

pub record Detector : Type 0 where
  pub max_check_depth : ℤ
  pub consecutive_rpc_errs : ℤ
  pub has_alerter : Bool
  pub last_verified : List (ℤ × Text)

-- model.ReorgEvent, less the chain, the network and the time
pub record ReorgEvent : Type 0 where
  pub fork_block_number : ℤ
  pub expected_hash : Text
  pub actual_hash : Text

-- How a block compares: an error, or the hash on the chain with a match or without.
pub data Verdict : Type 0 where
  rpc_error : Verdict
  agrees differs : Text → Verdict

unfoldable pub with_max_check_depth : Detector → ℤ → Detector
with_max_check_depth d depth =
    if ltb_ℤ (pos 0) depth then record d { max_check_depth = depth } else d

unfoldable pub find_hash : ℤ → List (ℤ × Text) → Option Text
find_hash n [] = none
find_hash n ((m, h) ∷ hs) = let rest = find_hash n hs in if eqb_ℤ n m then some h else rest

unfoldable pub hash_by_number : List IndexedBlock → List (ℤ × Text)
hash_by_number [] = []
hash_by_number (b ∷ bs) = (b.block_number, b.block_hash) ∷ hash_by_number bs

unfoldable pub breaks_with : IndexedBlock → Option Text → Bool
breaks_with b none = false
breaks_with b (some parent_block_hash) =
    not (eq_text b.parent_hash []) && not (eq_text b.parent_hash parent_block_hash)

unfoldable pub first_break : List (ℤ × Text) → List IndexedBlock → Option IndexedBlock
first_break hashes [] = none
first_break hashes (b ∷ bs) =
    let rest = first_break hashes bs in
    if breaks_with b (find_hash (sub64 b.block_number (pos 1)) hashes) then some b else rest

unfoldable pub verify_parent_hash_chain : List IndexedBlock → Option IndexedBlock
verify_parent_hash_chain [] = none
verify_parent_hash_chain (b ∷ []) = none
verify_parent_hash_chain (a ∷ b ∷ bs) = first_break (hash_by_number (a ∷ b ∷ bs)) (a ∷ b ∷ bs)

unfoldable pub parents_differ : Text → Text → Bool
parents_differ indexed onchain =
    not (eq_text indexed []) && not (eq_text onchain []) && not (eq_text indexed onchain)

unfoldable pub verdict_of : IndexedBlock → Option (Text × Text) → Verdict
verdict_of b none = rpc_error
verdict_of b (some (onchain_hash, onchain_parent_hash)) =
    if not (eq_text onchain_hash b.block_hash) || parents_differ b.parent_hash onchain_parent_hash
    then differs onchain_hash
    else agrees onchain_hash

unfoldable pub rpc_error_alert_threshold : ℤ
rpc_error_alert_threshold = pos 5

-- The count of errors in a row after a verdict, and whether an alert is sent.
unfoldable pub count_verdict : Detector → Verdict → Detector × Bool
count_verdict d rpc_error =
    let errs = add64 d.consecutive_rpc_errs (pos 1) in
    (
      record d { consecutive_rpc_errs = errs },
      leb_ℤ rpc_error_alert_threshold errs && d.has_alerter,
    )
count_verdict d (agrees h) = (record d { consecutive_rpc_errs = pos 0 }, false)
count_verdict d (differs h) = (record d { consecutive_rpc_errs = pos 0 }, false)

-- The blocks by number, the highest first
unfoldable pub insert_desc : IndexedBlock → List IndexedBlock → List IndexedBlock
insert_desc b [] = b ∷ []
insert_desc b (c ∷ cs) =
    let rest = insert_desc b cs in
    if ltb_ℤ b.block_number c.block_number then c ∷ rest else b ∷ c ∷ cs

unfoldable pub sort_desc : List IndexedBlock → List IndexedBlock
sort_desc [] = []
sort_desc (b ∷ bs) = insert_desc b (sort_desc bs)

unfoldable pub limited : Detector → List IndexedBlock → List IndexedBlock
limited d blocks =
    if ltb_ℤ d.max_check_depth (pos (length blocks))
    then take (pos_part d.max_check_depth) (sort_desc blocks)
    else blocks

unfoldable pub emit_reorg : IndexedBlock → Text → ReorgEvent
emit_reorg b actual_hash = record {
  fork_block_number = b.block_number;
  expected_hash = b.block_hash;
  actual_hash = actual_hash;
}

unfoldable pub known : Option Text → Text → Bool
known none hash = false
known (some prev_hash) hash = eq_text prev_hash hash

-- What a step leaves: the detector, the alerts, and a reorg if there is one.
unfoldable pub stop_at : IndexedBlock → Text → Detector → ℕ → Detector × ℕ × Option ReorgEvent
stop_at b h d alerts = (record d { last_verified = [] }, alerts, some (emit_reorg b h))

unfoldable pub add_alert : Bool → ℕ → ℕ
add_alert true n = suc n
add_alert false n = n

unfoldable pub on_verdict {ℓ} : {A : Type ℓ} → Verdict → A → (Text → A) → (Text → A) → A
on_verdict rpc_error x f g = x
on_verdict (agrees h) x f g = f h
on_verdict (differs h) x f g = g h

unfoldable pub or_break :
    Option IndexedBlock
    → Detector
    → Detector × ℕ × Option ReorgEvent
    → Detector × ℕ × Option ReorgEvent
or_break none d rest = rest
or_break (some broken) d rest = stop_at broken broken.block_hash d 0

module _ (get_block_hash : ℤ → Option (Text × Text)) where
  unfoldable pub verify_block : IndexedBlock → Verdict
  verify_block b = verdict_of b (get_block_hash b.block_number)

  -- The blocks after the first, with what is verified so far. A block that was verified in the
  -- last check under the same hash is not asked for again.
  unfoldable pub scan :
      List IndexedBlock → List (ℤ × Text) → Detector → ℕ → Detector × ℕ × Option ReorgEvent
  scan [] verified d alerts = (record d { last_verified = verified }, alerts, none)
  scan (b ∷ bs) verified d alerts =
      if known (find_hash b.block_number d.last_verified) b.block_hash
      then scan bs ((b.block_number, b.block_hash) ∷ verified) d alerts
      else on_verdict (verify_block b)
          (scan bs verified (count_verdict d rpc_error).0
            (add_alert (count_verdict d rpc_error).1 alerts))
          (λ h. scan bs ((b.block_number, h) ∷ verified) (count_verdict d (agrees h)).0 alerts)
          (λ h. stop_at b h (count_verdict d (differs h)).0 alerts)

  -- The block that the source calls the tip: the first of the list
  unfoldable pub scan_tip :
      Verdict → IndexedBlock → List IndexedBlock → Detector → Detector × ℕ × Option ReorgEvent
  scan_tip rpc_error b bs d =
      scan bs [] (count_verdict d rpc_error).0 (add_alert (count_verdict d rpc_error).1 0)
  scan_tip (agrees h) b bs d = scan bs ((b.block_number, h) ∷ []) (count_verdict d (agrees h)).0 0
  scan_tip (differs h) b bs d = stop_at b h (count_verdict d (differs h)).0 0

  unfoldable pub check_limited : List IndexedBlock → Detector → Detector × ℕ × Option ReorgEvent
  check_limited [] d = (record d { last_verified = [] }, 0, none)
  check_limited (b ∷ bs) d =
      or_break (verify_parent_hash_chain (b ∷ bs)) d (scan_tip (verify_block b) b bs d)

  -- The detector, the number of alerts, the event sent, and whether there was no error
  unfoldable pub check :
      Option (List IndexedBlock) → Detector → (Detector × ℕ × Option ReorgEvent) × Bool
  check none d = ((d, 0, none), false)
  check (some unfinalized_blocks) d = (check_limited (limited d unfinalized_blocks) d, true)
