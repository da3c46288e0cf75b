-- ===== src/Autotune/Ordering.antt =====
-- rollback_fence_ordering.go: the ownership ordering of two release digests: 34 numbers, compared
-- lexicographically.
use mathlib.Core.Option
use mathlib.Core.Logic.{ite}
use multichain_indexer.Prelude.{
  if◌then◌else◌, ◌>>=◌, eq_bool, get_or, ℤ, pos, negsuc, ltb_ℤ, leb_ℤ, eqb_ℤ, add64, Text, codes,
  eq_text, trim_space, cut, ℕ, Bool, true, false, ◌&&◌, ◌||◌, not, Option, none, some, List, [],
  ◌∷◌, map,
}
use multichain_indexer.Autotune.Digest.{
  normalize_policy_manifest_digest, tokens, parse_seq, parse_tombstone_expiry_epoch,
  parse_late_marker_hold_epoch,
}
use multichain_indexer.Autotune.Markers.{parse_epoch_marker, epoch_markers}
use multichain_indexer.Autotune.Fence.{
  negative, check, is_some, validate_rollback_lineage, validate_lineage_pair,
  is_late_marker_release_digest, same_epoch,
}

-- The fields of `rollbackFenceOwnershipPrefixFields`; `none` is a field whose has-flag is false.
pub data PrefixField : Type 0 where
  release_epoch bridge_sequence release_watermark drain_watermark live_head : PrefixField
  steady_state_watermark steady_generation generation_floor floor_lift_epoch : PrefixField
  settle_window_epoch spillover_epoch spillover_rejoin_epoch rejoin_seal_epoch : PrefixField

PrefixField-discrete : Discrete PrefixField
PrefixField-discrete = hlevel

abbrev pub PrefixFields : Type 0
PrefixFields = PrefixField → Option ℤ

unfoldable pub prefix_keys : List (Text × PrefixField)
prefix_keys =
    (codes "rollback-fence-late-marker-release-epoch", release_epoch)
    ∷ (codes "rollback-fence-late-bridge-sequence", bridge_sequence)
    ∷ (codes "rollback-fence-late-bridge-seq", bridge_sequence)
    ∷ (codes "rollback-fence-late-bridge-release-watermark", release_watermark)
    ∷ (codes "rollback-fence-release-watermark", release_watermark)
    ∷ (codes "rollback-fence-late-bridge-drain-watermark", drain_watermark)
    ∷ (codes "rollback-fence-backlog-drain-watermark", drain_watermark)
    ∷ (codes "rollback-fence-drain-watermark", drain_watermark)
    ∷ (codes "rollback-fence-live-head", live_head)
    ∷ (codes "rollback-fence-live-catchup-head", live_head)
    ∷ (codes "rollback-fence-live-watermark", live_head)
    ∷ (codes "rollback-fence-steady-state-watermark", steady_state_watermark)
    ∷ (codes "rollback-fence-steady-watermark", steady_state_watermark)
    ∷ (codes "rollback-fence-rebaseline-watermark", steady_state_watermark)
    ∷ (codes "rollback-fence-steady-generation", steady_generation)
    ∷ (codes "rollback-fence-baseline-generation", steady_generation)
    ∷ (codes "rollback-fence-generation-retention-floor", generation_floor)
    ∷ (codes "rollback-fence-retention-floor", generation_floor)
    ∷ (codes "rollback-fence-floor-lift-epoch", floor_lift_epoch)
    ∷ (codes "rollback-fence-retention-floor-lift-epoch", floor_lift_epoch)
    ∷ (codes "rollback-fence-settle-window-epoch", settle_window_epoch)
    ∷ (codes "rollback-fence-floor-lift-settle-window-epoch", settle_window_epoch)
    ∷ (codes "rollback-fence-spillover-epoch", spillover_epoch)
    ∷ (codes "rollback-fence-late-spillover-epoch", spillover_epoch)
    ∷ (codes "rollback-fence-settle-window-spillover-epoch", spillover_epoch)
    ∷ (codes "rollback-fence-spillover-rejoin-epoch", spillover_rejoin_epoch)
    ∷ (codes "rollback-fence-rejoin-window-epoch", spillover_rejoin_epoch)
    ∷ (codes "rollback-fence-late-spillover-rejoin-epoch", spillover_rejoin_epoch)
    ∷ (codes "rollback-fence-rejoin-seal-epoch", rejoin_seal_epoch)
    ∷ (codes "rollback-fence-steady-seal-epoch", rejoin_seal_epoch)
    ∷ (codes "rollback-fence-post-rejoin-seal-epoch", rejoin_seal_epoch)
    ∷ []

unfoldable pub field_of : Text → List (Text × PrefixField) → Option PrefixField
unfolding eq_text
field_of key [] = none
field_of key ((k, field) ∷ rest) = if eq_text key k then some field else field_of key rest

-- The first value of a field is kept; one that is no number fails.
unfoldable pub set_ownership_prefix_field : Text → PrefixField → PrefixFields → Option PrefixFields
unfolding parse_seq PrefixField-discrete
set_ownership_prefix_field value field fields = elim (fields field) [
  | some seen ↦ some fields
  | none ↦ do
    parsed ← parse_seq value
    some (λ f. ite (PrefixField-discrete f field) (some parsed) (fields f))
]

unfoldable pub note_prefix_token : Text → PrefixFields → Option PrefixFields
unfolding cut field_of prefix_keys trim_space set_ownership_prefix_field
note_prefix_token token fields = elim (cut token b'=') [
  | none ↦ some fields
  | some (key, value) ↦ elim (field_of key prefix_keys) [
    | none ↦ some fields
    | some field ↦ set_ownership_prefix_field (trim_space value) field fields
  ]
]

unfoldable pub prefix_loop : List Text → PrefixFields → Option PrefixFields
unfolding note_prefix_token
prefix_loop [] fields = some fields
prefix_loop (token ∷ rest) fields = note_prefix_token token fields >>= prefix_loop rest

unfoldable pub parse_ownership_prefix_fields : Text → Option PrefixFields
unfolding prefix_loop tokens
parse_ownership_prefix_fields digest = prefix_loop (tokens digest) (λ f. none)

unfoldable pub parse_all_epoch_markers : Text → List (Option ℤ)
unfolding parse_epoch_marker epoch_markers
parse_all_epoch_markers digest = map (parse_epoch_marker digest) epoch_markers

abbrev pub value_of : Option ℤ → ℤ
value_of none = pos 0
value_of (some n) = n

-- `if has && !required { fail }`
abbrev pub needs : Bool → Bool → Bool
needs has required = not has || required

unfoldable pub prefix_dependencies : PrefixFields → Bool
prefix_dependencies f =
    eq_bool (is_some (f bridge_sequence)) (is_some (f release_watermark))
    && needs (is_some (f drain_watermark)) (is_some (f bridge_sequence))
    && needs (is_some (f live_head)) (is_some (f bridge_sequence))
    && needs (is_some (f live_head)) (is_some (f drain_watermark))
    && needs (is_some (f steady_state_watermark)) (is_some (f live_head))
    && needs (is_some (f steady_generation)) (is_some (f steady_state_watermark))
    && needs (is_some (f generation_floor)) (is_some (f steady_generation))
    && needs (is_some (f floor_lift_epoch)) (is_some (f generation_floor))
    && needs (is_some (f settle_window_epoch)) (is_some (f floor_lift_epoch))
    && needs (is_some (f spillover_epoch)) (is_some (f settle_window_epoch))
    && needs (is_some (f spillover_rejoin_epoch)) (is_some (f spillover_epoch))
    && needs (is_some (f rejoin_seal_epoch)) (is_some (f spillover_rejoin_epoch))

-- Each marker requires the one before it, the first the rejoin seal.
unfoldable pub marker_dependencies : Bool → List (Option ℤ) → Bool
marker_dependencies before [] = true
marker_dependencies before (m ∷ rest) =
    needs (is_some m) before && marker_dependencies (is_some m) rest

-- A marker that is there lies above the value before it.
unfoldable pub strictly_rising : ℤ → List (Option ℤ) → Bool
strictly_rising before [] = true
strictly_rising before (m ∷ rest) =
    needs (is_some m) (ltb_ℤ before (value_of m)) && strictly_rising (value_of m) rest

-- Markers 4 and up rise from the value of marker 3.
unfoldable pub rising_from_third : List (Option ℤ) → Bool
unfolding strictly_rising
rising_from_third (m0 ∷ m1 ∷ m2 ∷ m3 ∷ rest) = strictly_rising (value_of m3) rest
rising_from_third _ = true

-- The watermarks, each with its default, and the checks between them.
pub record Watermarks : Type 0 where
  pub released : ℤ
  pub drained : ℤ
  pub live : ℤ
  pub steady : ℤ

unfoldable pub watermarks_of : PrefixFields → Watermarks
watermarks_of f =
    let released =
      if is_some (f bridge_sequence)
      then value_of (f release_watermark)
      else value_of (f release_epoch) in
    let drained = Option.get_or (f drain_watermark) released in
    let live = Option.get_or (f live_head) drained in
    record {
      released = released;
      drained = drained;
      live = live;
      steady = Option.get_or (f steady_state_watermark) live;
    }

unfoldable pub watermarks_rise : PrefixFields → Watermarks → Bool
watermarks_rise f w =
    leb_ℤ (value_of (f release_epoch)) w.released
    && leb_ℤ w.released w.drained
    && leb_ℤ w.drained w.live
    && leb_ℤ w.live w.steady

-- The 34 fields, in the order of the slots.
unfoldable pub ordering_fields : ℤ → PrefixFields → Watermarks → List (Option ℤ) → List ℤ
ordering_fields epoch f w markers =
    epoch
    ∷ value_of (f bridge_sequence)
    ∷ w.drained
    ∷ w.live
    ∷ w.steady
    ∷ value_of (f steady_generation)
    ∷ value_of (f generation_floor)
    ∷ value_of (f floor_lift_epoch)
    ∷ value_of (f settle_window_epoch)
    ∷ value_of (f spillover_epoch)
    ∷ value_of (f spillover_rejoin_epoch)
    ∷ value_of (f rejoin_seal_epoch)
    ∷ map value_of markers

-- Every check between the fields; one that fails rejects the digest.
unfoldable pub ordering_checks : PrefixFields → Watermarks → List (Option ℤ) → Bool
ordering_checks f w markers =
    is_some (f release_epoch)
    && prefix_dependencies f
    && marker_dependencies (is_some (f rejoin_seal_epoch)) markers
    && watermarks_rise f w
    && rising_from_third markers
    && leb_ℤ (value_of (f generation_floor)) (value_of (f steady_generation))

unfoldable pub ordering_of : ℤ → List (Option ℤ) → PrefixFields → Option (List ℤ)
ordering_of epoch markers f =
    let w = watermarks_of f in
    if ordering_checks f w markers then some (ordering_fields epoch f w markers) else none

unfoldable pub parse_ownership_ordering : ℤ → Text → Option (List ℤ)
parse_ownership_ordering epoch digest =
    let normalized = normalize_policy_manifest_digest digest in
    if not (negative epoch) && is_late_marker_release_digest epoch normalized
    then parse_ownership_prefix_fields normalized
      >>= ordering_of epoch (parse_all_epoch_markers normalized)
    else none

-- -1, 0 or 1; both lists have the 34 fields
unfoldable pub compare_ownership_ordering : List ℤ → List ℤ → ℤ
compare_ownership_ordering (l ∷ ls) (r ∷ rs) =
    let rest = compare_ownership_ordering ls rs in
    if ltb_ℤ l r then negsuc 0 else if ltb_ℤ r l then pos 1 else rest
compare_ownership_ordering _ _ = pos 0

-- `stageProgressionMarkers`
unfoldable pub stage_progression_markers : List ℕ
stage_progression_markers = 13 ∷ 14 ∷ 15 ∷ 16 ∷ 18 ∷ 12 ∷ 19 ∷ 20 ∷ 21 ∷ []

-- The loop over them: the first marker that one digest has and the other lacks decides.
unfoldable pub stage_progress : List ℕ → List (Option ℤ) → List (Option ℤ) → Option Bool
stage_progress [] source target = none
stage_progress (i ∷ rest) source target =
    let source_has = is_some (get_or source i none) in
    let target_has = is_some (get_or target i none) in
    let later = stage_progress rest source target in
    if not source_has && target_has
    then some true
    else if source_has && not target_has
    then some false
    else later

-- What decides once both digests have passed: the stages, and where they agree the ordering.
unfoldable pub window_wins : Option Bool → Option (List ℤ) → Option (List ℤ) → Bool
window_wins stage source target = check source λ l.
    check target
      λ r. elim stage [ some wins ↦ wins | none ↦ ltb_ℤ (compare_ownership_ordering l r) (pos 0) ]

unfoldable pub is_release_window_transition : ℤ → Text → Text → Bool
is_release_window_transition epoch source target =
    let source' = normalize_policy_manifest_digest source in
    let target' = normalize_policy_manifest_digest target in
    not (negative epoch)
    && is_late_marker_release_digest epoch source'
    && is_late_marker_release_digest epoch target'
    && validate_lineage_pair epoch source' target'
    && same_epoch (parse_tombstone_expiry_epoch source') (parse_tombstone_expiry_epoch target')
    && same_epoch (parse_late_marker_hold_epoch source') (parse_late_marker_hold_epoch target')
    && window_wins
        (stage_progress stage_progression_markers (parse_all_epoch_markers source')
          (parse_all_epoch_markers target'))
        (parse_ownership_ordering epoch source') (parse_ownership_ordering epoch target')

unfoldable pub is_digest_anchored_to_epoch : ℤ → Text → Bool
is_digest_anchored_to_epoch epoch digest =
    not (negative epoch)
    && validate_rollback_lineage epoch (normalize_policy_manifest_digest digest)

unfoldable pub is_epoch_rollover_stale_transition : ℤ → ℤ → Text → Text → Bool
unfolding is_digest_anchored_to_epoch
is_epoch_rollover_stale_transition previous_epoch incoming_epoch previous_digest incoming_digest =
    not (negative previous_epoch)
    && eqb_ℤ incoming_epoch (add64 previous_epoch (pos 1))
    && is_late_marker_release_digest previous_epoch
        (normalize_policy_manifest_digest previous_digest)
    && is_digest_anchored_to_epoch previous_epoch incoming_digest
