-- ===== src/Autotune/Fence.antt =====
-- rollback_fence.go: what makes a digest a stage of a rollback fence, and the transitions between
-- two stages of one epoch that need no ordering.
use multichain_indexer.Prelude.{
  ℤ, pos, ltb_ℤ, leb_ℤ, eqb_ℤ, Text, Bool, true, false, ◌&&◌, not, Option, none, some,
}
use multichain_indexer.Autotune.Digest.{
  normalize_policy_manifest_digest, parse_rollback_lineage, parse_tombstone_expiry_epoch,
  parse_late_marker_hold_epoch, parse_late_marker_release_epoch, has_epoch_compaction_tombstone,
}

abbrev pub negative : ℤ → Bool
negative n = ltb_ℤ n (pos 0)

abbrev pub check {ℓ} : {A : Type ℓ} → Option A → (A → Bool) → Bool
check none p = false
check (some a) p = p a

abbrev pub is_some {ℓ} : {A : Type ℓ} → Option A → Bool
is_some none = false
is_some (some a) = true

unfoldable pub is_rollback_fence_transition : ℤ → Text → Bool
is_rollback_fence_transition epoch digest =
    not (negative epoch)
    && check (parse_rollback_lineage (normalize_policy_manifest_digest digest))
        λ l. eqb_ℤ l.1 epoch && ltb_ℤ l.1 l.0

-- from > to = epoch, and forward >= from
unfoldable pub lineage_anchored : ℤ → ℤ × ℤ × ℤ → Bool
lineage_anchored epoch l = eqb_ℤ l.1 epoch && ltb_ℤ l.1 l.0 && leb_ℤ l.0 l.2

unfoldable pub validate_rollback_lineage : ℤ → Text → Bool
unfolding lineage_anchored
validate_rollback_lineage epoch normalized =
    check (parse_rollback_lineage normalized) (lineage_anchored epoch)

unfoldable pub same_lineage : ℤ × ℤ × ℤ → ℤ × ℤ × ℤ → Bool
same_lineage l r = eqb_ℤ l.0 r.0 && eqb_ℤ l.1 r.1 && eqb_ℤ l.2 r.2

unfoldable pub validate_lineage_pair : ℤ → Text → Text → Bool
unfolding lineage_anchored same_lineage
validate_lineage_pair epoch source target = check (parse_rollback_lineage source) λ l.
    check (parse_rollback_lineage target)
      λ r. same_lineage l r && lineage_anchored epoch l && lineage_anchored epoch r

unfoldable pub is_epoch_compaction_digest : ℤ → Text → Bool
is_epoch_compaction_digest epoch digest =
    let normalized = normalize_policy_manifest_digest digest in
    not (negative epoch)
    && has_epoch_compaction_tombstone normalized
    && validate_rollback_lineage epoch normalized

unfoldable pub is_epoch_compaction_transition : ℤ → Text → Text → Bool
is_epoch_compaction_transition epoch source target =
    let source' = normalize_policy_manifest_digest source in
    let target' = normalize_policy_manifest_digest target in
    not (negative epoch)
    && has_epoch_compaction_tombstone target'
    && validate_lineage_pair epoch source' target'

unfoldable pub is_tombstone_expiry_digest : ℤ → Text → Bool
is_tombstone_expiry_digest epoch digest =
    let normalized = normalize_policy_manifest_digest digest in
    not (negative epoch)
    && not (has_epoch_compaction_tombstone normalized)
    && not (is_some (parse_late_marker_hold_epoch normalized))
    && not (is_some (parse_late_marker_release_epoch normalized))
    && check (parse_tombstone_expiry_epoch normalized)
        λ expiry. validate_rollback_lineage epoch normalized && ltb_ℤ epoch expiry

unfoldable pub is_late_marker_quarantine_digest : ℤ → Text → Bool
is_late_marker_quarantine_digest epoch digest =
    let normalized = normalize_policy_manifest_digest digest in
    not (negative epoch)
    && not (has_epoch_compaction_tombstone normalized)
    && not (is_some (parse_late_marker_release_epoch normalized))
    && check (parse_tombstone_expiry_epoch normalized) λ expiry.
      check (parse_late_marker_hold_epoch normalized) λ held.
        validate_rollback_lineage epoch normalized && ltb_ℤ epoch expiry && ltb_ℤ expiry held

unfoldable pub is_late_marker_release_digest : ℤ → Text → Bool
is_late_marker_release_digest epoch digest =
    let normalized = normalize_policy_manifest_digest digest in
    not (negative epoch)
    && not (has_epoch_compaction_tombstone normalized)
    && check (parse_tombstone_expiry_epoch normalized) λ expiry.
      check (parse_late_marker_hold_epoch normalized) λ held.
        check (parse_late_marker_release_epoch normalized) λ released.
          validate_rollback_lineage epoch normalized
          && ltb_ℤ epoch expiry
          && ltb_ℤ expiry held
          && ltb_ℤ held released

unfoldable pub is_tombstone_expiry_transition : ℤ → Text → Text → Bool
is_tombstone_expiry_transition epoch source target =
    let source' = normalize_policy_manifest_digest source in
    let target' = normalize_policy_manifest_digest target in
    not (negative epoch)
    && is_epoch_compaction_digest epoch source'
    && is_tombstone_expiry_digest epoch target'
    && validate_lineage_pair epoch source' target'

-- `sourceX, ok := parse(source); targetX, ok := parse(target); sourceX == targetX`
unfoldable pub same_epoch : Option ℤ → Option ℤ → Bool
same_epoch source target = check source λ s. check target λ t. eqb_ℤ s t

unfoldable pub is_late_marker_quarantine_transition : ℤ → Text → Text → Bool
is_late_marker_quarantine_transition epoch source target =
    let source' = normalize_policy_manifest_digest source in
    let target' = normalize_policy_manifest_digest target in
    not (negative epoch)
    && is_tombstone_expiry_digest epoch source'
    && is_late_marker_quarantine_digest epoch target'
    && validate_lineage_pair epoch source' target'
    && same_epoch (parse_tombstone_expiry_epoch source') (parse_tombstone_expiry_epoch target')

unfoldable pub is_late_marker_release_transition : ℤ → Text → Text → Bool
is_late_marker_release_transition epoch source target =
    let source' = normalize_policy_manifest_digest source in
    let target' = normalize_policy_manifest_digest target in
    not (negative epoch)
    && is_late_marker_quarantine_digest epoch source'
    && is_late_marker_release_digest epoch target'
    && validate_lineage_pair epoch source' target'
    && same_epoch (parse_tombstone_expiry_epoch source') (parse_tombstone_expiry_epoch target')
    && same_epoch (parse_late_marker_hold_epoch source') (parse_late_marker_hold_epoch target')
    && check (parse_late_marker_release_epoch target')
        λ released. check (parse_late_marker_hold_epoch target') λ held. ltb_ℤ held released
