-- ===== src/Autotune/Policy.antt =====
-- policy_lineage.go and the rules of autotune.go: which policy a controller adopts when it meets the
-- policy of the controller before it.
use multichain_indexer.Prelude.{
  if◌then◌else◌, ℤ, pos, ltb_ℤ, leb_ℤ, eqb_ℤ, add64, Text, eq_text, Bool, true, false, ◌&&◌, ◌||◌,
  not, Option, none, some, List, [], ◌∷◌,
}
use multichain_indexer.Autotune.Types.{PolicyTransition, Controller}
use multichain_indexer.Autotune.Clamp.{max_int, floor_zero}
use multichain_indexer.Autotune.Digest.{
  normalize_policy_version, normalize_policy_manifest_digest, parse_rollback_lineage,
  parse_snapshot_cutover_lineage,
}
use multichain_indexer.Autotune.Fence.{
  check, is_rollback_fence_transition, is_epoch_compaction_digest, is_epoch_compaction_transition,
  is_tombstone_expiry_transition, is_late_marker_quarantine_transition,
  is_late_marker_release_transition,
}
use multichain_indexer.Autotune.Ordering.{
  is_release_window_transition, is_epoch_rollover_stale_transition,
}
use multichain_indexer.Autotune.Resolve.{reset_adaptive_control_state}

pub record LineageRule : Type 0 where
  pub matches : ℤ → Text → Text → Bool
  pub adopt_incoming : Bool

abbrev pub forward : (ℤ → Text → Text → Bool) → LineageRule
forward transition = record { matches = transition; adopt_incoming = true }

-- The same transition from the incoming digest to the previous one.
abbrev pub backward : (ℤ → Text → Text → Bool) → LineageRule
backward transition = record { matches = λ e p i. transition e i p; adopt_incoming = false }

unfoldable pub same_epoch_rules : List LineageRule
same_epoch_rules =
    forward is_epoch_compaction_transition
    ∷ forward is_tombstone_expiry_transition
    ∷ forward is_late_marker_quarantine_transition
    ∷ forward is_late_marker_release_transition
    ∷ forward is_release_window_transition
    ∷ backward is_release_window_transition
    ∷ backward is_late_marker_release_transition
    ∷ backward is_late_marker_quarantine_transition
    ∷ backward is_tombstone_expiry_transition
    ∷ backward is_epoch_compaction_transition
    ∷ []

-- The first rule that matches decides; `none` is "not handled".
unfoldable pub first_rule : List LineageRule → ℤ → Text → Text → Option Bool
first_rule [] epoch previous incoming = none
first_rule (rule ∷ rest) epoch previous incoming =
    if rule.matches epoch previous incoming
    then some rule.adopt_incoming
    else first_rule rest epoch previous incoming

unfoldable pub resolve_same_epoch_lineage : ℤ → Text → Text → Option Bool
unfolding first_rule same_epoch_rules
resolve_same_epoch_lineage = first_rule same_epoch_rules

unfoldable pub normalize_activation_hold : PolicyTransition → ℤ
unfolding max_int
normalize_activation_hold t =
    let remaining = max_int t.activation_hold_remaining (pos 0) in
    if eqb_ℤ remaining (pos 0) || not t.from_warm_checkpoint
    then remaining
    else if is_epoch_compaction_digest t.epoch t.manifest_digest
    then pos 0
    else if not (is_rollback_fence_transition t.epoch t.manifest_digest)
    then remaining
    else if ltb_ℤ (pos 1) remaining
    then pos 1
    else remaining

unfoldable pub is_snapshot_cutover : ℤ → ℤ → Text → Bool
is_snapshot_cutover previous_epoch incoming_epoch incoming_digest =
    ltb_ℤ (add64 previous_epoch (pos 1)) incoming_epoch
    && check (parse_snapshot_cutover_lineage incoming_digest)
        λ l. eqb_ℤ l.0 previous_epoch && eqb_ℤ l.1 incoming_epoch && ltb_ℤ l.0 l.1

unfoldable pub is_rollback_lineage : ℤ → ℤ → Text → Bool
is_rollback_lineage previous_epoch incoming_epoch incoming_digest =
    ltb_ℤ incoming_epoch previous_epoch
    && check (parse_rollback_lineage incoming_digest)
        λ l. eqb_ℤ l.0 previous_epoch && eqb_ℤ l.1 incoming_epoch && ltb_ℤ l.1 l.0 && leb_ℤ l.0 l.2

-- `a.policyManifestDigest = digest; a.policyEpoch = epoch`
unfoldable pub own : Controller → Text → ℤ → Controller
own c digest epoch = record c { policy_manifest_digest = digest; policy_epoch = epoch }

-- The incoming policy, held for its activation ticks.
unfoldable pub adopt : Controller → Text → ℤ → Controller
unfolding own reset_adaptive_control_state
adopt c digest epoch =
    reset_adaptive_control_state
      (record (own c digest epoch) { policy_activation_left = c.policy_activation_hold })

unfoldable pub extend_hold : Controller → ℤ → Controller
unfolding reset_adaptive_control_state
extend_hold c held =
    if ltb_ℤ c.policy_activation_left held
    then reset_adaptive_control_state (record c { policy_activation_left = held })
    else c

-- The previous policy is kept, with what is left of its hold.
unfoldable pub pin : Controller → Text → ℤ → ℤ → Controller
unfolding own extend_hold
pin c digest epoch held = extend_hold (own c digest epoch) held

-- Both policies, normalised, and the hold that is left.
pub record Meeting : Type 0 where
  pub previous_version : Text
  pub previous_digest : Text
  pub previous_epoch : ℤ
  pub incoming_digest : Text
  pub incoming_epoch : ℤ
  pub held : ℤ

unfoldable pub meeting_of : Controller → PolicyTransition → Meeting
unfolding floor_zero normalize_policy_version normalize_policy_manifest_digest
    normalize_activation_hold
meeting_of c t = record {
  previous_version = normalize_policy_version t.version;
  previous_digest = normalize_policy_manifest_digest t.manifest_digest;
  previous_epoch = floor_zero t.epoch;
  incoming_digest = normalize_policy_manifest_digest c.policy_manifest_digest;
  incoming_epoch = floor_zero c.policy_epoch;
  held = normalize_activation_hold t;
}

-- One version, one digest: only the next epoch is adopted.
unfoldable pub meet_identical : Controller → Meeting → Controller
meet_identical c m =
    if eqb_ℤ m.incoming_epoch (add64 m.previous_epoch (pos 1))
    then extend_hold (adopt c m.incoming_digest m.incoming_epoch) m.held
    else pin c m.previous_digest m.previous_epoch m.held

unfoldable pub meet_newer : Controller → Meeting → Controller
meet_newer c m =
    if is_epoch_rollover_stale_transition m.previous_epoch m.incoming_epoch m.previous_digest
      m.incoming_digest
    then pin c m.previous_digest m.previous_epoch m.held
    else if eqb_ℤ m.incoming_epoch (add64 m.previous_epoch (pos 1))
    then adopt c m.incoming_digest m.incoming_epoch
    else if is_snapshot_cutover m.previous_epoch m.incoming_epoch m.incoming_digest
    then adopt c m.incoming_digest m.incoming_epoch
    else pin c m.previous_digest m.previous_epoch m.held

unfoldable pub meet_older : Controller → Meeting → Controller
meet_older c m =
    if is_rollback_lineage m.previous_epoch m.incoming_epoch m.incoming_digest
    then adopt c m.incoming_digest m.incoming_epoch
    else pin c m.previous_digest m.previous_epoch m.held

unfoldable pub meet_same_epoch : Controller → Meeting → Controller
meet_same_epoch c m =
    elim (resolve_same_epoch_lineage m.previous_epoch m.previous_digest m.incoming_digest) [
      | some true ↦ own c m.incoming_digest m.incoming_epoch
      | some false ↦ own c m.previous_digest m.previous_epoch
      | none ↦ pin c m.previous_digest m.previous_epoch m.held
    ]

unfoldable pub meet : Controller → Meeting → Controller
meet c m =
    if eq_text c.policy_version m.previous_version && eq_text m.incoming_digest m.previous_digest
    then meet_identical c m
    else if not (eq_text c.policy_version m.previous_version)
    then adopt c m.incoming_digest (max_int (add64 m.previous_epoch (pos 1)) m.incoming_epoch)
    else if ltb_ℤ m.previous_epoch m.incoming_epoch
    then meet_newer c m
    else if ltb_ℤ m.incoming_epoch m.previous_epoch
    then meet_older c m
    else meet_same_epoch c m

unfoldable pub reconcile_policy_transition : Controller → PolicyTransition → Controller
reconcile_policy_transition c t = if not t.has_state then c else meet c (meeting_of c t)

unfoldable pub export_policy_transition : Controller → PolicyTransition
export_policy_transition c = record {
  has_state = true;
  version = c.policy_version;
  manifest_digest = c.policy_manifest_digest;
  epoch = c.policy_epoch;
  activation_hold_remaining = c.policy_activation_left;
  from_warm_checkpoint = false;
}
