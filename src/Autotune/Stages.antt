-- ===== src/Autotune/Stages.antt =====
-- rollback_fence.go and the rule table of autotune.go: the stages that a transition leads from and
-- to, and what the table makes of two digests of one epoch.
use mathlib.Core.Path.{subst}
use multichain_indexer.Prelude.{
  ℤ, eqb_ℤ, eqb_ℤ_iff, Text, ◌≡◌, sym, ap, ◌∙◌, ◌⊎◌, inl, inr, Bool, true, false, ◌&&◌, Option,
  none, some, arith,
}
use multichain_indexer.Autotune.Digest.{
  normalize_policy_manifest_digest, parse_rollback_lineage, parse_late_marker_hold_epoch,
  parse_late_marker_release_epoch, has_epoch_compaction_tombstone,
}
use multichain_indexer.Autotune.Fence.{
  negative, check, is_some, lineage_anchored, same_lineage, validate_lineage_pair,
  is_epoch_compaction_digest, is_epoch_compaction_transition, is_tombstone_expiry_digest,
  is_late_marker_quarantine_digest, is_late_marker_release_digest, is_tombstone_expiry_transition,
  is_late_marker_quarantine_transition, is_late_marker_release_transition,
}
use multichain_indexer.Autotune.Ordering.{is_release_window_transition}
use multichain_indexer.Autotune.Policy.{resolve_same_epoch_lineage}
use multichain_indexer.Autotune.Normal.{normalize_policy_manifest_digest_idem}
use multichain_indexer.Autotune.Window.{is_release_window_transition_one_way}

-- Whether a digest has the tombstone, the hold epoch and the release epoch.
abbrev tombstone : Text → Bool
tombstone d = has_epoch_compaction_tombstone (normalize_policy_manifest_digest d)

abbrev held : Text → Bool
held d = is_some (parse_late_marker_hold_epoch (normalize_policy_manifest_digest d))

abbrev released : Text → Bool
released d = is_some (parse_late_marker_release_epoch (normalize_policy_manifest_digest d))

abbrev Profile : Text → Bool → Bool → Bool → Type 0
Profile d t h r = (tombstone d ≡ t) × (held d ≡ h) × (released d ≡ r)

compaction_tombstone :
    (e : ℤ) (d : Text) → is_epoch_compaction_digest e d ≡ true → tombstone d ≡ true
unfolding is_epoch_compaction_digest
compaction_tombstone e d h = ground (arith, h)

expiry-Profile :
    (e : ℤ) (d : Text) → is_tombstone_expiry_digest e d ≡ true → Profile d false false false
unfolding is_tombstone_expiry_digest
expiry-Profile e d h = ground (arith, h)

quarantine-Profile :
    (e : ℤ) (d : Text) → is_late_marker_quarantine_digest e d ≡ true → Profile d false true false
unfolding is_late_marker_quarantine_digest
quarantine-Profile e d h = ground (arith, h)

release-Profile :
    (e : ℤ) (d : Text) → is_late_marker_release_digest e d ≡ true → Profile d false true true
unfolding is_late_marker_release_digest
release-Profile e d h = ground (arith, h)

-- The transitions test the normal form, and normalising again changes nothing.
Profile-normal :
    (d : Text) (t h r : Bool) → Profile (normalize_policy_manifest_digest d) t h r → Profile d t h r
Profile-normal d t h r p =
    subst
      (λ n.
        (has_epoch_compaction_tombstone n ≡ t)
        × (is_some (parse_late_marker_hold_epoch n) ≡ h)
        × (is_some (parse_late_marker_release_epoch n) ≡ r))
      (normalize_policy_manifest_digest_idem d) p

module _ (e : ℤ) (s t : Text) where
  compaction_transition_target : is_epoch_compaction_transition e s t ≡ true → tombstone t ≡ true
  unfolding is_epoch_compaction_transition
  compaction_transition_target h = ground (arith, h)

  expiry_transition_source : is_tombstone_expiry_transition e s t ≡ true → tombstone s ≡ true
  unfolding is_tombstone_expiry_transition
  expiry_transition_source h =
      ap has_epoch_compaction_tombstone (sym (normalize_policy_manifest_digest_idem s))
      ∙ compaction_tombstone e (normalize_policy_manifest_digest s) (ground (arith, h))

  expiry_transition_target :
      is_tombstone_expiry_transition e s t ≡ true → Profile t false false false
  unfolding is_tombstone_expiry_transition
  expiry_transition_target h =
      Profile-normal t _ _ _
        (expiry-Profile e (normalize_policy_manifest_digest t) (ground (arith, h)))

  quarantine_transition-Profile :
      is_late_marker_quarantine_transition e s t ≡ true
      → Profile s false false false × Profile t false true false
  unfolding is_late_marker_quarantine_transition
  quarantine_transition-Profile h = (
    Profile-normal s _ _ _
        (expiry-Profile e (normalize_policy_manifest_digest s) (ground (arith, h))),
    Profile-normal t _ _ _
        (quarantine-Profile e (normalize_policy_manifest_digest t) (ground (arith, h))),
  )

  release_transition-Profile :
      is_late_marker_release_transition e s t ≡ true
      → Profile s false true false × Profile t false true true
  unfolding is_late_marker_release_transition
  release_transition-Profile h = (
    Profile-normal s _ _ _
        (quarantine-Profile e (normalize_policy_manifest_digest s) (ground (arith, h))),
    Profile-normal t _ _ _
        (release-Profile e (normalize_policy_manifest_digest t) (ground (arith, h))),
  )

  window_transition-Profile :
      is_release_window_transition e s t ≡ true
      → Profile s false true true × Profile t false true true
  unfolding is_release_window_transition
  window_transition-Profile h = (
    Profile-normal s _ _ _
        (release-Profile e (normalize_policy_manifest_digest s) (ground (arith, h))),
    Profile-normal t _ _ _
        (release-Profile e (normalize_policy_manifest_digest t) (ground (arith, h))),
  )

module _ (e : ℤ) (older newer : Text) where
  -- Where a digest is quarantined, released or moved on within its release window, both orders of
  -- meeting the two digests keep the newer one.
  quarantine_converges :
      is_late_marker_quarantine_transition e older newer ≡ true
      → (resolve_same_epoch_lineage e older newer ≡ some true)
        × (resolve_same_epoch_lineage e newer older ≡ some false)
  unfolding resolve_same_epoch_lineage
  quarantine_converges h = ground (
    arith,
    quarantine_transition-Profile e older newer h,
    compaction_transition_target e older newer,
    compaction_transition_target e newer older,
    expiry_transition_source e older newer,
    expiry_transition_source e newer older,
    quarantine_transition-Profile e newer older,
    release_transition-Profile e newer older,
    window_transition-Profile e newer older,
    window_transition-Profile e older newer,
  )

  release_converges :
      is_late_marker_release_transition e older newer ≡ true
      → (resolve_same_epoch_lineage e older newer ≡ some true)
        × (resolve_same_epoch_lineage e newer older ≡ some false)
  unfolding resolve_same_epoch_lineage
  release_converges h = ground (
    arith,
    release_transition-Profile e older newer h,
    compaction_transition_target e older newer,
    compaction_transition_target e newer older,
    expiry_transition_source e older newer,
    expiry_transition_source e newer older,
    quarantine_transition-Profile e newer older,
    quarantine_transition-Profile e older newer,
    release_transition-Profile e newer older,
    window_transition-Profile e newer older,
    window_transition-Profile e older newer,
  )

  window_converges :
      is_release_window_transition e older newer ≡ true
      → (resolve_same_epoch_lineage e older newer ≡ some true)
        × (resolve_same_epoch_lineage e newer older ≡ some false)
  unfolding resolve_same_epoch_lineage
  window_converges h = ground (
    arith,
    window_transition-Profile e older newer h,
    is_release_window_transition_one_way e older newer h,
    compaction_transition_target e older newer,
    compaction_transition_target e newer older,
    expiry_transition_source e older newer,
    expiry_transition_source e newer older,
    quarantine_transition-Profile e newer older,
    quarantine_transition-Profile e older newer,
    release_transition-Profile e newer older,
    release_transition-Profile e older newer,
  )

-- The stages that follow the expiry of a tombstone.
abbrev Supersedes : ℤ → Text → Text → Type 0
Supersedes e older newer =
    (is_late_marker_quarantine_transition e older newer ≡ true)
    ⊎ (is_late_marker_release_transition e older newer ≡ true)
    ⊎ (is_release_window_transition e older newer ≡ true)

-- Where a digest supersedes another of its epoch by a quarantine, a release or a release-window
-- transition, the rule table keeps it in whichever order the two are met.
pub resolve_same_epoch_lineage_converges :
    (e : ℤ) (older newer : Text)
    → Supersedes e older newer
    → (resolve_same_epoch_lineage e older newer ≡ some true)
      × (resolve_same_epoch_lineage e newer older ≡ some false)
resolve_same_epoch_lineage_converges e older newer (inl q) = quarantine_converges e older newer q
resolve_same_epoch_lineage_converges e older newer (inr (inl r)) = release_converges e older newer r
resolve_same_epoch_lineage_converges e older newer (inr (inr w)) = window_converges e older newer w

eqb_ℤ_sym : (a b : ℤ) → eqb_ℤ a b ≡ true → eqb_ℤ b a ≡ true
eqb_ℤ_sym a b h = (eqb_ℤ_iff b a).1 (sym ((eqb_ℤ_iff a b).0 h))

pair_back :
    (e : ℤ) (l r : Option (ℤ × ℤ × ℤ))
    → check l (λ a. check r λ b. same_lineage a b && lineage_anchored e a && lineage_anchored e b)
      ≡ true
    → check r (λ b. check l λ a. same_lineage b a && lineage_anchored e b && lineage_anchored e a)
      ≡ true
unfolding same_lineage
pair_back e none r h = cc
pair_back e (some a) none h = cc
pair_back e (some a) (some b) h =
    ground (arith, eqb_ℤ_sym a.0 b.0, eqb_ℤ_sym a.1 b.1, eqb_ℤ_sym a.2 b.2)

validate_lineage_pair_back :
    (e : ℤ) (s t : Text) → validate_lineage_pair e s t ≡ true → validate_lineage_pair e t s ≡ true
unfolding validate_lineage_pair
validate_lineage_pair_back e s t h =
    pair_back e (parse_rollback_lineage s) (parse_rollback_lineage t) h

expiry_pair :
    (e : ℤ) (s t : Text)
    → is_tombstone_expiry_transition e s t ≡ true
    → (validate_lineage_pair e
          (normalize_policy_manifest_digest s)
          (normalize_policy_manifest_digest t)
        ≡ true)
      × (negative e ≡ false)
unfolding is_tombstone_expiry_transition
expiry_pair e s t h = ground (arith, h)

-- Where an expiry digest supersedes a compaction digest of its epoch, the rule table lets either
-- one replace the other.
pub compaction_replaces_expiry :
    (e : ℤ) (compacted expired : Text)
    → is_tombstone_expiry_transition e compacted expired ≡ true
    → (resolve_same_epoch_lineage e compacted expired ≡ some true)
      × (resolve_same_epoch_lineage e expired compacted ≡ some true)
unfolding resolve_same_epoch_lineage is_epoch_compaction_transition
compaction_replaces_expiry e compacted expired h =
    let s = normalize_policy_manifest_digest compacted in
    let t = normalize_policy_manifest_digest expired in
    let (pair, ranged) = expiry_pair e compacted expired h in
    (
      ground (arith, h),
      ground (
        arith,
        validate_lineage_pair_back e s t pair,
        ranged,
        expiry_transition_source e compacted expired h,
      ),
    )
