-- ===== src/Autotune/Digest.antt =====
-- autotune.go, policy_lineage.go, rollback_fence.go: a policy manifest digest is a text of tokens
-- between bars. Here: its normal form, and the readers of its sequence numbers.
use multichain_indexer.Prelude.{
  ◌>>=◌, ℤ, pos, Text, codes, eq_text, to_lower, trim_space, strip_prefix?, split, parse_int, Bool,
  false, ◌||◌, Option, none, some, List, [], ◌∷◌, map,
}
use mathlib.Core.Option

unfoldable pub default_policy_version : Text
default_policy_version = codes "policy-v1"

unfoldable pub default_policy_manifest_digest : Text
default_policy_manifest_digest = codes "manifest-v1"

unfoldable pub or_default : Text → Text → Text
or_default [] d = d
or_default (c ∷ s) d = c ∷ s

unfoldable pub normalize_policy_version : Text → Text
unfolding or_default to_lower trim_space default_policy_version
normalize_policy_version version = or_default (trim_space (to_lower version)) default_policy_version

unfoldable pub normalize_policy_manifest_digest : Text → Text
unfolding or_default to_lower trim_space default_policy_manifest_digest
normalize_policy_manifest_digest digest =
    or_default (trim_space (to_lower digest)) default_policy_manifest_digest

-- strings.Split(digest, "|"), each token trimmed: what every loop below walks
unfoldable pub tokens : Text → List Text
unfolding split trim_space
tokens digest = map trim_space (split digest b'|')

-- `if value == "" { fail }; n, err := ParseInt(value, 10, 64); if err != nil || n < 0 { fail }`
unfoldable pub non_negative : Option ℤ → Option ℤ
non_negative (some (pos n)) = some (pos n)
non_negative _ = none

unfoldable pub parse_seq : Text → Option ℤ
unfolding parse_int non_negative
parse_seq [] = none
parse_seq (c ∷ s) = non_negative (parse_int (c ∷ s))

-- What stands behind a key in a token, trimmed.
unfoldable pub value_after : Text → Text → Option Text
unfolding strip_prefix? trim_space
value_after token key = Option.map trim_space (strip_prefix? token key)

-- The value of the last token with the key; "" where there is none. (`parseRollbackLineage` and
-- `parseSnapshotCutoverLineage` test keys of which none begins another, so each key has a walk
-- of its own here.)
unfoldable pub last_value : Text → List Text → Text → Text
unfolding value_after
last_value key [] found = found
last_value key (token ∷ rest) found =
    last_value key rest (Option.get_or (value_after token key) found)

unfoldable pub parse_rollback_lineage : Text → Option (ℤ × ℤ × ℤ)
unfolding last_value tokens parse_seq
parse_rollback_lineage digest = do
  from_seq ← parse_seq (last_value (codes "rollback-from-seq=") (tokens digest) [])
  to_seq ← parse_seq (last_value (codes "rollback-to-seq=") (tokens digest) [])
  forward_seq ← parse_seq (last_value (codes "rollback-forward-seq=") (tokens digest) [])
  some (from_seq, to_seq, forward_seq)

unfoldable pub parse_snapshot_cutover_lineage : Text → Option (ℤ × ℤ)
unfolding last_value tokens parse_seq
parse_snapshot_cutover_lineage digest = do
  base_seq ← parse_seq (last_value (codes "snapshot-base-seq=") (tokens digest) [])
  tail_seq ← parse_seq (last_value (codes "snapshot-tail-seq=") (tokens digest) [])
  some (base_seq, tail_seq)

-- `parseSingleKey`: the first token with the key decides.
unfoldable pub single_key : List Text → Text → Option ℤ
unfolding value_after parse_seq
single_key [] key = none
single_key (token ∷ rest) key =
    let later = single_key rest key in
    elim (value_after token key) [ none ↦ later | some value ↦ parse_seq value ]

unfoldable pub parse_single_key : Text → Text → Option ℤ
unfolding single_key tokens
parse_single_key digest key_prefix = single_key (tokens digest) key_prefix

unfoldable pub parse_tombstone_expiry_epoch : Text → Option ℤ
parse_tombstone_expiry_epoch digest =
    parse_single_key digest (codes "rollback-fence-tombstone-expiry-epoch=")

unfoldable pub parse_late_marker_hold_epoch : Text → Option ℤ
parse_late_marker_hold_epoch digest =
    parse_single_key digest (codes "rollback-fence-late-marker-hold-epoch=")

unfoldable pub parse_late_marker_release_epoch : Text → Option ℤ
parse_late_marker_release_epoch digest =
    parse_single_key digest (codes "rollback-fence-late-marker-release-epoch=")

-- "1", "true", "yes", "on"
unfoldable pub is_switch_on : Text → Bool
unfolding eq_text
is_switch_on value =
    eq_text value (codes "1")
    || eq_text value (codes "true")
    || eq_text value (codes "yes")
    || eq_text value (codes "on")

unfoldable pub is_tombstone_token : Text → Bool
unfolding eq_text value_after is_switch_on
is_tombstone_token token =
    eq_text token (codes "rollback-fence-tombstone")
    || elim (value_after token (codes "rollback-fence-tombstone=")) [
      | none ↦ false
      | some value ↦ is_switch_on value
    ]

unfoldable pub any_tombstone : List Text → Bool
unfolding is_tombstone_token
any_tombstone [] = false
any_tombstone (token ∷ rest) = is_tombstone_token token || any_tombstone rest

unfoldable pub has_epoch_compaction_tombstone : Text → Bool
unfolding any_tombstone tokens
has_epoch_compaction_tombstone digest = any_tombstone (tokens digest)
