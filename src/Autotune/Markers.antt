-- ===== src/Autotune/Markers.antt =====
-- rollback_fence_markers.go: the registry of the 22 epoch markers of a rollback fence, and the reader
-- of one marker.
use Prim.Native.String.{String}
use multichain_indexer.Prelude.{
  if◌then◌else◌, ◌>>=◌, ℤ, eqb_ℤ, Text, codes, Option, none, some, List, [], ◌∷◌, map,
}
use multichain_indexer.Autotune.Digest.{tokens, parse_seq, value_after}

pub record EpochMarkerDef : Type 0 where
  pub name : Text
  pub keys : List Text

marker : String → List String → EpochMarkerDef
marker name keys = record { name = codes name; keys = map codes keys }

-- The value behind the first key that begins the token, trimmed; "" where no key does.
unfoldable pub marker_value : Text → List Text → Text
unfolding value_after
marker_value token [] = []
marker_value token (key ∷ keys) =
    let later = marker_value token keys in
    elim (value_after token key) [ none ↦ later | some value ↦ value ]

-- A second value of a marker must agree with the first.
unfoldable pub note_epoch : Option ℤ → ℤ → Option (Option ℤ)
note_epoch none parsed = some (some parsed)
note_epoch (some epoch) parsed = if eqb_ℤ epoch parsed then some (some epoch) else none

unfoldable pub note_value : Text → Option ℤ → Option (Option ℤ)
unfolding note_epoch parse_seq
note_value [] seen = some seen
note_value (c ∷ s) seen = parse_seq (c ∷ s) >>= note_epoch seen

unfoldable pub marker_loop : List Text → List Text → Option ℤ → Option ℤ
unfolding marker_value note_value
marker_loop keys [] seen = seen
marker_loop keys (token ∷ rest) seen =
    note_value (marker_value token keys) seen >>= marker_loop keys rest

unfoldable pub parse_epoch_marker : Text → EpochMarkerDef → Option ℤ
unfolding marker_loop tokens
parse_epoch_marker digest def = marker_loop def.keys (tokens digest) none

unfoldable pub epoch_markers : List EpochMarkerDef
unfolding marker
epoch_markers =
    marker "seal-drift" (
      "rollback-fence-seal-drift-epoch=" ∷ "rollback-fence-steady-seal-drift-epoch="
      ∷ "rollback-fence-post-steady-seal-drift-epoch=" ∷ [])
    ∷ marker "drift-reanchor" (
        "rollback-fence-drift-reanchor-epoch=" ∷ "rollback-fence-post-drift-reanchor-epoch="
        ∷ "rollback-fence-post-steady-drift-reanchor-epoch=" ∷ [])
    ∷ marker "reanchor-compaction" (
        "rollback-fence-reanchor-compaction-epoch="
        ∷ "rollback-fence-post-reanchor-compaction-epoch="
        ∷ "rollback-fence-post-drift-reanchor-compaction-epoch=" ∷ [])
    ∷ marker "compaction-expiry" (
        "rollback-fence-compaction-expiry-epoch="
        ∷ "rollback-fence-lineage-compaction-expiry-epoch="
        ∷ "rollback-fence-post-lineage-compaction-expiry-epoch=" ∷ [])
    ∷ marker "resurrection-quarantine" (
        "rollback-fence-resurrection-quarantine-epoch="
        ∷ "rollback-fence-late-resurrection-quarantine-epoch="
        ∷ "rollback-fence-post-expiry-late-resurrection-quarantine-epoch="
        ∷ "rollback-fence-post-marker-expiry-late-resurrection-quarantine-epoch=" ∷ [])
    ∷ marker "resurrection-reintegration" (
        "rollback-fence-resurrection-reintegration-epoch="
        ∷ "rollback-fence-late-resurrection-reintegration-epoch="
        ∷ "rollback-fence-post-late-resurrection-quarantine-reintegration-epoch="
        ∷ "rollback-fence-post-marker-expiry-late-resurrection-reintegration-epoch=" ∷ [])
    ∷ marker "resurrection-reintegration-seal" (
        "rollback-fence-resurrection-reintegration-seal-epoch="
        ∷ "rollback-fence-late-resurrection-reintegration-seal-epoch="
        ∷ "rollback-fence-post-late-resurrection-reintegration-seal-epoch="
        ∷ "rollback-fence-post-marker-expiry-late-resurrection-reintegration-seal-epoch="
        ∷ "rollback-fence-post-reintegration-seal-epoch=" ∷ [])
    ∷ marker "resurrection-reintegration-seal-drift" (
        "rollback-fence-resurrection-reintegration-seal-drift-epoch="
        ∷ "rollback-fence-late-resurrection-reintegration-seal-drift-epoch="
        ∷ "rollback-fence-post-late-resurrection-reintegration-seal-drift-epoch="
        ∷ "rollback-fence-post-marker-expiry-late-resurrection-reintegration-seal-drift-epoch="
        ∷ "rollback-fence-post-reintegration-seal-drift-epoch=" ∷ [])
    ∷ marker "resurrection-reintegration-seal-drift-reanchor" (
        "rollback-fence-resurrection-reintegration-seal-drift-reanchor-epoch="
        ∷ "rollback-fence-late-resurrection-reintegration-seal-drift-reanchor-epoch="
        ∷ "rollback-fence-post-late-resurrection-reintegration-seal-drift-reanchor-epoch="
        ∷ "rollback-fence-post-marker-expiry-late-resurrection-reintegration-seal-drift-reanchor-epoch="
        ∷ "rollback-fence-post-reintegration-seal-drift-reanchor-epoch=" ∷ [])
    ∷ marker "resurrection-reintegration-seal-drift-reanchor-compaction" (
        "rollback-fence-resurrection-reintegration-seal-drift-reanchor-compaction-epoch="
        ∷ "rollback-fence-late-resurrection-reintegration-seal-drift-reanchor-compaction-epoch="
        ∷ "rollback-fence-post-late-resurrection-reintegration-seal-drift-reanchor-compaction-epoch="
        ∷ "rollback-fence-post-marker-expiry-late-resurrection-reintegration-seal-drift-reanchor-compaction-epoch="
        ∷ "rollback-fence-post-reintegration-seal-drift-reanchor-compaction-epoch=" ∷ [])
    ∷ marker "resurrection-reintegration-seal-drift-reanchor-compaction-expiry" (
        "rollback-fence-resurrection-reintegration-seal-drift-reanchor-compaction-expiry-epoch="
        ∷ "rollback-fence-late-resurrection-reintegration-seal-drift-reanchor-compaction-expiry-epoch="
        ∷ "rollback-fence-post-late-resurrection-reintegration-seal-drift-reanchor-compaction-expiry-epoch="
        ∷ "rollback-fence-post-marker-expiry-late-resurrection-reintegration-seal-drift-reanchor-compaction-expiry-epoch="
        ∷ "rollback-fence-post-reintegration-seal-drift-reanchor-compaction-expiry-epoch=" ∷ [])
    ∷ marker "resurrection-reintegration-seal-drift-reanchor-compaction-expiry-quarantine" (
        "rollback-fence-resurrection-reintegration-seal-drift-reanchor-compaction-expiry-quarantine-epoch="
        ∷ "rollback-fence-late-resurrection-reintegration-seal-drift-reanchor-compaction-expiry-quarantine-epoch="
        ∷ "rollback-fence-post-late-resurrection-reintegration-seal-drift-reanchor-compaction-expiry-quarantine-epoch="
        ∷ "rollback-fence-post-marker-expiry-late-resurrection-reintegration-seal-drift-reanchor-compaction-expiry-quarantine-epoch="
        ∷ "rollback-fence-post-reintegration-seal-drift-reanchor-compaction-expiry-quarantine-epoch="
        ∷ [])
    ∷ marker
        "resurrection-reintegration-seal-drift-reanchor-compaction-expiry-quarantine-reintegration"
        ("rollback-fence-resurrection-reintegration-seal-drift-reanchor-compaction-expiry-quarantine-reintegration-epoch="
          ∷ "rollback-fence-late-resurrection-reintegration-seal-drift-reanchor-compaction-expiry-quarantine-reintegration-epoch="
          ∷ "rollback-fence-post-late-resurrection-reintegration-seal-drift-reanchor-compaction-expiry-quarantine-reintegration-epoch="
          ∷ "rollback-fence-post-marker-expiry-late-resurrection-reintegration-seal-drift-reanchor-compaction-expiry-quarantine-reintegration-epoch="
          ∷ "rollback-fence-post-reintegration-seal-drift-reanchor-compaction-expiry-quarantine-reintegration-epoch="
          ∷ [])
    ∷ marker
        "resurrection-reintegration-seal-drift-reanchor-compaction-expiry-quarantine-reintegration-seal"
        ("rollback-fence-resurrection-reintegration-seal-drift-reanchor-compaction-expiry-quarantine-reintegration-seal-epoch="
          ∷ "rollback-fence-late-resurrection-reintegration-seal-drift-reanchor-compaction-expiry-quarantine-reintegration-seal-epoch="
          ∷ "rollback-fence-post-late-resurrection-reintegration-seal-drift-reanchor-compaction-expiry-quarantine-reintegration-seal-epoch="
          ∷ "rollback-fence-post-marker-expiry-late-resurrection-reintegration-seal-drift-reanchor-compaction-expiry-quarantine-reintegration-seal-epoch="
          ∷ "rollback-fence-post-reintegration-seal-drift-reanchor-compaction-expiry-quarantine-reintegration-seal-epoch="
          ∷ [])
    ∷ marker
        "resurrection-reintegration-seal-drift-reanchor-compaction-expiry-quarantine-reintegration-seal-drift"
        ("rollback-fence-resurrection-reintegration-seal-drift-reanchor-compaction-expiry-quarantine-reintegration-seal-drift-epoch="
          ∷ "rollback-fence-late-resurrection-reintegration-seal-drift-reanchor-compaction-expiry-quarantine-reintegration-seal-drift-epoch="
          ∷ "rollback-fence-post-late-resurrection-reintegration-seal-drift-reanchor-compaction-expiry-quarantine-reintegration-seal-drift-epoch="
          ∷ "rollback-fence-post-marker-expiry-late-resurrection-reintegration-seal-drift-reanchor-compaction-expiry-quarantine-reintegration-seal-drift-epoch="
          ∷ "rollback-fence-post-reintegration-seal-drift-reanchor-compaction-expiry-quarantine-reintegration-seal-drift-epoch="
          ∷ [])
    ∷ marker
        "resurrection-reintegration-seal-drift-reanchor-compaction-expiry-quarantine-reintegration-seal-drift-reanchor"
        ("rollback-fence-resurrection-reintegration-seal-drift-reanchor-compaction-expiry-quarantine-reintegration-seal-drift-reanchor-epoch="
          ∷ "rollback-fence-late-resurrection-reintegration-seal-drift-reanchor-compaction-expiry-quarantine-reintegration-seal-drift-reanchor-epoch="
          ∷ "rollback-fence-post-late-resurrection-reintegration-seal-drift-reanchor-compaction-expiry-quarantine-reintegration-seal-drift-reanchor-epoch="
          ∷ "rollback-fence-post-marker-expiry-late-resurrection-reintegration-seal-drift-reanchor-compaction-expiry-quarantine-reintegration-seal-drift-reanchor-epoch="
          ∷ "rollback-fence-post-reintegration-seal-drift-reanchor-compaction-expiry-quarantine-reintegration-seal-drift-reanchor-epoch="
          ∷ [])
    ∷ marker
        "resurrection-reintegration-seal-drift-reanchor-compaction-expiry-quarantine-reintegration-seal-drift-reanchor-compaction"
        ("rollback-fence-resurrection-reintegration-seal-drift-reanchor-compaction-expiry-quarantine-reintegration-seal-drift-reanchor-compaction-epoch="
          ∷ "rollback-fence-late-resurrection-reintegration-seal-drift-reanchor-compaction-expiry-quarantine-reintegration-seal-drift-reanchor-compaction-epoch="
          ∷ "rollback-fence-post-late-resurrection-reintegration-seal-drift-reanchor-compaction-expiry-quarantine-reintegration-seal-drift-reanchor-compaction-epoch="
          ∷ "rollback-fence-post-marker-expiry-late-resurrection-reintegration-seal-drift-reanchor-compaction-expiry-quarantine-reintegration-seal-drift-reanchor-compaction-epoch="
          ∷ "rollback-fence-post-reintegration-seal-drift-reanchor-compaction-expiry-quarantine-reintegration-seal-drift-reanchor-compaction-epoch="
          ∷ [])
    ∷ marker
        "resurrection-reintegration-seal-drift-reanchor-compaction-expiry-quarantine-reintegration-seal-drift-reanchor-compaction-expiry"
        ("rollback-fence-resurrection-reintegration-seal-drift-reanchor-compaction-expiry-quarantine-reintegration-seal-drift-reanchor-compaction-expiry-epoch="
          ∷ "rollback-fence-late-resurrection-reintegration-seal-drift-reanchor-compaction-expiry-quarantine-reintegration-seal-drift-reanchor-compaction-expiry-epoch="
          ∷ "rollback-fence-post-late-resurrection-reintegration-seal-drift-reanchor-compaction-expiry-quarantine-reintegration-seal-drift-reanchor-compaction-expiry-epoch="
          ∷ "rollback-fence-post-marker-expiry-late-resurrection-reintegration-seal-drift-reanchor-compaction-expiry-quarantine-reintegration-seal-drift-reanchor-compaction-expiry-epoch="
          ∷ "rollback-fence-post-reintegration-seal-drift-reanchor-compaction-expiry-quarantine-reintegration-seal-drift-reanchor-compaction-expiry-epoch="
          ∷ [])
    ∷ marker
        "resurrection-reintegration-seal-drift-reanchor-compaction-expiry-quarantine-reintegration-seal-drift-reanchor-compaction-expiry-quarantine"
        ("rollback-fence-resurrection-reintegration-seal-drift-reanchor-compaction-expiry-quarantine-reintegration-seal-drift-reanchor-compaction-expiry-quarantine-epoch="
          ∷ "rollback-fence-late-resurrection-reintegration-seal-drift-reanchor-compaction-expiry-quarantine-reintegration-seal-drift-reanchor-compaction-expiry-quarantine-epoch="
          ∷ "rollback-fence-post-late-resurrection-reintegration-seal-drift-reanchor-compaction-expiry-quarantine-reintegration-seal-drift-reanchor-compaction-expiry-quarantine-epoch="
          ∷ "rollback-fence-post-marker-expiry-late-resurrection-reintegration-seal-drift-reanchor-compaction-expiry-quarantine-reintegration-seal-drift-reanchor-compaction-expiry-quarantine-epoch="
          ∷ "rollback-fence-post-reintegration-seal-drift-reanchor-compaction-expiry-quarantine-reintegration-seal-drift-reanchor-compaction-expiry-quarantine-epoch="
          ∷ [])
    ∷ marker
        "resurrection-reintegration-seal-drift-reanchor-compaction-expiry-quarantine-reintegration-seal-drift-reanchor-compaction-expiry-quarantine-reintegration"
        ("rollback-fence-resurrection-reintegration-seal-drift-reanchor-compaction-expiry-quarantine-reintegration-seal-drift-reanchor-compaction-expiry-quarantine-reintegration-epoch="
          ∷ "rollback-fence-late-resurrection-reintegration-seal-drift-reanchor-compaction-expiry-quarantine-reintegration-seal-drift-reanchor-compaction-expiry-quarantine-reintegration-epoch="
          ∷ "rollback-fence-post-late-resurrection-reintegration-seal-drift-reanchor-compaction-expiry-quarantine-reintegration-seal-drift-reanchor-compaction-expiry-quarantine-reintegration-epoch="
          ∷ "rollback-fence-post-marker-expiry-late-resurrection-reintegration-seal-drift-reanchor-compaction-expiry-quarantine-reintegration-seal-drift-reanchor-compaction-expiry-quarantine-reintegration-epoch="
          ∷ "rollback-fence-post-reintegration-seal-drift-reanchor-compaction-expiry-quarantine-reintegration-seal-drift-reanchor-compaction-expiry-quarantine-reintegration-epoch="
          ∷ [])
    ∷ marker
        "resurrection-reintegration-seal-drift-reanchor-compaction-expiry-quarantine-reintegration-seal-drift-reanchor-compaction-expiry-quarantine-reintegration-seal"
        ("rollback-fence-resurrection-reintegration-seal-drift-reanchor-compaction-expiry-quarantine-reintegration-seal-drift-reanchor-compaction-expiry-quarantine-reintegration-seal-epoch="
          ∷ "rollback-fence-late-resurrection-reintegration-seal-drift-reanchor-compaction-expiry-quarantine-reintegration-seal-drift-reanchor-compaction-expiry-quarantine-reintegration-seal-epoch="
          ∷ "rollback-fence-post-late-resurrection-reintegration-seal-drift-reanchor-compaction-expiry-quarantine-reintegration-seal-drift-reanchor-compaction-expiry-quarantine-reintegration-seal-epoch="
          ∷ "rollback-fence-post-marker-expiry-late-resurrection-reintegration-seal-drift-reanchor-compaction-expiry-quarantine-reintegration-seal-drift-reanchor-compaction-expiry-quarantine-reintegration-seal-epoch="
          ∷ "rollback-fence-post-reintegration-seal-drift-reanchor-compaction-expiry-quarantine-reintegration-seal-drift-reanchor-compaction-expiry-quarantine-reintegration-seal-epoch="
          ∷ [])
    ∷ marker
        "resurrection-reintegration-seal-drift-reanchor-compaction-expiry-quarantine-reintegration-seal-drift-reanchor-compaction-expiry-quarantine-reintegration-seal-drift"
        ("rollback-fence-resurrection-reintegration-seal-drift-reanchor-compaction-expiry-quarantine-reintegration-seal-drift-reanchor-compaction-expiry-quarantine-reintegration-seal-drift-epoch="
          ∷ "rollback-fence-late-resurrection-reintegration-seal-drift-reanchor-compaction-expiry-quarantine-reintegration-seal-drift-reanchor-compaction-expiry-quarantine-reintegration-seal-drift-epoch="
          ∷ "rollback-fence-post-late-resurrection-reintegration-seal-drift-reanchor-compaction-expiry-quarantine-reintegration-seal-drift-reanchor-compaction-expiry-quarantine-reintegration-seal-drift-epoch="
          ∷ "rollback-fence-post-marker-expiry-late-resurrection-reintegration-seal-drift-reanchor-compaction-expiry-quarantine-reintegration-seal-drift-reanchor-compaction-expiry-quarantine-reintegration-seal-drift-epoch="
          ∷ "rollback-fence-post-reintegration-seal-drift-reanchor-compaction-expiry-quarantine-reintegration-seal-drift-reanchor-compaction-expiry-quarantine-reintegration-seal-drift-epoch="
          ∷ [])
    ∷ []
