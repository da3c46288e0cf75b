-- ===== src/Autotune/Parsed.antt =====
-- rollback_fence_ordering.go: what a parsed ordering is known to satisfy.
use mathlib.Core.Path.{subst}
use multichain_indexer.Prelude.{
  ◌>>=◌, length, get_or, ℤ, pos, ◌≤ℤ◌, leb_ℤ, leb_ℤ→le, Text, suc, ◌≡◌, refl, ap, ◌∙◌, true, Option,
  none, some, List, [], ◌∷◌, map, arith,
}
use multichain_indexer.Autotune.Digest.{normalize_policy_manifest_digest}
use multichain_indexer.Autotune.Markers.{parse_epoch_marker, epoch_markers}
use multichain_indexer.Autotune.Ordering.{
  steady_generation, generation_floor, PrefixFields, parse_ownership_prefix_fields,
  parse_all_epoch_markers, value_of, Watermarks, watermarks_of, watermarks_rise, ordering_fields,
  ordering_checks, ordering_of, parse_ownership_ordering,
}

-- What the checks of the parser leave.
pub record WellOrdered (epoch : ℤ) (fields : List ℤ) : Type 0 where
  pub slots : length fields ≡ 34
  pub epoch_first : get_or fields 0 (pos 0) ≡ epoch
  pub drained-le-live : get_or fields 2 (pos 0) ≤ℤ get_or fields 3 (pos 0)
  pub live-le-steady : get_or fields 3 (pos 0) ≤ℤ get_or fields 4 (pos 0)
  pub floor-le-generation : get_or fields 6 (pos 0) ≤ℤ get_or fields 5 (pos 0)

length-map {ℓ κ} :
    {A : Type ℓ} {B : Type κ} (f : A → B) (xs : List A) → length (map f xs) ≡ length xs
length-map f [] = refl
length-map f (x ∷ xs) = ap suc (length-map f xs)

markers_length : (digest : Text) → length (map value_of (parse_all_epoch_markers digest)) ≡ 22
unfolding parse_all_epoch_markers epoch_markers
markers_length digest =
    length-map value_of (map (parse_epoch_marker digest) epoch_markers)
    ∙ length-map (parse_epoch_marker digest) epoch_markers

ordering_fields-WellOrdered :
    (epoch : ℤ) (f : PrefixFields) (w : Watermarks) (markers : List (Option ℤ))
    → length (map value_of markers) ≡ 22
    → watermarks_rise f w ≡ true
    → leb_ℤ (value_of (f generation_floor)) (value_of (f steady_generation)) ≡ true
    → WellOrdered epoch (ordering_fields epoch f w markers)
unfolding ordering_fields watermarks_rise
ordering_fields-WellOrdered epoch f w markers n h g = record {
  slots = omega (arith, n);
  epoch_first = refl;
  drained-le-live = leb_ℤ→le w.drained w.live (ground (arith, h));
  live-le-steady = leb_ℤ→le w.live w.steady (ground (arith, h));
  floor-le-generation = leb_ℤ→le _ _ g;
}

ordering_of-WellOrdered :
    (epoch : ℤ) (markers : List (Option ℤ)) (f : PrefixFields) {fields : List ℤ}
    → length (map value_of markers) ≡ 22
    → ordering_of epoch markers f ≡ some fields
    → WellOrdered epoch fields
unfolding ordering_of ordering_checks
ordering_of-WellOrdered epoch markers f {fields} n h =
    subst (WellOrdered epoch) (ground (arith, h)) (
      ordering_fields-WellOrdered epoch f (watermarks_of f) markers n (ground (arith, h))
        (ground (arith, h)))

after_prefix :
    (epoch : ℤ) (markers : List (Option ℤ)) (p : Option PrefixFields) {fields : List ℤ}
    → length (map value_of markers) ≡ 22
    → (p >>= ordering_of epoch markers) ≡ some fields
    → WellOrdered epoch fields
after_prefix epoch markers none n h = cc
after_prefix epoch markers (some f) n h = ordering_of-WellOrdered epoch markers f n h

-- A digest that parses as an ordering has the 34 slots, the epoch first, watermarks that rise from
-- the drain over the live head to the steady state, and a retention floor within its generation.
pub parse_ownership_ordering-WellOrdered :
    (epoch : ℤ) (digest : Text) {fields : List ℤ}
    → parse_ownership_ordering epoch digest ≡ some fields
    → WellOrdered epoch fields
unfolding parse_ownership_ordering
parse_ownership_ordering-WellOrdered epoch digest h =
    let n = normalize_policy_manifest_digest digest in
    after_prefix epoch (parse_all_epoch_markers n) (parse_ownership_prefix_fields n)
      (markers_length n) (ground (arith, h))
