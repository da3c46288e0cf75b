-- ===== src/Autotune/Normal.antt =====
-- autotune.go: normalising a digest twice is normalising it once.
use mathlib.Core.Path.{subst}
use mathlib.Core.List.{map-append, reverse, reverse-append, reverse-reverse}
use multichain_indexer.Prelude.{
  Bool-cases, length, Text, to_lower_byte, to_lower, is_space, trim_left, trim_space, ℕ, ◌≤◌, ◌≡◌,
  refl, sym, ap, ◌∙◌, inl, inr, true, false, [], ◌∷◌, ◌++◌, map, arith,
}
use multichain_indexer.Autotune.Digest.{
  default_policy_manifest_digest, or_default, normalize_policy_manifest_digest,
}

to_lower_byte_idem : (c : ℕ) → to_lower_byte (to_lower_byte c) ≡ to_lower_byte c
unfolding to_lower_byte
to_lower_byte_idem c = ground arith

is_space-to_lower_byte : (c : ℕ) → is_space (to_lower_byte c) ≡ is_space c
unfolding is_space to_lower_byte
is_space-to_lower_byte c = ground arith

to_lower_idem : (s : Text) → map to_lower_byte (map to_lower_byte s) ≡ map to_lower_byte s
to_lower_idem [] = refl
to_lower_idem (c ∷ s) = cc (to_lower_byte_idem c, to_lower_idem s)

trim_left_space : (c : ℕ) (s : Text) → is_space c ≡ true → trim_left (c ∷ s) ≡ trim_left s
unfolding trim_left
trim_left_space c s e = rw (e, trim_left) refl

trim_left_solid : (c : ℕ) (s : Text) → is_space c ≡ false → trim_left (c ∷ s) ≡ c ∷ s
unfolding trim_left
trim_left_solid c s e = rw (e, trim_left) refl

trim_left-lower : (s : Text) → trim_left (map to_lower_byte s) ≡ map to_lower_byte (trim_left s)
trim_left-lower [] = unfold trim_left in refl
trim_left-lower (c ∷ s) = elim (Bool-cases (is_space c)) [
  | inl e ↦
      trim_left_space _ _ (is_space-to_lower_byte c ∙ e)
      ∙ trim_left-lower s
      ∙ sym (ap (map to_lower_byte) (trim_left_space c s e))
  | inr e ↦
      trim_left_solid _ _ (is_space-to_lower_byte c ∙ e)
      ∙ sym (ap (map to_lower_byte) (trim_left_solid c s e))
]

trim_left_idem : (s : Text) → trim_left (trim_left s) ≡ trim_left s
trim_left_idem [] = unfold trim_left in refl
trim_left_idem (c ∷ s) = elim (Bool-cases (is_space c)) [
  | inl e ↦ rw (trim_left_space c s e) (trim_left_idem s)
  | inr e ↦ rw (trim_left_solid c s e) (trim_left_solid c s e)
]

-- `trim_left` drops a prefix.
trim_left_suffix : (s : Text) → (p : Text) × (s ≡ p ++ trim_left s)
trim_left_suffix [] = ([], unfold trim_left in refl)
trim_left_suffix (c ∷ s) = elim (Bool-cases (is_space c)) [
  | inl e ↦ let (p, h) = trim_left_suffix s in (c ∷ p, rw (trim_left_space c s e) (ap (◌∷◌ c) h))
  | inr e ↦ ([], rw (trim_left_solid c s e) refl)
]

length-trim_left-le : (s : Text) → length (trim_left s) ≤ length s
length-trim_left-le [] = unfold trim_left in (omega arith)
length-trim_left-le (c ∷ s) = elim (Bool-cases (is_space c)) [
  | inl e ↦ rw (trim_left_space c s e) (omega (arith, length-trim_left-le s))
  | inr e ↦ rw (trim_left_solid c s e) (omega arith)
]

-- A text with no space in front has none in front of any prefix.
trim_left-prefix : (a b : Text) → trim_left (a ++ b) ≡ a ++ b → trim_left a ≡ a
trim_left-prefix [] b h = unfold trim_left in refl
trim_left-prefix (c ∷ a) b h = elim (Bool-cases (is_space c)) [
  | inl e ↦
      let same : trim_left (a ++ b) ≡ c ∷ (a ++ b) = sym (trim_left_space c (a ++ b) e) ∙ h in
      absurd (omega (arith, length-trim_left-le (a ++ b), ap length same))
  | inr e ↦ trim_left_solid c a e
]

trim_space_front : (s : Text) → trim_left (trim_space s) ≡ trim_space s
unfolding trim_space
trim_space_front s =
    let t = trim_left s in
    let (p, cut_off) = trim_left_suffix (reverse t) in
    let u = trim_left (reverse t) in
    let back : t ≡ reverse u ++ reverse p =
      sym (reverse-reverse t) ∙ ap reverse cut_off ∙ reverse-append p u in
    trim_left-prefix (reverse u) (reverse p) (subst (λ x. trim_left x ≡ x) back (trim_left_idem s))

trim_space_idem : (s : Text) → trim_space (trim_space s) ≡ trim_space s
trim_space_idem s =
    unfold trim_space in
    (ap (λ x. reverse (trim_left (reverse x))) (trim_space_front s)
      ∙ ap (λ x. reverse (trim_left x)) (reverse-reverse (trim_left (reverse (trim_left s))))
      ∙ ap reverse (trim_left_idem (reverse (trim_left s))))

map-reverse : (f : ℕ → ℕ) (s : Text) → map f (reverse s) ≡ reverse (map f s)
map-reverse f [] = refl
map-reverse f (c ∷ s) =
    ap (map f) (reverse-append (c ∷ []) s)
    ∙ map-append f (reverse s) (c ∷ [])
    ∙ ap (λ x. x ++ f c ∷ []) (map-reverse f s)
    ∙ sym (reverse-append (f c ∷ []) (map f s))

trim_space-lower : (s : Text) → trim_space (map to_lower_byte s) ≡ map to_lower_byte (trim_space s)
unfolding trim_space
trim_space-lower s =
    ap (λ x. reverse (trim_left (reverse x))) (trim_left-lower s)
    ∙ ap (λ x. reverse (trim_left x)) (sym (map-reverse to_lower_byte (trim_left s)))
    ∙ ap reverse (trim_left-lower (reverse (trim_left s)))
    ∙ sym (map-reverse to_lower_byte (trim_left (reverse (trim_left s))))

lowered : (d : Text) → trim_space (to_lower (trim_space (to_lower d))) ≡ trim_space (to_lower d)
unfolding to_lower
lowered d =
    trim_space-lower (trim_space (map to_lower_byte d))
    ∙ ap (map to_lower_byte) (trim_space_idem (map to_lower_byte d))
    ∙ sym (trim_space-lower (map to_lower_byte d))
    ∙ ap trim_space (to_lower_idem d)

or_default_twice :
    (f : Text → Text) (t d : Text)
    → f t ≡ t
    → f d ≡ d
    → or_default (f (or_default t d)) d ≡ or_default t d
unfolding or_default
or_default_twice f [] [] h k = rw h
or_default_twice f [] (c ∷ d) h k = rw k
or_default_twice f (c ∷ t) d h k = rw h

default_normal :
    trim_space (to_lower default_policy_manifest_digest) ≡ default_policy_manifest_digest
unfolding trim_space to_lower default_policy_manifest_digest
default_normal = refl

pub normalize_policy_manifest_digest_idem :
    (digest : Text)
    → normalize_policy_manifest_digest (normalize_policy_manifest_digest digest)
      ≡ normalize_policy_manifest_digest digest
normalize_policy_manifest_digest_idem digest =
    unfold normalize_policy_manifest_digest in
    or_default_twice (λ x. trim_space (to_lower x)) (trim_space (to_lower digest))
      default_policy_manifest_digest (lowered digest) default_normal
