-- ===== src/Identity/Spellings.antt =====
-- internal/pipeline/identity/identity.go: the spellings of one hash have one canonical form.
use mathlib.Core.List.{reverse, reverse_aux}
use mathlib.Mathlib.Data.List.Basic.{reverse-Involutive}
use multichain_indexer.Prelude.{
  Bool-cases, All, Text, codes, eq_text, eq_text→eq, to_lower_byte, to_lower, is_space, trim_left,
  trim_space, strip_prefix?, ℕ, ◌≡◌, refl, sym, ap, ◌∙◌, inl, inr, true, false, [], ◌∷◌, ◌++◌,
  arith,
}
use multichain_indexer.Identity.{
  is_evm_chain, is_hex_digit, is_hex_string, trim_to, trim_prefix, without_0x, canonical_evm,
  canonical_signature_identity, canonical_address_identity,
}

-- A prefix that the sources accept before hexadecimal digits.
pub data Prefix : Type 0 where
  bare lower_0x upper_0x : Prefix

abbrev pub spelled : Prefix → Text → Text
spelled bare v = v
spelled lower_0x v = codes "0x" ++ v
spelled upper_0x v = codes "0X" ++ v

unfoldable pub NoSpace : Text → Type 0
NoSpace = All (λ c. is_space c ≡ false)

reverse_aux-NoSpace : (s t : Text) → NoSpace s → NoSpace t → NoSpace (reverse_aux s t)
unfolding NoSpace
reverse_aux-NoSpace [] t h k = k
reverse_aux-NoSpace (c ∷ s) t (h, hs) k = reverse_aux-NoSpace s (c ∷ t) hs (h, k)

trim_left_of_NoSpace : (s : Text) → NoSpace s → trim_left s ≡ s
unfolding NoSpace trim_left is_space
trim_left_of_NoSpace [] h = refl
trim_left_of_NoSpace (c ∷ s) h = ground arith

pub trim_space_of_NoSpace : (s : Text) → NoSpace s → trim_space s ≡ s
unfolding trim_space NoSpace
trim_space_of_NoSpace s h = simp (
  trim_left_of_NoSpace s h,
  trim_left_of_NoSpace (reverse s) (reverse_aux-NoSpace s [] h tt),
  reverse-Involutive s,
)

is_hex_string-NoSpace : (v : Text) → is_hex_string v ≡ true → NoSpace v
unfolding NoSpace is_hex_string is_hex_digit is_space
is_hex_string-NoSpace [] h = tt
is_hex_string-NoSpace (c ∷ v) h = ground (arith, is_hex_string-NoSpace v)

spelled-NoSpace : (p : Prefix) (v : Text) → is_hex_string v ≡ true → NoSpace (spelled p v)
unfolding NoSpace is_space
spelled-NoSpace bare v h = is_hex_string-NoSpace v h
spelled-NoSpace lower_0x v h = (refl, (refl, is_hex_string-NoSpace v h))
spelled-NoSpace upper_0x v h = (refl, (refl, is_hex_string-NoSpace v h))

without_0x-spelled : (p : Prefix) (v : Text) → is_hex_string v ≡ true → without_0x (spelled p v) ≡ v
unfolding without_0x trim_prefix trim_to strip_prefix? is_hex_string is_hex_digit
without_0x-spelled bare [] h = refl
without_0x-spelled bare (a ∷ []) h = ground arith
without_0x-spelled bare (a ∷ b ∷ v) h = ground arith
without_0x-spelled lower_0x [] h = refl
without_0x-spelled lower_0x (a ∷ []) h = ground arith
without_0x-spelled lower_0x (a ∷ b ∷ v) h = ground arith
without_0x-spelled upper_0x v h = refl

to_lower-hex : (v : Text) → is_hex_string v ≡ true → is_hex_string (to_lower v) ≡ true
unfolding is_hex_string is_hex_digit to_lower to_lower_byte
to_lower-hex [] h = refl
to_lower-hex (c ∷ v) h = ground (arith, to_lower-hex v)

to_lower-twice : (v : Text) → to_lower (to_lower v) ≡ to_lower v
unfolding to_lower to_lower_byte
to_lower-twice [] = refl
to_lower-twice (c ∷ v) = ground (arith, to_lower-twice v)

btc-not-evm : ¬ (is_evm_chain (codes "btc") ≡ true)
unfolding is_evm_chain eq_text
btc-not-evm h = cc

evm-not-btc : (chain : Text) → is_evm_chain chain ≡ true → eq_text chain (codes "btc") ≡ false
unfolding is_evm_chain eq_text
evm-not-btc chain h = elim (Bool-cases (eq_text chain (codes "btc"))) [
  | inl e ↦ absurd (btc-not-evm (sym (ap is_evm_chain (eq_text→eq chain (codes "btc") e)) ∙ h))
  | inr e ↦ e
]

canonical_of :
    (chain t : Text) (c : ℕ) (v : Text)
    → is_evm_chain chain ≡ true
    → is_hex_string (c ∷ v) ≡ true
    → trim_space t ≡ t
    → without_0x t ≡ c ∷ v
    → eq_text t [] ≡ false
    → (canonical_signature_identity chain t ≡ codes "0x" ++ to_lower (c ∷ v))
      × (canonical_address_identity chain t ≡ codes "0x" ++ to_lower (c ∷ v))
unfolding canonical_signature_identity canonical_address_identity canonical_evm eq_text
canonical_of chain t c v e h k w z =
    let b = evm-not-btc chain e in (simp (k, w, z, b, e, h), simp (k, w, z, e, h))

spelled-nonempty : (p : Prefix) (c : ℕ) (v : Text) → eq_text (spelled p (c ∷ v)) [] ≡ false
unfolding eq_text
spelled-nonempty bare c v = refl
spelled-nonempty lower_0x c v = refl
spelled-nonempty upper_0x c v = refl

-- On an EVM chain a hexadecimal text that is not empty has one canonical form, as a hash and as an
-- address: lower case after 0x, whether it is spelled bare, after 0x or after 0X.
pub canonical_signature_identity-spelled :
    (chain : Text) (p : Prefix) (c : ℕ) (v : Text)
    → is_evm_chain chain ≡ true
    → is_hex_string (c ∷ v) ≡ true
    → (canonical_signature_identity chain (spelled p (c ∷ v)) ≡ codes "0x" ++ to_lower (c ∷ v))
      × (canonical_address_identity chain (spelled p (c ∷ v)) ≡ codes "0x" ++ to_lower (c ∷ v))
canonical_signature_identity-spelled chain p c v e h =
    canonical_of chain (spelled p (c ∷ v)) c v e h
      (trim_space_of_NoSpace (spelled p (c ∷ v)) (spelled-NoSpace p (c ∷ v) h))
      (without_0x-spelled p (c ∷ v) h) (spelled-nonempty p c v)
