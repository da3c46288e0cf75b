-- ===== src/Ingester/Trimmed.antt =====
-- internal/pipeline/ingester/ingester.go: an amount that reads as a number has no spaces to trim, so
-- that the amount of a staking event and its negation read as opposite numbers.
use multichain_indexer.Prelude.{
  ◌==◌, Bool-cases, ◌>>=◌, ℤ, Text, is_space, trim_space, is_digit, digits_from, parse_digits, ℕ,
  ◌+◌, ◌-◌, ◌*◌, ◌≡◌, refl, sym, ap, ◌∙◌, inl, inr, false, Option, none, some, [], ◌∷◌, arith,
}
use multichain_indexer.Prelude.Decimal.{negate, some_pos, some_neg, parse_big}
use multichain_indexer.Identity.{negate_decimal_string}
use multichain_indexer.Identity.Spellings.{NoSpace, trim_space_of_NoSpace}
use multichain_indexer.Identity.Negation.{negate_decimal_string-twice}

digits_from-NoSpace : (s : Text) (acc n : ℕ) → digits_from acc s ≡ some n → NoSpace s
unfolding NoSpace digits_from is_digit is_space
digits_from-NoSpace [] acc n h = tt
digits_from-NoSpace (c ∷ s) acc n h =
    ground (arith, digits_from-NoSpace s (acc * 10 + (c - b'0')) n)

parse_digits-NoSpace : (s : Text) (n : ℕ) → parse_digits s ≡ some n → NoSpace s
unfolding parse_digits
parse_digits-NoSpace [] n h = absurd cc
parse_digits-NoSpace (c ∷ s) n h = digits_from-NoSpace (c ∷ s) 0 n h

signed-NoSpace :
    (c : ℕ) (s : Text) (n : ℕ) → is_space c ≡ false → parse_digits s ≡ some n → NoSpace (c ∷ s)
unfolding NoSpace
signed-NoSpace c s n h k = (h, parse_digits-NoSpace s n k)

some_neg-some : (o : Option ℕ) (z : ℤ) → some_neg o ≡ some z → (n : ℕ) × (o ≡ some n)
unfolding some_neg
some_neg-some none z h = absurd cc
some_neg-some (some n) z h = (n, refl)

some_pos-some : (o : Option ℕ) (z : ℤ) → some_pos o ≡ some z → (n : ℕ) × (o ≡ some n)
unfolding some_pos
some_pos-some none z h = absurd cc
some_pos-some (some n) z h = (n, refl)

parsed-NoSpace : (t : Text) (z : ℤ) → parse_big t ≡ some z → NoSpace t
unfolding parse_big is_space
parsed-NoSpace [] z h = absurd cc
parsed-NoSpace (c ∷ s) z h = elim (Bool-cases (c == b'-')) [
  | inl e ↦
      let (n, d) = some_neg-some (parse_digits s) z (simp e at h) in
      signed-NoSpace c s n (ground arith) d
  | inr e ↦ elim (Bool-cases (c == b'+')) [
    | inl f ↦
        let (n, d) = some_pos-some (parse_digits s) z (simp (e, f) at h) in
        signed-NoSpace c s n (ground arith) d
    | inr f ↦
        let (n, d) = some_pos-some (parse_digits (c ∷ s)) z (simp (e, f) at h) in
        parse_digits-NoSpace (c ∷ s) n d
  ]
]

trim_space-parsed : (t : Text) (z : ℤ) → parse_big t ≡ some z → parse_big (trim_space t) ≡ some z
trim_space-parsed t z h = simp (trim_space_of_NoSpace t (parsed-NoSpace t z h)) h

pub none-some : {A : Type 0} {a : A} → ¬ (none ≡ some a)
none-some h = cc

pub bind-some :
    {A B : Type 0} (m : Option A) (f : A → Option B) {b : B}
    → m >>= f ≡ some b
    → (a : A) × (m ≡ some a) × (f a ≡ some b)
bind-some none f h = absurd cc
bind-some (some a) f h = (a, refl, h)

pub some-injective : {A : Type 0} {a b : A} → some a ≡ some b → a ≡ b
some-injective h = cc

pub stake_delta-negate :
    (delta inverted : Text) (d s : ℤ)
    → negate_decimal_string delta ≡ some inverted
    → parse_big (trim_space inverted) ≡ some s
    → parse_big (trim_space delta) ≡ some d
    → s ≡ negate d
stake_delta-negate delta inverted d s h p q =
    let (z, e, n, m) = negate_decimal_string-twice delta inverted h in
    let same : z ≡ d = some-injective (sym (trim_space-parsed delta z e) ∙ q) in
    let minus : s ≡ negate z = some-injective (sym p ∙ trim_space-parsed inverted (negate z) n) in
    minus ∙ ap negate same
