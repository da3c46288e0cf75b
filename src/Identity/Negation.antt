-- ===== src/Identity/Negation.antt =====
-- internal/pipeline/identity/identity.go: negating an amount, and back.
use multichain_indexer.Prelude.{ℤ, pos, negsuc, Text, zero, suc, ◌≡◌, refl, Option, none, some}
use multichain_indexer.Prelude.Decimal.{negate, parse_big, print_big, parse_big-print_big}
use multichain_indexer.Identity.{negate_parsed, negate_decimal_string}

negate-negate : (z : ℤ) → negate (negate z) ≡ z
negate-negate (pos zero) = refl
negate-negate (pos (suc n)) = refl
negate-negate (negsuc n) = refl

negated_of :
    (p : Option ℤ) (negated : Text)
    → negate_parsed p ≡ some negated
    → (z : ℤ) × (p ≡ some z) × (negated ≡ print_big (negate z))
unfolding negate_parsed
negated_of none negated h = absurd cc
negated_of (some z) negated h = (z, refl, cc)

-- A negation that succeeds reads as the negative of the number that the text reads as, and
-- negating it again gives that number in its printed form.
pub negate_decimal_string-twice :
    (value negated : Text)
    → negate_decimal_string value ≡ some negated
    → (z : ℤ) × (parse_big value ≡ some z)
      × (parse_big negated ≡ some (negate z))
      × (negate_decimal_string negated ≡ some (print_big z))
unfolding negate_decimal_string negate_parsed
negate_decimal_string-twice value negated h =
    let (z, e, n) = negated_of (parse_big value) negated h in
    let back : parse_big negated ≡ some (negate z) = rw n (parse_big-print_big (negate z)) in
    (z, e, back, simp (back, negate-negate z))
