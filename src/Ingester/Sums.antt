-- ===== src/Ingester/Sums.antt =====
-- internal/pipeline/ingester/ingester.go: addDecimalStrings adds, and refuses what a column of type
-- numeric(78,0) does not hold.
use multichain_indexer.Prelude.{
  ltb, Bool-cases, length, ℤ, pos, negsuc, pos_part, neg_part, ◌+ℤ◌, Text, trim_space, is_digit,
  digits_from, parse_digits, ℕ, suc, ◌^◌, ◌≤◌, ◌<◌, ◌≡◌, refl, sym, ◌↔◌, inl, inr, none, some, [],
  ◌∷◌, arith,
}
use multichain_indexer.Prelude.Decimal.{
  parse_big, print_digits, print_big, length-print_digits, parse_digits-print_digits,
  parse_big-print_big,
}
use multichain_indexer.Ingester.Amounts.{digits_part, checked, add_parsed, add_decimal_strings}

-- The numbers of at most 78 digits.
abbrev pub InNumeric : ℤ → Type 0
InNumeric z = (pos_part z < 10 ^ 78) × (neg_part z < 10 ^ 78)

digits_part-parsed : (t : Text) (n : ℕ) → parse_digits t ≡ some n → digits_part t ≡ t
unfolding digits_part parse_digits digits_from is_digit
digits_part-parsed [] n h = refl
digits_part-parsed (c ∷ t) n h = ground arith

digits_part-print_big : (z : ℤ) → (length (digits_part (print_big z)) ≤ 78) ↔ InNumeric z
unfolding digits_part print_big
digits_part-print_big (pos n) =
    let own = digits_part-parsed (print_digits n) n (parse_digits-print_digits n) in
    let (to, from) = length-print_digits 77 n in
    (λ h. (to (rw (sym own) h), omega arith), λ h. simp own (from h.0))
digits_part-print_big (negsuc n) =
    let (to, from) = length-print_digits 77 (suc n) in (λ h. (omega arith, to h), λ h. from h.1)

pub checked_lem :
    (sum : ℤ)
    → (InNumeric sum → checked sum ≡ some (print_big sum)) × (¬ InNumeric sum → checked sum ≡ none)
unfolding checked
checked_lem sum =
    let (to, from) = digits_part-print_big sum in
    elim (Bool-cases (ltb 78 (length (digits_part (print_big sum))))) [
      | inl e ↦
          let long : 78 < length (digits_part (print_big sum)) = ground arith in
          (λ h. let short = from h in absurd (omega arith), λ h. simp e)
      | inr e ↦
          let short : length (digits_part (print_big sum)) ≤ 78 = ground arith in
          (λ h. simp e, λ h. absurd (h (to short)))
    ]

-- For texts that are numbers once trimmed, the sum is refused exactly where it has more than 78
-- digits; elsewhere the result reads as the sum and has 78 digits at most.
pub add_decimal_strings_lem :
    (a b : Text) (left right : ℤ)
    → parse_big (trim_space a) ≡ some left
    → parse_big (trim_space b) ≡ some right
    → (InNumeric (left +ℤ right)
        → (c : Text) × (add_decimal_strings a b ≡ some c)
          × (parse_big c ≡ some (left +ℤ right))
          × (length (digits_part c) ≤ 78))
      × (¬ InNumeric (left +ℤ right) → add_decimal_strings a b ≡ none)
unfolding add_decimal_strings add_parsed
add_decimal_strings_lem a b left right h k =
    let (fits, over) = checked_lem (left +ℤ right) in
    (
      λ n. (
        print_big (left +ℤ right),
        simp (h, k, fits n),
        parse_big-print_big (left +ℤ right),
        (digits_part-print_big (left +ℤ right)).1 n,
      ),
      λ n. simp (h, k, over n),
    )
