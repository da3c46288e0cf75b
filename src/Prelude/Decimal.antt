-- ===== src/Prelude/Decimal.antt =====
-- Go's math/big integers: Int.SetString at base 10 and Int.String. A number has no bound here, and
-- a text with a sign, then one digit or more, is a number.
use multichain_indexer.Prelude.{
  ltb, ◌==◌, if◌then◌else◌, length, length-append, ℤ, pos, negsuc, Text, is_digit, digits_from,
  parse_digits, ℕ, zero, suc, ◌+◌, ◌-◌, ◌*◌, ◌/◌, ◌%◌, ◌^◌, ◌≤◌, ◌<◌, ◌≡◌, ◌↔◌, Option, none, some,
  [], ◌∷◌, ◌++◌, arith,
}
use multichain_indexer.Prelude.Strings.{}

abbrev pub negate : ℤ → ℤ
negate (pos zero) = pos 0
negate (pos (suc n)) = negsuc n
negate (negsuc n) = pos (suc n)

unfoldable pub some_pos : Option ℕ → Option ℤ
some_pos none = none
some_pos (some n) = some (pos n)

unfoldable pub some_neg : Option ℕ → Option ℤ
some_neg none = none
some_neg (some n) = some (negate (pos n))

-- Int.SetString(value, 10)
unfoldable pub parse_big : Text → Option ℤ
unfolding some_pos some_neg
parse_big [] = none
parse_big (c ∷ s) =
    if c == b'-'
    then some_neg (parse_digits s)
    else if c == b'+'
    then some_pos (parse_digits s)
    else some_pos (parse_digits (c ∷ s))

-- The digits of a number, on fuel: a number below the fuel has all its digits printed.
unfoldable pub digits_of : ℕ → ℕ → Text
digits_of zero n = []
digits_of (suc fuel) n =
    let front = digits_of fuel (n / 10) in
    if ltb n 10 then (b'0' + n) ∷ [] else front ++ (b'0' + n % 10) ∷ []

unfoldable pub print_digits : ℕ → Text
print_digits n = digits_of (suc n) n

-- Int.String
unfoldable pub print_big : ℤ → Text
print_big (pos n) = print_digits n
print_big (negsuc n) = b'-' ∷ print_digits (suc n)

push_digit : ℕ → Option ℕ → Option ℕ
push_digit d none = none
push_digit d (some m) = some (m * 10 + d)

digits_from_snoc :
    (s : Text) (acc d : ℕ)
    → d < 10
    → digits_from acc (s ++ (b'0' + d) ∷ []) ≡ push_digit d (digits_from acc s)
unfolding digits_from is_digit push_digit
digits_from_snoc [] acc d h = ground arith
digits_from_snoc (c ∷ s) acc d h = ground (arith, digits_from_snoc s (acc * 10 + (c - b'0')) d)

digits_from-digits_of : (fuel n : ℕ) → n < fuel → digits_from 0 (digits_of fuel n) ≡ some n
unfolding digits_of digits_from is_digit push_digit
digits_from-digits_of zero n h = absurd (omega arith)
digits_from-digits_of (suc fuel) n h = ground (
  arith,
  digits_from_snoc (digits_of fuel (n / 10)) 0 (n % 10),
  digits_from-digits_of fuel (n / 10),
)

length-digits_of_le : (k fuel n : ℕ) → n < 10 * 10 ^ k → length (digits_of fuel n) ≤ suc k
unfolding digits_of
length-digits_of_le k zero n h = omega arith
length-digits_of_le zero (suc fuel) n h = ground arith
length-digits_of_le (suc k) (suc fuel) n h = ground (
  arith,
  length-digits_of_le k fuel (n / 10),
  length-append (digits_of fuel (n / 10)) ((b'0' + n % 10) ∷ []),
)

pow_step : (k : ℕ) → 10 ^ suc k ≡ 10 * 10 ^ k
pow_step k = omega arith

pow_pos : (k : ℕ) → 1 ≤ 10 ^ k
pow_pos zero = omega arith
pow_pos (suc k) = omega (arith, pow_pos k, pow_step k)

length-digits_of_ge : (k fuel n : ℕ) → n < fuel → 10 ^ k ≤ n → suc k ≤ length (digits_of fuel n)
unfolding digits_of
length-digits_of_ge k zero n f h = absurd (omega arith)
length-digits_of_ge zero (suc fuel) n f h =
    ground (arith, length-append (digits_of fuel (n / 10)) ((b'0' + n % 10) ∷ []))
length-digits_of_ge (suc k) (suc fuel) n f h = ground (
  arith,
  pow_pos k,
  pow_step k,
  length-digits_of_ge k fuel (n / 10),
  length-append (digits_of fuel (n / 10)) ((b'0' + n % 10) ∷ []),
)

-- A number has at most k + 1 digits exactly when it is below 10 ^ (k + 1).
pub length-print_digits : (k n : ℕ) → (length (print_digits n) ≤ suc k) ↔ (n < 10 * 10 ^ k)
unfolding print_digits
length-print_digits k n =
    ground
      (arith, pow_step k, length-digits_of_le k (suc n) n, length-digits_of_ge (suc k) (suc n) n)

print_digits-nonempty : (n : ℕ) → 0 < length (print_digits n)
unfolding print_digits digits_of
print_digits-nonempty n =
    ground (arith, length-append (digits_of n (n / 10)) ((b'0' + n % 10) ∷ []))

parse_digits_of :
    (t : Text) (n : ℕ) → 0 < length t → digits_from 0 t ≡ some n → parse_digits t ≡ some n
unfolding parse_digits
parse_digits_of [] n l h = absurd (omega arith)
parse_digits_of (c ∷ t) n l h = h

parse_big_of :
    (t : Text) (n : ℕ) → 0 < length t → digits_from 0 t ≡ some n → parse_big t ≡ some (pos n)
unfolding parse_big parse_digits some_pos some_neg digits_from is_digit
parse_big_of [] n l h = absurd (omega arith)
parse_big_of (c ∷ t) n l h = ground arith

pub parse_digits-print_digits : (n : ℕ) → parse_digits (print_digits n) ≡ some n
unfolding print_digits
parse_digits-print_digits n =
    parse_digits_of (print_digits n) n (print_digits-nonempty n)
      (digits_from-digits_of (suc n) n (omega arith))

pub parse_big-print_big : (z : ℤ) → parse_big (print_big z) ≡ some z
unfolding parse_big print_big some_neg print_digits
parse_big-print_big (pos n) =
    parse_big_of (print_digits n) n (print_digits-nonempty n)
      (digits_from-digits_of (suc n) n (omega arith))
parse_big-print_big (negsuc n) = simp (parse_digits-print_digits (suc n))
