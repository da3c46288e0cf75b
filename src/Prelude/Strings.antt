-- ===== src/Prelude/Strings.antt =====
-- Go strings as lists of bytes, with the functions of the packages strings and strconv that the
-- sources call. `to_lower` and `trim_space` follow Go on ASCII text.
use Prim.Native.Nat.{ℕ, zero, suc, ◌+◌, ◌-◌, ◌*◌, ◌^◌}
use Prim.Native.Char.{code}
use Prim.Native.String.{String}
use mathlib.Core.Path.{◌≡◌, refl}
use mathlib.Core.Logic.{◌↔◌, ◌⊎◌, inl, inr}
use mathlib.Core.Bool.{Bool, true, false, ◌&&◌, ◌||◌}
use mathlib.Core.List.{List, [], ◌∷◌, map, reverse}
use mathlib.Core.Option.{Option, none, some}
use native.Mathlib.Omega.{arith}
use multichain_indexer.Prelude.Tests.{ltb, leb, ◌==◌, if◌then◌else◌, Bool-cases}
use multichain_indexer.Prelude.Int.{ℤ, pos, negsuc}

abbrev pub Text : Type 0
Text = List ℕ

-- The code points of a literal: its bytes, since the literals of the sources are ASCII.
abbrev pub codes : String → Text
codes String.[] = []
codes (String.◌∷◌ c s) = code c ∷ codes s

unfoldable pub eq_text : Text → Text → Bool
eq_text [] [] = true
eq_text (a ∷ s) (b ∷ t) = (a == b) && eq_text s t
eq_text _ _ = false

pub eq_text_refl : (s : Text) → eq_text s s ≡ true
unfolding eq_text
eq_text_refl [] = refl
eq_text_refl (a ∷ s) = ground (arith, eq_text_refl s)

pub eq_text→eq : (s t : Text) → eq_text s t ≡ true → s ≡ t
unfolding eq_text
eq_text→eq [] [] h = refl
eq_text→eq [] (b ∷ t) h = cc
eq_text→eq (a ∷ s) [] h = cc
eq_text→eq (a ∷ s) (b ∷ t) h = ground (arith, eq_text→eq s t)

pub eq_text_iff : (s t : Text) → (eq_text s t ≡ true) ↔ (s ≡ t)
eq_text_iff s t = (eq_text→eq s t, λ e. rw e (eq_text_refl t))

pub text-cases : (a b : Text) → (eq_text a b ≡ true) × (a ≡ b) ⊎ (eq_text a b ≡ false) × (¬ (a ≡ b))
text-cases a b = elim (Bool-cases (eq_text a b)) [
  | inl h ↦ inl (h, eq_text→eq a b h)
  | inr h ↦ inr (h, λ e. cc (h, (eq_text_iff a b).1 e))
]

-- strings.ToLower
unfoldable pub to_lower_byte : ℕ → ℕ
to_lower_byte c = if leb b'A' c && leb c b'Z' then c + 32 else c

unfoldable pub to_lower : Text → Text
unfolding to_lower_byte
to_lower = map to_lower_byte

-- strings.TrimSpace
unfoldable pub is_space : ℕ → Bool
is_space c = c == 32 || (leb 9 c && leb c 13)

unfoldable pub trim_left : Text → Text
trim_left [] = []
trim_left (c ∷ s) = elim (is_space c) [ true ↦ trim_left s | false ↦ c ∷ s ]

unfoldable pub trim_space : Text → Text
unfolding trim_left is_space
trim_space s = reverse (trim_left (reverse (trim_left s)))

-- strings.HasPrefix and strings.TrimPrefix
unfoldable pub strip_prefix? : Text → Text → Option Text
strip_prefix? s [] = some s
strip_prefix? [] (p ∷ ps) = none
strip_prefix? (c ∷ s) (p ∷ ps) = if c == p then strip_prefix? s ps else none

-- strings.Split at a one-byte separator
cut_head : ℕ → List Text → List Text
cut_head c [] = (c ∷ []) ∷ []
cut_head c (w ∷ ws) = (c ∷ w) ∷ ws

unfoldable pub split : Text → ℕ → List Text
unfolding cut_head
split [] sep = [] ∷ []
split (c ∷ s) sep = let rest = split s sep in if c == sep then [] ∷ rest else cut_head c rest

-- strings.Cut at a one-byte separator: what stands before and after its first place
before_first : ℕ → Option (Text × Text) → Option (Text × Text)
before_first c none = none
before_first c (some (k, v)) = some (c ∷ k, v)

unfoldable pub cut : Text → ℕ → Option (Text × Text)
unfolding before_first
cut [] sep = none
cut (c ∷ s) sep = let rest = cut s sep in if c == sep then some ([], s) else before_first c rest

-- strconv.ParseInt at base 10 and 64 bits; `none` is a syntax or a range error
unfoldable pub is_digit : ℕ → Bool
is_digit c = leb b'0' c && leb c b'9'

unfoldable pub digits_from : ℕ → Text → Option ℕ
unfolding is_digit
digits_from acc [] = some acc
digits_from acc (c ∷ s) = elim (is_digit c) [
  | true ↦ digits_from (acc * 10 + (c - b'0')) s
  | false ↦ none
]

unfoldable pub parse_digits : Text → Option ℕ
unfolding digits_from
parse_digits [] = none
parse_digits (c ∷ s) = digits_from 0 (c ∷ s)

unfoldable pub in_range : Option ℕ → Option ℤ
in_range none = none
in_range (some n) = if ltb n (2 ^ 63) then some (pos n) else none

unfoldable pub in_range_neg : Option ℕ → Option ℤ
in_range_neg none = none
in_range_neg (some zero) = some (pos 0)
in_range_neg (some (suc n)) = if ltb n (2 ^ 63) then some (negsuc n) else none

unfoldable pub parse_int : Text → Option ℤ
unfolding parse_digits in_range in_range_neg
parse_int [] = none
parse_int (c ∷ s) =
    if c == b'-'
    then in_range_neg (parse_digits s)
    else if c == b'+'
    then in_range (parse_digits s)
    else in_range (parse_digits (c ∷ s))
