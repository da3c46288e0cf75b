-- ===== src/Identity.antt =====
-- internal/pipeline/identity/identity.go: the canonical forms of transaction hashes, cursors and
-- addresses, and the negation of amounts kept as decimal text. Texts are lists of bytes. A Go
-- pointer to a string that may be nil is an option, and so is a result with an error.
use multichain_indexer.Prelude.{
  leb, if◌then◌else◌, ℤ, Text, codes, eq_text, to_lower, trim_space, strip_prefix?, ℕ, Bool, true,
  false, ◌&&◌, ◌||◌, not, Option, none, some, [], ◌∷◌, ◌++◌,
}
use multichain_indexer.Prelude.Decimal.{negate, parse_big, print_big}
pub mod Spellings
pub mod Negation

unfoldable pub is_evm_chain : Text → Bool
is_evm_chain chain =
    eq_text chain (codes "base")
    || eq_text chain (codes "ethereum")
    || eq_text chain (codes "polygon")
    || eq_text chain (codes "arbitrum")
    || eq_text chain (codes "bsc")

unfoldable pub is_hex_digit : ℕ → Bool
is_hex_digit c =
    (leb b'0' c && leb c b'9') || (leb b'a' c && leb c b'f') || (leb b'A' c && leb c b'F')

unfoldable pub is_hex_string : Text → Bool
is_hex_string [] = true
is_hex_string (c ∷ v) = is_hex_digit c && is_hex_string v

-- strings.TrimPrefix and strings.HasPrefix
unfoldable pub trim_to : Text → Option Text → Text
trim_to s none = s
trim_to s (some t) = t

unfoldable pub trim_prefix : Text → Text → Text
unfolding trim_to
trim_prefix s prefix = trim_to s (strip_prefix? s prefix)

unfoldable pub has_prefix : Text → Text → Bool
has_prefix s prefix = elim (strip_prefix? s prefix) [ none ↦ false | some _ ↦ true ]

unfoldable pub without_0x : Text → Text
without_0x trimmed = trim_prefix (trim_prefix trimmed (codes "0x")) (codes "0X")

-- What both functions do with a text of an EVM chain, once the prefix is off and something is left.
unfoldable pub canonical_evm : Text → Text → Text
canonical_evm trimmed without_prefix =
    if is_hex_string without_prefix
    then codes "0x" ++ to_lower without_prefix
    else if has_prefix trimmed (codes "0x") || has_prefix trimmed (codes "0X")
    then codes "0x" ++ to_lower without_prefix
    else trimmed

unfoldable pub canonical_signature_identity : Text → Text → Text
canonical_signature_identity chain hash =
    let trimmed = trim_space hash in
    let without_prefix = without_0x trimmed in
    if eq_text trimmed []
    then []
    else if eq_text chain (codes "btc")
    then (if eq_text without_prefix [] then [] else to_lower without_prefix)
    else if not (is_evm_chain chain)
    then trimmed
    else if eq_text without_prefix []
    then []
    else canonical_evm trimmed without_prefix

unfoldable pub non_empty : Text → Option Text
non_empty [] = none
non_empty (c ∷ s) = some (c ∷ s)

unfoldable pub canonicalize_cursor_value : Text → Option Text → Option Text
canonicalize_cursor_value chain none = none
canonicalize_cursor_value chain (some cursor) =
    non_empty (canonical_signature_identity chain cursor)

unfoldable pub canonical_address_identity : Text → Text → Text
canonical_address_identity chain address =
    let trimmed = trim_space address in
    let without_prefix = without_0x trimmed in
    if eq_text trimmed []
    then []
    else if not (is_evm_chain chain)
    then trimmed
    else if eq_text without_prefix []
    then trimmed
    else canonical_evm trimmed without_prefix

unfoldable pub negate_parsed : Option ℤ → Option Text
negate_parsed none = none
negate_parsed (some delta) = some (print_big (negate delta))

unfoldable pub negate_decimal_string : Text → Option Text
negate_decimal_string value = negate_parsed (parse_big value)

unfoldable pub is_staking_activity : Text → Bool
is_staking_activity activity_type =
    eq_text activity_type (codes "STAKE") || eq_text activity_type (codes "UNSTAKE")
