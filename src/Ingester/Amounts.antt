-- ===== src/Ingester/Amounts.antt =====
-- internal/pipeline/ingester/ingester.go: the tests and sums on one event's amount. `json_signal` is what decoding
-- the raw metadata of an event yields under "scam_signal", empty where it yields nothing.
use multichain_indexer.Prelude.{
  ltb, leb, ◌==◌, if◌then◌else◌, length, ℤ, pos, ◌+ℤ◌, eqb_ℤ, Text, codes, eq_text, to_lower,
  trim_space, ℕ, Bool, true, false, ◌&&◌, ◌||◌, not, Option, none, some, [], ◌∷◌,
}
use multichain_indexer.Prelude.Decimal.{parse_big, print_big}
use multichain_indexer.Ingester.{NormalizedBalanceEvent, chain_btc, chain_solana, token_type_native}

-- The digits of a printed number: all of it but a minus sign.
unfoldable pub digits_part : Text → Text
digits_part [] = []
digits_part (c ∷ s) = if c == b'-' then s else c ∷ s

unfoldable pub checked : ℤ → Option Text
checked sum =
    let result = print_big sum in if ltb 78 (length (digits_part result)) then none else some result

unfoldable pub add_parsed : Option ℤ → Option ℤ → Option Text
add_parsed none right = none
add_parsed (some left) none = none
add_parsed (some left) (some right) = checked (left +ℤ right)

unfoldable pub add_decimal_strings : Text → Text → Option Text
add_decimal_strings a b = add_parsed (parse_big (trim_space a)) (parse_big (trim_space b))

unfoldable pub finality_state_rank : Text → ℕ
finality_state_rank state =
    let s = to_lower (trim_space state) in
    if eq_text s []
    then 4
    else if eq_text s (codes "processed")
        || eq_text s (codes "pending")
        || eq_text s (codes "latest")
        || eq_text s (codes "unsafe")
    then 1
    else if eq_text s (codes "confirmed") || eq_text s (codes "accepted")
    then 2
    else if eq_text s (codes "safe")
    then 3
    else if eq_text s (codes "finalized")
    then 4
    else 0

unfoldable pub is_nonzero : Option ℤ → Bool
is_nonzero none = false
is_nonzero (some v) = not (eqb_ℤ v (pos 0))

unfoldable pub meets_balance_threshold : Text → Text → Text → Text → Bool
meets_balance_threshold chain finality token_type amount =
    let finality_ok = eq_text chain chain_solana || leb 2 (finality_state_rank finality) in
    if not finality_ok
    then false
    else if eq_text token_type token_type_native
    then true
    else is_nonzero (parse_big (trim_space amount))

-- A minus sign with something behind it that is not "0"
unfoldable pub looks_negative : Text → Bool
looks_negative [] = false
looks_negative (c ∷ []) = false
looks_negative (c ∷ d ∷ s) = c == b'-' && not (eq_text (d ∷ s) (codes "0"))

unfoldable pub or_signal : Text → Text → Text
or_signal [] signal = signal
or_signal (c ∷ s) signal = c ∷ s

module _ (json_signal : Text → Text) where
  unfoldable pub metadata_signal : Option Text → Text
  metadata_signal none = []
  metadata_signal (some chain_data) = json_signal chain_data

  unfoldable pub detect_scam_signal : Text → NormalizedBalanceEvent → Bool → Text
  detect_scam_signal chain be balance_exists =
      if eq_text be.token_type token_type_native
      then []
      else if eq_text chain chain_btc
      then []
      else or_signal (metadata_signal be.chain_data) (
          if looks_negative (trim_space be.delta) && not balance_exists
          then codes "zero_balance_withdrawal"
          else [])

unfoldable pub native_token_contract : Text → Text
native_token_contract ch =
    if eq_text ch chain_solana
    then codes "So11111111111111111111111111111111111111112"
    else if eq_text ch chain_btc
    then codes "btc_native"
    else codes "0x0000000000000000000000000000000000000000"

unfoldable pub native_token_symbol : Text → Text
native_token_symbol ch =
    if eq_text ch chain_solana
    then codes "SOL"
    else if eq_text ch (codes "ethereum")
        || eq_text ch (codes "base")
        || eq_text ch (codes "arbitrum")
    then codes "ETH"
    else if eq_text ch (codes "polygon")
    then codes "MATIC"
    else if eq_text ch (codes "bsc")
    then codes "BNB"
    else if eq_text ch chain_btc
    then codes "BTC"
    else codes "NATIVE"

unfoldable pub native_token_name : Text → Text
native_token_name ch =
    if eq_text ch chain_solana
    then codes "Solana"
    else if eq_text ch (codes "ethereum")
        || eq_text ch (codes "base")
        || eq_text ch (codes "arbitrum")
    then codes "Ether"
    else if eq_text ch (codes "polygon")
    then codes "MATIC"
    else if eq_text ch (codes "bsc")
    then codes "BNB"
    else if eq_text ch chain_btc
    then codes "Bitcoin"
    else codes "Native Token"

unfoldable pub native_token_decimals : Text → ℤ
native_token_decimals ch =
    if eq_text ch chain_solana then pos 9 else if eq_text ch chain_btc then pos 8 else pos 18

unfoldable pub or_text : Text → Text → Text
or_text [] other = other
or_text (c ∷ s) other = c ∷ s

unfoldable pub default_token_symbol : NormalizedBalanceEvent → Text
default_token_symbol be =
    or_text be.token_symbol
      (if eq_text be.token_type token_type_native then codes "SOL" else codes "UNKNOWN")

unfoldable pub default_token_name : NormalizedBalanceEvent → Text
default_token_name be =
    or_text be.token_name
      (if eq_text be.token_type token_type_native then codes "Solana" else codes "Unknown Token")
