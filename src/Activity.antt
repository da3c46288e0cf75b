-- ===== src/Activity.antt =====
-- internal/domain/model/activity_classifier.go: the activity that an event is recorded as.
use multichain_indexer.Prelude.{
  if◌then◌else◌, ℤ, pos, ltb_ℤ, Text, codes, eq_text, trim_space, Bool, false, not, Option, none,
  some,
}
use multichain_indexer.Prelude.Decimal.{parse_big}

unfoldable pub is_positive : Option ℤ → Bool
is_positive none = false
is_positive (some v) = ltb_ℤ (pos 0) v

-- An empty text is no number, so that the source's test for it needs no line here.
unfoldable pub delta_is_positive : Text → Bool
delta_is_positive delta = is_positive (parse_big (trim_space delta))

unfoldable pub classify_activity : Text → Text → Bool → Text
classify_activity category delta address_is_watched =
    if eq_text category (codes "TRANSFER")
    then (if not address_is_watched
        then codes "OTHER"
        else if delta_is_positive delta
        then codes "DEPOSIT"
        else codes "WITHDRAWAL")
    else if eq_text category (codes "STAKE")
    then (if delta_is_positive delta then codes "UNSTAKE" else codes "STAKE")
    else if eq_text category (codes "REWARD")
    then codes "CLAIM_REWARD"
    else if eq_text category (codes "FEE")
    then codes "FEE"
    else if eq_text category (codes "fee_execution_l2")
    then codes "FEE_EXECUTION_L2"
    else if eq_text category (codes "fee_data_l1")
    then codes "FEE_DATA_L1"
    else if eq_text category (codes "SWAP")
    then codes "SWAP"
    else if eq_text category (codes "MINT")
    then codes "MINT"
    else if eq_text category (codes "BURN")
    then codes "BURN"
    else codes "OTHER"
