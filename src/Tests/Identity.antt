-- ===== src/Tests/Identity.antt =====
-- internal/pipeline/identity/identity.go on concrete texts.
use multichain_indexer.Prelude.{codes, eq_text, to_lower, trim_space, strip_prefix?, ◌≡◌, refl}
use multichain_indexer.Identity.{
  is_evm_chain, is_hex_digit, is_hex_string, trim_prefix, without_0x, canonical_signature_identity,
  canonical_address_identity,
}
use multichain_indexer.Identity.Spellings.{upper_0x, canonical_signature_identity-spelled}

canonical_signature_identity-spelled_example :
    (canonical_signature_identity (codes "base") (codes "0XaB") ≡ codes "0xab")
    × (canonical_address_identity (codes "base") (codes "0XaB") ≡ codes "0xab")
unfolding to_lower is_evm_chain eq_text is_hex_string is_hex_digit
canonical_signature_identity-spelled_example =
    canonical_signature_identity-spelled (codes "base") upper_0x b'a' (codes "B") refl refl

btc_hash : canonical_signature_identity (codes "btc") (codes " 0xAB ") ≡ codes "ab"
unfolding canonical_signature_identity eq_text trim_space without_0x trim_prefix strip_prefix?
    to_lower
btc_hash = refl
