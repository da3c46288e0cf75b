-- ===== src/Retry/Codes.antt =====
-- internal/pipeline/retry/retry.go: the JSON-RPC codes that are worth another attempt.
use multichain_indexer.Prelude.{ℤ, negsuc, ◌≤ℤ◌, leb_ℤ, eqb_ℤ, ◌≡◌, ◌↔◌, ◌⊎◌, true, arith}
use multichain_indexer.Retry.{is_transient, classify_json_rpc_code}

-- A code is transient exactly when it is -32603 or lies between -32099 and -32000.
pub is_transient-classify_json_rpc_code :
    (code : ℤ)
    → (is_transient (classify_json_rpc_code code) ≡ true)
      ↔ ((code ≡ negsuc 32602) ⊎ ((negsuc 32098 ≤ℤ code) × (code ≤ℤ negsuc 31999)))
unfolding is_transient classify_json_rpc_code eqb_ℤ leb_ℤ
is_transient-classify_json_rpc_code code = ground arith
