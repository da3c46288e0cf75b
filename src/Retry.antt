-- ===== src/Retry.antt =====
-- internal/pipeline/retry/retry.go: which errors are worth another attempt. What errors.As, errors.Is
-- and status.FromError find in an error is a record beside its message.
use multichain_indexer.Prelude.{
  if◌then◌else◌, ℤ, negsuc, leb_ℤ, eqb_ℤ, Text, codes, eq_text, to_lower, strip_prefix?, Bool, true,
  false, ◌&&◌, ◌||◌, Option, none, some, List, [], ◌∷◌, ◌++◌,
}
pub mod Codes

pub data Class : Type 0 where
  terminal transient : Class

pub record Classified : Type 0 where
  pub class : Class
  pub reason : Text

-- `marked` is a mark of Transient or Terminal, `grpc` the name of a status code in lower case, and
-- the two codes are those of the JSON-RPC errors of the clients.
pub record Failure : Type 0 where
  pub marked : Option Classified
  pub canceled : Bool
  pub deadline_exceeded : Bool
  pub grpc : Option Text
  pub net_timeout : Bool
  pub solana_code : Option ℤ
  pub base_code : Option ℤ
  pub message : Text

abbrev pub as_terminal : Text → Classified
as_terminal reason = record { class = terminal; reason = reason }

abbrev pub as_transient : Text → Classified
as_transient reason = record { class = transient; reason = reason }

unfoldable pub is_transient : Classified → Bool
is_transient d = elim d.class [ terminal ↦ false | transient ↦ true ]

-- strings.Contains
unfoldable pub starts : Option Text → Bool
starts none = false
starts (some rest) = true

unfoldable pub contains : Text → Text → Bool
contains [] token = starts (strip_prefix? [] token)
contains (c ∷ s) token = starts (strip_prefix? (c ∷ s) token) || contains s token

unfoldable pub contains_any : Text → List Text → Bool
contains_any msg [] = false
contains_any msg (t ∷ ts) = contains msg t || contains_any msg ts

unfoldable pub transient_message_tokens : List Text
transient_message_tokens =
    codes "timeout"
    ∷ codes "timed out"
    ∷ codes "temporar"
    ∷ codes "temporary"
    ∷ codes "unavailable"
    ∷ codes "connection reset"
    ∷ codes "connection refused"
    ∷ codes "broken pipe"
    ∷ codes "econnreset"
    ∷ codes "econnrefused"
    ∷ codes "too many requests"
    ∷ codes "rate limit"
    ∷ codes "payload too large"
    ∷ codes "http status 429"
    ∷ codes "http status 502"
    ∷ codes "http status 503"
    ∷ codes "http status 504"
    ∷ codes "server closed idle connection"
    ∷ []

unfoldable pub terminal_message_tokens : List Text
terminal_message_tokens =
    codes "decode blocked"
    ∷ codes "length mismatch"
    ∷ codes "no decodable transactions"
    ∷ codes "invalid argument"
    ∷ codes "invalid params"
    ∷ codes "method not found"
    ∷ codes "parse error"
    ∷ codes "schema mismatch"
    ∷ codes "execution reverted"
    ∷ codes "insufficient funds"
    ∷ codes "not found"
    ∷ codes "constraint violation"
    ∷ []

unfoldable pub is_transient_status : Text → Bool
is_transient_status code =
    eq_text code (codes "unavailable")
    || eq_text code (codes "deadlineexceeded")
    || eq_text code (codes "resourceexhausted")
    || eq_text code (codes "aborted")
    || eq_text code (codes "internal")

unfoldable pub classify_status : Text → Classified
classify_status code =
    if is_transient_status code
    then as_transient (codes "grpc_" ++ code)
    else as_terminal (codes "grpc_" ++ code)

unfoldable pub classify_json_rpc_code : ℤ → Classified
classify_json_rpc_code code =
    if eqb_ℤ code (negsuc 32602) || eqb_ℤ code (negsuc 32004)
    then as_transient (codes "jsonrpc_server_transient")
    else if leb_ℤ code (negsuc 31999) && leb_ℤ (negsuc 32098) code
    then as_transient (codes "jsonrpc_server_range")
    else as_terminal (codes "jsonrpc_terminal")

unfoldable pub classify_message : Text → Classified
classify_message lower =
    if contains_any lower terminal_message_tokens
    then as_terminal (codes "message_terminal")
    else if contains_any lower transient_message_tokens
    then as_transient (codes "message_transient")
    else as_terminal (codes "unknown_terminal_default")

unfoldable pub classify_codes : Failure → Option ℤ → Option ℤ → Classified
classify_codes f (some code) base = classify_json_rpc_code code
classify_codes f none (some code) = classify_json_rpc_code code
classify_codes f none none = classify_message (to_lower f.message)

unfoldable pub classify_client : Failure → Option Text → Classified
classify_client f (some code) = classify_status code
classify_client f none =
    if f.net_timeout
    then as_transient (codes "net_timeout")
    else classify_codes f f.solana_code f.base_code

unfoldable pub classify_marked : Failure → Option Classified → Classified
classify_marked f (some d) = d
classify_marked f none =
    if f.canceled
    then as_terminal (codes "context_canceled")
    else if f.deadline_exceeded
    then as_transient (codes "context_deadline_exceeded")
    else classify_client f f.grpc

-- Classify; `none` is the nil error.
unfoldable pub classify : Option Failure → Classified
classify none = as_terminal (codes "nil_error")
classify (some f) = classify_marked f f.marked
