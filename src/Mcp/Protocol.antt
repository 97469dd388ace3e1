-- ===== src/Mcp/Protocol.antt =====
-- src/lib/mcp/protocol.ts: the envelope of JSON-RPC.
use openipaas.Prelude.{
  String, Bool, true, false, Option, none, some, List, [], ◌∷◌, ◌==◌, if◌then◌else◌,
}
use openipaas.Prelude.Text.{includes, is_empty}
use openipaas.Mcp.Json.{Json, Fields, get, or_else}

abbrev pub supported_protocol_versions : List String
supported_protocol_versions = "2025-06-18" ∷ "2025-03-26" ∷ "2024-11-05" ∷ []

abbrev pub latest_protocol_version : String
latest_protocol_version = "2025-06-18"

-- The reserved codes that the server uses.
pub data JsonRpcError : Type 0 where
  parse_error invalid_request method_not_found invalid_params internal_error : JsonRpcError

pub record JsonRpcRequest : Type 0 where
  pub id : Option Json
  pub method : String
  pub params : Option Fields

pub data Outcome : Type 0 where
  result_of : Json → Outcome
  error_of : JsonRpcError → (message : String) → Outcome

pub record JsonRpcResponse : Type 0 where
  pub id : Json
  pub outcome : Outcome

abbrev pub is_notification : JsonRpcRequest → Bool
is_notification message = elim (or_else Json.null message.id) [ Json.null ↦ true | _ ↦ false ]

pub data Parsed : Type 0 where
  message : JsonRpcRequest → Parsed
  error : String → Parsed

-- An id that is missing, null, a text or a number.
abbrev is_id : Option Json → Bool
is_id none = true
is_id (some Json.null) = true
is_id (some (Json.text s)) = true
is_id (some (Json.number n)) = true
is_id (some _) = false

with_params : Option Json → String → Option Json → Parsed
with_params id method none = message (record { id = id; method = method; params = none })
with_params id method (some (Json.object fields)) =
    message (record { id = id; method = method; params = some fields })
with_params id method (some _) = error "params must be an object"

with_method : Fields → Option Json → Parsed
unfolding get with_params
with_method fields (some (Json.text method)) =
    if is_empty method
    then error "method is required"
    else if is_id (get "id" fields)
    then with_params (get "id" fields) method (get "params" fields)
    else error "id must be a string, a number or null"
with_method fields _ = error "method is required"

is_version_2 : Option Json → Bool
is_version_2 (some (Json.text version)) = version == "2.0"
is_version_2 _ = false

unfoldable pub parse_message : Json → Parsed
unfolding get with_method is_version_2
parse_message (Json.object fields) =
    if is_version_2 (get "jsonrpc" fields)
    then with_method fields (get "method" fields)
    else error "jsonrpc must be \"2.0\""
parse_message _ = error "Expected a single JSON-RPC object"

abbrev pub result : Option Json → Json → JsonRpcResponse
result id payload = record { id = or_else Json.null id; outcome = result_of payload }

abbrev pub failure : Option Json → JsonRpcError → String → JsonRpcResponse
failure id code reason = record { id = or_else Json.null id; outcome = error_of code reason }

unfoldable pub negotiate_version : Option Json → String
negotiate_version (some (Json.text requested)) =
    if includes supported_protocol_versions requested then requested else latest_protocol_version
negotiate_version _ = latest_protocol_version
