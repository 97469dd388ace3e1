-- ===== src/Mcp/Server.antt =====
-- src/lib/mcp/server.ts: the call of a tool, over one connection or all those of a client.
-- `W` is the world that the providers' methods act on.
pub mod Dispatch
pub mod Calls
use openipaas.Prelude.{
  ℕ, String, Bool, true, false, ◌&&◌, ◌||◌, not, Option, none, some, List, [], ◌∷◌, ◌++◌, ◌==◌, ltb,
  eqb, if◌then◌else◌, is_some, get_or, any, filter, length, map,
}
use openipaas.Prelude.Text
use openipaas.Prelude.Text.{starts_with, to_lower_case, join, is_empty}
use openipaas.Scopes.{
  ScopeAction, ScopeResource, action_name, resource_name, allows, describe_scopes,
}
use openipaas.Providers.Errors.{ProviderError, code_text}
use openipaas.Providers.Manifests.{Manifest, ResourceName, resource_text}
use openipaas.Mcp.Json.{
  Json, Items, Fields, get, is_truthy, boolean, text, array, object, record_of, fields,
}
use openipaas.Mcp.Json
use openipaas.Mcp.Protocol.{
  JsonRpcError, invalid_params, method_not_found, JsonRpcRequest, JsonRpcResponse, result, failure,
  negotiate_version,
}
use openipaas.Mcp.Tools.{
  McpTool, ToolBinding, raw, resource_call, scope_for_binding, tools_for, binding_for, call_args,
}
use openipaas.Mcp.Tools.Schemas.{is_incremental, concat}

-- What a provider's method ends with.
pub data Reply : Type 0 where
  returned : Json → Reply
  raised : ProviderError → Reply
  crashed : Reply

module _ (W : Type 0) where
  pub record McpConnection : Type 0 where
    pub manifest : Manifest
    pub prefix : String
    pub label : String
    -- The provider's method of a name, if it has one, applied to the credentials of the connection.
    pub method : String → Option (List (Option Json) → W → Reply × W)

  pub record McpContext : Type 0 where
    pub request_id : String
    pub client_name : String
    pub is_client : Bool
    pub connections : List McpConnection
    pub key_scopes : List String

-- `pretty` is JSON.stringify with an indent of two, `stringify` the text of a value of the query,
-- `before` the order of the tools' names.
pub record Builtins : Type 0 where
  pub pretty : Json → String
  pub stringify : Json → String
  pub before : String → String → Bool

abbrev text_content : String → Json
text_content message =
    array (Json.item (record_of (("type", text "text") ∷ ("text", text message) ∷ [])) Json.end)

abbrev pub tool_failure : String → Json
tool_failure message =
    record_of (("content", text_content message) ∷ ("isError", boolean true) ∷ [])

abbrev structured : Json → Json
structured (Json.object fields) = Json.object fields
structured payload = record_of (("data", payload) ∷ [])

abbrev pub tool_success : Builtins → Json → Json
tool_success b payload =
    record_of (
      ("content", text_content (b.pretty payload)) ∷ ("structuredContent", structured payload) ∷ [])

-- A call's outcome: an error of the protocol, or a payload.
pub data CallOutcome : Type 0 where
  refused : JsonRpcError → (message : String) → CallOutcome
  payload : Json → CallOutcome

abbrev text_or : (fallback : String) → Option Json → String
text_or fallback (some (Json.text s)) = s
text_or fallback _ = fallback

abbrev fields_or_empty : Option Json → Fields
fields_or_empty (some (Json.object fields)) = fields
fields_or_empty _ = Json.empty

module _ {W : Type 0} (builtins : Builtins) (ctx : McpContext W) where
  -- The first of those that have the longest prefix.
  abbrev longest : List (McpConnection W) → Option (McpConnection W)
  longest [] = none
  longest (c ∷ cs) = elim (longest cs) [
    | none ↦ some c
    | some d ↦ if ltb (Text.length c.prefix) (Text.length d.prefix) then some d else some c
  ]

  unfoldable pub connection_for : String → Option (McpConnection W)
  unfolding starts_with
  connection_for name =
      longest (filter (λ (c : McpConnection W). starts_with name c.prefix) ctx.connections)

  abbrev first_label : String
  first_label = elim ctx.connections [ [] ↦ "this account" | c ∷ cs ↦ c.label ]

  abbrev unknown_tool : Option (McpConnection W) → String → CallOutcome
  unknown_tool connection name =
      let own : String = elim connection [ none ↦ first_label | some c ↦ c.label ] in
      refused invalid_params (
        concat (
          (if ctx.is_client then ctx.client_name else own)
          ∷ " has no tool named \""
          ∷ name
          ∷ "\". Call tools/list to see what this connection offers."
          ∷ []))

  abbrev pub forbidden : ScopeAction × ScopeResource → CallOutcome
  forbidden (action, resource) = payload (
      tool_failure (
        concat (
          "FORBIDDEN: this key may not "
          ∷ action_name action
          ∷ " "
          ∷ resource_name resource
          ∷ ". It can: "
          ∷ to_lower_case (describe_scopes ctx.key_scopes)
          ∷ "."
          ∷ [])))

  abbrev not_incremental : McpConnection W → ResourceName → CallOutcome
  not_incremental c resource =
      let names = map resource_text c.manifest.incremental in
      payload (
        tool_failure (
          concat (
            "NOT_SUPPORTED: "
            ∷ c.label
            ∷ " cannot filter "
            ∷ resource_text resource
            ∷ " by update time. Read the whole list instead"
            ∷ (if ltb 0 (length names)
                then Text.◌++◌ ", or use updatedAfter on: " (join ", " names)
                else "")
            ∷ "."
            ∷ [])))

  abbrev pub method_name : ToolBinding → String
  method_name raw = "passthrough"
  method_name (resource_call method _ _) = method

  unfoldable pub answer : Reply → CallOutcome
  answer (returned value) = payload (tool_success builtins value)
  answer (raised e) = payload (tool_failure (concat (code_text e.code ∷ ": " ∷ e.message ∷ [])))
  answer crashed = payload (
      tool_failure (
        concat
          ("The call failed. Quote request id " ∷ ctx.request_id ∷ " when reporting it." ∷ [])))

  unfoldable pub invoke : McpConnection W → String → ToolBinding → Fields → W → CallOutcome × W
  unfolding answer call_args
  invoke c name b args w = elim (c.method (method_name b)) [
    | none ↦ (
      payload (
          tool_failure
            (concat (c.label ∷ " declares " ∷ name ∷ " but does not implement it." ∷ []))),
      w,
    )
    | some method ↦
        let (reply, w') = method (call_args builtins.stringify b args) w in (answer reply, w')
  ]

  -- `updatedAfter` is asked of a resource that the provider cannot filter by it.
  abbrev pub asks_in_vain : McpConnection W → ToolBinding → Fields → Bool
  asks_in_vain c raw args = false
  asks_in_vain c (resource_call _ resource _) args =
      is_truthy (get "updatedAfter" args) && not (is_incremental c.manifest resource)

  abbrev refuse_filter : McpConnection W → ToolBinding → CallOutcome
  refuse_filter c raw = payload Json.null
  refuse_filter c (resource_call _ resource _) = not_incremental c resource

  abbrev pub is_allowed : ToolBinding → Fields → Bool
  is_allowed b args =
      let intent = scope_for_binding b (text_or "GET" (get "method" args)) in
      allows ctx.key_scopes intent.0 (some intent.1)

  call_bound : McpConnection W → String → ToolBinding → Fields → W → CallOutcome × W
  unfolding invoke get scope_for_binding
  call_bound c name b args w =
      if not (is_allowed b args)
      then (forbidden (scope_for_binding b (text_or "GET" (get "method" args))), w)
      else if asks_in_vain c b args
      then (refuse_filter c b, w)
      else invoke c name b args w

  call_named : String → Fields → Option (McpConnection W) → W → CallOutcome × W
  unfolding call_bound binding_for
  call_named name args none w = (unknown_tool none name, w)
  call_named name args (some c) w = elim (binding_for c.manifest name c.prefix) [
    | none ↦ (unknown_tool (some c) name, w)
    | some b ↦ call_bound c name b args w
  ]

  call_with : Fields → Option Json → W → CallOutcome × W
  unfolding call_named connection_for get
  call_with params (some (Json.text name)) w =
      call_named name (fields_or_empty (get "arguments" params)) (connection_for name) w
  call_with params _ w = (refused invalid_params "tools/call requires a tool name", w)

  unfoldable pub call_tool : Option Fields → W → CallOutcome × W
  unfolding call_with get
  call_tool none w = (refused invalid_params "tools/call requires a tool name", w)
  call_tool (some params) w = call_with params (get "name" params) w
