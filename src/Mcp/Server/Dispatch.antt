-- ===== src/Mcp/Server/Dispatch.antt =====
-- src/lib/mcp/server.ts: the answer to each method of the protocol. The resources are inputs.
use openipaas.Prelude.{
  String, false, Option, none, some, List, [], ◌∷◌, ◌++◌, ◌==◌, eqb, if◌then◌else◌, get_or, length,
  map,
}
use openipaas.Prelude.Text
use openipaas.Prelude.Text.{starts_with, to_lower_case, join, is_empty}
use openipaas.Mcp.Json.{
  Json, Items, Fields, get, is_truthy, boolean, text, array, object, record_of, fields,
}
use openipaas.Mcp.Json
use openipaas.Mcp.Protocol.{
  invalid_params, method_not_found, JsonRpcRequest, JsonRpcResponse, result, failure,
  negotiate_version,
}
use openipaas.Mcp.Tools.{McpTool, tools_for}
use openipaas.Mcp.Tools.Schemas.{concat}
use openipaas.Mcp.Server.{
  McpConnection, McpContext, Builtins, CallOutcome, refused, payload, call_tool,
}

module _ {W : Type 0} (builtins : Builtins) (ctx : McpContext W) where
  abbrev server_info : Json
  server_info =
      record_of
        (("name", text "openipaas") ∷ ("title", text "Open IpaaS") ∷ ("version", text "1.0.0") ∷ [])

  abbrev shared_instructions : String
  shared_instructions = join " " (
      concat (
        "Tools come from what "
        ∷ (if ctx.is_client
            then "these accounts actually support"
            else "this account actually supports")
        ∷ ", so call tools/list before assuming one exists."
        ∷ [])
      ∷ "Lists are paged: pass the returned nextCursor back as cursor to continue."
      ∷ "Read openipaas://guide before the first call: it is written for this connection and says what the answers mean."
      ∷ [])

  abbrev or_none_yet : String → String
  or_none_yet names = if is_empty names then "none yet" else names

  abbrev provider_label : String
  provider_label = elim ctx.connections [ [] ↦ "a provider" | c ∷ cs ↦ c.label ]

  instructions_for : String
  unfolding join
  instructions_for =
      if ctx.is_client
      then concat (
          "Connected to Open IpaaS on behalf of "
          ∷ ctx.client_name
          ∷ ", covering "
          ∷ Text.show (length ctx.connections)
          ∷ " "
          ∷ (if eqb (length ctx.connections) 1 then "account" else "accounts")
          ∷ ": "
          ∷ or_none_yet (join ", " (map (λ (c : McpConnection W). c.label) ctx.connections))
          ∷ ". "
          ∷ "Each tool name starts with the account it belongs to, so a tool reaches that account and no other. "
          ∷ shared_instructions
          ∷ [])
      else concat (
          "Connected to " ∷ provider_label ∷ " through Open IpaaS, on behalf of " ∷ ctx.client_name
          ∷ ". " ∷ shared_instructions ∷ [])

  abbrev tool_json : McpTool → Json
  tool_json t = record_of (
      ("name", text t.name)
      ∷ ("title", text t.title)
      ∷ ("description", text t.description)
      ∷ ("inputSchema", t.input_schema)
      ∷ (
        "annotations",
        record_of (
            ("readOnlyHint", boolean t.read_only_hint)
            ∷ ("destructiveHint", boolean t.destructive_hint)
            ∷ []),
      )
      ∷ [])

  unfoldable pub listed_tools : List (McpConnection W) → List McpTool
  unfolding tools_for
  listed_tools [] = []
  listed_tools (c ∷ cs) =
      tools_for c.manifest c.prefix ctx.key_scopes builtins.before ++ listed_tools cs

  -- `resources` is what resourcesFor lists and `read_resource` what readResource finds.
  module _ (resources : Json) (read_resource : String → Option Fields) where
    abbrev initialized : JsonRpcRequest → Json
    unfolding negotiate_version get instructions_for
    initialized message = record_of (
        (
          "protocolVersion",
          text (negotiate_version (get "protocolVersion" (get_or message.params Json.empty))),
        )
        ∷ (
          "capabilities",
          record_of (
              ("tools", record_of (("listChanged", boolean false) ∷ []))
              ∷ (
                "resources",
                record_of (("listChanged", boolean false) ∷ ("subscribe", boolean false) ∷ []),
              )
              ∷ []),
        )
        ∷ ("serverInfo", server_info)
        ∷ ("instructions", text instructions_for)
        ∷ [])

    contents_of : (uri : String) → Option Json → Option Fields → JsonRpcResponse
    contents_of uri id none = failure id invalid_params (
        concat (
          "No resource at " ∷ uri ∷ ". Call resources/list to see what this connection serves."
          ∷ []))
    contents_of uri id (some found) = result id (
        record_of (
          ("contents", array (Json.item (object (Json.field "uri" (text uri) found)) Json.end))
          ∷ []))

    read_uri : Option Json → Option Json → JsonRpcResponse
    unfolding contents_of
    read_uri id (some (Json.text uri)) = contents_of uri id (read_resource uri)
    read_uri id _ = failure id invalid_params "resources/read requires a uri"

    outcome_response : Option Json → CallOutcome → JsonRpcResponse
    outcome_response id (refused code reason) = failure id code reason
    outcome_response id (payload value) = result id value

    unfoldable pub dispatch : JsonRpcRequest → W → JsonRpcResponse × W
    unfolding call_tool outcome_response listed_tools initialized read_uri get
    dispatch message w =
        let (outcome, w') = call_tool builtins ctx message.params w in
        let tools = map tool_json (listed_tools ctx.connections) in
        if message.method == "initialize"
        then (result message.id (initialized message), w)
        else if message.method == "ping"
        then (result message.id (record_of []), w)
        else if message.method == "tools/list"
        then (result message.id (record_of (("tools", Json.items tools) ∷ [])), w)
        else if message.method == "tools/call"
        then (outcome_response message.id outcome, w')
        else if message.method == "resources/list"
        then (result message.id (record_of (("resources", resources) ∷ [])), w)
        else if message.method == "resources/templates/list"
        then (result message.id (record_of (("resourceTemplates", array Json.end) ∷ [])), w)
        else if message.method == "resources/read"
        then (read_uri message.id (get "uri" (get_or message.params Json.empty)), w)
        else (
          failure message.id method_not_found (concat ("Unknown method: " ∷ message.method ∷ [])),
          w,
        )
