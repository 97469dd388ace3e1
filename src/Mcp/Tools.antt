-- ===== src/Mcp/Tools.antt =====
-- src/lib/mcp/tools.ts: the tools that a provider's capabilities give, and what a tool's name calls.
pub mod Schemas
pub mod Bound
pub mod Listed
pub mod Names
use openipaas.Prelude.{
  ℕ, ◌+◌, String, Bool, true, false, ◌&&◌, ◌||◌, not, Option, none, some, List, [], ◌∷◌, ◌++◌, ◌==◌,
  if◌then◌else◌, is_some, any,
}
use openipaas.Prelude.Text
use openipaas.Prelude.Text.{includes, starts_with, slice, to_upper_case, is_empty}
use openipaas.Scopes.{ScopeAction, read, write, ScopeResource, passthrough, allows}
use openipaas.Providers.Manifests.{Manifest, ResourceName, resource_text, as_scope, Operation}
use openipaas.Providers.Manifests
use openipaas.Providers.Operations.{method_for, operation_text}
use openipaas.Mcp.Json.{Json, Fields, get, is_truthy, or_else, record_of, text}
use openipaas.Mcp.Json
use openipaas.Mcp.Tools.Schemas.{
  singular, schema_for, passthrough_schema, describe, describe_passthrough,
}

abbrev pub verb : Operation → String
verb Operation.list = "list"
verb Operation.get = "get"
verb Operation.search = "search"
verb Operation.create = "create"
verb Operation.upsert = "upsert"
verb Operation.update = "update"
verb Operation.delete = "delete"
verb Operation.bulk_delete = "bulk_delete"
verb Operation.bulk_activate = "bulk_activate"
verb Operation.bulk_deactivate = "bulk_deactivate"
verb Operation.pdf = "get_pdf_for"

-- A list, a search or a bulk operation.
abbrev many : Operation → Bool
many operation =
    operation_text operation == "list"
    || operation_text operation == "search"
    || starts_with (operation_text operation) "bulk"

unfoldable pub tool_name : ResourceName → Operation → String
unfolding starts_with
tool_name resource operation =
    let noun = if many operation then resource_text resource else singular resource in
    Text.◌++◌ (verb operation) (Text.◌++◌ "_" noun)

pub record McpTool : Type 0 where
  pub name : String
  pub title : String
  pub description : String
  pub input_schema : Json
  pub read_only_hint : Bool
  pub destructive_hint : Bool

-- What a tool's name resolves to.
pub data ToolBinding : Type 0 where
  raw : ToolBinding
  resource_call : (method : String) → ResourceName → Operation → ToolBinding

abbrev destructive : Operation → Bool
destructive Operation.delete = true
destructive Operation.bulk_delete = true
destructive _ = false

abbrev pub reads_only : Operation → Bool
reads_only Operation.list = true
reads_only Operation.get = true
reads_only Operation.search = true
reads_only Operation.pdf = true
reads_only _ = false

unfoldable pub scope_for_binding : ToolBinding → (method : String) → ScopeAction × ScopeResource
unfolding to_upper_case
scope_for_binding raw method =
    let writes = includes ("POST" ∷ "PUT" ∷ "PATCH" ∷ "DELETE" ∷ []) (to_upper_case method) in
    (if writes then write else read, passthrough)
scope_for_binding (resource_call _ resource operation) method =
    (if reads_only operation then read else write, as_scope resource)

-- operation[0].toUpperCase() + operation.slice(1)
capitalized : String → String
unfolding to_upper_case slice
capitalized name = Text.◌++◌ (to_upper_case (Text.take 1 name)) (slice 1 name)

module _ (m : Manifest) (prefix : String) (scopes : List String) where
  tool_of : ResourceName → Operation → McpTool
  unfolding tool_name capitalized describe schema_for
  tool_of resource operation = record {
    name = Text.◌++◌ prefix (tool_name resource operation);
    title =
        Text.◌++◌ (capitalized (operation_text operation)) (Text.◌++◌ " " (resource_text resource));
    description = describe m.name resource operation;
    input_schema = schema_for resource operation m;
    read_only_hint = reads_only operation;
    destructive_hint = destructive operation;
  }

  -- A capability without a method, or that the key may not use, gives no tool.
  abbrev offered : ResourceName → Operation → Bool
  offered resource operation =
      is_some (method_for resource operation)
      && allows scopes (scope_for_binding (resource_call "" resource operation) "GET").0
          (some (as_scope resource))

  operation_tools : ResourceName → List Operation → List McpTool
  unfolding tool_of scope_for_binding
  operation_tools resource [] = []
  operation_tools resource (operation ∷ operations) =
      let rest = operation_tools resource operations in
      if offered resource operation then tool_of resource operation ∷ rest else rest

  capability_tools : List (ResourceName × List Operation) → List McpTool
  unfolding operation_tools
  capability_tools [] = []
  capability_tools ((resource, operations) ∷ capabilities) =
      operation_tools resource operations ++ capability_tools capabilities

  passthrough_tool : McpTool
  unfolding passthrough_schema describe_passthrough
  passthrough_tool =
      let may_write = allows scopes write (some passthrough) in
      record {
        name = Text.◌++◌ prefix "passthrough";
        title = "Raw provider request";
        description = describe_passthrough m may_write;
        input_schema = passthrough_schema may_write;
        read_only_hint = false;
        destructive_hint = false;
      }

  passthrough_tools : List McpTool
  unfolding passthrough_tool
  passthrough_tools =
      if m.passthrough
        && (allows scopes read (some passthrough) || allows scopes write (some passthrough))
      then passthrough_tool ∷ []
      else []

  -- `before` is the order of localeCompare, whether one name stands before another or at its place.
  module _ (before : String → String → Bool) where
    insert_tool : McpTool → List McpTool → List McpTool
    insert_tool t [] = t ∷ []
    insert_tool t (u ∷ us) =
        let rest = insert_tool t us in if before t.name u.name then t ∷ u ∷ us else u ∷ rest

    sort_tools : List McpTool → List McpTool
    unfolding insert_tool
    sort_tools [] = []
    sort_tools (t ∷ ts) = insert_tool t (sort_tools ts)

    unfoldable pub tools_for : List McpTool
    unfolding sort_tools capability_tools passthrough_tools
    tools_for = sort_tools (capability_tools m.capabilities ++ passthrough_tools)

-- The first capability of a name, and the method that serves it.
unfoldable pub binding_of : ResourceName → Operation → Option String → Option ToolBinding
binding_of resource operation none = none
binding_of resource operation (some method) = some (resource_call method resource operation)

-- The binding of the first operation whose tool has the name, if there is one.
operation_binding : (name : String) → ResourceName → List Operation → Option (Option ToolBinding)
unfolding tool_name binding_of
operation_binding name resource [] = none
operation_binding name resource (operation ∷ operations) =
    if tool_name resource operation == name
    then some (binding_of resource operation (method_for resource operation))
    else operation_binding name resource operations

unfoldable pub capability_binding :
    (name : String) → List (ResourceName × List Operation) → Option ToolBinding
unfolding operation_binding
capability_binding name [] = none
capability_binding name ((resource, operations) ∷ capabilities) =
    elim (operation_binding name resource operations) [
      | some binding ↦ binding
      | none ↦ capability_binding name capabilities
    ]

unfoldable pub binding_for : Manifest → (full_name prefix : String) → Option ToolBinding
unfolding capability_binding starts_with slice
binding_for m full_name prefix =
    let name = slice (Text.length prefix) full_name in
    if not (starts_with full_name prefix)
    then none
    else if name == "passthrough"
    then (if m.passthrough then some raw else none)
    else capability_binding name m.capabilities

-- A field of the request if its value counts as true.
if_truthy : (name : String) → Fields → Fields → Fields
unfolding get
if_truthy name args rest = elim (get name args) [
  | none ↦ rest
  | some value ↦ if is_truthy (some value) then Json.field name value rest else rest
]

-- The text of a value of the query: `JSON.stringify` of an object, `String` of another value.
module _ (stringify : Json → String) where
  query_fields : Fields → Fields
  query_fields Json.empty = Json.empty
  query_fields (Json.field name Json.null rest) = query_fields rest
  query_fields (Json.field name value rest) =
      Json.field name (text (stringify value)) (query_fields rest)

  stringify_query : Option Json → Option Json
  unfolding query_fields
  stringify_query (some (Json.object fields)) = some (Json.object (query_fields fields))
  stringify_query (some (Json.array items)) = some (Json.object (query_items items 0))
    where
      query_items : Json.Items → ℕ → Fields
      query_items Json.end i = Json.empty
      query_items (Json.item Json.null rest) i = query_items rest (i + 1)
      query_items (Json.item value rest) i =
          Json.field (Text.show i) (text (stringify value)) (query_items rest (i + 1))
  stringify_query _ = none

  -- A field that is left out where its value is `undefined`.
  abbrev optional : (name : String) → Option Json → Fields → Fields
  optional name none rest = rest
  optional name (some value) rest = Json.field name value rest

  abbrev match_of : Fields → Option Json
  unfolding get
  match_of args = some (
      Json.object
        (optional "field" (get "field" args) (optional "value" (get "value" args) Json.empty)))

  abbrev ids_of : Fields → Option Json
  unfolding get
  ids_of args = some (or_else (Json.array Json.end) (get "ids" args))

  abbrev data_of : Fields → Json
  unfolding get
  data_of args = or_else (Json.object Json.empty) (get "data" args)

  -- The arguments after the context; a missing value is `undefined`.
  unfoldable pub call_args : ToolBinding → Fields → List (Option Json)
  unfolding get if_truthy stringify_query
  call_args raw args =
      some (
        Json.object (
          Json.field "method" (or_else (text "GET") (get "method" args)) (
            optional "path" (get "path" args) (
              optional "query" (stringify_query (get "query" args))
                (optional "body" (get "body" args) Json.empty)))))
      ∷ []
  call_args (resource_call _ _ operation) args = elim operation [
    | Operation.search ↦ match_of args ∷ []
    | Operation.upsert ↦ match_of args ∷ some (data_of args) ∷ []
    | Operation.list ↦
        some (
          Json.object (
            if_truthy "cursor" args (
              if_truthy "limit" args
                (if_truthy "search" args (if_truthy "updatedAfter" args Json.empty)))))
        ∷ []
    | Operation.create ↦ some (data_of args) ∷ []
    | Operation.update ↦ get "id" args ∷ some (data_of args) ∷ []
    | Operation.bulk_delete ↦ ids_of args ∷ []
    | Operation.bulk_activate ↦ ids_of args ∷ []
    | Operation.bulk_deactivate ↦ ids_of args ∷ []
    | _ ↦ get "id" args ∷ []
  ]
