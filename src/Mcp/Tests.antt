-- ===== src/Mcp/Tests.antt =====
-- The server on a concrete provider.
use mathlib.Core.List.{Memᴰ}
use openipaas.Prelude.{
  ℕ, suc, length, String, true, false, ◌≡◌, refl, ◌⊎◌, none, some, List, [], ◌∷◌,
}
use openipaas.Prelude.Text
use openipaas.Providers.Manifests.{Manifest, AuthConfig, contacts, Operation}
use openipaas.Providers.Operations.{method_for}
use openipaas.Scopes.{allows}
use openipaas.Scopes
use openipaas.Mcp.Json.{Json, Fields}
use openipaas.Mcp.Json
use openipaas.Mcp.Protocol.{JsonRpcRequest, negotiate_version}
use openipaas.Mcp.Connections.{NamedConnection, slug}
use openipaas.Mcp.Tools.{McpTool, tools_for}
use openipaas.Mcp.Tools.Listed.{IsCallable, tools_for-IsCallable}
use openipaas.Mcp.Server.{Reply, McpConnection, McpContext, Builtins, call_tool}
use openipaas.Mcp.Server.Dispatch.{dispatch}
use openipaas.Mcp.Server.Calls.{IsAuthorized, dispatch-guarded}

abbrev crm : Manifest
crm = record {
  slug = "CRM";
  name = "Crm";
  base_url = "https://crm.example.com";
  auth = AuthConfig.static;
  capabilities = (contacts, Operation.list ∷ Operation.get ∷ []) ∷ [];
  incremental = [];
  stable_list = [];
  passthrough = true;
  enabled = true;
}

abbrev builtins : Builtins
builtins = record { pretty = λ j. "{}"; stringify = λ j. "x"; before = λ a b. true }

abbrev listed : List McpTool
listed = tools_for crm "crm__" ("read:contacts" ∷ []) builtins.before

two_tools : length listed ≡ 2
unfolding tools_for method_for allows
two_tools = refl

-- A key that may only write raw is shown GET as the default method, which it may not use.
abbrev raw_writer : List String
raw_writer = "write:passthrough" ∷ []

get_refused :
    (length (tools_for crm "" raw_writer builtins.before) ≡ 1)
    × (allows raw_writer Scopes.read (some Scopes.passthrough) ≡ false)
unfolding tools_for allows method_for
get_refused = (refl, refl)

abbrev default_tool : McpTool
default_tool = record {
  name = "";
  title = "";
  description = "";
  input_schema = Json.null;
  read_only_hint = false;
  destructive_hint = false;
}

abbrev first_tool : McpTool
first_tool = elim listed [ [] ↦ default_tool | t ∷ ts ↦ t ]

tools_for-IsCallable_example : IsCallable crm "crm__" ("read:contacts" ∷ []) first_tool
unfolding tools_for allows method_for
tools_for-IsCallable_example =
    tools_for-IsCallable crm "crm__" ("read:contacts" ∷ []) builtins.before first_tool
      (Memᴰ.head refl)

abbrev connection : McpConnection ℕ
connection = record {
  manifest = crm;
  prefix = "";
  label = "Crm";
  method = λ name. some (λ args calls. (Reply.returned Json.null, suc calls));
}

abbrev context : McpContext ℕ
context = record {
  request_id = "r1";
  client_name = "Acme";
  is_client = false;
  connections = connection ∷ [];
  key_scopes = "read:contacts" ∷ [];
}

abbrev call_of : String → JsonRpcRequest
call_of name = record {
  id = some (Json.number 1);
  method = "tools/call";
  params = some (Json.field "name" (Json.text name) Json.empty);
}

dispatch-guarded_example :
    ((dispatch builtins context Json.null (λ uri. none) (call_of "list_contacts") 0).1 ≡ 0)
    ⊎ (((call_of "list_contacts").method ≡ "tools/call")
        × IsAuthorized builtins context
            (call_of "list_contacts").params
            0
            (call_tool builtins context (call_of "list_contacts").params 0)
        × ((dispatch builtins context Json.null (λ uri. none) (call_of "list_contacts") 0).1
            ≡ (call_tool builtins context (call_of "list_contacts").params 0).1))
dispatch-guarded_example =
    dispatch-guarded builtins context Json.null (λ uri. none) (call_of "list_contacts") 0

called : (dispatch builtins context Json.null (λ uri. none) (call_of "list_contacts") 0).1 ≡ 1
unfolding dispatch method_for allows
called = refl

raw_refused : (dispatch builtins context Json.null (λ uri. none) (call_of "passthrough") 0).1 ≡ 0
unfolding dispatch method_for allows
raw_refused = refl

abbrev first : NamedConnection
first = record { id = "0a1b2c3d-4e5f"; provider_slug = "RD_STATION_CRM" }

abbrev second : NamedConnection
second = record { id = "1a1b2c3d-4e5f"; provider_slug = "RD_STATION_CRM" }

abbrev pair : List NamedConnection
pair = first ∷ second ∷ []

abbrev base : String
base = "rd_station_crm"

spoken : negotiate_version (some (Json.text "2024-11-05")) ≡ "2024-11-05"
unfolding negotiate_version
spoken = refl
