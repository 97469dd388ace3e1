-- ===== src/UnifiedAuth/Tests.antt =====
-- src/lib/api-auth.ts: requests at concrete inputs.
use openipaas.Prelude.{◌+◌, ℕ, String, true, ◌≡◌, ◌≢◌, refl, none, some, Option, [], ◌∷◌, arith}
use openipaas.Prelude.Text
use openipaas.ApiRateLimit.{
  consume_for_key, consume, consume_local, limit_of_key, live, verdict_from, default_limits,
  no_redis, Windows,
}
use openipaas.Credentials.{
  pick_active_credential, decrypt_nullable, read_secrets, to_provider_context, OAuthCredential,
}
use openipaas.Idempotency.{find_row, lookup, remember, Digest, Write}
use openipaas.Providers.Manifests.{
  is_known_provider, find_manifest, normalize_slug, Manifest, static,
}
use openipaas.Prelude.Assoc
use openipaas.Scopes.{
  allows, parse_scopes, resource_for_path, action_for_method, distinct, is_valid_scope,
  normalize_scope,
}
use openipaas.UnifiedAuth.Defs.{
  ApiKey, LinkedAccount, Request, Server, Env, AuthContext, Handled, responds,
}
use openipaas.UnifiedAuth.Steps.{Progress, continue}
use openipaas.UnifiedAuth.KeyCheck.{
  authenticate, check_scope, check_budget, error_response, find_api_key, found_key, presented_key,
  usable_key,
}
use openipaas.UnifiedAuth.Connection.{
  resolve_connection, usable_connection, check_incremental, by_token, find_account,
}
use openipaas.UnifiedAuth.Dispatch.{
  conclude, read_body, answer_lookup, asked_write, context_of, entry_of, finish, handled,
  run_handler, store, touch, Admitted, start, admit, check_repeat, with_unified_auth, with_header,
}
use openipaas.UnifiedAuth.Passing.{Passes}
use openipaas.UnifiedAuth.Outcomes.{Outcome, SameTables, with_unified_auth_outcome}
use openipaas.UnifiedAuth.Logging.{IsLogged, with_unified_auth-IsLogged}
use openipaas.UnifiedAuth.Replay.{here, Succeeds, replayed, repeat_answered, handled_once}

abbrev manifest : Manifest
manifest = record {
  slug = "BLING";
  name = "Bling";
  base_url = "https://api.bling.com.br";
  auth = static;
  capabilities = [];
  incremental = [];
  stable_list = [];
  passthrough = true;
  enabled = true;
}

abbrev credential : OAuthCredential
credential = record {
  id = "cred";
  access_token = "sealed";
  refresh_token = none;
  secrets = none;
  instance_url = none;
  external_tenant_id = none;
  expires_at = none;
  created_at = 1;
}

abbrev account : LinkedAccount
account = record {
  id = "acc";
  client_id = "client";
  provider = "BLING";
  account_token = "at_1";
  label = none;
  credentials = credential ∷ [];
}

abbrev api_key : ApiKey
api_key = record {
  id = "key";
  key_hash = some "hsecret";
  key = none;
  client_id = "client";
  scopes = "write:sales" ∷ [];
  rate_limit = none;
  expires_at = none;
  revoked_at = none;
  last_used_at = none;
}

-- The values of JSON are texts, and the world counts the sales.
abbrev server : Server String ℕ
server = record {
  api_keys = api_key ∷ [];
  accounts = account ∷ [];
  rows = [];
  logs = [];
  windows = [];
  world = 0;
}

abbrev digest : Digest String
digest = record { sha256_hex = λ s. Text.◌++◌ "h" s; stringify = λ body. "body" }

abbrev env_at : ℕ → Env String
env_at now = record {
  digest = digest;
  cipher = record { decrypt = λ s. some s; read_object = λ s. none };
  parse_json = λ s. some s;
  is_instant = λ s. true;
  registry = manifest ∷ [];
  limits = default_limits;
  now = now;
  request_id = "req_1";
  replies = record { client_reply = no_redis; key_reply = no_redis };
  stored = true;
  touched = true;
  logged = true;
}

abbrev sale : Request
sale = record {
  method = "POST";
  path = "/api/unified/v1/sales";
  query = [];
  authorization = some "Bearer secret";
  account_token = some "at_1";
  provider = none;
  idempotency_key = some "once";
  text = some "{}";
}

abbrev sell : AuthContext String → ℕ → Handled String × ℕ
sell context sold = (responds 201 (some "sold"), sold + 1)

abbrev after_sale : Server String ℕ
after_sale = (with_unified_auth (env_at 1000) sale true sell server).1

sale_tests :
    (after_sale.world ≡ 1)
    × ((with_unified_auth (env_at 2000) sale true sell after_sale).1.world ≡ 1)
    × ((with_unified_auth (env_at 2000) sale true sell after_sale).0.status ≡ 201)
    × ((with_unified_auth (env_at 2000) (record sale { method = "GET" }) true sell server).0.status
        ≡ 403)
unfolding with_unified_auth conclude admit authenticate check_scope allows parse_scopes
    resource_for_path action_for_method check_budget consume_for_key resolve_connection
    usable_connection is_known_provider pick_active_credential check_incremental read_body
    check_repeat consume consume_local limit_of_key live verdict_from decrypt_nullable read_secrets
    to_provider_context find_row lookup remember Assoc.insert Assoc.lookup find_manifest
    normalize_slug distinct is_valid_scope normalize_scope by_token find_account answer_lookup
    asked_write context_of entry_of finish handled run_handler store touch error_response
    find_api_key found_key presented_key usable_key
sale_tests = (refl, refl, refl, refl)

abbrev write_under : String → Write String
write_under key = record {
  client_id = "client";
  key = key;
  endpoint = "POST /api/unified/v1/sales";
  body = some "{}";
}

abbrev admitted_under : String → Option ℕ → Admitted String
admitted_under key last_used_at = record {
  api_key = record api_key { last_used_at = last_used_at };
  account = account;
  context = record {
    request_id = "req_1";
    linked_account = account;
    credentials = record {
      credential_id = "cred";
      provider = "BLING";
      access_token = "sealed";
      refresh_token = none;
      expires_at = none;
      instance_url = none;
      external_tenant_id = none;
      secrets = [];
    };
    query = [];
    body = some "{}";
    scopes = "write:sales" ∷ [];
  };
  write = some (write_under key);
}

abbrev spent : ℕ → Windows
spent count =
    ("client:client", record { count = count; reset_at_ms = 61000 })
    ∷ ("key:key", record { count = count; reset_at_ms = 61000 })
    ∷ []

abbrev progress_of : Server String ℕ → ℕ → Progress String ℕ
progress_of s count = record {
  server = record s { windows = spent count };
  client_id = some "client";
  linked_account_id = some "acc";
  provider = some "BLING";
}

sale-admitted :
    admit (env_at 1000) sale true (start server)
    ≡ (continue (admitted_under "once" none), progress_of server 1)
unfolding with_unified_auth conclude admit authenticate check_scope allows parse_scopes
    resource_for_path action_for_method check_budget consume_for_key resolve_connection
    usable_connection is_known_provider pick_active_credential check_incremental read_body
    check_repeat consume consume_local limit_of_key live verdict_from decrypt_nullable read_secrets
    to_provider_context find_row lookup remember Assoc.insert Assoc.lookup find_manifest
    normalize_slug distinct is_valid_scope normalize_scope by_token find_account answer_lookup
    asked_write context_of entry_of finish handled run_handler store touch error_response
    find_api_key found_key presented_key usable_key
sale-admitted = refl

abbrev sale_succeeds :
    Succeeds (env_at 1000) sale true sell server (write_under "once") 201 (some "sold")
sale_succeeds = record {
  admitted = admitted_under "once" none;
  progress = progress_of server 1;
  admits = sale-admitted;
  write = refl;
  responded = refl;
  success = omega arith;
  stored = refl;
}

second-admitted :
    admit (env_at 2000) (record sale { idempotency_key = some "twice" }) true (start after_sale)
    ≡ (continue (admitted_under "twice" (some 1000)), progress_of after_sale 2)
unfolding with_unified_auth conclude admit authenticate check_scope allows parse_scopes
    resource_for_path action_for_method check_budget consume_for_key resolve_connection
    usable_connection is_known_provider pick_active_credential check_incremental read_body
    check_repeat consume consume_local limit_of_key live verdict_from decrypt_nullable read_secrets
    to_provider_context find_row lookup remember Assoc.insert Assoc.lookup find_manifest
    normalize_slug distinct is_valid_scope normalize_scope by_token find_account answer_lookup
    asked_write context_of entry_of finish handled run_handler store touch error_response
    find_api_key found_key presented_key usable_key
second-admitted = refl

with_unified_auth_outcome_example :
    Outcome
      (env_at 1000)
      sale
      true
      sell
      server
      (with_unified_auth (env_at 1000) sale true sell server).1
with_unified_auth_outcome_example = with_unified_auth_outcome (env_at 1000) sale true sell server

with_unified_auth-IsLogged_example :
    IsLogged (env_at 1000) sale [] (with_unified_auth (env_at 1000) sale true sell server)
with_unified_auth-IsLogged_example = with_unified_auth-IsLogged (env_at 1000) sale true sell server

abbrev passed_to : ℕ → Progress String ℕ
passed_to count = progress_of after_sale count

sale-Passes :
    Passes
      (env_at 2000)
      sale
      true
      (start after_sale)
      (record api_key { last_used_at = some 1000 })
      (some "{}")
      (progress_of after_sale 2)
unfolding with_unified_auth conclude admit authenticate check_scope allows parse_scopes
    resource_for_path action_for_method check_budget consume_for_key resolve_connection
    usable_connection is_known_provider pick_active_credential check_incremental read_body
    check_repeat consume consume_local limit_of_key live verdict_from decrypt_nullable read_secrets
    to_provider_context find_row lookup remember Assoc.insert Assoc.lookup find_manifest
    normalize_slug distinct is_valid_scope normalize_scope by_token find_account answer_lookup
    asked_write context_of entry_of finish handled run_handler store touch error_response
    find_api_key found_key presented_key usable_key
sale-Passes = record {
  scopes = "write:sales" ∷ [];
  account = account;
  credential = credential;
  p1 = (authenticate (env_at 2000) sale (start after_sale)).1;
  p2 = (authenticate (env_at 2000) sale (start after_sale)).1;
  p3 = record (progress_of after_sale 2) { linked_account_id = none; provider = none };
  p4 = record (progress_of after_sale 2) { linked_account_id = none; provider = none };
  p5 = progress_of after_sale 2;
  p6 = progress_of after_sale 2;
  has_key = refl;
  in_scope = refl;
  in_budget = refl;
  resolved = refl;
  usable = refl;
  supported = refl;
  read = refl;
}

repeat_answered_example :
    ((with_unified_auth (env_at 2000) sale true sell after_sale).0
      ≡ with_header "X-Request-Id" "req_1" (replayed 201 (some "sold")))
    × SameTables after_sale (with_unified_auth (env_at 2000) sale true sell after_sale).1
unfolding asked_write
repeat_answered_example =
    repeat_answered (env_at 1000) sale true sell server (write_under "once") 201 (some "sold")
      sale_succeeds after_sale here (env_at 2000) sale true sell
      (record api_key { last_used_at = some 1000 }) (some "{}") (progress_of after_sale 2)
      sale-Passes refl refl refl

handled_once_example : (admitted_under "twice" (some 1000)).write ≢ some (write_under "once")
handled_once_example =
    handled_once (env_at 1000) sale true sell server (write_under "once") 201 (some "sold")
      sale_succeeds after_sale here (env_at 2000) (record sale { idempotency_key = some "twice" })
      true (admitted_under "twice" (some 1000)) (progress_of after_sale 2) refl second-admitted
