-- ===== src/UnifiedAuth/KeyCheck.antt =====
-- src/lib/api-auth.ts: parts 1 to 3 of the wrapper, the key, its scopes and its budget.
use openipaas.UnifiedAuth.Defs.{ApiKey, Request, error_content, Response, Env}
use openipaas.UnifiedAuth.Steps.{Exec, pure, refuse, ◌>>=◌}
use openipaas.Prelude.{
  ℕ, String, Bool, false, not, ◌&&◌, Option, none, some, List, [], ◌∷◌, ◌==◌, ltb, if◌then◌else◌,
  is_some,
}
use openipaas.Prelude.Text.{◌++◌, show, trim, starts_with, slice, is_empty, includes, to_lower_case}
use openipaas.Scopes.{
  ScopeResource, resource_name, action_name, array, parse_scopes, action_for_method,
  resource_for_path, allows, describe_scopes,
}
use openipaas.ApiRateLimit.{RateLimitVerdict, BudgetScope, client, key, consume_for_key}
use openipaas.Providers.Errors.{code_text}
use openipaas.Providers.Http.{Thrown, provider, unhandled}

abbrev pub refusal : {J : Type 0} → (status : ℕ) → (error code : String) → Response J
refusal status error code = record {
  status = status;
  content = error_content error code;
  headers = [];
}

abbrev pub write_methods : List String
write_methods = "POST" ∷ "PUT" ∷ "PATCH" ∷ "DELETE" ∷ []

abbrev pub is_write : Request → Bool
is_write req = includes write_methods req.method

-- `if (header)`: there, and not empty
abbrev pub given : Option String → Option String
given none = none
given (some s) = if is_empty s then none else some s

-- errorResponse
unfoldable pub error_response : {J : Type 0} → String → Thrown → Response J × String
error_response request_id (provider e) = (
  record {
    status = e.status;
    content = error_content e.message (code_text e.code);
    headers = ("X-Request-Id", request_id) ∷ [];
  },
  code_text e.code,
)
error_response request_id unhandled = (
  record {
    status = 500;
    content = error_content "Internal Server Error" "INTERNAL_ERROR";
    headers = ("X-Request-Id", request_id) ∷ [];
  },
  "INTERNAL_ERROR",
)

scope_text : BudgetScope → String
scope_text client = "client"
scope_text key = "key"

subject_of : BudgetScope → String
subject_of client = "This client"
subject_of key = "This key"

throttled : {J : Type 0} → RateLimitVerdict → BudgetScope → Response J
throttled verdict scope = record {
  status = 429;
  content =
      error_content
        ("Rate limit exceeded. "
          ++ subject_of scope
          ++ " may make "
          ++ show verdict.limit
          ++ " requests per minute.")
        "RATE_LIMITED";
  headers =
      ("Retry-After", show verdict.retry_after_seconds)
      ∷ ("X-RateLimit-Limit", show verdict.limit)
      ∷ ("X-RateLimit-Remaining", "0")
      ∷ ("X-RateLimit-Scope", scope_text scope)
      ∷ [];
}

-- findUnique on a column
find_key : (ApiKey → Bool) → List ApiKey → Option ApiKey
find_key test [] = none
find_key test (k ∷ ks) = if test k then some k else find_key test ks

abbrev pub holds : Option String → String → Bool
holds none s = false
holds (some t) s = t == s

-- By the hash, then by the legacy column.
unfoldable pub find_api_key : (hash : String) → (presented : String) → List ApiKey → Option ApiKey
unfolding find_key
find_api_key hash presented keys = elim (find_key (λ k. holds k.key_hash hash) keys) [
  | some k ↦ some k
  | none ↦ find_key (λ k. holds k.key presented) keys
]

abbrev pub is_past : Option ℕ → ℕ → Bool
is_past none now = false
is_past (some t) now = ltb t now

forbidden : List String → String → Option ScopeResource → String
forbidden scopes action resource =
    "This key is not allowed to "
    ++ action
    ++ " "
    ++ (elim resource [ none ↦ "this resource" | some r ↦ resource_name r ])
    ++ ". It can: "
    ++ to_lower_case (describe_scopes scopes)
    ++ "."

module _ {J W : Type 0} (env : Env J) (req : Request) where
  -- 1. API key
  unfoldable pub presented_key : Exec J W String
  unfolding starts_with slice trim
  presented_key = elim req.authorization [
    | none ↦
        refuse (refusal 401 "Missing or invalid Authorization header" "UNAUTHORIZED") "UNAUTHORIZED"
    | some header ↦
        if starts_with header "Bearer "
        then pure (trim (slice 7 header))
        else refuse (refusal 401 "Missing or invalid Authorization header" "UNAUTHORIZED")
            "UNAUTHORIZED"
  ]

  -- Assigns `clientId` once the key is found.
  unfoldable pub found_key : String → Exec J W ApiKey
  unfolding find_api_key
  found_key presented p =
      elim (find_api_key (env.digest.sha256_hex presented) presented p.server.api_keys) [
        | none ↦ refuse (refusal 401 "Invalid API Key" "UNAUTHORIZED") "UNAUTHORIZED" p
        | some k ↦ pure k (record p { client_id = some k.client_id })
      ]

  unfoldable pub usable_key : ApiKey → Exec J W ApiKey
  usable_key k =
      if is_some k.revoked_at
      then refuse (refusal 401 "This API key has been revoked" "UNAUTHORIZED") "UNAUTHORIZED"
      else if is_past k.expires_at env.now
      then refuse (refusal 401 "This API key has expired" "UNAUTHORIZED") "UNAUTHORIZED"
      else pure k

  unfoldable pub authenticate : Exec J W ApiKey
  unfolding presented_key found_key usable_key
  authenticate = do presented ← presented_key; k ← found_key presented; usable_key k

  -- 2. scope
  -- `enforce` is the option enforceScope.
  unfoldable pub check_scope : (enforce : Bool) → ApiKey → Exec J W (List String)
  unfolding forbidden
  check_scope enforce k =
      let scopes = parse_scopes (array k.scopes) in
      let action = action_for_method req.method in
      let resource = resource_for_path req.path in
      if enforce && not (allows scopes action resource)
      then refuse (refusal 403 (forbidden scopes (action_name action) resource) "FORBIDDEN")
          "FORBIDDEN"
      else pure scopes

  -- 3. rate limit
  unfoldable pub check_budget : ApiKey → Exec J W (Unit {0})
  unfolding throttled scope_text subject_of
  check_budget k p =
      let ((verdict, scope), windows) =
        consume_for_key env.limits env.replies
          (record { client_id = k.client_id; key_id = k.id; key_limit = k.rate_limit }) env.now
          p.server.windows in
      let p' = record p { server = record p.server { windows = windows } } in
      if verdict.allowed then pure tt p' else refuse (throttled verdict scope) "RATE_LIMITED" p'
