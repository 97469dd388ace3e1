-- ===== src/UnifiedAuth/Connection.antt =====
-- src/lib/api-auth.ts: parts 4 and 5 of the wrapper, the connection that a request is for and the
-- reading of only what changed.
use openipaas.Prelude.{
  String, Bool, false, not, ◌&&◌, Option, none, some, List, [], ◌∷◌, ◌==◌, map, if◌then◌else◌, any,
  filter,
}
use openipaas.Prelude.Text.{◌++◌, trim, join}
use openipaas.Prelude.Assoc
use openipaas.Scopes.{ScopeResource, resource_name}
use openipaas.Credentials.{OAuthCredential, pick_active_credential}
use openipaas.Providers.Manifests.{
  Manifest, ResourceName, resource_text, find_manifest, is_known_provider,
}
use openipaas.UnifiedAuth.Defs.{LinkedAccount, Request, Candidate, candidates, Response, Env}
use openipaas.UnifiedAuth.Steps.{Exec, pure, refuse}
use openipaas.UnifiedAuth.KeyCheck.{refusal, given}

-- findUnique on the account token
unfoldable pub find_account : String → List LinkedAccount → Option LinkedAccount
find_account token [] = none
find_account token (a ∷ rest) = if a.account_token == token then some a else find_account token rest

-- findMany on the client and the slug, in the order of creation
unfoldable pub accounts_of : (client_id slug : String) → List LinkedAccount → List LinkedAccount
accounts_of client_id slug accounts =
    filter (λ (a : LinkedAccount). a.client_id == client_id && a.provider == slug) accounts

abbrev candidate : LinkedAccount → Candidate
candidate a = record {
  id = a.id;
  label = a.label;
  service = a.provider;
  connection_token = a.account_token;
}

abbrev resource_or_this : Option ScopeResource → String
resource_or_this none = "this resource"
resource_or_this (some r) = resource_name r

-- `supported.includes(resource)`, false for no resource
unfoldable pub is_supported : List ResourceName → Option ScopeResource → Bool
is_supported supported none = false
is_supported supported (some r) = any (λ s. resource_text s == resource_name r) supported

hint : List ResourceName → String
hint [] = ""
hint (r ∷ rs) = ", or use updatedAfter on: " ++ join ", " (map resource_text (r ∷ rs))

unsupported : {J : Type 0} → String → List ResourceName → Option ScopeResource → Response J
unsupported name supported resource =
    refusal 501
      (name
        ++ " cannot filter "
        ++ resource_or_this resource
        ++ " by update time. Page the whole list instead"
        ++ hint supported
        ++ ".")
      "NOT_SUPPORTED"

module _ {J W : Type 0} where
  unfoldable pub by_token : (client_id token : String) → Exec J W LinkedAccount
  unfolding find_account
  by_token client_id token p = elim (find_account token p.server.accounts) [
    | none ↦ refuse (refusal 401 "Invalid X-Account-Token" "UNAUTHORIZED") "UNAUTHORIZED" p
    | some a ↦
        if a.client_id == client_id
        then pure a p
        else refuse (refusal 401 "Invalid X-Account-Token" "UNAUTHORIZED") "UNAUTHORIZED" p
  ]

  unfoldable pub only_match : Manifest → List LinkedAccount → Exec J W LinkedAccount
  only_match manifest [] =
      refuse (refusal 404 ("This client has no " ++ manifest.name ++ " connection.") "NOT_FOUND")
        "NOT_FOUND"
  only_match manifest (a ∷ []) = pure a
  only_match manifest (a ∷ b ∷ rest) =
      refuse
        (record {
          status = 409;
          content =
              candidates
                ("This client has more than one " ++ manifest.name
                  ++ " connection. Send X-Account-Token to pick one.")
                (map candidate (a ∷ b ∷ rest));
          headers = [];
        })
        "AMBIGUOUS_CONNECTION"

  unfoldable pub by_service : Env J → (client_id requested : String) → Exec J W LinkedAccount
  unfolding accounts_of only_match
  by_service env client_id requested p = elim (find_manifest env.registry requested) [
    | none ↦
        refuse
          (refusal 400
            ("Unknown provider \""
              ++ trim requested
              ++ "\". The service names are listed by GET /api/unified/v1/providers.")
            "INVALID_REQUEST")
          "INVALID_REQUEST" p
    | some manifest ↦ only_match manifest (accounts_of client_id manifest.slug p.server.accounts) p
  ]

  unfoldable pub no_connection : Exec J W LinkedAccount
  no_connection =
      refuse
        (refusal 400
          ("Pick a connection: send X-Provider with the service name, "
            ++ "or X-Account-Token with the connection token.")
          "INVALID_REQUEST")
        "INVALID_REQUEST"

  -- The token wins when both are sent.
  unfoldable pub resolve_connection :
      Env J → Request → (client_id : String) → Exec J W LinkedAccount
  unfolding by_token by_service no_connection
  resolve_connection env req client_id = elim (given req.account_token) [
    | some token ↦ by_token client_id token
    | none ↦ elim (given req.provider) [
      | none ↦ no_connection
      | some requested ↦ by_service env client_id requested
    ]
  ]

  -- Assigns what the log entry names, then wants a known provider and a credential.
  unfoldable pub usable_connection : Env J → LinkedAccount → Exec J W OAuthCredential
  usable_connection env a p =
      let p' = record p { linked_account_id = some a.id; provider = some a.provider } in
      if not (is_known_provider env.registry a.provider)
      then refuse
          (refusal 501 ("Provider " ++ a.provider ++ " is no longer available") "NOT_SUPPORTED")
          "NOT_SUPPORTED" p'
      else elim (pick_active_credential a.credentials) [
        | none ↦
            refuse
              (refusal 409 "This account has no stored credential. Please reconnect it."
                "CONFIG_ERROR")
              "CONFIG_ERROR" p'
        | some credential ↦ pure credential p'
      ]

  unfoldable pub check_updated_after :
      Env J → (value slug : String) → Option ScopeResource → Exec J W (Unit {0})
  unfolding is_supported unsupported hint
  check_updated_after env value slug resource =
      let found = find_manifest env.registry slug in
      let supported : List ResourceName = elim found [ none ↦ [] | some m ↦ m.incremental ] in
      let name : String = elim found [ none ↦ slug | some m ↦ m.name ] in
      if not (env.is_instant value)
      then refuse
          (refusal 400 "updatedAfter must be an ISO-8601 instant, as in 2026-09-01T00:00:00Z."
            "INVALID_REQUEST")
          "INVALID_REQUEST"
      else if is_supported supported resource
      then pure tt
      else refuse (unsupported name supported resource) "NOT_SUPPORTED"

  unfoldable pub check_incremental :
      Env J → Request → LinkedAccount → Option ScopeResource → Exec J W (Unit {0})
  unfolding check_updated_after
  check_incremental env req a resource = elim (Assoc.lookup "updatedAfter" req.query) [
    | none ↦ pure tt
    | some value ↦
        if req.method == "GET" then check_updated_after env value a.provider resource else pure tt
  ]
