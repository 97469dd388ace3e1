-- ===== src/Connect/States.antt =====
-- src/lib/oauth.ts: the state of an authorization-code flow, and the exchange of the code.
-- The random state and verifier, the row's id, the hash and the clock are inputs.
pub mod Consumed
use openipaas.Prelude.{
  ℕ, ◌+◌, ◌*◌, String, Bool, true, false, ◌&&◌, ◌||◌, not, Option, none, some, List, [], ◌∷◌, ◌++◌,
  ◌==◌, ltb, eqb, if◌then◌else◌, is_some, map, get_or,
}
use openipaas.Prelude.Assoc.{Assoc}
use openipaas.Prelude.Text
use openipaas.Prelude.Text.{
  trim, to_lower_case, to_upper_case, drop_trailing, replace_all, is_empty, join,
}
use openipaas.Providers.Errors.{ProviderError, provider_error, invalid_request}

abbrev pub state_ttl_ms : ℕ
state_ttl_ms = 600000

-- The two variables of the environment, empty where they are not set.
unfoldable pub app_url : (next_public_app_url app_url : String) → String
app_url public plain = drop_trailing b'/' (
    trim (
      if not (is_empty public)
      then public
      else if not (is_empty plain)
      then plain
      else "http://localhost:3000"))

unfoldable pub redirect_uri_for : (app_url slug : String) → String
redirect_uri_for app_url slug =
    Text.◌++◌ app_url (Text.◌++◌ "/api/oauth/callback/" (replace_all b'_' "-" (to_lower_case slug)))

-- Reverses redirect_uri_for.
unfoldable pub slug_from_callback_segment : String → String
slug_from_callback_segment segment = replace_all b'-' "_" (to_upper_case segment)

-- A row of OAuthState.
pub record OauthState : Type 0 where
  pub id : String
  pub state : String
  pub client_id : String
  pub provider : String
  pub redirect_uri : String
  pub connect_session_id : Option String
  pub code_verifier : Option String
  pub expires_at : ℕ
  pub consumed_at : Option ℕ

unfoldable pub find_state : String → List OauthState → Option OauthState
find_state state [] = none
find_state state (r ∷ rows) = if r.state == state then some r else find_state state rows

-- Which hosted session a state belongs to, without burning it.
unfoldable pub connect_session_id_for_state : String → List OauthState → Option String
unfolding find_state
connect_session_id_for_state state rows = elim (find_state state rows) [
  | none ↦ none
  | some r ↦ r.connect_session_id
]

pub record ConsumedState : Type 0 where
  pub client_id : String
  pub provider : String
  pub redirect_uri : String
  pub code_verifier : Option String
  pub connect_session_id : Option String

abbrev consumed : OauthState → ConsumedState
consumed r = record {
  client_id = r.client_id;
  provider = r.provider;
  redirect_uri = r.redirect_uri;
  code_verifier = r.code_verifier;
  connect_session_id = r.connect_session_id;
}

pub data Consumption : Type 0 where
  burned : ConsumedState → Consumption
  raised : ProviderError → Consumption

abbrev pub bad_request : String → Consumption
bad_request message = raised (
    provider_error invalid_request message
      (record { provider = none; details = none; retryable = none; status = none }))

-- update of the row with this id
unfoldable pub burn : (id : String) → (now : ℕ) → List OauthState → List OauthState
burn id now rows =
    map (λ (r : OauthState). if r.id == id then record r { consumed_at = some now } else r) rows

unfoldable pub consume_row :
    (provider_slug : String)
    → (now : ℕ) → Option OauthState
    → List OauthState
    → Consumption × List OauthState
unfolding burn
consume_row provider_slug now none rows =
    (bad_request "This authorization link is invalid or has expired. Please try again.", rows)
consume_row provider_slug now (some r) rows =
    if is_some r.consumed_at || ltb r.expires_at now
    then (bad_request "This authorization link is invalid or has expired. Please try again.", rows)
    else if not (r.provider == provider_slug)
    then (bad_request "This authorization link does not match the provider that answered.", rows)
    else (burned (consumed r), burn r.id now rows)

unfoldable pub consume_oauth_state :
    (state provider_slug : String) → (now : ℕ) → List OauthState → Consumption × List OauthState
unfolding consume_row find_state
consume_oauth_state state provider_slug now rows =
    consume_row provider_slug now (find_state state rows) rows

-- What the manifest of a provider says of its flow.
pub record OauthConfig : Type 0 where
  pub authorization_url : String
  pub token_url : String
  pub scopes : List String
  pub pkce : Bool
  pub basic : Bool

-- The row of a new flow.
unfoldable pub begin_row :
    (id state code_verifier redirect_uri client_id provider : String)
    → Option String
    → (now : ℕ) → OauthState
begin_row id state code_verifier redirect_uri client_id provider connect_session_id now = record {
  id = id;
  state = state;
  client_id = client_id;
  provider = provider;
  redirect_uri = redirect_uri;
  connect_session_id = connect_session_id;
  code_verifier = some code_verifier;
  expires_at = now + state_ttl_ms;
  consumed_at = none;
}

-- The parameters of the authorization URL; `challenge` is the base64url of the verifier's SHA-256.
unfoldable pub authorization_params :
    OauthConfig → (app_client_id redirect_uri state challenge : String) → Assoc String
authorization_params config app_client_id redirect_uri state challenge =
    let scope : Assoc String = elim config.scopes [
      | [] ↦ []
      | first ∷ rest ↦ ("scope", join " " (first ∷ rest)) ∷ []
    ] in
    let proof : Assoc String =
      if config.pkce
      then ("code_challenge", challenge) ∷ ("code_challenge_method", "S256") ∷ []
      else [] in
    ("response_type", "code")
      ∷ ("client_id", app_client_id)
      ∷ ("redirect_uri", redirect_uri)
      ∷ ("state", state)
      ∷ scope
    ++ proof

-- The form that exchanges a code, and the text of the Authorization header before its base64.
unfoldable pub exchange_form :
    OauthConfig
    → (client_id client_secret code redirect_uri : String) → Option String
    → Assoc String × Option String
exchange_form config client_id client_secret code redirect_uri code_verifier =
    let own : Assoc String =
      if config.basic
      then []
      else ("client_id", client_id) ∷ ("client_secret", client_secret) ∷ [] in
    let proof = verifier_field config.pkce (get_or code_verifier "") in
    (
      ("grant_type", "authorization_code") ∷ ("code", code) ∷ ("redirect_uri", redirect_uri) ∷ own
          ++ proof,
      if config.basic then some (Text.◌++◌ client_id (Text.◌++◌ ":" client_secret)) else none,
    )
  where
    verifier_field : Bool → String → Assoc String
    verifier_field pkce verifier =
        if pkce && not (is_empty verifier) then ("code_verifier", verifier) ∷ [] else []
