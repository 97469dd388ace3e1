-- ===== src/TokenRefresh.antt =====
-- src/lib/token-refresh.ts: the renewal of a credential under its lock.
-- The lock makes the renewals of one credential follow each other, so one renewal is a function from the
-- rows that it finds to the rows that it leaves. It also gives the token requests that it sent.
pub mod Locked
pub mod Spending
pub mod Waiters
mod Tests
use openipaas.Prelude.{
  ℕ, ◌+◌, ◌*◌, String, Bool, true, false, ◌&&◌, ◌||◌, not, Option, none, some, List, [], ◌∷◌, ◌==◌,
  if◌then◌else◌, map, ltb, get_or, is_some,
}
use openipaas.Prelude.Text.{◌++◌, is_empty, trim}
use openipaas.Prelude.Assoc.{Assoc}
use openipaas.Credentials.{Cipher, decrypt_nullable}
use openipaas.Providers.Errors.{
  ProviderError, provider_error, token_expired, config_error, for_provider, ErrorOptions,
}
use openipaas.Providers.Http.{Thrown, provider, unhandled, Outcome, ok, thrown}
use openipaas.Providers.Manifests.{
  Manifest, AuthConfig, oauth2, static, Registry, find_manifest, unknown_provider,
}
use openipaas.UnifiedAuth.KeyCheck.{given}

-- A row with the provider of its account.
pub record Credential : Type 0 where
  pub id : String
  pub provider : String
  pub access_token : String
  pub refresh_token : Option String
  pub expires_at : Option ℕ
  pub erp_client_id : Option String
  pub erp_client_secret : Option String

pub record Renewed : Type 0 where
  pub access_token : String
  pub refresh_token : Option String
  pub expires_at : Option ℕ

-- The credential and the token that the caller found expired.
pub record Stale : Type 0 where
  pub credential_id : String
  pub access_token : String

pub record TokenRequest : Type 0 where
  pub url : String
  pub authorization : Option String
  pub form : Assoc String

pub record Grant : Type 0 where
  pub access_token : String
  pub refresh_token : Option String
  pub expires_in : Option ℕ

-- What the token endpoint comes to: a grant, a response that is not ok, or a fetch or a
-- reading of its JSON that fails.
pub data TokenReply : Type 0 where
  granted : Grant → TokenReply
  denied : (detail : String) → TokenReply
  unreachable : TokenReply

-- What lies outside: the cipher, the environment's variables, base 64, the token endpoint, the clock, the
-- registry, and whether the row can be written.
pub record Outside : Type 0 where
  pub cipher : Cipher
  pub encrypt : String → String
  pub variable : String → Option String
  pub base64 : String → String
  pub post : TokenRequest → TokenReply
  pub now : ℕ
  pub registry : Registry
  pub saved : Bool

pub record Refresh : Type 0 where
  pub outcome : Outcome Renewed
  pub rows : List Credential
  pub requests : List TokenRequest

unfoldable pub find_credential : String → List Credential → Option Credential
find_credential id [] = none
find_credential id (row ∷ rows) = if row.id == id then some row else find_credential id rows

unfoldable pub update : String → (Credential → Credential) → List Credential → List Credential
update id change rows = map (λ row. if row.id == id then change row else row) rows

-- `value ? decrypt(value) : ''`, none where the decryption throws
opened : Cipher → Option String → Option String
opened cipher value = elim (given value) [ none ↦ some "" | some sealed ↦ cipher.decrypt sealed ]

-- `(process.env[name] || '').trim()`
variable_of : Outside → String → String
unfolding trim
variable_of io name = trim (get_or (io.variable name) "")

from_environment : Outside → (slug : String) → Outcome (String × String)
unfolding variable_of
from_environment io slug =
    let client_id = variable_of io (slug ++ "_CLIENT_ID") in
    let client_secret = variable_of io (slug ++ "_CLIENT_SECRET") in
    if is_empty client_id || is_empty client_secret
    then thrown (
        provider (
          provider_error config_error
            ("OAuth app credentials for " ++ slug ++ " are not configured on the server.")
            (for_provider slug)))
    else ok (client_id, client_secret)

unfoldable pub resolve_oauth_client :
    Outside → (slug : String) → Credential → Outcome (String × String)
unfolding opened from_environment
resolve_oauth_client io slug row = elim (opened io.cipher row.erp_client_id) [
  | none ↦ thrown unhandled
  | some client_id ↦ elim (opened io.cipher row.erp_client_secret) [
    | none ↦ thrown unhandled
    | some client_secret ↦
        if is_empty client_id || is_empty client_secret
        then from_environment io slug
        else ok (client_id, client_secret)
  ]
]

unfoldable pub token_request :
    Outside
    → (token_url : String) (basic : Bool) (refresh_token : String) → String × String
    → TokenRequest
token_request io token_url basic refresh_token client =
    let (client_id, client_secret) = client in
    let grant : Assoc String =
      ("grant_type", "refresh_token") ∷ ("refresh_token", refresh_token) ∷ [] in
    if basic
    then record {
      url = token_url;
      authorization = some ("Basic " ++ io.base64 (client_id ++ ":" ++ client_secret));
      form = grant;
    }
    else record {
      url = token_url;
      authorization = none;
      form =
          ("grant_type", "refresh_token")
          ∷ ("refresh_token", refresh_token)
          ∷ ("client_id", client_id)
          ∷ ("client_secret", client_secret)
          ∷ [];
    }

abbrev pub please_reconnect : (slug message : String) → Option String → Thrown
please_reconnect slug message detail =
    provider
      (provider_error token_expired message (record (for_provider slug) { details = detail }))

-- `data.expires_in ? new Date(Date.now() + data.expires_in * 1000) : null`
abbrev expiry_of : ℕ → Option ℕ → Option ℕ
expiry_of now none = none
expiry_of now (some seconds) = if ltb 0 seconds then some (now + seconds * 1000) else none

-- A provider that does not rotate its refresh tokens sends none, and the stored one stays.
abbrev pub renewed_row : Outside → Credential → Grant → Credential → Credential
renewed_row io row g old = record old {
  access_token = io.encrypt g.access_token;
  refresh_token = elim (given g.refresh_token) [
    | none ↦ row.refresh_token
    | some t ↦ some (io.encrypt t)
  ];
  expires_at = expiry_of io.now g.expires_in;
}

abbrev pub gives_up : Thrown → List Credential → List TokenRequest → Refresh
gives_up error rows requests = record { outcome = thrown error; rows = rows; requests = requests }

unfoldable pub conclude :
    Outside
    → Manifest
    → Credential
    → (refresh_token : String) → TokenRequest
    → List Credential
    → TokenReply
    → Refresh
unfolding update
conclude io m row refresh_token request rows (denied detail) =
    gives_up
      (please_reconnect m.slug
        ("Could not renew the " ++ m.name ++ " session. Please reconnect the account.")
        (some detail))
      rows (request ∷ [])
conclude io m row refresh_token request rows unreachable = gives_up unhandled rows (request ∷ [])
conclude io m row refresh_token request rows (granted g) =
    if io.saved
    then record {
      outcome = ok (record {
        access_token = g.access_token;
        refresh_token = some (get_or g.refresh_token refresh_token);
        expires_at = expiry_of io.now g.expires_in;
      });
      rows = update row.id (renewed_row io row g) rows;
      requests = request ∷ [];
    }
    else gives_up unhandled rows (request ∷ [])

-- requestNewTokens and what follows it
unfoldable pub spend :
    Outside
    → Manifest
    → (token_url : String) (basic : Bool) → Credential
    → (refresh_token : String) → List Credential
    → Refresh
unfolding resolve_oauth_client token_request conclude
spend io m token_url basic row refresh_token rows = elim (resolve_oauth_client io m.slug row) [
  | thrown error ↦ gives_up error rows []
  | ok client ↦
      let request = token_request io token_url basic refresh_token client in
      conclude io m row refresh_token request rows (io.post request)
]
