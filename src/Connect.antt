-- ===== src/Connect.antt =====
-- src/lib/connect-session.ts and src/app/actions/connect.ts: one-time invitations to connect an account.
-- The id, the token and the clock are inputs; the token is read in Connect/Tokens.
pub mod Tokens
pub mod Submissions
pub mod States
mod Tests
use openipaas.Prelude.{
  ℕ, ◌+◌, String, Bool, true, false, ◌&&◌, not, Option, none, some, List, [], ◌∷◌, ◌++◌, ◌==◌, leb,
  if◌then◌else◌, is_some, any, map, filter, get_or,
}
use openipaas.Prelude.Assoc.{Assoc, lookup}
use openipaas.Prelude.Text.{trim, is_empty, to_upper_case}
use openipaas.Prelude.Text
use openipaas.Providers.Manifests.{
  Manifest, AuthConfig, oauth2, static, Registry, find_manifest, is_known_provider,
}
use openipaas.Connect.Tokens.{ConnectClaims}

abbrev pub session_ttl_ms : ℕ
session_ttl_ms = 1800000

-- A row of ConnectSession.
pub record ConnectSession : Type 0 where
  pub id : String
  pub client_id : String
  pub token_hash : String
  pub provider : Option String
  pub redirect_url : Option String
  pub origins : List String
  pub label : Option String
  pub logo_url : Option String
  pub accent_color : Option String
  pub expires_at : ℕ
  pub used_at : Option ℕ
  pub linked_account_id : Option String

-- What a new session is asked for with.
pub record CreateSessionInput : Type 0 where
  pub client_id : String
  pub provider : Option String
  pub redirect_url : Option String
  pub origins : List String
  pub label : Option String
  pub logo_url : Option String
  pub accent_color : Option String

abbrev pub claims_of : (id : String) → CreateSessionInput → (now : ℕ) → ConnectClaims
claims_of id input now = record { sid = id; org = input.origins; exp = now + session_ttl_ms }

-- The row of a new session; `digest` is the SHA-256 of a token.
unfoldable pub create_connect_session :
    (digest : String → String) (id token : String)
    → CreateSessionInput
    → (now : ℕ) → List ConnectSession
    → List ConnectSession
create_connect_session digest id token input now sessions =
    sessions
    ++ record {
      id = id;
      client_id = input.client_id;
      token_hash = digest token;
      provider = input.provider;
      redirect_url = input.redirect_url;
      origins = input.origins;
      label = input.label;
      logo_url = input.logo_url;
      accent_color = input.accent_color;
      expires_at = now + session_ttl_ms;
      used_at = none;
      linked_account_id = none;
    }
      ∷ []

pub data SessionState : Type 0 where
  invalid : SessionState
  ok expired used : ConnectSession → SessionState

unfoldable pub find_session : (id : String) → List ConnectSession → Option ConnectSession
find_session id [] = none
find_session id (s ∷ sessions) = if s.id == id then some s else find_session id sessions

state_of : (hash : String) → (now : ℕ) → Option ConnectSession → SessionState
state_of hash now none = invalid
state_of hash now (some s) =
    if not (s.token_hash == hash)
    then invalid
    else if is_some s.used_at
    then used s
    else if leb s.expires_at now
    then expired s
    else ok s

-- `claims` is what the token reads as, if its signature checks out.
unfoldable pub resolve_connect_session :
    (digest : String → String) (token : String)
    → Option ConnectClaims
    → (now : ℕ) → List ConnectSession
    → SessionState
unfolding find_session state_of
resolve_connect_session digest token none now sessions = invalid
resolve_connect_session digest token (some claims) now sessions =
    state_of (digest token) now (find_session claims.sid sessions)

-- updateMany of the unused row with this id: whether there was one, and the rows after it.
unfoldable pub complete_connect_session :
    (id linked_account_id : String) (now : ℕ) → List ConnectSession → Bool × List ConnectSession
complete_connect_session id linked_account_id now sessions =
    let is_open : ConnectSession → Bool = λ s. s.id == id && not (is_some s.used_at) in
    (
      any is_open sessions,
      map
          (λ (s : ConnectSession).
            if is_open s
            then record s { used_at = some now; linked_account_id = some linked_account_id }
            else s)
          sessions,
    )

-- One pinned service, or every one that is enabled.
unfoldable pub offered_providers : Registry → ConnectSession → List Manifest
offered_providers registry s =
    let enabled = filter (λ (m : Manifest). m.enabled) registry in
    elim s.provider [
      | none ↦ enabled
      | some slug ↦
          if is_empty slug then enabled else filter (λ (m : Manifest). m.slug == slug) enabled
    ]

-- A row of LinkedAccount, with the secrets of its credential.
pub record Account : Type 0 where
  pub id : String
  pub client_id : String
  pub provider : String
  pub label : String
  pub access_token : String
  pub secrets : Assoc String

pub record Rows : Type 0 where
  pub sessions : List ConnectSession
  pub accounts : List Account

pub record CredentialField : Type 0 where
  pub key : String
  pub label : String
  pub required : Bool

pub data Submitted : Type 0 where
  refused : (message : String) → Submitted
  connected : (account_id : String) → Submitted

-- The secrets that the form gives for the fields, or the error of a required one that is missing.
pub data ReadSecrets : Type 0 where
  missing : (message : String) → ReadSecrets
  secrets : Assoc String → ReadSecrets

abbrev with_secret : (key value : String) → ReadSecrets → ReadSecrets
with_secret key value (missing message) = missing message
with_secret key value (secrets rest) = secrets ((key, value) ∷ rest)

unfoldable pub read_fields : List CredentialField → Assoc String → ReadSecrets
unfolding lookup
read_fields [] form = secrets []
read_fields (f ∷ fields) form =
    let value = trim (get_or (lookup f.key form) "") in
    let rest = read_fields fields form in
    if not (is_empty value)
    then with_secret f.key value rest
    else if f.required
    then missing (Text.◌++◌ f.label " is required.")
    else rest

first_secret : List CredentialField → Assoc String → String
unfolding lookup
first_secret [] given = ""
first_secret (f ∷ fields) given = get_or (lookup f.key given) ""

-- The account that a submission makes, and then the claim of the session: where it is lost, the account
-- is deleted again.
unfoldable pub finish_submission : ConnectSession → Account → (now : ℕ) → Rows → Submitted × Rows
unfolding complete_connect_session
finish_submission s account now rows =
    let added = rows.accounts ++ account ∷ [] in
    let (claimed, sessions) = complete_connect_session s.id account.id now rows.sessions in
    if claimed then (connected account.id, record { sessions = sessions; accounts = added }) else (
      refused "This link was already used.",
      record rows { accounts = filter (λ (a : Account). not (a.id == account.id)) added },
    )

module _ (registry : Registry) (fields_of : Manifest → List CredentialField) (new_id : String)
    (now : ℕ) where
  submit_secrets :
      ConnectSession → Manifest → (provider : String) → ReadSecrets → Rows → Submitted × Rows
  unfolding finish_submission first_secret
  submit_secrets s m provider (missing message) rows = (refused message, rows)
  submit_secrets s m provider (secrets given) rows =
      let token = first_secret (fields_of m) given in
      if is_empty token
      then (refused "Missing credentials.", rows)
      else finish_submission s
          (record {
            id = new_id;
            client_id = s.client_id;
            provider = provider;
            label = m.name;
            access_token = token;
            secrets = given;
          })
          now rows

  -- A session pinned to one service may not be talked into another one.
  abbrev pinned_elsewhere : ConnectSession → String → Bool
  pinned_elsewhere s provider = elim s.provider [
    | none ↦ false
    | some slug ↦ not (is_empty slug) && not (slug == provider)
  ]

  submit_to :
      ConnectSession
      → (provider : String) → Assoc String
      → Option Manifest
      → Rows
      → Submitted × Rows
  unfolding submit_secrets read_fields
  submit_to s provider form none rows = (refused "That service is not available here.", rows)
  submit_to s provider form (some m) rows =
      if pinned_elsewhere s provider
      then (refused "That service is not available here.", rows)
      else elim m.auth [
        | oauth2 url basic ↦
            (refused "That service is connected through its own sign-in window.", rows)
        | static ↦ submit_secrets s m provider (read_fields (fields_of m) form) rows
      ]

  unfoldable pub submit_connect_credentials :
      SessionState → (provider_slug : String) → Assoc String → Rows → Submitted × Rows
  unfolding submit_to find_manifest to_upper_case
  submit_connect_credentials invalid provider_slug form rows =
      (refused "This link is not valid.", rows)
  submit_connect_credentials (expired s) provider_slug form rows =
      (refused "This link has expired. Ask for a new one.", rows)
  submit_connect_credentials (used s) provider_slug form rows =
      (refused "This link was already used.", rows)
  submit_connect_credentials (ok s) provider_slug form rows =
      let provider = to_upper_case provider_slug in
      submit_to s provider form (find_manifest registry provider) rows
