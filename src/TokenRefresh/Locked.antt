-- ===== src/TokenRefresh/Locked.antt =====
-- src/lib/token-refresh.ts: `refreshWithLock`, and the callers that wait for the lock.
use openipaas.Prelude.{String, none, some, List, [], ◌∷◌, ◌++◌, ◌==◌, if◌then◌else◌}
use openipaas.Prelude.Text
use openipaas.Credentials.{decrypt_nullable}
use openipaas.Providers.Errors.{provider_error, config_error}
use openipaas.Providers.Http.{provider, unhandled, Outcome, ok}
use openipaas.Providers.Manifests.{Manifest, oauth2, static, find_manifest, unknown_provider}
use openipaas.UnifiedAuth.KeyCheck.{given}
use openipaas.TokenRefresh.{
  Credential, Renewed, Stale, Outside, Refresh, TokenRequest, find_credential, please_reconnect,
  gives_up, spend,
}

-- The stored token is the caller's: it is renewed with the refresh token, if there is one.
unfoldable pub renew_with : Outside → Manifest → Credential → List Credential → Refresh
unfolding spend decrypt_nullable
renew_with io m row rows = elim m.auth [
  | static ↦
      gives_up
        (please_reconnect m.slug
          (Text.◌++◌ "The "
            (Text.◌++◌ m.name " credentials were rejected. Please reconnect the account."))
          none)
        rows []
  | oauth2 token_url basic ↦ elim (decrypt_nullable io.cipher row.refresh_token) [
    | none ↦ gives_up unhandled rows []
    | some token ↦ elim (given token) [
      | none ↦
          gives_up
            (please_reconnect m.slug
              (Text.◌++◌ "The "
                (Text.◌++◌ m.name " session expired. Please reconnect the account."))
              none)
            rows []
      | some refresh_token ↦ spend io m token_url basic row refresh_token rows
    ]
  ]
]

unfoldable pub renew : Outside → Credential → List Credential → Refresh
unfolding renew_with
renew io row rows = elim (find_manifest io.registry row.provider) [
  | none ↦ gives_up (provider (unknown_provider row.provider)) rows []
  | some m ↦ renew_with io m row rows
]

-- Another caller has renewed already: its token is the answer, and nothing is spent.
unfoldable pub stored_answer : Outside → Credential → (stored : String) → List Credential → Refresh
unfolding decrypt_nullable
stored_answer io row stored rows = elim (decrypt_nullable io.cipher row.refresh_token) [
  | none ↦ gives_up unhandled rows []
  | some refresh_token ↦ record {
    outcome = ok (record {
      access_token = stored;
      refresh_token = refresh_token;
      expires_at = row.expires_at;
    });
    rows = rows;
    requests = [];
  }
]

unfoldable pub answer_row : Outside → Stale → Credential → List Credential → Refresh
unfolding renew stored_answer
answer_row io ctx row rows = elim (io.cipher.decrypt row.access_token) [
  | none ↦ gives_up unhandled rows []
  | some stored ↦
      if stored == ctx.access_token then renew io row rows else stored_answer io row stored rows
]

unfoldable pub refresh_with_lock : Outside → Stale → List Credential → Refresh
unfolding find_credential answer_row
refresh_with_lock io ctx rows = elim (find_credential ctx.credential_id rows) [
  | none ↦
      gives_up
        (provider (
          provider_error config_error "The credential for this account no longer exists."
            (record { provider = none; details = none; retryable = none; status = none })))
        rows []
  | some row ↦ answer_row io ctx row rows
]

-- Callers one after another, each with what lies outside at its turn.
pub record Served : Type 0 where
  pub outcomes : List (Outcome Renewed)
  pub rows : List Credential
  pub requests : List TokenRequest

unfoldable pub serve : List (Outside × Stale) → List Credential → Served
unfolding refresh_with_lock
serve [] rows = record { outcomes = []; rows = rows; requests = [] }
serve ((io, ctx) ∷ callers) rows =
    let first = refresh_with_lock io ctx rows in
    let rest = serve callers first.rows in
    record {
      outcomes = first.outcome ∷ rest.outcomes;
      rows = rest.rows;
      requests = first.requests ++ rest.requests;
    }
