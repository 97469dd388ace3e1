-- ===== src/TokenRefresh/Tests.antt =====
-- src/lib/token-refresh.ts: a renewal and a caller that waited, at concrete inputs.
use openipaas.Prelude.{true, false, ◌≡◌, ◌≢◌, refl, none, some, List, [], ◌∷◌, arith, All, eq_iff}
use openipaas.Providers.Http.{ok}
use openipaas.Providers.Manifests.{Manifest, oauth2, find_manifest, normalize_slug}
use openipaas.TokenRefresh.{
  Credential, Renewed, Stale, Outside, TokenRequest, granted, resolve_oauth_client, token_request,
}
use openipaas.TokenRefresh.Locked.{refresh_with_lock, serve}
use openipaas.TokenRefresh.Spending.{Holds}
use openipaas.TokenRefresh.Waiters.{Answers, spent_once, refresh_with_lock-Holds}

abbrev manifest : Manifest
manifest = record {
  slug = "BLING";
  name = "Bling";
  base_url = "https://api.bling.com.br";
  auth = oauth2 "https://bling.com.br/token" false;
  capabilities = [];
  incremental = [];
  stable_list = [];
  passthrough = true;
  enabled = true;
}

abbrev outside : Outside
outside = record {
  cipher = record { decrypt = λ s. some s; read_object = λ s. none };
  encrypt = λ s. s;
  variable = λ name. none;
  base64 = λ s. s;
  post = λ request.
      granted (record { access_token = "new"; refresh_token = some "r2"; expires_in = some 3600 });
  now = 1000;
  registry = manifest ∷ [];
  saved = true;
}

abbrev rows : List Credential
rows =
    record {
      id = "cred";
      provider = "BLING";
      access_token = "old";
      refresh_token = some "r1";
      expires_at = none;
      erp_client_id = some "app";
      erp_client_secret = some "pass";
    }
    ∷ []

abbrev stale : Stale
stale = record { credential_id = "cred"; access_token = "old" }

abbrev renewed : Renewed
renewed = record { access_token = "new"; refresh_token = some "r2"; expires_at = some 3601000 }

abbrev request : TokenRequest
request = record {
  url = "https://bling.com.br/token";
  authorization = none;
  form =
      ("grant_type", "refresh_token")
      ∷ ("refresh_token", "r1")
      ∷ ("client_id", "app")
      ∷ ("client_secret", "pass")
      ∷ [];
}

renewal_tests :
    ((refresh_with_lock outside stale rows).outcome ≡ ok renewed)
    × ((refresh_with_lock outside stale rows).requests ≡ request ∷ [])
unfolding refresh_with_lock find_manifest normalize_slug resolve_oauth_client token_request
renewal_tests = (refl, refl)

new_token : renewed.access_token ≢ stale.access_token
new_token e = ground (arith, (eq_iff renewed.access_token stale.access_token).1 e)

spent_once_example :
    ((serve ((outside, stale) ∷ (outside, stale) ∷ []) rows).requests ≡ request ∷ [])
    × ((serve ((outside, stale) ∷ (outside, stale) ∷ []) rows).rows
        ≡ (refresh_with_lock outside stale rows).rows)
    × All (Answers "new") (serve ((outside, stale) ∷ (outside, stale) ∷ []) rows).outcomes
spent_once_example =
    spent_once outside stale rows renewed request ((outside, stale) ∷ []) refl renewal_tests.0
      renewal_tests.1 new_token ((refl, refl), tt)

refresh_with_lock-Holds_example :
    Holds outside.cipher "cred" "new" (refresh_with_lock outside stale rows).rows
refresh_with_lock-Holds_example =
    refresh_with_lock-Holds outside stale rows renewed request refl renewal_tests.0 renewal_tests.1
