-- ===== src/Providers/Base/Tests.antt =====
-- src/lib/providers/core/BaseProvider.ts: requests and passthrough paths at concrete inputs.
use openipaas.Prelude.{ℕ, zero, suc, String, ◌≡◌, refl, none, some, [], ◌∷◌}
use openipaas.Providers.Base.Pages.{normalize_passthrough_path}
use openipaas.Credentials.{ProviderContext}
use openipaas.Providers.Errors.{token_expired_of}
use openipaas.Providers.Http.{Outcome, ok, thrown, provider}
use openipaas.Providers.Base.{Deps, request}
use openipaas.Providers.Base.Replays.{Ends, request-Ends}
use openipaas.Prelude.Assoc

abbrev context : ProviderContext
context = record {
  credential_id = "cred";
  provider = "BLING";
  access_token = "old";
  refresh_token = none;
  expires_at = some 900000;
  instance_url = none;
  external_tenant_id = none;
  secrets = [];
}

-- The first attempt is answered with 401.
abbrev answers : ℕ → String → Outcome ℕ
answers zero token = ok 0
answers (suc zero) token = thrown (provider (token_expired_of "BLING"))
answers (suc (suc n)) token = ok 7

abbrev deps : Deps ℕ
deps = record {
  call = answers;
  refresh = some (λ n token. ok (record { access_token = "new"; expires_at = none }));
  now = 1000;
}

request_tests :
    ((request context deps []).attempts ≡ "old" ∷ "new" ∷ [])
    × ((request context deps []).outcome ≡ ok 7)
    × ((request context deps []).renewals ≡ "old" ∷ [])
unfolding request Assoc.lookup
request_tests = (refl, refl, refl)

request-Ends_example : Ends deps (request context deps [])
request-Ends_example = request-Ends context deps []

accepted : normalize_passthrough_path " /contatos?pagina=1 " "BLING" ≡ ok "/contatos?pagina=1"
unfolding normalize_passthrough_path
accepted = refl
