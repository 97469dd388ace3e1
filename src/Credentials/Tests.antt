-- ===== src/Credentials/Tests.antt =====
-- src/lib/credentials.ts: the choice between stored credentials.
use openipaas.Prelude.{ℕ, String, none, some, List, [], ◌∷◌, ◌≡◌, refl}
use openipaas.Credentials.{OAuthCredential, pick_active_credential}
use openipaas.Credentials.Newest.{IsNewest, pick_active_credential-IsNewest}

abbrev credential_at : String → ℕ → OAuthCredential
credential_at id created_at = record {
  id = id;
  access_token = "sealed";
  refresh_token = none;
  secrets = none;
  instance_url = none;
  external_tenant_id = none;
  expires_at = none;
  created_at = created_at;
}

abbrev stored : List OAuthCredential
stored = credential_at "old" 10 ∷ credential_at "new" 30 ∷ credential_at "same" 30 ∷ []

newest_test : pick_active_credential stored ≡ some (credential_at "new" 30)
unfolding pick_active_credential
newest_test = refl

pick_active_credential-IsNewest_example : IsNewest stored (pick_active_credential stored)
pick_active_credential-IsNewest_example = pick_active_credential-IsNewest stored
