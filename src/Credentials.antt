-- ===== src/Credentials.antt =====
-- src/lib/credentials.ts: from a stored credential to the context that a provider runs in.
-- `decrypt` stands for that of src/lib/crypto.ts, which openipaas.Crypto models; none where it throws.
pub mod Newest
mod Tests
use openipaas.Prelude.{
  ℕ, String, Bool, true, false, Option, none, some, List, [], ◌∷◌, ltb, if◌then◌else◌,
}
use openipaas.Prelude.Assoc.{Assoc}
use openipaas.Prelude.Text.{is_empty}

pub record OAuthCredential : Type 0 where
  pub id : String
  pub access_token : String
  pub refresh_token : Option String
  pub secrets : Option String
  pub instance_url : Option String
  pub external_tenant_id : Option String
  pub expires_at : Option ℕ
  pub created_at : ℕ

pub record ProviderContext : Type 0 where
  pub credential_id : String
  pub provider : String
  pub access_token : String
  pub refresh_token : Option String
  pub expires_at : Option ℕ
  pub instance_url : Option String
  pub external_tenant_id : Option String
  pub secrets : Assoc String

-- What the platform's cipher and the reading of JSON objects give; none where they throw or where
-- the text is no object.
pub record Cipher : Type 0 where
  pub decrypt : String → Option String
  pub read_object : String → Option (Assoc String)

infixl 5 ◌>>=◌
abbrev ◌>>=◌ {ℓ κ} : {A : Type ℓ} {B : Type κ} → Option A → (A → Option B) → Option B
none >>= f = none
some a >>= f = f a

-- The outer option is none where the decryption throws.
unfoldable pub decrypt_nullable : Cipher → Option String → Option (Option String)
decrypt_nullable cipher none = some none
decrypt_nullable cipher (some value) =
    if is_empty value then some none else (do plain ← cipher.decrypt value; some (some plain))

-- An unreadable bag is logged and read as empty.
unfoldable pub read_secrets : Cipher → Option String → Assoc String
read_secrets cipher none = []
read_secrets cipher (some encrypted) =
    if is_empty encrypted then [] else elim (cipher.decrypt encrypted) [
      | none ↦ []
      | some text ↦ elim (cipher.read_object text) [ none ↦ [] | some bag ↦ bag ]
    ]

unfoldable pub to_provider_context : Cipher → OAuthCredential → String → Option ProviderContext
unfolding decrypt_nullable read_secrets
to_provider_context cipher credential provider = do
  access_token ← cipher.decrypt credential.access_token
  refresh_token ← decrypt_nullable cipher credential.refresh_token
  some (record {
    credential_id = credential.id;
    provider = provider;
    access_token = access_token;
    refresh_token = refresh_token;
    expires_at = credential.expires_at;
    instance_url = credential.instance_url;
    external_tenant_id = credential.external_tenant_id;
    secrets = read_secrets cipher credential.secrets;
  })

-- The first of a stable sort by creation, newest first.
newest : OAuthCredential → List OAuthCredential → OAuthCredential
newest best [] = best
newest best (c ∷ cs) = newest (if ltb best.created_at c.created_at then c else best) cs

unfoldable pub pick_active_credential : List OAuthCredential → Option OAuthCredential
unfolding newest
pick_active_credential [] = none
pick_active_credential (c ∷ cs) = some (newest c cs)

-- What is stored of a credential that comes in, each sensitive field enciphered.
pub record StoredFields : Type 0 where
  pub access_token : String
  pub refresh_token : Option String
  pub erp_client_id : Option String
  pub erp_client_secret : Option String
  pub secrets : Option String

pub record Incoming : Type 0 where
  pub access_token : String
  pub refresh_token : Option String
  pub erp_client_id : Option String
  pub erp_client_secret : Option String
  pub secrets : Assoc String

-- encryptNullable
abbrev encrypt_nullable : (encrypt : String → String) → Option String → Option String
encrypt_nullable encrypt none = none
encrypt_nullable encrypt (some value) = if is_empty value then none else some (encrypt value)

-- `stringify` writes the object of the secrets.
abbrev pub write_secrets :
    (encrypt : String → String) → (stringify : Assoc String → String) → Assoc String → Option String
write_secrets encrypt stringify [] = none
write_secrets encrypt stringify (entry ∷ entries) = some (encrypt (stringify (entry ∷ entries)))

abbrev pub to_stored_credential :
    (encrypt : String → String) → (stringify : Assoc String → String) → Incoming → StoredFields
to_stored_credential encrypt stringify input = record {
  access_token = encrypt input.access_token;
  refresh_token = encrypt_nullable encrypt input.refresh_token;
  erp_client_id = encrypt_nullable encrypt input.erp_client_id;
  erp_client_secret = encrypt_nullable encrypt input.erp_client_secret;
  secrets = write_secrets encrypt stringify input.secrets;
}
