-- ===== src/TokenRefresh/Spending.antt =====
-- src/lib/token-refresh.ts: a renewal that sends a token request and succeeds has stored its token.
use openipaas.Prelude.{
  String, Bool, ◌≡◌, refl, sym, ap, ◌⊎◌, ◌∙◌, some, List, [], ◌∷◌, ◌==◌, arith, eq_iff, Bool-cases,
  Option-cases, inl, inr,
}
use openipaas.Credentials.{Cipher, decrypt_nullable}
use openipaas.Providers.Http.{Thrown, ok}
use openipaas.Providers.Http.Classes.{Outcome-cases}
use openipaas.Providers.Manifests.{Manifest, AuthConfig, oauth2, static, find_manifest}
use openipaas.UnifiedAuth.KeyCheck.{given}
use openipaas.TokenRefresh.{
  Credential, Renewed, Outside, Refresh, TokenRequest, TokenReply, granted, denied, unreachable,
  find_credential, update, renewed_row, conclude, spend, gives_up, resolve_oauth_client,
  token_request,
}
use openipaas.TokenRefresh.Locked.{renew_with, renew}

find_credential-update :
    (id : String) (change : Credential → Credential) (rows : List Credential) (row : Credential)
    → ((r : Credential) → (change r).id ≡ r.id)
    → find_credential id rows ≡ some row
    → find_credential id (update id change rows) ≡ some (change row)
unfolding find_credential update
find_credential-update id change [] row keeps h = ground arith
find_credential-update id change (r ∷ rows) row keeps h =
    ground (arith, keeps r, find_credential-update id change rows row keeps)

pub find_credential-id :
    (id : String) (rows : List Credential) (row : Credential)
    → find_credential id rows ≡ some row
    → row.id ≡ id
unfolding find_credential
find_credential-id id [] row h = ground arith
find_credential-id id (r ∷ rows) row h = elim (Bool-cases (r.id == id)) [
  | inl same ↦
      let here : r ≡ row = ground arith in
      ap (λ (c : Credential). c.id) (sym here) ∙ (eq_iff r.id id).0 same
  | inr other ↦ find_credential-id id rows row (ground arith)
]

AuthConfig-cases :
    (a : AuthConfig) → (a ≡ static) ⊎ ((url : String) × (basic : Bool) × (a ≡ oauth2 url basic))
AuthConfig-cases static = inl refl
AuthConfig-cases (oauth2 url basic) = inr (url, basic, refl)

-- The renewed token stands in the row.
pub record Holds (cipher : Cipher) (id token : String) (rows : List Credential) : Type 0 where
  pub row : Credential
  pub found : find_credential id rows ≡ some row
  pub readable : cipher.decrypt row.access_token ≡ some token

module _ (io : Outside) where
  unfoldable pub Stored : String → Refresh → Type 0
  Stored id r =
      (v : Renewed) (request : TokenRequest)
      → r.outcome ≡ ok v
      → r.requests ≡ request ∷ []
      → io.cipher.decrypt (io.encrypt v.access_token) ≡ some v.access_token
      → Holds io.cipher id v.access_token r.rows

  module _ (row : Credential) (rows : List Credential)
      (found : find_credential row.id rows ≡ some row) where
    conclude-Stored :
        (m : Manifest) (token : String) (sent : TokenRequest) (reply : TokenReply)
        → Stored row.id (conclude io m row token sent rows reply)
    unfolding Stored conclude
    conclude-Stored m token sent (denied detail) v request e s reads = ground arith
    conclude-Stored m token sent unreachable v request e s reads = ground arith
    conclude-Stored m token sent (granted g) v request e s reads = elim (Bool-cases io.saved) [
      | inl saved ↦ record {
        row = renewed_row io row g row;
        found = ground (
          arith,
          find_credential-update row.id (renewed_row io row g) rows row (λ r. refl) found,
        );
        readable = ground arith;
      }
      | inr lost ↦ ground arith
    ]

    gives_up-Stored :
        (id : String) (error : Thrown) (sent : List TokenRequest)
        → Stored id (gives_up error rows sent)
    unfolding Stored
    gives_up-Stored id error sent v request e s reads = ground arith

    spend-Stored :
        (m : Manifest) (url : String) (basic : Bool) (token : String)
        → Stored row.id (spend io m url basic row token rows)
    unfolding spend
    spend-Stored m url basic token = elim (Outcome-cases (resolve_oauth_client io m.slug row)) [
      | inl (error, e) ↦ rw (e, spend) (gives_up-Stored row.id error [])
      | inr (client, e) ↦
          let request = token_request io url basic token client in
          rw (e, spend) (conclude-Stored m token request (io.post request))
    ]

    renew_with-Stored : (m : Manifest) → Stored row.id (renew_with io m row rows)
    unfolding renew_with
    renew_with-Stored m = elim (AuthConfig-cases m.auth) [
      | inl e ↦ rw (e, renew_with) (gives_up-Stored row.id _ [])
      | inr (url, basic, e) ↦ elim (Option-cases (decrypt_nullable io.cipher row.refresh_token)) [
        | inl unread ↦ rw (e, unread, renew_with) (gives_up-Stored row.id _ [])
        | inr (token, read) ↦ elim (Option-cases (given token)) [
          | inl absent ↦ rw (e, read, absent, renew_with) (gives_up-Stored row.id _ [])
          | inr (t, present) ↦ rw (e, read, present, renew_with) (spend-Stored m url basic t)
        ]
      ]
    ]

    pub renew-Stored : Stored row.id (renew io row rows)
    unfolding renew
    renew-Stored = elim (Option-cases (find_manifest io.registry row.provider)) [
      | inl unknown ↦ rw (unknown, renew) (gives_up-Stored row.id _ [])
      | inr (m, e) ↦ rw (e, renew) (renew_with-Stored m)
    ]
