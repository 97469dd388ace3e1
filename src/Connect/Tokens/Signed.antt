-- ===== src/Connect/Tokens/Signed.antt =====
-- src/lib/connect-token.ts: a token is read only if it is signed.
use openipaas.Prelude.{
  ℕ, ◌<◌, String, ◌≡◌, refl, sym, ap, inl, inr, Option, none, some, List, [], ◌∷◌, arith,
  Option-cases, eq_iff,
}
use openipaas.Prelude.Text.{split}
use openipaas.Connect.Tokens.{
  ConnectClaims, Payload, Signing, secret_or_null, opened_parts, opened, live, some_text,
  claims_with, claims_in, read_connect_token, decode,
}

module _ (s : Signing) where
  opened_parts-signed :
      (secret : String) (parts : List String) (encoded : String)
      → opened_parts s secret parts ≡ some encoded
      → (rest : List String) × (parts ≡ encoded ∷ s.hmac secret encoded ∷ rest)
  unfolding opened_parts
  opened_parts-signed secret [] encoded h = let absurd : ⊥ = ground arith in elim absurd [ ]
  opened_parts-signed secret (x ∷ []) encoded h = let absurd : ⊥ = ground arith in elim absurd [ ]
  opened_parts-signed secret (x ∷ y ∷ rest) encoded h =
      let same : (x ≡ encoded) × (y ≡ s.hmac secret x) =
        ground (arith, eq_iff y (s.hmac secret x)) in
      (rest, rw (sym same.0) (ap (λ z. x ∷ z ∷ rest) same.1))

  opened-signed :
      (token encoded : String)
      → opened s token ≡ some encoded
      → (secret : String) × (rest : List String) × (secret_or_null s ≡ some secret)
        × (split b'.' token ≡ encoded ∷ s.hmac secret encoded ∷ rest)
  unfolding opened
  opened-signed token encoded h = elim (Option-cases (secret_or_null s)) [
    | inl e ↦ (let absurd : ⊥ = ground (arith, e) in elim absurd [ ])
    | inr (secret, e) ↦
        let (rest, parts) =
          opened_parts-signed secret (split b'.' token) encoded (ground (arith, e, h)) in
        (secret, rest, e, parts)
  ]

  claims_in_sound :
      (now : ℕ) (o : Option Payload) (claims : ConnectClaims)
      → claims_in now o ≡ some claims
      → (p : Payload) × (o ≡ some p)
        × (p.sid ≡ some claims.sid)
        × (p.org ≡ claims.org)
        × (p.exp ≡ some claims.exp)
        × (now < claims.exp)
  unfolding claims_in claims_with some_text live
  claims_in_sound now none claims h = let absurd : ⊥ = ground arith in elim absurd [ ]
  claims_in_sound now (some p) claims h =
      (p, refl, ground arith, ground arith, ground arith, ground arith)

  -- A token is read as claims only if its second part is the HMAC of its first under the configured
  -- secret, and the first one's payload holds these claims, which have not expired.
  pub read_connect_token_signed :
      (now : ℕ) (token : String) (claims : ConnectClaims)
      → read_connect_token s now token ≡ some claims
      → (secret : String) × (encoded : String) × (rest : List String) × (p : Payload)
        × (secret_or_null s ≡ some secret)
        × (split b'.' token ≡ encoded ∷ s.hmac secret encoded ∷ rest)
        × (decode s encoded ≡ some p)
        × (p.sid ≡ some claims.sid)
        × (p.org ≡ claims.org)
        × (p.exp ≡ some claims.exp)
        × (now < claims.exp)
  unfolding read_connect_token
  read_connect_token_signed now token claims h = elim (Option-cases (opened s token)) [
    | inl e ↦ (let absurd : ⊥ = ground (arith, e) in elim absurd [ ])
    | inr (encoded, e) ↦
        let (secret, rest, configured, parts) = opened-signed token encoded e in
        let (p, decoded, sid, org, exp, fresh) =
          claims_in_sound now (decode s encoded) claims (ground (arith, e, h)) in
        (secret, encoded, rest, p, configured, parts, decoded, sid, org, exp, fresh)
  ]
