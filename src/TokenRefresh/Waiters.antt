-- ===== src/TokenRefresh/Waiters.antt =====
-- src/lib/token-refresh.ts: what the callers find that waited while another renewed the credential.
use openipaas.Prelude.{
  String, ◌≡◌, ◌≢◌, refl, sym, ap, subst, ◌∙◌, some, List, [], ◌∷◌, ◌==◌, arith, eq_iff, Bool-cases,
  Option-cases, inl, inr, All,
}
use openipaas.Credentials.{Cipher, decrypt_nullable}
use openipaas.Providers.Http.{provider, unhandled, Outcome, ok, thrown}
use openipaas.TokenRefresh.{
  Credential, Renewed, Stale, Outside, Refresh, TokenRequest, find_credential,
}
use openipaas.TokenRefresh.Locked.{answer_row, renew, stored_answer, refresh_with_lock, serve}
use openipaas.TokenRefresh.Spending.{Stored, Holds, find_credential-id, renew-Stored}

-- A caller is answered with this token, or with an error that asks nobody to reconnect.
abbrev pub Answers : String → Outcome Renewed → Type 0
Answers token (ok v) = v.access_token ≡ token
Answers token (thrown unhandled) = Unit
Answers token (thrown (provider error)) = ⊥

-- A caller that found the same token expired, served with the same cipher.
abbrev pub IsAlike : Cipher → Stale → Outside × Stale → Type 0
IsAlike cipher ctx caller = (caller.0.cipher ≡ cipher) × (caller.1 ≡ ctx)

module _ (io : Outside) (ctx : Stale) (rows : List Credential) (v : Renewed)
    (request : TokenRequest)
    (reads : io.cipher.decrypt (io.encrypt v.access_token) ≡ some v.access_token) where
  -- A renewal that has sent its token request and succeeded has stored the token that it answers: the row
  -- of the credential is there and its token, deciphered, is the answer's. The cipher must read what it
  -- has written of that token.
  pub refresh_with_lock-Holds :
      (refresh_with_lock io ctx rows).outcome ≡ ok v
      → (refresh_with_lock io ctx rows).requests ≡ request ∷ []
      → Holds io.cipher ctx.credential_id v.access_token (refresh_with_lock io ctx rows).rows
  unfolding refresh_with_lock answer_row stored_answer Stored
  refresh_with_lock-Holds e s = elim (Option-cases (find_credential ctx.credential_id rows)) [
    | inl missing ↦ ground arith
    | inr (row, found) ↦
        let own = find_credential-id ctx.credential_id rows row found in
        let renewed =
          renew-Stored io row rows (ap (λ id. find_credential id rows) own ∙ found) v request in
        elim (Option-cases (io.cipher.decrypt row.access_token)) [
          | inl unread ↦ ground arith
          | inr (stored, read) ↦ elim (Bool-cases (stored == ctx.access_token)) [
            | inl same ↦
                let held = renewed (ground arith) (ground arith) reads in
                let is_renewal : refresh_with_lock io ctx rows ≡ renew io row rows = ground arith in
                subst (λ (r : Refresh). Holds io.cipher ctx.credential_id v.access_token r.rows)
                  (sym is_renewal)
                  (subst (λ id. Holds io.cipher id v.access_token (renew io row rows).rows) own
                    held)
            | inr other ↦ elim (Option-cases (decrypt_nullable io.cipher row.refresh_token)) [
              | inl closed ↦ ground arith
              | inr (token, opened) ↦ ground arith
            ]
          ]
        ]
  ]

module _ (cipher : Cipher) (ctx : Stale) (token : String) (other : token ≢ ctx.access_token) where
  refresh_with_lock-quiet :
      (io : Outside) (rows : List Credential)
      → io.cipher ≡ cipher
      → Holds cipher ctx.credential_id token rows
      → ((refresh_with_lock io ctx rows).rows ≡ rows)
        × ((refresh_with_lock io ctx rows).requests ≡ [])
        × Answers token (refresh_with_lock io ctx rows).outcome
  unfolding refresh_with_lock answer_row stored_answer
  refresh_with_lock-quiet io rows same held =
      elim (Option-cases (decrypt_nullable io.cipher held.row.refresh_token)) [
        | inl closed ↦
            ground (arith, same, held.found, held.readable, eq_iff token ctx.access_token, other)
        | inr (t, opened) ↦
            ground (arith, same, held.found, held.readable, eq_iff token ctx.access_token, other)
      ]

  serve-quiet :
      (callers : List (Outside × Stale)) (rows : List Credential)
      → All (IsAlike cipher ctx) callers
      → Holds cipher ctx.credential_id token rows
      → ((serve callers rows).rows ≡ rows)
        × ((serve callers rows).requests ≡ [])
        × All (Answers token) (serve callers rows).outcomes
  unfolding serve
  serve-quiet [] rows alike held = (refl, refl, tt)
  serve-quiet ((io, caller) ∷ callers) rows ((same, is_ctx), rest) held =
      let (same_rows, silent, answer) = refresh_with_lock-quiet io rows same held in
      let (later_rows, later_silent, later) = serve-quiet callers rows rest held in
      rw (is_ctx, same_rows, silent) (later_rows, later_silent, (answer, later))

-- When a renewal has sent its token request and succeeded with a token that differs from the one that
-- was found expired, the callers that follow and found the same token expired send no token request and
-- change no row. Each is answered with the renewed token, or with an error that asks nobody to reconnect.
-- The cipher must read what it has written of that token, and be the same for all.
pub spent_once :
    (io : Outside) (ctx : Stale) (rows : List Credential) (v : Renewed) (request : TokenRequest)
    (callers : List (Outside × Stale))
    → io.cipher.decrypt (io.encrypt v.access_token) ≡ some v.access_token
    → (refresh_with_lock io ctx rows).outcome ≡ ok v
    → (refresh_with_lock io ctx rows).requests ≡ request ∷ []
    → v.access_token ≢ ctx.access_token
    → All (IsAlike io.cipher ctx) callers
    → ((serve ((io, ctx) ∷ callers) rows).requests ≡ request ∷ [])
      × ((serve ((io, ctx) ∷ callers) rows).rows ≡ (refresh_with_lock io ctx rows).rows)
      × All (Answers v.access_token) (serve ((io, ctx) ∷ callers) rows).outcomes
unfolding serve
spent_once io ctx rows v request callers reads succeeded sent fresh alike =
    let held = refresh_with_lock-Holds io ctx rows v request reads succeeded sent in
    let (same_rows, silent, answers) =
      serve-quiet io.cipher ctx v.access_token fresh callers (refresh_with_lock io ctx rows).rows
        alike held in
    (rw (sent, silent) refl, same_rows, (rw succeeded refl, answers))
