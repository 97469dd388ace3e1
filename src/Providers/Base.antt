-- ===== src/Providers/Base.antt =====
-- src/lib/providers/core/BaseProvider.ts: one request of a provider, with the renewal of its token.
-- What the throttled HTTP call and the refresher come to are inputs: `call n token` is what attempt n of
-- this request comes to with a token, `refresh n token` what its renewal n does.
pub mod Pages
pub mod Replays
mod Tests
use openipaas.Prelude.{
  ℕ, ◌+◌, String, Bool, true, false, ◌&&◌, ◌||◌, not, Option, none, some, List, [], ◌∷◌, ◌++◌,
  if◌then◌else◌, ltb, get_or, any,
}
use openipaas.Prelude.Text.{trim, starts_with, split, is_empty, includes}
use openipaas.Prelude.Assoc
use openipaas.Prelude.Assoc.{Assoc}
use openipaas.Credentials.{ProviderContext}
use openipaas.Providers.Errors.{
  ProviderError, ErrorClass, token_expired_error, not_supported_of, provider_error, invalid_request,
  for_provider,
}
use openipaas.Providers.Http.{Thrown, provider, unhandled, Outcome, ok, thrown}
use openipaas.Providers.Manifests.{Manifest}

-- EARLY_RENEWAL_MARGIN_MS
abbrev pub early_renewal_margin_ms : ℕ
early_renewal_margin_ms = 60000

-- A token that was renewed during the life of the provider's object.
pub record Renewal : Type 0 where
  pub access_token : String
  pub expires_at : Option ℕ

pub record Deps (A : Type 0) : Type 0 where
  pub call : ℕ → String → Outcome A
  -- None where no refresher is given.
  pub refresh : Option (ℕ → String → Outcome Renewal)
  pub now : ℕ

-- What a request did: the tokens of its attempts, the stale tokens of its renewals, how it ended, and
-- the renewals that are remembered.
pub record Trace (A : Type 0) : Type 0 where
  pub attempts : List String
  pub renewals : List String
  pub outcome : Outcome A
  pub renewed : Assoc Renewal

abbrev pub is_token_expired : Thrown → Bool
is_token_expired unhandled = false
is_token_expired (provider e) = is_expired_class e.class
  where
    is_expired_class : ErrorClass → Bool
    is_expired_class token_expired_error = true
    is_expired_class _ = false

module _ (ctx : ProviderContext) where
  unfoldable pub token_in_use : Assoc Renewal → String
  token_in_use renewed = elim (Assoc.lookup ctx.credential_id renewed) [
    | none ↦ ctx.access_token
    | some r ↦ r.access_token
  ]

  -- A remembered renewal supersedes what the request started with, even without an expiry.
  unfoldable pub expires_soon : (now : ℕ) → Assoc Renewal → Bool
  expires_soon now renewed =
      let expiry : Option ℕ = elim (Assoc.lookup ctx.credential_id renewed) [
        | none ↦ ctx.expires_at
        | some r ↦ r.expires_at
      ] in
      elim expiry [ none ↦ false | some t ↦ ltb t (now + early_renewal_margin_ms) ]

  module _ {A : Type 0} (deps : Deps A) where
    -- The replay after a 401.
    unfoldable pub replay :
        (refresh : ℕ → String → Outcome Renewal)
        → (token : String) → List String
        → Assoc Renewal
        → Trace A
    replay refresh token renewals renewed = elim (refresh 2 token) [
      | thrown error ↦ record {
        attempts = token ∷ [];
        renewals = renewals ++ token ∷ [];
        outcome = thrown error;
        renewed = renewed;
      }
      | ok r ↦ record {
        attempts = token ∷ r.access_token ∷ [];
        renewals = renewals ++ token ∷ [];
        outcome = deps.call 2 r.access_token;
        renewed = Assoc.insert ctx.credential_id r renewed;
      }
    ]

    abbrev once : (token : String) → List String → Assoc Renewal → Outcome A → Trace A
    once token renewals renewed outcome = record {
      attempts = token ∷ [];
      renewals = renewals;
      outcome = outcome;
      renewed = renewed;
    }

    unfoldable pub answer_first :
        (token : String) → List String → Assoc Renewal → Outcome A → Trace A
    unfolding replay
    answer_first token renewals renewed (ok a) = once token renewals renewed (ok a)
    answer_first token renewals renewed (thrown error) = elim deps.refresh [
      | none ↦ once token renewals renewed (thrown error)
      | some refresh ↦
          if is_token_expired error
          then replay refresh token renewals renewed
          else once token renewals renewed (thrown error)
    ]

    unfoldable pub attempt_with : (token : String) → List String → Assoc Renewal → Trace A
    unfolding answer_first
    attempt_with token renewals renewed = answer_first token renewals renewed (deps.call 1 token)

    -- An early renewal that fails is logged, and the current token is tried.
    unfoldable pub renew_early :
        (refresh : ℕ → String → Outcome Renewal) → (token : String) → Assoc Renewal → Trace A
    unfolding attempt_with
    renew_early refresh token renewed = elim (refresh 1 token) [
      | thrown error ↦ attempt_with token (token ∷ []) renewed
      | ok r ↦ attempt_with r.access_token (token ∷ []) (Assoc.insert ctx.credential_id r renewed)
    ]

    unfoldable pub request : Assoc Renewal → Trace A
    unfolding token_in_use expires_soon renew_early attempt_with
    request renewed =
        let token = token_in_use renewed in
        elim deps.refresh [
          | none ↦ attempt_with token [] renewed
          | some refresh ↦
              if expires_soon deps.now renewed
              then renew_early refresh token renewed
              else attempt_with token [] renewed
        ]
