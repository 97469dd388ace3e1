-- ===== src/Providers/Base/Replays.antt =====
-- src/lib/providers/core/BaseProvider.ts: how often a request is sent and its token renewed.
use openipaas.Prelude.{
  some, ℕ, String, Bool, true, false, ◌≡◌, refl, sym, inl, inr, List, [], ◌∷◌, Option-cases,
  Bool-cases,
}
use openipaas.Prelude.Assoc
use openipaas.Prelude.Assoc.{Assoc}
use openipaas.Credentials.{ProviderContext}
use openipaas.Providers.Http.{Outcome, ok, thrown, Thrown}
use openipaas.Providers.Http.Classes.{Outcome-cases}
use openipaas.Providers.Base.{
  token_in_use, expires_soon, Renewal, Deps, Trace, is_token_expired, replay, answer_first,
  attempt_with, renew_early, request,
}

abbrev pub is_expired : {A : Type 0} → Outcome A → Bool
is_expired (ok a) = false
is_expired (thrown error) = is_token_expired error

-- How a request may end: with its only attempt; with a second attempt, with the token of a renewal, after
-- the first one's token had expired; or with the error of that renewal.
pub data Ends {A : Type 0} (deps : Deps A) (t : Trace A) : Type 0 where
  only : (token : String) → t.attempts ≡ token ∷ [] → t.outcome ≡ deps.call 1 token → Ends deps t
  second :
      (token : String) (refresh : ℕ → String → Outcome Renewal) (r : Renewal)
      → t.attempts ≡ token ∷ r.access_token ∷ []
      → is_expired (deps.call 1 token) ≡ true
      → deps.refresh ≡ some refresh
      → refresh 2 token ≡ ok r
      → t.outcome ≡ deps.call 2 r.access_token
      → Ends deps t
  unrenewed :
      (token : String) (refresh : ℕ → String → Outcome Renewal) (error : Thrown)
      → t.attempts ≡ token ∷ []
      → is_expired (deps.call 1 token) ≡ true
      → deps.refresh ≡ some refresh
      → refresh 2 token ≡ thrown error
      → t.outcome ≡ thrown error
      → Ends deps t

module _ (ctx : ProviderContext) {A : Type 0} (deps : Deps A) where
  replay-Ends :
      (refresh : ℕ → String → Outcome Renewal) (token : String) (renewals : List String)
      (renewed : Assoc Renewal)
      → is_expired (deps.call 1 token) ≡ true
      → deps.refresh ≡ some refresh
      → Ends deps (replay ctx deps refresh token renewals renewed)
  unfolding replay
  replay-Ends refresh token renewals renewed e given = elim (Outcome-cases (refresh 2 token)) [
    | inl (error, failed) ↦
        simp (failed, replay) (unrenewed token refresh error refl e given failed refl)
    | inr (r, renewal) ↦ simp (renewal, replay) (second token refresh r refl e given renewal refl)
  ]

  attempt_with-Ends :
      (token : String) (renewals : List String) (renewed : Assoc Renewal)
      → Ends deps (attempt_with ctx deps token renewals renewed)
  unfolding attempt_with answer_first
  attempt_with-Ends token renewals renewed = elim (Outcome-cases (deps.call 1 token)) [
    | inr (a, e) ↦ rw (e, attempt_with) (only token refl (sym e))
    | inl (error, e) ↦ elim (Option-cases deps.refresh) [
      | inl none_given ↦ simp (e, none_given, attempt_with, answer_first) (only token refl (sym e))
      | inr (refresh, given) ↦ elim (Bool-cases (is_token_expired error)) [
        | inr other ↦ simp (e, given, other, attempt_with, answer_first) (only token refl (sym e))
        | inl expired ↦
            simp (e, given, expired, attempt_with, answer_first)
              (replay-Ends refresh token renewals renewed (rw (e, is_expired) expired) given)
      ]
    ]
  ]

  -- A request is sent once or twice. It is sent a second time only after the first attempt was answered
  -- that its token had expired, with the token that the refresher then gave, and ends with the second
  -- attempt, whatever that is; if the refresher failed, it ends with the refresher's error.
  pub request-Ends : (renewed : Assoc Renewal) → Ends deps (request ctx deps renewed)
  unfolding request renew_early
  request-Ends renewed = elim (Option-cases deps.refresh) [
    | inl none_given ↦ simp (none_given, request) (attempt_with-Ends token [] renewed)
    | inr (refresh, given) ↦ elim (Bool-cases (expires_soon ctx deps.now renewed)) [
      | inr later ↦ simp (given, later, request) (attempt_with-Ends token [] renewed)
      | inl soon ↦ elim (Outcome-cases (refresh 1 token)) [
        | inl (error, failed) ↦
            simp (given, soon, failed, request, renew_early)
              (attempt_with-Ends token (token ∷ []) renewed)
        | inr (r, renewal) ↦
            simp (given, soon, renewal, request, renew_early)
              (attempt_with-Ends r.access_token (token ∷ [])
                (Assoc.insert ctx.credential_id r renewed))
      ]
    ]
  ]
    where
      token : String
      token = token_in_use ctx renewed
