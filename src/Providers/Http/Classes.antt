-- ===== src/Providers/Http/Classes.antt =====
-- src/lib/providers/core/http.ts: which failures of a call are tried again, and what a caller is told.
use openipaas.Prelude.{
  inl, inr, ◌⊎◌, refl, ℕ, ◌≤◌, ◌<◌, String, Bool, true, false, ◌≡◌, ◌≢◌, ◌↔◌, none, arith,
}
use openipaas.Providers.Errors.{
  ProviderErrorCode, token_expired, rate_limited, invalid_request, not_found, upstream_error,
}
use openipaas.Providers.Http.{
  Thrown, ResponseType, Response, FetchOutcome, abort_error, other_error, responded, provider,
  unhandled, Outcome, ok, thrown, Readings, Reply, perform_response, perform_request, is_ok,
}

pub Outcome-cases :
    {A : Type 0} (o : Outcome A) → ((error : Thrown) × (o ≡ thrown error)) ⊎ ((a : A) × (o ≡ ok a))
Outcome-cases (ok a) = inr (a, refl)
Outcome-cases (thrown error) = inl (error, refl)

-- Failures that a later attempt may not meet.
abbrev pub IsTransient : FetchOutcome → Type 0
IsTransient abort_error = Unit
IsTransient (other_error message) = Unit
IsTransient (responded res) = (res.status ≡ 429) ⊎ (500 ≤ res.status)

abbrev pub is_retried : {A : Type 0} → Outcome A → Bool
is_retried (ok a) = false
is_retried (thrown (provider err)) = err.retryable
is_retried (thrown unhandled) = false

-- What a response is reported as.
abbrev pub Reports : Response → ProviderErrorCode → ℕ → Type 0
Reports res token_expired status = (res.status ≡ 401) × (status ≡ 401)
Reports res rate_limited status = (res.status ≡ 429) × (status ≡ 429)
Reports res not_found status = (res.status ≡ 404) × (status ≡ 404)
Reports res invalid_request status =
    (400 ≤ res.status)
    × (res.status < 500)
    × (res.status ≢ 401)
    × (res.status ≢ 404)
    × (res.status ≢ 429)
    × (status ≡ res.status)
Reports res upstream_error status =
    ((res.status < 200) ⊎ ((300 ≤ res.status) × (res.status < 400)) ⊎ (500 ≤ res.status))
    × (status ≡ 502)
Reports res _ status = ⊥

abbrev pub Accounts : {J : Type 0} → Response → Outcome (Reply J) → Type 0
Accounts res (ok reply) = (is_ok res.status ≡ true) × (reply.status ≡ res.status)
Accounts res (thrown (provider err)) = Reports res err.code err.status
Accounts res (thrown unhandled) = (is_ok res.status ≡ true) × (res.text ≡ none)

module _ {J : Type 0} (env : Readings J) (slug : String) (kind : ResponseType) where
  -- A call is tried again exactly if it timed out, could not be sent, or was answered by 429 or by a
  -- status of 500 or more.
  pub is_retried-perform_request_iff :
      (o : FetchOutcome) → (is_retried (perform_request env slug kind o) ≡ true) ↔ IsTransient o
  unfolding perform_request
  is_retried-perform_request_iff abort_error = ground arith
  is_retried-perform_request_iff (other_error message) = ground arith
  is_retried-perform_request_iff (responded res) = ground arith

  -- A response of success is handed on with its status, unless its body cannot be read. Every other
  -- response becomes a provider's error: 401 as an expired token, 404 as not found, 429 as rate limited,
  -- each with that status; any other status from 400 to 499 as an invalid request with that status; and
  -- the rest as an upstream error with 502.
  pub perform_response_reports :
      (res : Response) → Accounts res (perform_response env slug kind res)
  unfolding perform_response
  perform_response_reports res = ground arith
