-- ===== src/Providers/Http.antt =====
-- src/lib/providers/core/http.ts: one upstream call, and the calls that are tried again.
-- What `fetch` gives is an input. Whole milliseconds; a random number is r / 2^53 for its numerator r.
pub mod Classes
pub mod Retries
mod Tests
use openipaas.Prelude.{
  ℕ, zero, suc, ◌+◌, ◌-◌, ◌*◌, ◌/◌, ◌^◌, min, max, String, Bool, true, false, not, ◌&&◌, ◌||◌,
  Option, none, some, List, [], ◌∷◌, ltb, leb, eqb, if◌then◌else◌, get_or,
}
use openipaas.Prelude.Text.{◌++◌, show, is_empty}
use openipaas.Providers.Errors.{
  ProviderError, provider_error, for_provider, upstream_timeout, upstream_error, not_found,
  invalid_request, token_expired_of, rate_limited_of, upstream_error_of, ErrorClass,
  rate_limit_error,
}

pub data ResponseType : Type 0 where
  json binary : ResponseType

pub record Response : Type 0 where
  pub status : ℕ
  pub retry_after : Option String
  -- What reading the body gives, as text where it is asked for as text, or none where it rejects.
  pub text : Option String

pub data FetchOutcome : Type 0 where
  abort_error : FetchOutcome
  other_error : (message : Option String) → FetchOutcome
  responded : Response → FetchOutcome

-- What is thrown: a provider's error, or one that is none.
pub data Thrown : Type 0 where
  provider : ProviderError → Thrown
  unhandled : Thrown

pub data Outcome {ℓ} (A : Type ℓ) : Type ℓ where
  ok : A → Outcome A
  thrown : Thrown → Outcome A

-- The body that a call returns, `J` being the values of JSON.
pub data Body (J : Type 0) : Type 0 where
  null : Body J
  parsed : J → Body J
  raw : String → Body J
  bytes : Body J

pub record Reply (J : Type 0) : Type 0 where
  pub status : ℕ
  pub body : Body J

-- The readings of a text that the language and its clock give: `Number` where it is finite, in whole
-- seconds, `Date.parse` where it is a date, `JSON.parse` where it does not throw.
pub record Readings (J : Type 0) : Type 0 where
  pub as_seconds : String → Option ℕ
  pub as_date : String → Option ℕ
  pub parse_json : String → Option J
  pub now : ℕ

abbrev pub is_ok : ℕ → Bool
is_ok status = leb 200 status && ltb status 300

module _ {J : Type 0} (env : Readings J) where
  unfoldable pub parse_retry_after_ms : Option String → Option ℕ
  parse_retry_after_ms none = none
  parse_retry_after_ms (some header) =
      if is_empty header then none else elim (env.as_seconds header) [
        | some seconds ↦ some (seconds * 1000)
        | none ↦ elim (env.as_date header) [ some date ↦ some (date - env.now) | none ↦ none ]
      ]

  read_body : Response → String → Reply J
  read_body res text =
      if is_empty text
      then record { status = res.status; body = null }
      else elim (env.parse_json text) [
        | some value ↦ record { status = res.status; body = parsed value }
        | none ↦ record { status = res.status; body = raw text }
      ]

  read_response : ResponseType → Response → Outcome (Reply J)
  unfolding read_body
  read_response binary res = elim res.text [
    | none ↦ thrown unhandled
    | some content ↦ ok (record { status = res.status; body = bytes })
  ]
  read_response json res = elim res.text [
    | none ↦ thrown unhandled
    | some text ↦ ok (read_body res text)
  ]

-- The error of a response that is not ok, neither 401 nor 429.
refusal : String → Response → ProviderError
refusal slug res =
    let detail : String = get_or res.text "" in
    if eqb res.status 404
    then provider_error not_found "The requested record was not found in the connected account."
        (record (for_provider slug) { details = some detail })
    else if leb 400 res.status && ltb res.status 500
    then provider_error invalid_request
        ("The " ++ slug ++ " API rejected the request (HTTP " ++ show res.status ++ ").")
        (record (for_provider slug) { details = some detail; status = some res.status })
    else upstream_error_of slug res.status (some detail)

module _ {J : Type 0} (env : Readings J) (slug : String) (kind : ResponseType) where
  unfoldable pub perform_response : Response → Outcome (Reply J)
  unfolding refusal read_response
  perform_response res =
      if eqb res.status 401
      then thrown (provider (token_expired_of slug))
      else if eqb res.status 429
      then thrown (provider (rate_limited_of slug (parse_retry_after_ms env res.retry_after)))
      else if not (is_ok res.status)
      then thrown (provider (refusal slug res))
      else read_response env kind res

  unfoldable pub perform_request : FetchOutcome → Outcome (Reply J)
  unfolding perform_response
  perform_request abort_error = thrown (
      provider (
        provider_error upstream_timeout ("The " ++ slug ++ " API did not respond in time.")
          (record (for_provider slug) { retryable = some true })))
  perform_request (other_error message) = thrown (
      provider (
        provider_error upstream_error ("Could not reach the " ++ slug ++ " API.")
          (record (for_provider slug) { details = message; retryable = some true })))
  perform_request (responded res) = perform_response res

pub record HttpOptions : Type 0 where
  pub max_attempts : ℕ
  pub base_delay_ms : ℕ
  pub max_delay_ms : ℕ
  -- The numerator of the random number that is drawn before attempt `n + 1`.
  pub random : ℕ → ℕ

-- The options that are left out.
abbrev pub default_options : (ℕ → ℕ) → HttpOptions
default_options random = record {
  max_attempts = 3;
  base_delay_ms = 300;
  max_delay_ms = 8000;
  random = random;
}

unfoldable pub backoff_ms : ℕ → HttpOptions → ℕ
backoff_ms attempt opts =
    opts.random attempt * min opts.max_delay_ms (opts.base_delay_ms * 2 ^ (attempt - 1)) / 2 ^ 53

-- `err instanceof RateLimitError ? err.retryAfterMs : undefined`
abbrev pub retry_after_of : ErrorClass → Option ℕ
retry_after_of (rate_limit_error retry_after_ms) = retry_after_ms
retry_after_of _ = none

unfoldable pub delay_ms : ℕ → HttpOptions → ProviderError → ℕ
unfolding backoff_ms
delay_ms attempt opts err = get_or (retry_after_of err.class) (backoff_ms attempt opts)

-- The delay before the next attempt, if the error may be tried again.
unfoldable pub retry_delay : {A : Type 0} → ℕ → HttpOptions → Outcome A → Option ℕ
retry_delay attempt opts (ok a) = none
retry_delay attempt opts (thrown unhandled) = none
retry_delay attempt opts (thrown (provider err)) =
    if err.retryable then some (delay_ms attempt opts err) else none

-- What a call did: how often it fetched, how long it slept between, and how it ended.
pub record Run (A : Type 0) : Type 0 where
  pub fetches : ℕ
  pub sleeps : List ℕ
  pub outcome : Outcome A

abbrev slept : {A : Type 0} → ℕ → Run A → Run A
slept ms run = record run { fetches = suc run.fetches; sleeps = ms ∷ run.sleeps }

-- The loop from `attempt` on, with `left` attempts after it. `call n` is what attempt n comes to.
attempts : {A : Type 0} → (ℕ → Outcome A) → HttpOptions → (left attempt : ℕ) → Run A
unfolding retry_delay
attempts call opts zero attempt = record { fetches = 1; sleeps = []; outcome = call attempt }
attempts call opts (suc left) attempt =
    let more = attempts call opts left (suc attempt) in
    elim (retry_delay attempt opts (call attempt)) [
      | none ↦ record { fetches = 1; sleeps = []; outcome = call attempt }
      | some ms ↦ slept ms more
    ]

-- With no attempt allowed the loop does not run, and what is thrown is undefined.
rounds : {A : Type 0} → (ℕ → Outcome A) → HttpOptions → ℕ → Run A
unfolding attempts
rounds call opts zero = record { fetches = 0; sleeps = []; outcome = thrown unhandled }
rounds call opts (suc left) = attempts call opts left 1

unfoldable pub retrying : {A : Type 0} → (ℕ → Outcome A) → HttpOptions → Run A
unfolding rounds
retrying call opts = rounds call opts opts.max_attempts

unfoldable pub http_request :
    {J : Type 0}
    → Readings J
    → String
    → ResponseType
    → (ℕ → FetchOutcome)
    → HttpOptions
    → Run (Reply J)
unfolding retrying perform_request
http_request env slug kind fetch opts = retrying (λ n. perform_request env slug kind (fetch n)) opts
