-- ===== src/Providers/Errors.antt =====
-- src/lib/providers/core/errors.ts: the typed errors that every provider raises.
-- The subclasses of `ProviderError` are the constructors of `ErrorClass`.
use openipaas.Prelude.{ℕ, String, Bool, true, false, Option, none, some, leb, get_or}
use openipaas.Prelude.Text.{◌++◌, show}

pub data ProviderErrorCode : Type 0 where
  token_expired not_supported rate_limited upstream_error upstream_timeout : ProviderErrorCode
  invalid_request not_found mapping_error config_error : ProviderErrorCode

abbrev pub status_by_code : ProviderErrorCode → ℕ
status_by_code token_expired = 401
status_by_code not_supported = 501
status_by_code rate_limited = 429
status_by_code upstream_error = 502
status_by_code upstream_timeout = 504
status_by_code invalid_request = 400
status_by_code not_found = 404
status_by_code mapping_error = 502
status_by_code config_error = 500

abbrev pub code_text : ProviderErrorCode → String
code_text token_expired = "TOKEN_EXPIRED"
code_text not_supported = "NOT_SUPPORTED"
code_text rate_limited = "RATE_LIMITED"
code_text upstream_error = "UPSTREAM_ERROR"
code_text upstream_timeout = "UPSTREAM_TIMEOUT"
code_text invalid_request = "INVALID_REQUEST"
code_text not_found = "NOT_FOUND"
code_text mapping_error = "MAPPING_ERROR"
code_text config_error = "CONFIG_ERROR"

pub data ErrorClass : Type 0 where
  plain : ErrorClass
  token_expired_error not_supported_error upstream_failure : ErrorClass
  rate_limit_error : (retry_after_ms : Option ℕ) → ErrorClass

pub record ProviderError : Type 0 where
  pub class : ErrorClass
  pub code : ProviderErrorCode
  pub message : String
  pub status : ℕ
  pub provider : Option String
  pub retryable : Bool
  pub details : Option String

-- The options of the constructor; each may be left out.
pub record ErrorOptions : Type 0 where
  pub provider : Option String
  pub details : Option String
  pub retryable : Option Bool
  pub status : Option ℕ

abbrev pub for_provider : String → ErrorOptions
for_provider slug = record { provider = some slug; details = none; retryable = none; status = none }

abbrev pub retried_by_default : ProviderErrorCode → Bool
retried_by_default rate_limited = true
retried_by_default upstream_timeout = true
retried_by_default _ = false

abbrev pub provider_error : ProviderErrorCode → String → ErrorOptions → ProviderError
provider_error code message opts = record {
  class = plain;
  code = code;
  message = message;
  status = get_or opts.status (status_by_code code);
  provider = opts.provider;
  retryable = get_or opts.retryable (retried_by_default code);
  details = opts.details;
}

-- A subclass calls the constructor of its parent.
abbrev extend : ErrorClass → ProviderError → ProviderError
extend c e = record e { class = c }

abbrev pub token_expired_of : String → ProviderError
token_expired_of slug = extend token_expired_error (
    provider_error token_expired "The credential for this account has expired." (for_provider slug))

abbrev pub not_supported_of : (slug resource operation : String) → ProviderError
not_supported_of slug resource operation = extend not_supported_error (
    provider_error not_supported
      ("Provider " ++ slug ++ " does not support " ++ operation ++ " on " ++ resource ++ ".")
      (for_provider slug))

abbrev pub rate_limited_of : String → Option ℕ → ProviderError
rate_limited_of slug retry_after_ms = extend (rate_limit_error retry_after_ms) (
    provider_error rate_limited ("Rate limit reached for " ++ slug ++ ". Please retry shortly.")
      (record (for_provider slug) { retryable = some true }))

abbrev pub upstream_error_of : String → ℕ → Option String → ProviderError
upstream_error_of slug status details = extend upstream_failure (
    provider_error upstream_error
      ("The " ++ slug ++ " API returned an error (HTTP " ++ show status ++ ").")
      (record (for_provider slug) { details = details; retryable = some (leb 500 status) }))
