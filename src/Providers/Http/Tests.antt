-- ===== src/Providers/Http/Tests.antt =====
-- src/lib/providers/core/http.ts: calls and their retries at concrete inputs.
use openipaas.Prelude.{
  ℕ, ◌≤◌, ◌<◌, ◌^◌, suc, zero, String, true, ◌≡◌, ◌≢◌, ◌↔◌, ◌⊎◌, refl, none, some, [], ◌∷◌, arith,
  length,
}
use openipaas.Providers.Http.{
  Response, FetchOutcome, abort_error, responded, json, Readings, Reply, Outcome, HttpOptions,
  default_options, perform_response, perform_request, retry_delay, delay_ms, retrying, http_request,
}
use openipaas.Providers.Http.Classes.{
  IsTransient, is_retried, Accounts, is_retried-perform_request_iff, perform_response_reports,
}
use openipaas.Providers.Http.Retries.{
  AreFair, made, retrying_stops, retrying_goes_on, retrying_sleeps,
}

-- The values of JSON are texts here.
abbrev readings : Readings String
readings = record { as_seconds = λ s. none; as_date = λ s. none; parse_json = λ s. some s; now = 0 }

abbrev status_response : ℕ → Response
status_response status = record { status = status; retry_after = none; text = some "{}" }

-- A server that fails twice and then answers.
abbrev recovering : ℕ → FetchOutcome
recovering zero = abort_error
recovering (suc zero) = responded (status_response 503)
recovering (suc (suc zero)) = abort_error
recovering (suc (suc (suc n))) = responded (status_response 200)

abbrev call : ℕ → Outcome (Reply String)
call n = perform_request readings "BLING" json (recovering n)

abbrev options : HttpOptions
options = default_options (λ n. 2 ^ 52)

retry_tests :
    ((http_request readings "BLING" json recovering options).fetches ≡ 3)
    × ((http_request readings "BLING" json recovering options).sleeps ≡ 150 ∷ 300 ∷ [])
unfolding http_request delay_ms
retry_tests = (refl, refl)

is_retried-perform_request_iff_example :
    (is_retried (perform_request readings "BLING" json (responded (status_response 503))) ≡ true)
    ↔ IsTransient (responded (status_response 503))
is_retried-perform_request_iff_example =
    is_retried-perform_request_iff readings "BLING" json (responded (status_response 503))

perform_response_reports_example :
    Accounts (status_response 422) (perform_response readings "BLING" json (status_response 422))
perform_response_reports_example =
    perform_response_reports readings "BLING" json (status_response 422)

retrying_stops_example :
    (1 ≤ made call options)
    × (made call options ≤ 3)
    × ((retrying call options).outcome ≡ call (made call options))
    × ((made call options ≡ 3)
        ⊎ (retry_delay (made call options) options (call (made call options)) ≡ none))
retrying_stops_example = retrying_stops call options (omega arith)

made_more : 2 < made call options
unfolding retrying perform_request
made_more = omega arith

every_retry_failed : retry_delay 2 options (call 2) ≢ none
every_retry_failed = retrying_goes_on call options (omega arith) 2 (omega arith) made_more

retrying_sleeps_example :
    AreFair call options 1 (retrying call options).sleeps
    × (suc (length (retrying call options).sleeps) ≡ made call options)
retrying_sleeps_example = retrying_sleeps call options (omega arith) (λ n. omega arith)
