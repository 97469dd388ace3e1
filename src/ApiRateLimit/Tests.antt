-- ===== src/ApiRateLimit/Tests.antt =====
-- src/lib/api-rate-limit.ts: windows and budgets at concrete inputs.
use openipaas.Prelude.{
  eq_iff, ℕ, min, true, ◌&&◌, ◌≡◌, ◌≤◌, ◌⊎◌, refl, some, [], ◌∷◌, inl, inr, arith, if◌then◌else◌,
}
use openipaas.Prelude.Assoc.{lookup}
use openipaas.ApiRateLimit.{
  Windows, RateLimitVerdict, BudgetScope, client, live, consume_local, Limits, KeyBudget,
  BudgetReplies, no_redis,
}
use openipaas.ApiRateLimit.Windows.{Call, allowed_for, calls_for, allowed_for-window}
use openipaas.ApiRateLimit.Budget.{outcome, client_call, key_call, consume_for_key_exact}

abbrev call_at : ℕ → Call
call_at t = record { key = "key:a"; limit = 2; window_ms = 60000; at = t }

abbrev other_at : ℕ → Call
other_at t = record { key = "key:b"; limit = 1; window_ms = 60000; at = t }

window_tests :
    (allowed_for "key:a" (call_at 0 ∷ call_at 5 ∷ other_at 6 ∷ call_at 7 ∷ []) [] ≡ 2)
    × (allowed_for "key:a" (call_at 0 ∷ call_at 5 ∷ call_at 7 ∷ call_at 60000 ∷ []) [] ≡ 3)
unfolding allowed_for consume_local
window_tests = (refl, refl)

allowed_for-window_example :
    allowed_for "key:a" (call_at 0 ∷ call_at 5 ∷ other_at 6 ∷ call_at 7 ∷ []) []
    ≡ min (calls_for "key:a" (call_at 0 ∷ call_at 5 ∷ other_at 6 ∷ call_at 7 ∷ [])) 2
unfolding live lookup
allowed_for-window_example =
    allowed_for-window "key:a" 2 (call_at 0) (call_at 5 ∷ other_at 6 ∷ call_at 7 ∷ []) [] refl refl
      (omega arith) refl
      (
        (omega arith, inr refl),
        (
          (omega arith, inl (λ e. ground (arith, (eq_iff "key:b" "key:a").1 e))),
          ((omega arith, inr refl), tt),
        ),
      )

abbrev small_limits : Limits
small_limits = record { default_limit = 1; default_window_ms = 60000; default_key_limit = 300 }

abbrev offline : BudgetReplies
offline = record { client_reply = no_redis; key_reply = no_redis }

abbrev budget_of_key : KeyBudget
budget_of_key = record { client_id = "c"; key_id = "k"; key_limit = some 5 }

abbrev client_answer : RateLimitVerdict × Windows
client_answer = client_call small_limits offline budget_of_key 1000 []

abbrev key_answer : RateLimitVerdict × Windows
key_answer = key_call small_limits offline budget_of_key 1000 []

abbrev both : (RateLimitVerdict × BudgetScope) × Windows
both = outcome small_limits offline budget_of_key 1000 []

consume_for_key_exact_example :
    (both.0.0.allowed ≡ (client_answer.0.allowed && key_answer.0.allowed))
    × (both.1 ≡ (if client_answer.0.allowed then key_answer.1 else client_answer.1))
    × (both.0.0.remaining ≡ (
        if client_answer.0.allowed
        then min key_answer.0.remaining client_answer.0.remaining
        else client_answer.0.remaining))
    × ((client_answer.0.allowed ≡ true) ⊎ (both.0 ≡ (client_answer.0, client)))
    × ((both.0.0.allowed ≡ true) ⊎ ((both.0.0.remaining ≡ 0) × (1 ≤ both.0.0.retry_after_seconds)))
consume_for_key_exact_example = consume_for_key_exact small_limits offline budget_of_key 1000 []
