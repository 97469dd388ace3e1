-- ===== src/ApiRateLimit/Budget.antt =====
-- src/lib/api-rate-limit.ts: the two budgets that `consumeForKey` spends.
use openipaas.Prelude.{
  if◌then◌else◌, ◌⊎◌, ℕ, ◌+◌, ◌≤◌, min, String, true, false, ◌&&◌, ◌≡◌, Option-cases, inl, inr,
  arith,
}
use openipaas.Prelude.Assoc.{lookup}
use openipaas.Prelude.Text.{◌++◌}
use openipaas.ApiRateLimit.{
  Windows, RateLimitVerdict, verdict_from, live, open_window, count_in, consume_local, RedisReply,
  no_redis, failed, counted, consume, Limits, KeyBudget, BudgetScope, client, limit_of_key,
  BudgetReplies, consume_for_key,
}

-- A refusal shows an empty budget and asks to wait.
abbrev IsSound : RateLimitVerdict → Type 0
IsSound v = v.allowed ≡ false → (v.remaining ≡ 0) × (1 ≤ v.retry_after_seconds)

verdict_from-IsSound :
    (count limit reset_at_ms current : ℕ) → IsSound (verdict_from count limit reset_at_ms current)
unfolding verdict_from
verdict_from-IsSound count limit reset_at_ms current refused = ground arith

consume_local-IsSound :
    (k : String) (limit window_ms current : ℕ) (windows : Windows)
    → IsSound (consume_local k limit window_ms current windows).0
consume_local-IsSound k limit window_ms current windows =
    unfold consume_local open_window count_in in
    elim (Option-cases (live current (lookup k windows))) [
      | inl over ↦
          rw (over, consume_local) (verdict_from-IsSound 1 limit (current + window_ms) current)
      | inr (w, e) ↦
          rw (e, consume_local) (verdict_from-IsSound (w.count + 1) limit w.reset_at_ms current)
    ]

consume-IsSound :
    (reply : RedisReply) (k : String) (limit window_ms current : ℕ) (windows : Windows)
    → IsSound (consume reply k limit window_ms current windows).0
unfolding consume
consume-IsSound no_redis k limit window_ms current windows =
    consume_local-IsSound k limit window_ms current windows
consume-IsSound failed k limit window_ms current windows =
    consume_local-IsSound k limit window_ms current windows
consume-IsSound (counted count ttl_ms) k limit window_ms current windows =
    verdict_from-IsSound count limit _ current

module _ (limits : Limits) (replies : BudgetReplies) (budget : KeyBudget) (current : ℕ)
    (windows : Windows) where
  -- The client's call, and the key's call in the windows that the client's call leaves.
  abbrev pub client_call : RateLimitVerdict × Windows
  client_call =
      consume replies.client_reply ("client:" ++ budget.client_id) limits.default_limit
        limits.default_window_ms current windows

  abbrev pub key_call : RateLimitVerdict × Windows
  key_call =
      consume replies.key_reply ("key:" ++ budget.key_id) (limit_of_key limits budget.key_limit)
        limits.default_window_ms current client_call.1

  abbrev pub outcome : (RateLimitVerdict × BudgetScope) × Windows
  outcome = consume_for_key limits replies budget current windows

  -- A request passes exactly if both the client's and the key's budget let it pass. A client over
  -- its budget does not spend its key's: the windows are those that the client's call leaves, and the
  -- verdict is the client's. What is shown as remaining is the smaller of the two budgets when the
  -- client's call passes, and a refusal shows 0 and at least one second to wait.
  pub consume_for_key_exact :
      (outcome.0.0.allowed ≡ (client_call.0.allowed && key_call.0.allowed))
      × (outcome.1 ≡ (if client_call.0.allowed then key_call.1 else client_call.1))
      × (outcome.0.0.remaining ≡ (
          if client_call.0.allowed
          then min key_call.0.remaining client_call.0.remaining
          else client_call.0.remaining))
      × ((client_call.0.allowed ≡ true) ⊎ (outcome.0 ≡ (client_call.0, client)))
      × ((outcome.0.0.allowed ≡ true)
          ⊎ ((outcome.0.0.remaining ≡ 0) × (1 ≤ outcome.0.0.retry_after_seconds)))
  unfolding consume_for_key
  consume_for_key_exact = ground (
    arith,
    consume-IsSound replies.client_reply ("client:" ++ budget.client_id) limits.default_limit
        limits.default_window_ms current windows,
    consume-IsSound replies.key_reply ("key:" ++ budget.key_id)
        (limit_of_key limits budget.key_limit) limits.default_window_ms current client_call.1,
  )
