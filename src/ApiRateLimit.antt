-- ===== src/ApiRateLimit.antt =====
-- src/lib/api-rate-limit.ts: the fixed-window limiter of the public API.
-- Times are whole milliseconds; each function takes the clock's reading as `current`.
pub mod Windows
pub mod Budget
mod Tests
use openipaas.Prelude.{
  ℕ, ◌+◌, ◌-◌, ◌/◌, ◌<◌, max, String, Bool, true, false, Option, none, some, ltb, leb,
  if◌then◌else◌, length,
}
use openipaas.Prelude.Assoc.{Assoc, lookup, insert, remove_if}
use openipaas.Prelude.Text.{◌++◌}

pub record Window : Type 0 where
  pub count : ℕ
  pub reset_at_ms : ℕ

abbrev pub Windows : Type 0
Windows = Assoc Window

pub record RateLimitVerdict : Type 0 where
  pub allowed : Bool
  pub limit : ℕ
  pub remaining : ℕ
  pub reset_at_ms : ℕ
  pub retry_after_seconds : ℕ

-- Math.ceil(ms / 1000)
abbrev pub ceil_seconds : ℕ → ℕ
ceil_seconds ms = (ms + 999) / 1000

-- `Math.max(0, limit - count)` is the truncated difference. A reset that lies behind `current`
-- gives a quotient that is not positive, and the maximum with 1 is 1 as it is with 0.
unfoldable pub verdict_from : (count limit reset_at_ms current : ℕ) → RateLimitVerdict
verdict_from count limit reset_at_ms current =
    let allowed = leb count limit in
    record {
      allowed = allowed;
      limit = limit;
      remaining = limit - count;
      reset_at_ms = reset_at_ms;
      retry_after_seconds = if allowed then 0 else max 1 (ceil_seconds (reset_at_ms - current));
    }

abbrev pub is_over : ℕ → Window → Bool
is_over current w = leb w.reset_at_ms current

sweep : ℕ → Windows → Windows
unfolding remove_if
sweep current windows = remove_if (is_over current) windows

-- `!existing || existing.resetAtMs <= current`
unfoldable pub live : ℕ → Option Window → Option Window
live current none = none
live current (some w) = if is_over current w then none else some w

-- A window that is not there, or is over, is replaced by a fresh one.
open_window : (key : String) (limit window_ms current : ℕ) → Windows → RateLimitVerdict × Windows
unfolding sweep insert verdict_from
open_window key limit window_ms current windows =
    let fresh : Window = record { count = 1; reset_at_ms = current + window_ms } in
    let stored = insert key fresh windows in
    (
      verdict_from 1 limit (current + window_ms) current,
      if ltb 10000 (length stored) then sweep current stored else stored,
    )

count_in : (key : String) (limit current : ℕ) → Window → Windows → RateLimitVerdict × Windows
unfolding insert verdict_from
count_in key limit current existing windows =
    let counted = existing.count + 1 in
    (
      verdict_from counted limit existing.reset_at_ms current,
      insert key (record existing { count = counted }) windows,
    )

unfoldable pub consume_local :
    (key : String) (limit window_ms current : ℕ) → Windows → RateLimitVerdict × Windows
unfolding open_window count_in lookup live
consume_local key limit window_ms current windows = elim (live current (lookup key windows)) [
  | none ↦ open_window key limit window_ms current windows
  | some existing ↦ count_in key limit current existing windows
]

-- What Redis answers: it is not configured, the call fails, or the script gives the count and the
-- time to live, 0 where that is not positive.
pub data RedisReply : Type 0 where
  no_redis failed : RedisReply
  counted : (count ttl_ms : ℕ) → RedisReply

unfoldable pub consume :
    RedisReply → (key : String) (limit window_ms current : ℕ) → Windows → RateLimitVerdict × Windows
unfolding consume_local verdict_from
consume no_redis key limit window_ms current windows =
    consume_local key limit window_ms current windows
consume failed key limit window_ms current windows =
    consume_local key limit window_ms current windows
consume (counted count ttl_ms) key limit window_ms current windows = (
  verdict_from count limit (current + (if ltb 0 ttl_ms then ttl_ms else window_ms)) current,
  windows,
)

-- The limits that the environment sets.
pub record Limits : Type 0 where
  pub default_limit : ℕ
  pub default_window_ms : ℕ
  pub default_key_limit : ℕ

-- The limits of a process whose environment sets none.
abbrev pub default_limits : Limits
default_limits = record { default_limit = 600; default_window_ms = 60000; default_key_limit = 300 }

pub record KeyBudget : Type 0 where
  pub client_id : String
  pub key_id : String
  pub key_limit : Option ℕ

pub data BudgetScope : Type 0 where
  client key : BudgetScope

-- `budget.keyLimit && budget.keyLimit > 0 ? budget.keyLimit : DEFAULT_KEY_LIMIT`
unfoldable pub limit_of_key : Limits → Option ℕ → ℕ
limit_of_key limits none = limits.default_key_limit
limit_of_key limits (some limit) = if ltb 0 limit then limit else limits.default_key_limit

-- What the two calls of Redis answer, in the order in which they are made.
pub record BudgetReplies : Type 0 where
  pub client_reply : RedisReply
  pub key_reply : RedisReply

consume_key :
    Limits
    → BudgetReplies
    → KeyBudget
    → ℕ
    → RateLimitVerdict
    → Windows
    → (RateLimitVerdict × BudgetScope) × Windows
unfolding consume limit_of_key
consume_key limits replies budget current spent windows =
    let (own, windows') =
      consume replies.key_reply ("key:" ++ budget.key_id) (limit_of_key limits budget.key_limit)
        limits.default_window_ms current windows in
    (if leb own.remaining spent.remaining then (own, key) else (spent, client), windows')

unfoldable pub consume_for_key :
    Limits → BudgetReplies → KeyBudget → ℕ → Windows → (RateLimitVerdict × BudgetScope) × Windows
unfolding consume consume_key
consume_for_key limits replies budget current windows =
    let (spent, windows') =
      consume replies.client_reply ("client:" ++ budget.client_id) limits.default_limit
        limits.default_window_ms current windows in
    if spent.allowed
    then consume_key limits replies budget current spent windows'
    else ((spent, client), windows')
