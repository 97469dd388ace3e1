-- ===== src/Providers/Throttle.antt =====
-- src/lib/providers/core/rate-limit.ts: the token bucket that keeps calls under a provider's rate.
-- Tokens are counted in thousandths, so that a rate of requests per second is the thousandths that
-- a millisecond adds; the source counts in doubles. Rates and bursts are whole numbers, as the manifests'
-- are.
pub mod Budget
pub mod Evictions
pub mod Waiting
mod Tests
use openipaas.Prelude.{
  ℕ, zero, suc, ◌+◌, ◌-◌, ◌*◌, ◌/◌, min, max, String, Bool, true, false, Option, none, some, leb,
  if◌then◌else◌, get_or,
}
use openipaas.Prelude.Assoc.{Assoc, lookup, insert}

pub record Bucket : Type 0 where
  pub tokens : ℕ
  pub last_refill_ms : ℕ
  pub capacity : ℕ
  pub refill_per_ms : ℕ

-- The thousandths of one token.
abbrev pub one : ℕ
one = 1000

-- Math.ceil((1 - tokens) / rate); a division by no rate has the quotient 0.
unfoldable pub wait_for : (tokens rate : ℕ) → ℕ
wait_for tokens rate = (one - tokens + rate - 1) / rate

abbrev pub full : (rps burst current : ℕ) → Bucket
full rps burst current = record {
  tokens = burst * one;
  last_refill_ms = current;
  capacity = burst * one;
  refill_per_ms = rps;
}

-- getBucket: a bucket that is there keeps the rate and the burst that it was made with.
unfoldable pub get_bucket : (key : String) (rps burst current : ℕ) → Assoc Bucket → Bucket
get_bucket key rps burst current buckets = get_or (lookup key buckets) (full rps burst current)

unfoldable pub refill : ℕ → Bucket → Bucket
refill current bucket = if leb current bucket.last_refill_ms then bucket else record bucket {
  tokens =
      min bucket.capacity
        (bucket.tokens + (current - bucket.last_refill_ms) * bucket.refill_per_ms);
  last_refill_ms = current;
}

-- Takes a token, or tells how long it is until there is one.
unfoldable pub take_token : Bucket → ℕ × Bucket
unfolding wait_for
take_token bucket =
    if leb one bucket.tokens
    then (0, record bucket { tokens = bucket.tokens - one })
    else (wait_for bucket.tokens bucket.refill_per_ms, bucket)

unfoldable pub acquire_local_sync :
    (key : String) (rps burst current : ℕ) → Assoc Bucket → ℕ × Assoc Bucket
unfolding get_bucket refill take_token insert
acquire_local_sync key rps burst current buckets =
    let (wait_ms, bucket) =
      take_token (refill current (get_bucket key rps burst current buckets)) in
    (wait_ms, insert key bucket buckets)

-- The hash that the script keeps in Redis, and when Redis evicts it.
pub record Stored : Type 0 where
  pub tokens : ℕ
  pub ts : ℕ
  pub expires_at_ms : ℕ

-- HMGET: an evicted hash is not found.
unfoldable pub present : ℕ → Option Stored → Option Stored
present current none = none
present current (some stored) = if leb stored.expires_at_ms current then none else some stored

-- The tokens that the script finds: a missing hash is a full bucket.
unfoldable pub tokens_now : (rate capacity current : ℕ) → Option Stored → ℕ
tokens_now rate capacity current none = capacity
tokens_now rate capacity current (some stored) =
    min capacity (stored.tokens + (current - stored.ts) * rate)

-- TOKEN_BUCKET_SCRIPT
unfoldable pub token_bucket_script : (rate capacity current ttl_ms : ℕ) → Option Stored → ℕ × Stored
unfolding wait_for present tokens_now
token_bucket_script rate capacity current ttl_ms state =
    let tokens = tokens_now rate capacity current (present current state) in
    let kept = if leb one tokens then tokens - one else tokens in
    (
      if leb one tokens then 0 else wait_for tokens rate,
      record { tokens = kept; ts = current; expires_at_ms = current + ttl_ms },
    )

-- Math.ceil((burst / rate) * 2) + 60_000
unfoldable pub ttl_for : (rps burst : ℕ) → ℕ
ttl_for rps burst = (burst * one * 2 + rps - 1) / rps + 60000

-- What a caller shares with the others: the clock, the process' buckets, and Redis, which is
-- configured or not and answers or not.
pub record World : Type 0 where
  pub now : ℕ
  pub buckets : Assoc Bucket
  pub redis : Assoc Stored
  pub has_redis : Bool
  pub redis_answers : Bool

unfoldable pub try_local : (key : String) (rps burst : ℕ) → World → ℕ × World
unfolding acquire_local_sync
try_local key rps burst w =
    let (wait_ms, buckets) = acquire_local_sync key rps burst w.now w.buckets in
    (wait_ms, record w { buckets = buckets })

-- redis.eval of the script, which throws where Redis does not answer.
unfoldable pub try_distributed : (key : String) (rps burst : ℕ) → World → Option (ℕ × World)
unfolding token_bucket_script ttl_for lookup insert
try_distributed key rps burst w =
    if w.redis_answers
    then (let (wait_ms, stored) =
          token_bucket_script rps (burst * one) w.now (ttl_for rps burst) (lookup key w.redis) in
        some (wait_ms, record w { redis = insert key stored w.redis }))
    else none

-- `sleep` is what the world becomes while a caller sleeps, which other callers may use.
module _ (sleep : ℕ → World → World) where
  unfoldable pub local_loop : ℕ → (key : String) (rps burst waited : ℕ) → World → ℕ × World
  unfolding try_local
  local_loop zero key rps burst waited w = (waited, w)
  local_loop (suc n) key rps burst waited w =
      let (wait_ms, w') = try_local key rps burst w in
      elim (leb wait_ms 0) [
        | true ↦ (waited, w')
        | false ↦ local_loop n key rps burst (waited + wait_ms) (sleep wait_ms w')
      ]

  unfoldable pub acquire_local : (key : String) (rps burst : ℕ) → World → ℕ × World
  unfolding local_loop
  acquire_local key rps burst w = local_loop 100 key rps burst 0 w

  -- The second part of the result is the world; the first is missing where Redis threw.
  unfoldable pub distributed_loop :
      ℕ → (key : String) (rps burst waited : ℕ) → World → Option ℕ × World
  unfolding try_distributed
  distributed_loop zero key rps burst waited w = (some waited, w)
  distributed_loop (suc n) key rps burst waited w = elim (try_distributed key rps burst w) [
    | none ↦ (none, w)
    | some (wait_ms, w') ↦ elim (leb wait_ms 0) [
      | true ↦ (some waited, w')
      | false ↦ distributed_loop n key rps burst (waited + wait_ms) (sleep wait_ms w')
    ]
  ]

  unfoldable pub acquire_distributed : (key : String) (rps burst : ℕ) → World → Option ℕ × World
  unfolding distributed_loop
  acquire_distributed key rps burst w = distributed_loop 100 key rps burst 0 w

  or_local : (key : String) (rps burst : ℕ) → Option ℕ × World → ℕ × World
  unfolding acquire_local
  or_local key rps burst (some waited, w) = (waited, w)
  or_local key rps burst (none, w) = acquire_local key rps burst w

  -- The limit of a provider: the requests per second, and the burst where it names one.
  unfoldable pub acquire_slot : (key : String) → Option (ℕ × Option ℕ) → World → ℕ × World
  unfolding acquire_local acquire_distributed or_local
  acquire_slot key none w = (0, w)
  acquire_slot key (some (rps, named)) w =
      let burst = get_or named (max 1 rps) in
      let shared = or_local key rps burst (acquire_distributed key rps burst w) in
      let own = acquire_local key rps burst w in
      if leb rps 0 then (0, w) else if w.has_redis then shared else own
