-- ===== src/Providers/Throttle/Budget.antt =====
-- src/lib/providers/core/rate-limit.ts: what a bucket grants over a run of calls.
use openipaas.Prelude.{
  ℕ, ◌+◌, ◌-◌, ◌*◌, ◌≤◌, ◌<◌, All, ◌≡◌, ap, List, [], ◌∷◌, arith, leb, if◌then◌else◌,
}
use native.Mathlib.Nat.{mod-lt}
use native.Mathlib.Omega.{div_any}
use openipaas.Providers.Throttle.{Bucket, one, wait_for, refill, take_token}

-- The calls at the given readings of the clock: how many got a token, and the bucket after them.
abbrev pub served : List ℕ → Bucket → ℕ × Bucket
served [] bucket = (0, bucket)
served (current ∷ times) bucket =
    let (wait_ms, bucket') = take_token (refill current bucket) in
    let (granted, bucket'') = served times bucket' in
    (granted + (if leb wait_ms 0 then 1 else 0), bucket'')

refill_bound :
    (current : ℕ) (b : Bucket)
    → b.tokens ≤ b.capacity
    → let b' = refill current b in
      (b'.tokens ≤ b'.capacity)
      × (b'.capacity ≡ b.capacity)
      × (b'.refill_per_ms ≡ b.refill_per_ms)
      × (b.last_refill_ms ≤ b'.last_refill_ms)
      × (b'.tokens ≤ b.tokens + (b'.last_refill_ms - b.last_refill_ms) * b.refill_per_ms)
unfolding refill
refill_bound current b h = ground arith

take_token_bound :
    (b : Bucket)
    → b.tokens ≤ b.capacity
    → let (wait_ms, b') = take_token b in
      (b'.tokens ≤ b'.capacity)
      × (b'.capacity ≡ b.capacity)
      × (b'.refill_per_ms ≡ b.refill_per_ms)
      × (b'.last_refill_ms ≡ b.last_refill_ms)
      × (b'.tokens + (if leb one b.tokens then one else 0) ≡ b.tokens)
unfolding take_token
take_token_bound b h = ground arith

wait_for_covers : (tokens rate : ℕ) → 0 < rate → one ≤ tokens + wait_for tokens rate * rate
unfolding wait_for
wait_for_covers tokens rate h =
    omega (arith, div_any (one - tokens + rate - 1) rate, mod-lt (one - tokens + rate - 1) h)

pub wait_for_pos : (tokens rate : ℕ) → 0 < rate → tokens < one → 0 < wait_for tokens rate
wait_for_pos tokens rate h few = grind (arith, wait_for_covers tokens rate h)

-- A call that is told not to wait took one token.
call_spends :
    (b : Bucket)
    → 0 < b.refill_per_ms
    → let (wait_ms, b') = take_token b in b'.tokens + (if leb wait_ms 0 then one else 0) ≡ b.tokens
unfolding take_token
call_spends b h = ground (arith, wait_for_pos b.tokens b.refill_per_ms h)

-- One call: the bucket after it, the token that it took, and the time that refilled it.
abbrev call : ℕ → Bucket → ℕ × Bucket
call current b = take_token (refill current b)

call_bound :
    (current : ℕ) (b : Bucket)
    → b.tokens ≤ b.capacity
    → 0 < b.refill_per_ms
    → let (wait_ms, b') = call current b in
      (b'.tokens ≤ b'.capacity)
      × (b'.capacity ≡ b.capacity)
      × (b'.refill_per_ms ≡ b.refill_per_ms)
      × (b.last_refill_ms ≤ b'.last_refill_ms)
      × (b'.tokens + (if leb wait_ms 0 then one else 0)
          ≤ b.tokens + (b'.last_refill_ms - b.last_refill_ms) * b.refill_per_ms)
call_bound current b within rate =
    let r = refill_bound current b within in
    let t = take_token_bound (refill current b) r.0 in
    let s = call_spends (refill current b) (ground (arith, r)) in ground (arith, r, t, s)

call_time :
    (current stop : ℕ) (b : Bucket)
    → b.last_refill_ms ≤ stop
    → current ≤ stop
    → (call current b).1.last_refill_ms ≤ stop
unfolding refill take_token
call_time current stop b h k = ground arith

stretch :
    (from mid to rate : ℕ)
    → from ≤ mid
    → mid ≤ to
    → (to - from) * rate ≡ (mid - from) * rate + (to - mid) * rate
stretch from mid to rate h k = omega (arith, sub_add from mid to h k)
  where
    sub_add :
        (from mid to : ℕ)
        → from ≤ mid
        → mid ≤ to
        → (to - from) * rate ≡ ((mid - from) + (to - mid)) * rate
    sub_add from mid to h k = ap (λ n. n * rate) (omega arith)

-- Over calls at any readings of the clock up to `stop`, in any order, a bucket that holds no more
-- than its burst grants at most the tokens that it held and those that the rate adds until `stop`,
-- and still holds no more than its burst.
pub served_bound :
    (times : List ℕ) (stop : ℕ) (b : Bucket)
    → b.tokens ≤ b.capacity
    → 0 < b.refill_per_ms
    → b.last_refill_ms ≤ stop
    → All (λ t. t ≤ stop) times
    → let (granted, b') = served times b in
      (granted * one + b'.tokens ≤ b.tokens + (stop - b.last_refill_ms) * b.refill_per_ms)
      × (b'.tokens ≤ b.capacity)
served_bound [] stop b within rate before all = ground arith
served_bound (t ∷ times) stop b within rate before (now, all) =
    let c = call_bound t b within rate in
    let b' = (call t b).1 in
    let k = call_time t stop b before now in
    let rest = served_bound times stop b' c.0 (ground (arith, c)) k all in
    ground
      (arith, c, k, rest, stretch b.last_refill_ms b'.last_refill_ms stop b.refill_per_ms c.3 k)
