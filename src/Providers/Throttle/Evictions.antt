-- ===== src/Providers/Throttle/Evictions.antt =====
-- src/lib/providers/core/rate-limit.ts: the bucket in Redis and the one in the process.
use native.Mathlib.Nat.{mod-lt, mul-le-mul_right}
use mathlib.Core.Path.{ap₂}
use native.Mathlib.Omega.{div_any}
use openipaas.Prelude.{
  ℕ, ◌+◌, ◌-◌, ◌*◌, ◌≤◌, ◌<◌, ◌≡◌, subst, sym, refl, List, [], ◌∷◌, arith, String, Option, none,
  some, get_or, eq_refl,
}
use openipaas.Prelude.Assoc.{Assoc, lookup, insert, lookup-insert}
use openipaas.Providers.Throttle.{
  Bucket, Stored, one, full, get_bucket, refill, take_token, acquire_local_sync, tokens_now,
  present, token_bucket_script, ttl_for,
}

ttl_fills :
    (rps burst elapsed : ℕ) → 0 < rps → ttl_for rps burst ≤ elapsed → burst * one ≤ elapsed * rps
unfolding ttl_for
ttl_fills rps burst elapsed h k = omega (
  arith,
  div_any (burst * one * 2 + rps - 1) rps,
  mod-lt (burst * one * 2 + rps - 1) h,
  mul-le-mul_right rps k,
)

-- The eviction of a hash cannot be observed: a hash that Redis still had would be full again by then.
pub eviction_unseen :
    (rps burst current : ℕ) (stored : Stored)
    → 0 < rps
    → stored.expires_at_ms ≡ stored.ts + ttl_for rps burst
    → tokens_now rps (burst * one) current (present current (some stored))
      ≡ tokens_now rps (burst * one) current (some stored)
unfolding present tokens_now
eviction_unseen rps burst current stored h e =
    ground (arith, ttl_fills rps burst (current - stored.ts) h)

module _ (key : String) (rps burst : ℕ) where
  -- The waits that a process answers to calls, each some time after the one before.
  abbrev pub local_answers : ℕ → List ℕ → Assoc Bucket → List ℕ
  local_answers now [] buckets = []
  local_answers now (gap ∷ gaps) buckets =
      let (wait_ms, buckets') = acquire_local_sync key rps burst (now + gap) buckets in
      wait_ms ∷ local_answers (now + gap) gaps buckets'

  -- The waits that the script answers to the same calls.
  abbrev pub script_answers : ℕ → List ℕ → Option Stored → List ℕ
  script_answers now [] state = []
  script_answers now (gap ∷ gaps) state =
      let (wait_ms, stored) =
        token_bucket_script rps (burst * one) (now + gap) (ttl_for rps burst) state in
      wait_ms ∷ script_answers (now + gap) gaps (some stored)

  abbrev Agree : ℕ → Option Bucket → Option Stored → Type 0
  Agree now none none = Unit
  Agree now (some b) (some s) =
      (b.tokens ≡ s.tokens)
      × (b.last_refill_ms ≡ s.ts)
      × (s.ts ≤ now)
      × (b.tokens ≤ b.capacity)
      × (b.capacity ≡ burst * one)
      × (b.refill_per_ms ≡ rps)
      × (s.expires_at_ms ≡ s.ts + ttl_for rps burst)
  Agree now _ _ = ⊥

  abbrev local_call : ℕ → Option Bucket → ℕ × Bucket
  local_call current bucket = take_token (refill current (get_or bucket (full rps burst current)))

  abbrev script_call : ℕ → Option Stored → ℕ × Stored
  script_call current state =
      token_bucket_script rps (burst * one) current (ttl_for rps burst) state

  same_answer :
      0 < rps
      → (now current : ℕ) → now ≤ current
      → (bucket : Option Bucket) (state : Option Stored) → Agree now bucket state
      → ((local_call current bucket).0 ≡ (script_call current state).0)
        × Agree current (some (local_call current bucket).1) (some (script_call current state).1)
  unfolding refill take_token token_bucket_script tokens_now present
  same_answer h now current later none none a = ground arith
  same_answer h now current later (some b) (some s) a =
      ground (arith, eviction_unseen rps burst current s h)
  same_answer h now current later (some b) none a = elim a [ ]
  same_answer h now current later none (some s) a = elim a [ ]

  found : (b : Bucket) (buckets : Assoc Bucket) → lookup key (insert key b buckets) ≡ some b
  found b buckets = ground (arith, lookup-insert key key b buckets, eq_refl key)

  acquired :
      (current : ℕ) (buckets : Assoc Bucket)
      → acquire_local_sync key rps burst current buckets ≡ (
        (local_call current (lookup key buckets)).0,
        insert key (local_call current (lookup key buckets)).1 buckets,
      )
  unfolding acquire_local_sync get_bucket
  acquired current buckets = refl

  answers_agree :
      0 < rps
      → (now : ℕ) (gaps : List ℕ) (buckets : Assoc Bucket) (state : Option Stored)
      → Agree now (lookup key buckets) state
      → local_answers now gaps buckets ≡ script_answers now gaps state
  answers_agree h now [] buckets state a = refl
  answers_agree h now (gap ∷ gaps) buckets state a =
      let (same, after) =
        same_answer h now (now + gap) (omega arith) (lookup key buckets) state a in
      let b = (local_call (now + gap) (lookup key buckets)).1 in
      let s = (script_call (now + gap) state).1 in
      let rest =
        answers_agree h (now + gap) gaps (insert key b buckets) (some s)
          (subst (λ o. Agree (now + gap) o (some s)) (sym (found b buckets)) after) in
      rw (acquired (now + gap) buckets) (ap₂ ◌∷◌ same rest)

  -- The script keeps a bucket in Redis exactly as a process keeps its own: to calls at readings of
  -- the clock that never go back, from no bucket, both answer the same waits.
  pub script_as_local :
      (now : ℕ) (gaps : List ℕ) (buckets : Assoc Bucket)
      → 0 < rps
      → lookup key buckets ≡ none
      → local_answers now gaps buckets ≡ script_answers now gaps none
  script_as_local now gaps buckets h absent =
      answers_agree h now gaps buckets none (subst (λ o. Agree now o none) (sym absent) tt)
