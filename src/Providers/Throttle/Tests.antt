-- ===== src/Providers/Throttle/Tests.antt =====
-- The bucket on concrete calls, for src/lib/providers/core/rate-limit.ts.
use openipaas.Prelude.{
  ℕ, ◌+◌, ◌-◌, ◌*◌, ◌≤◌, ◌≡◌, refl, true, false, none, some, List, [], ◌∷◌, arith,
}
use openipaas.Prelude.Assoc.{lookup}
use openipaas.Providers.Throttle.{
  Bucket, Stored, World, one, tokens_now, present, ttl_for, acquire_local_sync, acquire_local,
}
use openipaas.Providers.Throttle.Budget.{served, served_bound}
use openipaas.Providers.Throttle.Evictions.{
  eviction_unseen, local_answers, script_answers, script_as_local,
}

abbrev spent : Bucket
spent = record { tokens = 500; last_refill_ms = 1000; capacity = 4000; refill_per_ms = 4 }

abbrev readings : List ℕ
readings = 1200 ∷ 1100 ∷ 1400 ∷ []

served_bound_example :
    ((served readings spent).0 * one + (served readings spent).1.tokens ≤ 500 + (1500 - 1000) * 4)
    × ((served readings spent).1.tokens ≤ 4000)
served_bound_example =
    served_bound readings 1500 spent (omega arith) (omega arith) (omega arith)
      (omega arith, (omega arith, (omega arith, tt)))

abbrev idle : Stored
idle = record { tokens = 0; ts = 1000; expires_at_ms = 63000 }

eviction_unseen_example :
    tokens_now 4 4000 70000 (present 70000 (some idle)) ≡ tokens_now 4 4000 70000 (some idle)
unfolding ttl_for
eviction_unseen_example = eviction_unseen 4 4 70000 idle (omega arith) refl

script_as_local_example :
    local_answers "omie:a" 4 1 0 (0 ∷ 10 ∷ 240 ∷ []) []
    ≡ script_answers "omie:a" 4 1 0 (0 ∷ 10 ∷ 240 ∷ []) none
unfolding lookup
script_as_local_example = script_as_local "omie:a" 4 1 0 (0 ∷ 10 ∷ 240 ∷ []) [] (omega arith) refl

answers : local_answers "omie:a" 4 1 0 (0 ∷ 10 ∷ 240 ∷ []) [] ≡ 0 ∷ 240 ∷ 0 ∷ []
unfolding acquire_local_sync lookup
answers = refl

abbrev world : World
world = record {
  now = 1100;
  buckets = ("omie:a", spent) ∷ [];
  redis = [];
  has_redis = true;
  redis_answers = false;
}

abbrev sleep : ℕ → World → World
sleep ms w = record w { now = w.now + ms }

waited : (acquire_local sleep "omie:a" 4 4 world).0 ≡ 25
unfolding acquire_local lookup
waited = refl
