-- ===== src/Providers/Http/Retries.antt =====
-- src/lib/providers/core/http.ts: when the loop of `httpRequest` stops, and how long it waits.
use openipaas.Prelude.{
  ℕ, zero, suc, ◌+◌, ◌-◌, ◌*◌, ◌^◌, ◌≤◌, ◌<◌, min, ◌≡◌, ◌≢◌, refl, sym, subst, ◌⊎◌, ◌∙◌, inl, inr,
  none, some, List, [], ◌∷◌, arith, length, Option-cases, ap,
}
use native.Mathlib.Nat.{add-zero, mul-le-mul_right}
use openipaas.Providers.Errors.{ProviderError, ErrorClass, rate_limit_error}
use openipaas.Providers.Http.{
  Outcome, ok, thrown, provider, unhandled, HttpOptions, Run, retry_delay, delay_ms, backoff_ms,
  attempts, rounds, retrying, slept, retry_after_of,
}

asked_of : (c : ErrorClass) (ms : ℕ) → retry_after_of c ≡ some ms → c ≡ rate_limit_error (some ms)
asked_of (rate_limit_error asked) ms h = ap rate_limit_error h
asked_of _ ms h = let absurd : ⊥ = cc in elim absurd [ ]

not_asked_of :
    (c : ErrorClass) → retry_after_of c ≡ none → (asked : ℕ) → c ≢ rate_limit_error (some asked)
not_asked_of c h asked e =
    let found : retry_after_of c ≡ some asked = ap retry_after_of e in let absurd : ⊥ = cc in absurd

module _ {A : Type 0} (call : ℕ → Outcome A) (opts : HttpOptions) where
  -- The loop from `attempt` on made `again + 1` attempts, of which all but the last asked for another.
  record Stops (left attempt : ℕ) (run : Run A) : Type 0 where
    again : ℕ
    counted : run.fetches ≡ suc again
    bounded : again ≤ left
    ended : run.outcome ≡ call (attempt + again)
    retried : (n : ℕ) → n < again → retry_delay (attempt + n) opts (call (attempt + n)) ≢ none
    final : (again ≡ left) ⊎ (retry_delay (attempt + again) opts (call (attempt + again)) ≡ none)

  Stops-here :
      (left attempt : ℕ)
      → (0 ≡ left) ⊎ (retry_delay attempt opts (call attempt) ≡ none)
      → Stops left attempt (record { fetches = 1; sleeps = []; outcome = call attempt })
  Stops-here left attempt h = record {
    again = 0;
    counted = omega arith;
    bounded = omega arith;
    ended = rw add-zero;
    retried = λ n lt. elim lt [ ];
    final = rw add-zero h;
  }

  retried_later :
      (attempt ms again : ℕ)
      → retry_delay attempt opts (call attempt) ≡ some ms
      → ((n : ℕ) → n < again → retry_delay (attempt + suc n) opts (call (attempt + suc n)) ≢ none)
      → (n : ℕ) → n < suc again
      → retry_delay (attempt + n) opts (call (attempt + n)) ≢ none
  retried_later attempt ms again h later zero lt = rw add-zero (λ e. cc (h, e))
  retried_later attempt ms again h later (suc n) lt = later n (omega arith)

  Stops-later :
      (left attempt ms : ℕ) (run : Run A)
      → retry_delay attempt opts (call attempt) ≡ some ms
      → Stops left (suc attempt) run
      → Stops (suc left) attempt (slept ms run)
  Stops-later left attempt ms run h s =
      let shift : (n : ℕ) → suc attempt + n ≡ attempt + suc n = λ n. omega arith in
      record {
        again = suc s.again;
        counted = omega (arith, s.counted);
        bounded = omega (arith, s.bounded);
        ended = s.ended ∙ ap call (shift s.again);
        retried = retried_later attempt ms s.again h (λ n lt. rw (← shift n) (s.retried n lt));
        final = rw (← shift s.again) (elim s.final [ inl e ↦ inl (ap suc e) | inr e ↦ inr e ]);
      }

  attempts-Stops : (left attempt : ℕ) → Stops left attempt (attempts call opts left attempt)
  unfolding attempts
  attempts-Stops zero attempt = Stops-here zero attempt (inl refl)
  attempts-Stops (suc left) attempt =
      elim (Option-cases (retry_delay attempt opts (call attempt))) [
        | inl over ↦ rw (over, attempts) (Stops-here (suc left) attempt (inr over))
        | inr (ms, e) ↦
            rw (e, attempts) (Stops-later left attempt ms _ e (attempts-Stops left (suc attempt)))
      ]

  -- The wait after an attempt is what the upstream asked for there, or, where it asked for none, at most
  -- the longest delay of the options.
  abbrev pub IsFair : (attempt ms : ℕ) → Type 0
  IsFair attempt ms =
      (err : ProviderError) × (call attempt ≡ thrown (provider err))
      × ((err.class ≡ rate_limit_error (some ms))
          ⊎ (((asked : ℕ) → err.class ≢ rate_limit_error (some asked)) × (ms ≤ opts.max_delay_ms)))

  -- The waits after an attempt and the ones that follow it.
  abbrev pub AreFair : (attempt : ℕ) → List ℕ → Type 0
  AreFair attempt [] = Unit
  AreFair attempt (ms ∷ sleeps) = IsFair attempt ms × AreFair (suc attempt) sleeps

  backoff-le :
      (attempt : ℕ) → opts.random attempt < 2 ^ 53 → backoff_ms attempt opts ≤ opts.max_delay_ms
  unfolding backoff_ms
  backoff-le attempt h =
      let delay = min opts.max_delay_ms (opts.base_delay_ms * 2 ^ (attempt - 1)) in
      let scaled : opts.random attempt * delay ≤ 2 ^ 53 * delay =
        mul-le-mul_right delay (omega (arith, h)) in
      omega (arith, scaled)

  module _ (n ms : ℕ) (drawn : opts.random n < 2 ^ 53) where
    delay-IsFair_of :
        (err : ProviderError)
        → call n ≡ thrown (provider err)
        → delay_ms n opts err ≡ ms
        → IsFair n ms
    unfolding delay_ms
    delay-IsFair_of err here e = elim (Option-cases (retry_after_of err.class)) [
      | inl backoff ↦
          (err, here, inr (not_asked_of err.class backoff, rw (← e, backoff) (backoff-le n drawn)))
      | inr (asked, a) ↦ (err, here, inl (asked_of err.class ms (a ∙ ap some (ground (arith, e)))))
    ]

    delay-IsFair : (o : Outcome A) → call n ≡ o → retry_delay n opts o ≡ some ms → IsFair n ms
    unfolding retry_delay
    delay-IsFair (ok a) here e = cc
    delay-IsFair (thrown unhandled) here e = cc
    delay-IsFair (thrown (provider err)) here e = delay-IsFair_of err here (ground (arith, e))

  attempts-IsFair :
      (left attempt : ℕ)
      → ((n : ℕ) → opts.random n < 2 ^ 53)
      → AreFair attempt (attempts call opts left attempt).sleeps
        × (suc (length (attempts call opts left attempt).sleeps)
            ≡ (attempts call opts left attempt).fetches)
  unfolding attempts
  attempts-IsFair zero attempt drawn = (tt, refl)
  attempts-IsFair (suc left) attempt drawn =
      elim (Option-cases (retry_delay attempt opts (call attempt))) [
        | inl over ↦ rw (over, attempts) (tt, refl)
        | inr (ms, e) ↦
            let (fair, counted) = attempts-IsFair left (suc attempt) drawn in
            rw (e, attempts)
              (
                (delay-IsFair attempt ms (drawn attempt) (call attempt) refl e, fair),
                ap suc counted,
              )
      ]

  rounds-attempts : (m : ℕ) → 0 < m → rounds call opts m ≡ attempts call opts (m - 1) 1
  unfolding rounds
  rounds-attempts zero h = elim h [ ]
  rounds-attempts (suc left) h = ap (λ n. attempts call opts n 1) (omega arith)

  retrying-attempts :
      0 < opts.max_attempts → retrying call opts ≡ attempts call opts (opts.max_attempts - 1) 1
  unfolding retrying
  retrying-attempts h = rounds-attempts opts.max_attempts h

  abbrev Ends : Run A → Type 0
  Ends run =
      (1 ≤ run.fetches)
      × (run.fetches ≤ opts.max_attempts)
      × (run.outcome ≡ call run.fetches)
      × ((n : ℕ) → 1 ≤ n → n < run.fetches → retry_delay n opts (call n) ≢ none)
      × ((run.fetches ≡ opts.max_attempts)
          ⊎ (retry_delay run.fetches opts (call run.fetches) ≡ none))

  Stops-Ends :
      (run : Run A) → 0 < opts.max_attempts → Stops (opts.max_attempts - 1) 1 run → Ends run
  Stops-Ends run h s =
      let last : run.fetches ≡ 1 + s.again = omega (arith, s.counted) in
      (
        omega arith,
        omega (arith, s.bounded),
        s.ended ∙ ap call (sym last),
        λ n low high.
            let e : 1 + (n - 1) ≡ n = omega arith in
            subst (λ k. retry_delay k opts (call k) ≢ none) e
              (s.retried (n - 1) (omega (arith, last))),
        elim s.final [ inl e ↦ inl (omega (arith, e)) | inr e ↦ inr (rw last e) ],
      )

  -- The attempts that the call made.
  abbrev pub made : ℕ
  made = (retrying call opts).fetches

  made-Ends : 0 < opts.max_attempts → Ends (retrying call opts)
  made-Ends allowed =
      subst Ends (sym (retrying-attempts allowed))
        (Stops-Ends _ allowed (attempts-Stops (opts.max_attempts - 1) 1))

  -- If at least one attempt is allowed, the call ends with what its last attempt came to. It makes at
  -- least one attempt and at most as many as allowed, and it stops before the allowed number only at an
  -- attempt that succeeded or whose failure may not be tried again.
  pub retrying_stops :
      0 < opts.max_attempts
      → (1 ≤ made)
        × (made ≤ opts.max_attempts)
        × ((retrying call opts).outcome ≡ call made)
        × ((made ≡ opts.max_attempts) ⊎ (retry_delay made opts (call made) ≡ none))
  retrying_stops allowed =
      let (some_made, few, last, retried, final) = made-Ends allowed in
      (some_made, few, last, final)

  -- If at least one attempt is allowed, every attempt before the last one failed in a way that is tried
  -- again.
  pub retrying_goes_on :
      0 < opts.max_attempts → (n : ℕ) → 1 ≤ n → n < made → retry_delay n opts (call n) ≢ none
  retrying_goes_on allowed n low high =
      let (some_made, few, last, retried, final) = made-Ends allowed in retried n low high

  -- If at least one attempt is allowed, it sleeps once between two attempts. The n-th sleep is as long as
  -- the upstream asked at the n-th attempt's failure or, where it did not ask, at most the longest delay,
  -- each random number being below 1.
  pub retrying_sleeps :
      0 < opts.max_attempts
      → ((n : ℕ) → opts.random n < 2 ^ 53)
      → AreFair 1 (retrying call opts).sleeps × (suc (length (retrying call opts).sleeps) ≡ made)
  retrying_sleeps allowed drawn =
      subst (λ run. AreFair 1 run.sleeps × (suc (length run.sleeps) ≡ run.fetches))
        (sym (retrying-attempts allowed)) (attempts-IsFair (opts.max_attempts - 1) 1 drawn)
