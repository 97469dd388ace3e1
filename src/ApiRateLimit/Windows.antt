-- ===== src/ApiRateLimit/Windows.antt =====
-- src/lib/api-rate-limit.ts: how many calls one window of `consumeLocal` lets through.
use openipaas.Prelude.{
  ◌⊎◌, ℕ, ◌+◌, ◌-◌, ◌<◌, min, String, Bool, ◌≡◌, refl, ◌≢◌, none, some, List, [], ◌∷◌, arith,
  eq_iff, eq_refl, ◌==◌, if◌then◌else◌, Bool-cases, inl, inr, leb, Option-cases, All, ◌&&◌, subst,
}
use openipaas.Prelude.Assoc.{lookup, insert, lookup-insert, lookup-remove_if}
use openipaas.ApiRateLimit.{
  Window, Windows, RateLimitVerdict, is_over, sweep, live, open_window, count_in, consume_local,
}

module _ (k : String) (windows : Windows) (w : Window) (current : ℕ) where
  lookup-sweep :
      lookup k windows ≡ some w
      → current < w.reset_at_ms
      → lookup k (sweep current windows) ≡ some w
  unfolding sweep
  lookup-sweep h later = lookup-remove_if (is_over current) k windows w h (ground arith)

module _ (k : String) (windows : Windows) (w : Window) (limit window_ms current : ℕ) where
  open_window-other :
      (j : String)
      → j ≢ k
      → lookup k windows ≡ some w
      → current < w.reset_at_ms
      → lookup k (open_window j limit window_ms current windows).1 ≡ some w
  unfolding open_window
  open_window-other j ne h later =
      let fresh : Window = record { count = 1; reset_at_ms = current + window_ms } in
      let stored = insert j fresh windows in
      let kept : lookup k stored ≡ some w =
        rw (lookup-insert j k fresh windows) (ground (arith, eq_iff j k)) in
      ground (arith, kept, lookup-sweep k stored w current kept later)

  count_in-other :
      (j : String) (existing : Window)
      → j ≢ k
      → lookup k windows ≡ some w
      → lookup k (count_in j limit current existing windows).1 ≡ some w
  unfolding count_in
  count_in-other j existing ne h =
      rw (lookup-insert j k (record existing { count = existing.count + 1 }) windows)
        (ground (arith, eq_iff j k))

  -- A call for one key leaves the live windows of the others as they are.
  consume_local-other :
      (j : String)
      → j ≢ k
      → lookup k windows ≡ some w
      → current < w.reset_at_ms
      → lookup k (consume_local j limit window_ms current windows).1 ≡ some w
  unfolding consume_local
  consume_local-other j ne h later = elim (Option-cases (live current (lookup j windows))) [
    | inl over ↦ rw (over, consume_local) (open_window-other j ne h later)
    | inr (existing, e) ↦ rw (e, consume_local) (count_in-other j existing ne h)
  ]

  -- A call for a key with a live window counts in it.
  consume_local-live :
      lookup k windows ≡ some w
      → current < w.reset_at_ms
      → (lookup k (consume_local k limit window_ms current windows).1
          ≡ some (record w { count = w.count + 1 }))
        × ((consume_local k limit window_ms current windows).0.allowed ≡ leb (w.count + 1) limit)
  unfolding consume_local
  consume_local-live h later =
      let found : live current (lookup k windows) ≡ some w = rw h (ground arith) in
      rw (found, consume_local)
        (
          rw (lookup-insert k k (record w { count = w.count + 1 }) windows)
              (ground (arith, eq_refl k)),
          refl,
        )

module _ (k : String) (windows : Windows) (limit window_ms current : ℕ) where
  -- A call for a key with no live window opens one that holds this call alone.
  consume_local-fresh :
      live current (lookup k windows) ≡ none
      → 0 < window_ms
      → (lookup k (consume_local k limit window_ms current windows).1
          ≡ some (record { count = 1; reset_at_ms = current + window_ms }))
        × ((consume_local k limit window_ms current windows).0.allowed ≡ leb 1 limit)
  unfolding consume_local
  consume_local-fresh h wide =
      let fresh : Window = record { count = 1; reset_at_ms = current + window_ms } in
      let stored = insert k fresh windows in
      let kept : lookup k stored ≡ some fresh =
        rw (lookup-insert k k fresh windows) (ground (arith, eq_refl k)) in
      rw (h, consume_local)
        (ground (arith, kept, lookup-sweep k stored fresh current kept (omega arith)), refl)

-- A call of `consumeLocal`, with the clock's reading.
pub record Call : Type 0 where
  pub key : String
  pub limit : ℕ
  pub window_ms : ℕ
  pub at : ℕ

abbrev pub answer : Call → Windows → RateLimitVerdict × Windows
answer c windows = consume_local c.key c.limit c.window_ms c.at windows

abbrev pub one_if : Bool → ℕ
one_if b = if b then 1 else 0

-- How many of the calls for `k` are let through, and how many there are.
unfoldable pub allowed_for : String → List Call → Windows → ℕ
allowed_for k [] windows = 0
allowed_for k (c ∷ cs) windows =
    one_if (c.key == k && (answer c windows).0.allowed) + allowed_for k cs (answer c windows).1

unfoldable pub calls_for : String → List Call → ℕ
calls_for k [] = 0
calls_for k (c ∷ cs) = one_if (c.key == k) + calls_for k cs

-- The call comes before `reset`, and has this limit if it is for `k`.
abbrev pub InWindow : String → (limit reset : ℕ) → Call → Type 0
InWindow k limit reset c = (c.at < reset) × ((c.key ≢ k) ⊎ (c.limit ≡ limit))

module _ (k : String) (windows : Windows) (c : Call) (own : c.key ≡ k) where
  answer-live :
      (w : Window)
      → lookup k windows ≡ some w
      → c.at < w.reset_at_ms
      → (lookup k (answer c windows).1 ≡ some (record w { count = w.count + 1 }))
        × ((answer c windows).0.allowed ≡ leb (w.count + 1) c.limit)
  answer-live w =
      subst
        (λ j.
          lookup j windows ≡ some w
          → c.at < w.reset_at_ms
          → (lookup j (answer c windows).1 ≡ some (record w { count = w.count + 1 }))
            × ((answer c windows).0.allowed ≡ leb (w.count + 1) c.limit))
        own (consume_local-live c.key windows w c.limit c.window_ms c.at)

  answer-fresh :
      live c.at (lookup k windows) ≡ none
      → 0 < c.window_ms
      → (lookup k (answer c windows).1
          ≡ some (record { count = 1; reset_at_ms = c.at + c.window_ms }))
        × ((answer c windows).0.allowed ≡ leb 1 c.limit)
  answer-fresh =
      subst
        (λ j.
          live c.at (lookup j windows) ≡ none
          → 0 < c.window_ms
          → (lookup j (answer c windows).1
              ≡ some (record { count = 1; reset_at_ms = c.at + c.window_ms }))
            × ((answer c windows).0.allowed ≡ leb 1 c.limit))
        own (consume_local-fresh c.key windows c.limit c.window_ms c.at)

allowed_for-live :
    (k : String) (limit : ℕ) (cs : List Call) (windows : Windows) (w : Window)
    → lookup k windows ≡ some w
    → All (InWindow k limit w.reset_at_ms) cs
    → allowed_for k cs windows ≡ min (calls_for k cs) (limit - w.count)
unfolding allowed_for calls_for
allowed_for-live k limit [] windows w h inside = omega arith
allowed_for-live k limit (c ∷ cs) windows w h ((before, same), inside) =
    elim (Bool-cases (c.key == k)) [
      | inl own ↦
          let e = (eq_iff c.key k).0 own in
          let (stored, allowed) = answer-live k windows c e w h before in
          let counted : Window = record w { count = w.count + 1 } in
          let rest = allowed_for-live k limit cs (answer c windows).1 counted stored inside in
          let limited : c.limit ≡ limit = elim same [ inl other ↦ absurd (other e) | inr l ↦ l ] in
          rw (own, allowed, limited) (ground (arith, rest))
      | inr other ↦
          let kept =
            consume_local-other k windows w c.limit c.window_ms c.at c.key
              (λ e. cc (other, (eq_iff c.key k).1 e)) h before in
          rw other (ground (arith, allowed_for-live k limit cs (answer c windows).1 w kept inside))
    ]

-- Whatever the calls for other keys between them, and whether or not entries are swept: of a first
-- call for a key with no live window and of the calls for that key that come before its window ends,
-- exactly as many are let through as the limit allows.
pub allowed_for-window :
    (k : String) (limit : ℕ) (c : Call) (cs : List Call) (windows : Windows)
    → c.key ≡ k
    → c.limit ≡ limit
    → 0 < c.window_ms
    → live c.at (lookup k windows) ≡ none
    → All (InWindow k limit (c.at + c.window_ms)) cs
    → allowed_for k (c ∷ cs) windows ≡ min (calls_for k (c ∷ cs)) limit
unfolding allowed_for calls_for
allowed_for-window k limit c cs windows own same wide over inside =
    let fresh : Window = record { count = 1; reset_at_ms = c.at + c.window_ms } in
    let (stored, allowed) = answer-fresh k windows c own over wide in
    let rest = allowed_for-live k limit cs (answer c windows).1 fresh stored inside in
    rw ((eq_iff c.key k).1 own, allowed, same) (ground (arith, rest))
