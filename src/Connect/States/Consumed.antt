-- ===== src/Connect/States/Consumed.antt =====
-- src/lib/oauth.ts: one callback after another burns a state once.
use openipaas.Prelude.{
  ℕ, String, true, ◌≡◌, refl, inl, inr, some, List, [], ◌∷◌, ◌==◌, is_some, arith, eq_iff, eq_refl,
  Bool-cases, Option-cases,
}
use openipaas.Connect.States.{
  OauthState, find_state, ConsumedState, burned, bad_request, burn, consume_row,
  consume_oauth_state,
}

find_state-burn :
    (state : String) (now : ℕ) (rows : List OauthState) (r : OauthState)
    → find_state state rows ≡ some r
    → (q : OauthState) × (find_state state (burn r.id now rows) ≡ some q)
      × (is_some q.consumed_at ≡ true)
unfolding find_state burn
find_state-burn state now [] r h = ground arith
find_state-burn state now (x ∷ rows) r h = elim (Bool-cases (x.state == state)) [
  | inl here ↦ (
    record x { consumed_at = some now },
    ground (arith, here, h, eq_refl x.id, eq_iff x.id r.id),
    refl,
  )
  | inr other ↦
      let (q, found, used) = find_state-burn state now rows r (ground (arith, h, other)) in
      (q, ground (arith, found, other), used)
]

-- The states of a flow that was answered are burned: a second callback with the same state, at any
-- time and from any provider, is refused and changes nothing, if the first was done before.
pub consume_twice :
    (state provider_slug other : String) (now later : ℕ) (rows : List OauthState)
    (c : ConsumedState)
    → (consume_oauth_state state provider_slug now rows).0 ≡ burned c
    → consume_oauth_state state other later (consume_oauth_state state provider_slug now rows).1 ≡ (
      bad_request "This authorization link is invalid or has expired. Please try again.",
      (consume_oauth_state state provider_slug now rows).1,
    )
unfolding consume_oauth_state consume_row
consume_twice state provider_slug other now later rows c h =
    elim (Option-cases (find_state state rows)) [
      | inl e ↦ ground (arith, h, e)
      | inr (r, e) ↦
          let (q, found, used) = find_state-burn state now rows r e in second r e q found used
    ]
  where
    second :
        (r : OauthState)
        → find_state state rows ≡ some r
        → (q : OauthState) → find_state state (burn r.id now rows) ≡ some q
        → is_some q.consumed_at ≡ true
        → consume_oauth_state state other later (consume_oauth_state state provider_slug now rows).1
          ≡ (
            bad_request "This authorization link is invalid or has expired. Please try again.",
            (consume_oauth_state state provider_slug now rows).1,
          )
    second r e q found used = ground (arith, h, e, found, used)
