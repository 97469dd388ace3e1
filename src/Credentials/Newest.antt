-- ===== src/Credentials/Newest.antt =====
-- src/lib/credentials.ts: which credential a request uses.
use mathlib.Core.List.{Memᴰ}
use openipaas.Prelude.{
  ◌≤◌, ◌≡◌, refl, Option, none, some, List, [], ◌∷◌, arith, All, ltb, Bool-cases, inl, inr, subst,
  sym,
}
use openipaas.Credentials.{OAuthCredential, newest, pick_active_credential}

newest-mem :
    (best : OAuthCredential) (cs : List OAuthCredential) → Memᴰ (newest best cs) (best ∷ cs)
unfolding newest
newest-mem best [] = Memᴰ.head refl
newest-mem best (c ∷ cs) = elim (Bool-cases (ltb best.created_at c.created_at)) [
  | inl newer ↦ rw newer (Memᴰ.tail (newest-mem c cs))
  | inr older ↦ rw older (keep_first (newest-mem best cs))
]
  where
    keep_first : {x : OAuthCredential} → Memᴰ x (best ∷ cs) → Memᴰ x (best ∷ c ∷ cs)
    keep_first (Memᴰ.head e) = Memᴰ.head e
    keep_first (Memᴰ.tail m) = Memᴰ.tail (Memᴰ.tail m)

newest-le :
    (best : OAuthCredential) (cs : List OAuthCredential)
    → All (λ c. c.created_at ≤ (newest best cs).created_at) (best ∷ cs)
unfolding newest
newest-le best [] = omega arith
newest-le best (c ∷ cs) = elim (Bool-cases (ltb best.created_at c.created_at)) [
  | inl newer ↦
      let (le, rest) = newest-le c cs in
      let e : newest best (c ∷ cs) ≡ newest c cs = rw newer in
      subst (λ w. All (λ other. other.created_at ≤ w.created_at) (best ∷ c ∷ cs)) (sym e)
        (ground arith, (le, rest))
  | inr older ↦
      let (le, rest) = newest-le best cs in
      let e : newest best (c ∷ cs) ≡ newest best cs = rw older in
      subst (λ w. All (λ other. other.created_at ≤ w.created_at) (best ∷ c ∷ cs)) (sym e)
        (le, (ground arith, rest))
]

-- None exactly of no credential, otherwise a stored one that none is newer than.
abbrev pub IsNewest : List OAuthCredential → Option OAuthCredential → Type 0
IsNewest cs none = cs ≡ []
IsNewest cs (some c) =
    Memᴰ c cs × All (λ (other : OAuthCredential). other.created_at ≤ c.created_at) cs

-- A request uses a stored credential of the account that no stored one was created after, and none
-- only where none is stored.
pub pick_active_credential-IsNewest :
    (cs : List OAuthCredential) → IsNewest cs (pick_active_credential cs)
unfolding pick_active_credential
pick_active_credential-IsNewest [] = refl
pick_active_credential-IsNewest (c ∷ cs) = (newest-mem c cs, newest-le c cs)
