-- ===== src/UnifiedAuth/Ownership.antt =====
-- src/lib/api-auth.ts: the connection that is resolved is one of the client's own.
use mathlib.Core.List.{Memᴰ}
use openipaas.Prelude.{
  String, ◌≡◌, some, List, [], ◌∷◌, arith, Bool-cases, Option-cases, inl, inr, ◌==◌, eq_iff, ◌&&◌,
  mem_of_filter,
}
use openipaas.Providers.Manifests.{Manifest, find_manifest}
use openipaas.UnifiedAuth.Defs.{LinkedAccount, Request, Env}
use openipaas.UnifiedAuth.Steps.{Progress, continue}
use openipaas.UnifiedAuth.KeyCheck.{given}
use openipaas.UnifiedAuth.Connection.{
  no_connection, find_account, accounts_of, only_match, by_token, by_service, resolve_connection,
}

mem_of_find_account :
    (token : String) (accounts : List LinkedAccount) (a : LinkedAccount)
    → find_account token accounts ≡ some a
    → Memᴰ a accounts
unfolding find_account
mem_of_find_account token [] a h = cc
mem_of_find_account token (b ∷ rest) a h = elim (Bool-cases (b.account_token == token)) [
  | inl same ↦ Memᴰ.head (ground arith)
  | inr other ↦ Memᴰ.tail (mem_of_find_account token rest a (ground arith))
]

mem_of_accounts_of :
    (client_id slug : String) (accounts : List LinkedAccount) (a : LinkedAccount)
    → Memᴰ a (accounts_of client_id slug accounts)
    → Memᴰ a accounts × (a.client_id ≡ client_id) × (a.provider ≡ slug)
unfolding accounts_of
mem_of_accounts_of client_id slug accounts a m =
    let (inside, e) =
      mem_of_filter (λ (b : LinkedAccount). b.client_id == client_id && b.provider == slug) accounts
        a m in
    (
      inside,
      (eq_iff a.client_id client_id).0 (ground arith),
      (eq_iff a.provider slug).0 (ground arith),
    )

-- What resolving the connection gives is an account of the table and of the client.
pub record IsOwn (client_id : String) (accounts : List LinkedAccount) (a : LinkedAccount)
    : Type 0 where
  pub stored : Memᴰ a accounts
  pub own : a.client_id ≡ client_id

module _ {J W : Type 0} (env : Env J) (req : Request) (client_id : String)
    (p q : Progress J W) where
  by_token-IsOwn :
      (token : String) (a : LinkedAccount)
      → by_token client_id token p ≡ (continue a, q)
      → IsOwn client_id p.server.accounts a
  unfolding by_token
  by_token-IsOwn token a h = elim (Option-cases (find_account token p.server.accounts)) [
    | inl missing ↦ ground arith
    | inr (b, found) ↦ record {
      stored = mem_of_find_account token p.server.accounts a (ground arith);
      own = (eq_iff a.client_id client_id).0 (ground arith);
    }
  ]

  only_match-is :
      (manifest : Manifest) (xs : List LinkedAccount) (a : LinkedAccount)
      → only_match manifest xs p ≡ (continue a, q)
      → Memᴰ a xs
  unfolding only_match
  only_match-is manifest [] a h = ground arith
  only_match-is manifest (x ∷ []) a h = Memᴰ.head (ground arith)
  only_match-is manifest (x ∷ y ∷ rest) a h = ground arith

  by_service-IsOwn :
      (requested : String) (a : LinkedAccount)
      → by_service env client_id requested p ≡ (continue a, q)
      → IsOwn client_id p.server.accounts a
  unfolding by_service
  by_service-IsOwn requested a h = elim (Option-cases (find_manifest env.registry requested)) [
    | inl missing ↦ ground arith
    | inr (m, found) ↦
        let rest : only_match m (accounts_of client_id m.slug p.server.accounts) p
            ≡ (continue a, q) =
          ground arith in
        let (stored, own, at) =
          mem_of_accounts_of client_id m.slug p.server.accounts a
            (only_match-is m (accounts_of client_id m.slug p.server.accounts) a rest) in
        record { stored = stored; own = own }
  ]

  pub resolve_connection-IsOwn :
      (a : LinkedAccount)
      → resolve_connection env req client_id p ≡ (continue a, q)
      → IsOwn client_id p.server.accounts a
  unfolding resolve_connection no_connection
  resolve_connection-IsOwn a h = elim (Option-cases (given req.account_token)) [
    | inr (token, e) ↦ by_token-IsOwn token a (ground arith)
    | inl no_token ↦ elim (Option-cases (given req.provider)) [
      | inr (requested, e) ↦ by_service-IsOwn requested a (ground arith)
      | inl no_provider ↦ ground arith
    ]
  ]
