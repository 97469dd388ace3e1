-- ===== src/AdminAuth/Admitted.antt =====
-- src/lib/admin-auth.ts: a handler runs only for a live admin key within its budget.
use openipaas.Prelude.{
  ℕ, String, true, false, ◌≡◌, refl, sym, ap, ◌∙◌, subst, ◌⊎◌, inl, inr, Option, none, some, arith,
  Option-cases, Bool-cases,
}
use openipaas.UnifiedAuth.Defs.{Request, Response, Handled}
use openipaas.AdminAuth.{
  AdminKey, State, Env, AdminAuthContext, find_key, presented, live, finish, read_body, throttled,
  with_body, run_handler, budget, with_key, with_presented, with_admin_auth,
}

module _ {J W : Type 0} (env : Env J) (req : Request)
    (handler : AdminAuthContext J → W → Handled J × W) where
  -- A request that is refused changes neither the keys nor the world, and is answered 401, 429 or 400.
  abbrev pub IsRefused : State W → Response J × State W → Type 0
  IsRefused s (response, s') =
      (s'.admin_keys ≡ s.admin_keys)
      × (s'.world ≡ s.world)
      × ((response.status ≡ 401) ⊎ ((response.status ≡ 429) ⊎ (response.status ≡ 400)))

  -- A handler runs for a stored key that is not revoked, within its budget and with a body that can be
  -- read.
  abbrev pub IsAdmitted : State W → Response J × State W → Type 0
  IsAdmitted s outcome =
      (key : String) × (k : AdminKey) × (body : Option J) × (presented env req ≡ some key)
      × (find_key (env.digest key) s.admin_keys ≡ some k)
      × (k.revoked_at ≡ none)
      × ((budget env req handler k s).0.allowed ≡ true)
      × (read_body env req ≡ some body)
      × (outcome ≡ run_handler env req handler k body (budget env req handler k s).1)

  budget-keeps :
      (k : AdminKey) (s : State W)
      → ((budget env req handler k s).1.admin_keys ≡ s.admin_keys)
        × ((budget env req handler k s).1.world ≡ s.world)
  unfolding budget
  budget-keeps k s = (refl, refl)

  abbrev pub IsGuarded : State W → Response J × State W → Type 0
  IsGuarded s outcome = IsRefused s outcome ⊎ IsAdmitted s outcome

  over_budget :
      (k : AdminKey) (s : State W)
      → (budget env req handler k s).0.allowed ≡ false
      → IsRefused s (with_key env req handler (some k) s)
  unfolding with_key throttled finish budget
  over_budget k s over = rw over (refl, refl, inr (inl refl))

  within_budget :
      (k : AdminKey) (s : State W)
      → (budget env req handler k s).0.allowed ≡ true
      → with_key env req handler (some k) s
        ≡ with_body env req handler k (read_body env req) (budget env req handler k s).1
  unfolding with_key
  within_budget k s within = rw within refl

  unread_body :
      (k : AdminKey) (s : State W)
      → IsRefused s (with_body env req handler k none (budget env req handler k s).1)
  unfolding with_body finish budget
  unread_body k s = (refl, refl, inr (inr refl))

  read_to_handler :
      (k : AdminKey) (body : Option J) (s : State W)
      → with_body env req handler k (some body) s ≡ run_handler env req handler k body s
  unfolding with_body
  read_to_handler k body s = refl

  with_key-cases :
      (key : String) (k : AdminKey) (s : State W)
      → presented env req ≡ some key
      → find_key (env.digest key) s.admin_keys ≡ some k
      → k.revoked_at ≡ none
      → IsGuarded s (with_key env req handler (some k) s)
  with_key-cases key k s given found unrevoked =
      elim (Bool-cases (budget env req handler k s).0.allowed) [
        | inr over ↦ inl (over_budget k s over)
        | inl within ↦ elim (Option-cases (read_body env req)) [
          | inl unread ↦ inl (
              subst (IsRefused s)
                (sym (
                  within_budget k s within
                  ∙ ap (λ b. with_body env req handler k b (budget env req handler k s).1) unread))
                (unread_body k s))
          | inr (body, read) ↦ inr (
            key,
            k,
            body,
            given,
            found,
            unrevoked,
            within,
            read,
            within_budget k s within
                ∙ ap (λ b. with_body env req handler k b (budget env req handler k s).1) read
                ∙ read_to_handler k body (budget env req handler k s).1,
          )
        ]
      ]

  no_key : (s : State W) → IsGuarded s (with_key env req handler none s)
  unfolding with_key finish
  no_key s = inl (refl, refl, inl refl)

  with_found :
      (key : String) (s : State W) (o : Option AdminKey)
      → presented env req ≡ some key
      → find_key (env.digest key) s.admin_keys ≡ o
      → IsGuarded s (with_key env req handler (live o) s)
  with_found key s none given found = no_key s
  with_found key s (some k) given found = elim (Option-cases k.revoked_at) [
    | inl unrevoked ↦
        subst (λ l. IsGuarded s (with_key env req handler l s)) (sym (lives unrevoked))
          (with_key-cases key k s given found unrevoked)
    | inr (at, revoked) ↦
        subst (λ l. IsGuarded s (with_key env req handler l s)) (sym (dead at revoked)) (no_key s)
  ]
    where
      lives : k.revoked_at ≡ none → live (some k) ≡ some k
      lives e = ground (arith, e)

      dead : (at : ℕ) → k.revoked_at ≡ some at → live (some k) ≡ none
      dead at e = ground (arith, e)

  with_presented-cases :
      (s : State W) (o : Option String)
      → presented env req ≡ o
      → IsGuarded s (with_presented env req handler o s)
  unfolding with_presented finish
  with_presented-cases s none given = inl (refl, refl, inl refl)
  with_presented-cases s (some key) given =
      with_found key s (find_key (env.digest key) s.admin_keys) given refl

  -- An admin route is refused with 401, 429 or 400 and changes neither the keys nor the world, or its
  -- handler runs for the stored key whose hash is presented and that is not revoked, within its budget
  -- and with a body that can be read.
  pub with_admin_auth_admits : (s : State W) → IsGuarded s (with_admin_auth env req handler s)
  unfolding with_admin_auth
  with_admin_auth_admits s = with_presented-cases s (presented env req) refl
