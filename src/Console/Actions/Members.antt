-- ===== src/Console/Actions/Members.antt =====
-- src/app/actions/auth.ts: the actions that leave the accounts and their roles as they are, and the
-- first account.
use openipaas.Prelude.{
  ℕ, String, true, false, ◌≡◌, refl, ap, ◌∙◌, ◌⊎◌, inl, inr, Option, none, some, List, [], ◌∷◌,
  ◌==◌, ltb, length, map, arith, Option-cases, Bool-cases,
}
use openipaas.Prelude.Assoc.{Assoc}
use openipaas.Console.{
  User, Tables, Server, Answer, find_user, find_email, update_user, normalize_email, field,
  current_user, require_dashboard_session, check_operator_password, is_dashboard_auth_configured,
}
use openipaas.Console.Actions.{
  change_own_password, change_password_as, checked_change, login, login_as, create_first_account,
  as_operator, reset_password, reset_password_of, set_password, recovered, first_account,
}
use openipaas.Console.Actions.Empty.{as_operator-cases}

-- Who is in the team, and as what.
abbrev pub members : List User → List (String × String)
members users = map (λ (u : User). (u.id, u.role)) users

pub members-update :
    (user_id : String) (f : User → User) (users : List User)
    → ((u : User) → (f u).id ≡ u.id)
    → ((u : User) → (f u).role ≡ u.role)
    → members (update_user user_id f users) ≡ members users
unfolding update_user
members-update user_id f [] same_id same_role = refl
members-update user_id f (u ∷ users) same_id same_role = elim (Bool-cases (u.id == user_id)) [
  | inl here ↦
      rw here
        (rw (same_id u, same_role u) (ap rest (members-update user_id f users same_id same_role)))
  | inr other ↦ rw other (ap rest (members-update user_id f users same_id same_role))
]
  where
    rest : List (String × String) → List (String × String)
    rest l = (u.id, u.role) ∷ l

abbrev pub Leaves : (Tables → Answer × Tables) → Type 0
Leaves act = (t : Tables) → members (act t).1.users ≡ members t.users

module _ (s : Server) (new_id : String) (now : ℕ) where
  checked_change-Leaves :
      (current next : String) (o : Option User)
      → Leaves (checked_change s new_id now current next o)
  unfolding checked_change
  checked_change-Leaves current next none t = refl
  checked_change-Leaves current next (some user) t =
      let set : User → User = λ u. record u { password_hash = s.hash next } in
      ground (arith, members-update user.id set t.users (λ u. refl) (λ u. refl))

  change_password_as-Leaves :
      (form : Assoc String) (u : User) → Leaves (change_password_as s new_id now form u)
  unfolding change_password_as
  change_password_as-Leaves form u t = ground (
    arith,
    checked_change-Leaves (field "currentPassword" form) (field "newPassword" form)
        (find_user u.id t.users) t,
  )

  pub change_own_password-Leaves :
      (subject : Option String) (form : Assoc String)
      → Leaves (change_own_password s new_id now subject form)
  unfolding change_own_password require_dashboard_session
  change_own_password-Leaves subject form t = elim (Option-cases (current_user subject t.users)) [
    | inl e ↦ rw (e, require_dashboard_session) refl
    | inr (u, e) ↦ rw (e, require_dashboard_session) (change_password_as-Leaves form u t)
  ]

  login_as-Leaves : (form : Assoc String) (o : Option User) → Leaves (login_as s new_id now form o)
  unfolding login_as
  login_as-Leaves form none t = refl
  login_as-Leaves form (some user) t =
      let seen : User → User = λ u. record u { last_login_at = some now } in
      ground (arith, members-update user.id seen t.users (λ u. refl) (λ u. refl))

  pub login-Leaves : (form : Assoc String) → Leaves (login s new_id now form)
  unfolding login
  login-Leaves form t = ground (
    arith,
    login_as-Leaves form none t,
    login_as-Leaves form (find_email (normalize_email (field "email" form)) t.users) t,
  )

  reset_password_of-Leaves :
      (form : Assoc String) (o : Option User) → Leaves (reset_password_of s new_id now form o)
  unfolding reset_password_of
  reset_password_of-Leaves form none t = refl
  reset_password_of-Leaves form (some user) t =
      members-update user.id (set_password s new_id now (field "password" form) (some now)) t.users
        (λ u. refl) (λ u. refl)

  recover-Leaves :
      (form : Assoc String) → Leaves (as_operator s new_id now form (recovered s new_id now form))
  recover-Leaves form t =
      elim (as_operator-cases s new_id now form (recovered s new_id now form) t) [
        | inl same ↦ ap (λ u. members u.users) same
        | inr acts ↦
            ap (λ r. members r.1.users) acts
            ∙ reset_password_of-Leaves form
                (find_email (normalize_email (field "email" form)) t.users) t
      ]

  pub reset_password-Leaves : (form : Assoc String) → Leaves (reset_password s new_id now form)
  unfolding reset_password
  reset_password-Leaves form t = ground (arith, recover-Leaves form t)

  as_operator-checked :
      (form : Assoc String) (act : Tables → Answer × Tables) (t : Tables)
      → ((as_operator s new_id now form act t).1 ≡ t)
        ⊎ (check_operator_password s (field "operatorPassword" form) ≡ true)
  unfolding as_operator
  as_operator-checked form act t = ground arith

  none_of : (users : List User) → ltb 0 (length users) ≡ false → users ≡ []
  none_of [] h = refl
  none_of (u ∷ users) h = let absurd : ⊥ = ground (arith, h) in elim absurd [ ]

  pub create_first_account-cases :
      (form : Assoc String) (t : Tables)
      → ((create_first_account s new_id now form t).1 ≡ t)
        ⊎ ((t.users ≡ []) × (check_operator_password s (field "operatorPassword" form) ≡ true))
  unfolding create_first_account
  create_first_account-cases form t = elim (Bool-cases (is_dashboard_auth_configured s)) [
    | inr off ↦ inl (rw off refl)
    | inl on ↦ elim (Bool-cases (ltb 0 (length t.users))) [
      | inl already ↦ inl (rw on (rw already refl))
      | inr empty ↦ elim (as_operator-checked form (first_account s new_id now form) t) [
        | inl same ↦ inl (rw on (rw empty same))
        | inr checked ↦ inr (none_of t.users empty, checked)
      ]
    ]
  ]
