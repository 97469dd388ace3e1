-- ===== src/Console/Actions/Empty.antt =====
-- src/app/actions: what the actions do on a console without an account.
use openipaas.Prelude.{
  ℕ, String, ◌≡◌, refl, ap, ◌∙◌, ◌⊎◌, inl, inr, Option, none, some, List, [], arith, Option-cases,
  Bool-cases,
}
use openipaas.Prelude.Assoc.{Assoc}
use openipaas.Console.{
  User, Tables, find_user, find_email, normalize_email, field, Server, is_dashboard_auth_configured,
  check_operator_password, Answer, current_user, require_dashboard_session, require_owner,
  owner_only,
}
use openipaas.Console.Actions.{
  create_team_account, create_as, set_team_account_role, set_role_as, remove_team_account,
  remove_as, change_own_password, change_password_as, login, login_as, reset_password, recovered,
  reset_password_of, as_operator, validate,
}

-- An action that leaves a console without accounts as it is.
abbrev pub Rests : (Tables → Answer × Tables) → Type 0
Rests act = (t : Tables) → t.users ≡ [] → (act t).1.users ≡ []

current_user-empty :
    (subject : Option String) (users : List User) → users ≡ [] → current_user subject users ≡ none
unfolding current_user find_user
current_user-empty none users h = refl
current_user-empty (some user_id) users h = rw h refl

require_dashboard_session-Rests :
    (subject : Option String) (act : User → Tables → Answer × Tables)
    → Rests (require_dashboard_session subject act)
unfolding require_dashboard_session
require_dashboard_session-Rests subject act t h =
    rw (current_user-empty subject t.users h, require_dashboard_session) h

find_email-empty : (email : String) (users : List User) → users ≡ [] → find_email email users ≡ none
unfolding find_email
find_email-empty email users h = rw h refl

module _ (s : Server) (new_id : String) (now : ℕ) where
  pub create_team_account-Rests :
      (subject : Option String) (form : Assoc String)
      → Rests (create_team_account s new_id now subject form)
  unfolding create_team_account require_owner
  create_team_account-Rests subject form =
      require_dashboard_session-Rests subject (owner_only (create_as s new_id now form))

  pub set_team_account_role-Rests :
      (subject : Option String) (user_id role : String)
      → Rests (set_team_account_role s new_id now subject user_id role)
  unfolding set_team_account_role require_owner
  set_team_account_role-Rests subject user_id role =
      require_dashboard_session-Rests subject (owner_only (set_role_as s new_id now user_id role))

  pub remove_team_account-Rests :
      (subject : Option String) (user_id : String)
      → Rests (remove_team_account s new_id now subject user_id)
  unfolding remove_team_account require_owner
  remove_team_account-Rests subject user_id =
      require_dashboard_session-Rests subject (owner_only (remove_as s new_id now user_id))

  pub change_own_password-Rests :
      (subject : Option String) (form : Assoc String)
      → Rests (change_own_password s new_id now subject form)
  unfolding change_own_password
  change_own_password-Rests subject form =
      require_dashboard_session-Rests subject (change_password_as s new_id now form)

  pub login-Rests : (form : Assoc String) → Rests (login s new_id now form)
  unfolding login login_as
  login-Rests form t h =
      ground (arith, h, find_email-empty (normalize_email (field "email" form)) t.users h)

  -- An action that the operator's password guards is refused, or takes place.
  pub as_operator-cases :
      (form : Assoc String) (act : Tables → Answer × Tables) (t : Tables)
      → ((as_operator s new_id now form act t).1 ≡ t)
        ⊎ (as_operator s new_id now form act t ≡ act t)
  unfolding as_operator
  as_operator-cases form act t =
      elim (Option-cases
        (validate (normalize_email (field "email" form)) (field "password" form))) [
          | inl e ↦
              rw (e, as_operator)
                (elim (Bool-cases (check_operator_password s (field "operatorPassword" form))) [
                  | inl c ↦ inr (rw c refl)
                  | inr c ↦ inl (rw c refl)
                ])
          | inr (m, e) ↦ inl (rw (e, as_operator) refl)
        ]

  recovered-Rests : (form : Assoc String) → Rests (recovered s new_id now form)
  unfolding reset_password_of
  recovered-Rests form t h =
      ground (arith, h, find_email-empty (normalize_email (field "email" form)) t.users h)

  pub reset_password-Rests : (form : Assoc String) → Rests (reset_password s new_id now form)
  unfolding reset_password
  reset_password-Rests form t h = elim (Bool-cases (is_dashboard_auth_configured s)) [
    | inr off ↦ rw off h
    | inl on ↦ rw on (elim (as_operator-cases form (recovered s new_id now form) t) [
      | inl same ↦ ap (λ u. u.users) same ∙ h
      | inr acts ↦ ap (λ r. r.1.users) acts ∙ recovered-Rests form t h
    ])
  ]
