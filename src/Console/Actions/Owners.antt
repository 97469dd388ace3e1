-- ===== src/Console/Actions/Owners.antt =====
-- src/lib/dashboard/roles.ts: somebody can always manage the console.
use openipaas.Prelude.{
  ℕ, String, Bool, true, false, not, ◌≡◌, refl, ap, ◌∙◌, Option, none, some, List, [], ◌∷◌, ◌++◌,
  ◌⊎◌, inl, inr, ltb, length, any, arith, any-append, Option-cases, Bool-cases,
}
use openipaas.Prelude.Assoc.{Assoc}
use openipaas.Console.{
  Role, owner, member, role_text, as_role, is_owner, User, Tables, to_role, removed,
  would_leave_no_owner, find_user, find_email, normalize_email, update_user, delete_user, field,
  Server, is_dashboard_auth_configured, Answer, require_dashboard_session, require_owner,
  current_user, owner_only,
}
use openipaas.Console.Actions.Empty.{as_operator-cases}
use openipaas.Console.Actions.{
  create_team_account, create_as, set_team_account_role, set_role_as, remove_team_account,
  remove_as, change_own_password, change_password_as, checked_change, login, login_as,
  create_first_account, as_operator, reset_password, reset_password_of, new_user, role_of,
  set_password, recovered, first_account,
}

abbrev pub has_owner : List User → Bool
has_owner users = any (λ (u : User). is_owner u.role) users

owner_text : (r : Role) → is_owner (role_text r) ≡ (elim r [ owner ↦ true | member ↦ false ])
unfolding as_role
owner_text owner = refl
owner_text member = refl

has_owner-set :
    (user_id : String) (r : Role) (users : List User)
    → has_owner (update_user user_id (λ u. record u { role = role_text r }) users)
      ≡ not (would_leave_no_owner users user_id (to_role r))
unfolding update_user would_leave_no_owner
has_owner-set user_id r [] = refl
has_owner-set user_id owner (u ∷ users) =
    ground (arith, owner_text owner, has_owner-set user_id owner users)
has_owner-set user_id member (u ∷ users) =
    ground (arith, owner_text member, has_owner-set user_id member users)

has_owner-delete :
    (user_id : String) (users : List User)
    → has_owner (delete_user user_id users) ≡ not (would_leave_no_owner users user_id removed)
unfolding delete_user would_leave_no_owner
has_owner-delete user_id [] = refl
has_owner-delete user_id (u ∷ users) = ground (arith, has_owner-delete user_id users)

pub has_owner-update :
    (user_id : String) (f : User → User) (users : List User)
    → ((u : User) → (f u).role ≡ u.role)
    → has_owner (update_user user_id f users) ≡ has_owner users
unfolding update_user
has_owner-update user_id f [] same = refl
has_owner-update user_id f (u ∷ users) same =
    ground (arith, same u, ap is_owner (same u), has_owner-update user_id f users same)

pub has_owner-add :
    (users : List User) (u : User) → has_owner users ≡ true → has_owner (users ++ u ∷ []) ≡ true
has_owner-add users u h = ground (arith, any-append (λ (v : User). is_owner v.role) users (u ∷ []))

-- Nothing that an action may do takes the last owner away.
abbrev pub Keeps : (Tables → Answer × Tables) → Type 0
Keeps act = (t : Tables) → has_owner t.users ≡ true → has_owner (act t).1.users ≡ true

pub require_dashboard_session-Keeps :
    (subject : Option String) (act : User → Tables → Answer × Tables)
    → ((u : User) → Keeps (act u))
    → Keeps (require_dashboard_session subject act)
unfolding require_dashboard_session
require_dashboard_session-Keeps subject act keeps t h =
    elim (Option-cases (current_user subject t.users)) [
      | inl e ↦ rw (e, require_dashboard_session) h
      | inr (u, e) ↦ rw (e, require_dashboard_session) (keeps u t h)
    ]

pub owner_only-Keeps :
    (act : User → Tables → Answer × Tables)
    → ((u : User) → Keeps (act u))
    → (u : User) → Keeps (owner_only act u)
owner_only-Keeps act keeps u t h = elim (Bool-cases (is_owner u.role)) [
  | inl e ↦ rw e (keeps u t h)
  | inr e ↦ rw e h
]

pub require_owner-Keeps :
    (subject : Option String) (act : User → Tables → Answer × Tables)
    → ((u : User) → Keeps (act u))
    → Keeps (require_owner subject act)
unfolding require_owner
require_owner-Keeps subject act keeps =
    require_dashboard_session-Keeps subject (owner_only act) (owner_only-Keeps act keeps)

module _ (s : Server) (new_id : String) (now : ℕ) where
  create_as-Keeps : (form : Assoc String) (u : User) → Keeps (create_as s new_id now form u)
  unfolding create_as
  create_as-Keeps form u t h =
      ground (
        arith,
        has_owner-add t.users (new_user s new_id now form (role_of s new_id now form) none) h,
      )

  set_role_as-Keeps :
      (user_id role : String) (u : User) → Keeps (set_role_as s new_id now user_id role u)
  unfolding set_role_as
  set_role_as-Keeps user_id role u t h =
      ground (arith, has_owner-set user_id (as_role role) t.users)

  remove_as-Keeps : (user_id : String) (u : User) → Keeps (remove_as s new_id now user_id u)
  unfolding remove_as
  remove_as-Keeps user_id u t h = ground (arith, has_owner-delete user_id t.users)

  checked_change-Keeps :
      (current next : String) (o : Option User) → Keeps (checked_change s new_id now current next o)
  unfolding checked_change
  checked_change-Keeps current next none t h = h
  checked_change-Keeps current next (some user) t h = ground (
    arith,
    has_owner-update user.id (λ u. record u { password_hash = s.hash next }) t.users (λ u. refl),
  )

  change_password_as-Keeps :
      (form : Assoc String) (u : User) → Keeps (change_password_as s new_id now form u)
  unfolding change_password_as
  change_password_as-Keeps form u t h = ground (
    arith,
    checked_change-Keeps (field "currentPassword" form) (field "newPassword" form)
        (find_user u.id t.users) t h,
  )

  login_as-Keeps : (form : Assoc String) (o : Option User) → Keeps (login_as s new_id now form o)
  unfolding login_as
  login_as-Keeps form none t h = h
  login_as-Keeps form (some user) t h = ground (
    arith,
    has_owner-update user.id (λ u. record u { last_login_at = some now }) t.users (λ u. refl),
  )

  pub login-Keeps : (form : Assoc String) → Keeps (login s new_id now form)
  unfolding login
  login-Keeps form t h = ground (
    arith,
    login_as-Keeps form none t h,
    login_as-Keeps form (find_email (normalize_email (field "email" form)) t.users) t h,
  )

  reset_password_of-Keeps :
      (form : Assoc String) (o : Option User) → Keeps (reset_password_of s new_id now form o)
  unfolding reset_password_of
  reset_password_of-Keeps form none t h = h
  reset_password_of-Keeps form (some user) t h =
      has_owner-update user.id (set_password s new_id now (field "password" form) (some now))
        t.users (λ u. refl)
      ∙ h

  as_operator-Keeps :
      (form : Assoc String) (act : Tables → Answer × Tables)
      → Keeps act
      → Keeps (as_operator s new_id now form act)
  as_operator-Keeps form act keeps t h = elim (as_operator-cases s new_id now form act t) [
    | inl same ↦ ap (λ u. has_owner u.users) same ∙ h
    | inr acts ↦ ap (λ r. has_owner r.1.users) acts ∙ keeps t h
  ]

  recover-Keeps :
      (form : Assoc String) → Keeps (as_operator s new_id now form (recovered s new_id now form))
  recover-Keeps form = as_operator-Keeps form (recovered s new_id now form) (λ t.
      reset_password_of-Keeps form (find_email (normalize_email (field "email" form)) t.users) t)

  pub reset_password-Keeps : (form : Assoc String) → Keeps (reset_password s new_id now form)
  unfolding reset_password
  reset_password-Keeps form t h = ground (arith, h, recover-Keeps form t h)

  pub create_first_account-Keeps :
      (form : Assoc String) → Keeps (create_first_account s new_id now form)
  unfolding create_first_account
  create_first_account-Keeps form t h = ground (
    arith,
    h,
    as_operator-Keeps form (first_account s new_id now form)
        (λ t. has_owner-add t.users (new_user s new_id now form "OWNER" (some now))) t h,
  )

  pub create_team_account-Keeps :
      (subject : Option String) (form : Assoc String)
      → Keeps (create_team_account s new_id now subject form)
  unfolding create_team_account
  create_team_account-Keeps subject form =
      require_owner-Keeps subject (create_as s new_id now form) (create_as-Keeps form)

  pub set_team_account_role-Keeps :
      (subject : Option String) (user_id role : String)
      → Keeps (set_team_account_role s new_id now subject user_id role)
  unfolding set_team_account_role
  set_team_account_role-Keeps subject user_id role =
      require_owner-Keeps subject (set_role_as s new_id now user_id role)
        (set_role_as-Keeps user_id role)

  pub remove_team_account-Keeps :
      (subject : Option String) (user_id : String)
      → Keeps (remove_team_account s new_id now subject user_id)
  unfolding remove_team_account
  remove_team_account-Keeps subject user_id =
      require_owner-Keeps subject (remove_as s new_id now user_id) (remove_as-Keeps user_id)

  pub change_own_password-Keeps :
      (subject : Option String) (form : Assoc String)
      → Keeps (change_own_password s new_id now subject form)
  unfolding change_own_password
  change_own_password-Keeps subject form =
      require_dashboard_session-Keeps subject (change_password_as s new_id now form)
        (change_password_as-Keeps form)

  nobody : (users : List User) → users ≡ [] → ltb 0 (length users) ≡ false
  nobody users h = rw h refl

  owner_first :
      (form : Assoc String) (t : Tables)
      → t.users ≡ []
      → has_owner (first_account s new_id now form t).1.users ≡ true
  unfolding as_role
  owner_first form t h = rw h refl

  -- The first account of a console is an owner's.
  pub create_first_account-owner :
      (form : Assoc String) (t : Tables)
      → t.users ≡ []
      → ((create_first_account s new_id now form t).1 ≡ t)
        ⊎ (has_owner (create_first_account s new_id now form t).1.users ≡ true)
  unfolding create_first_account
  create_first_account-owner form t h = elim (Bool-cases (is_dashboard_auth_configured s)) [
    | inr off ↦ inl (rw off refl)
    | inl on ↦ rw on (
        rw (nobody t.users h)
          (elim (as_operator-cases s new_id now form (first_account s new_id now form) t) [
            | inl same ↦ inl same
            | inr acts ↦ inr (ap (λ r. has_owner r.1.users) acts ∙ owner_first form t h)
          ]))
  ]
