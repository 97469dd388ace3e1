-- ===== src/Console/Actions.antt =====
-- src/app/actions/team.ts and auth.ts, with src/lib/dashboard/session-cookie.ts: the actions on the
-- console's accounts. An account's new id and the clock are inputs, as is the subject of the cookie.
pub mod Owners
pub mod Empty
pub mod Guards
pub mod Members
use openipaas.Prelude.{
  ℕ, String, Bool, true, false, ◌&&◌, ◌||◌, not, Option, none, some, List, [], ◌∷◌, ◌++◌, ◌==◌, ltb,
  eqb, if◌then◌else◌, get_or, is_some, length, any, map, filter,
}
use openipaas.Prelude.Assoc.{Assoc}
use openipaas.Prelude.Text
use openipaas.Prelude.Text.{trim, starts_with, is_empty}
use openipaas.Console.{
  Role, owner, member, role_text, as_role, is_owner, User, ResetToken, Tables, to_role, removed,
  would_leave_no_owner, find_user, find_email, update_user, delete_user, password_min_length,
  normalize_email, looks_like_email, field, Server, is_dashboard_auth_configured,
  check_operator_password, unauthorized, Answer, refused, done, signed_in,
  require_dashboard_session, require_owner,
}

-- Only same-origin paths: a path that starts with one slash.
unfoldable pub safe_next : String → String
safe_next next =
    if starts_with next "/" && not (starts_with next "//") then next else "/dashboard/clients"

-- `formData.get('next') || '/dashboard/clients'`
abbrev read_next : Assoc String → String
read_next form =
    let next = field "next" form in if is_empty next then "/dashboard/clients" else next

abbrev pub start_session : String → String → Answer
unfolding safe_next
start_session user_id next = signed_in user_id (safe_next next)

-- `validate` of team.ts, and validateNewCredentials of auth.ts, which has the same text.
unfoldable pub validate : (email password : String) → Option String
validate email password =
    if not (looks_like_email email)
    then some "Enter a valid email address."
    else if ltb (Text.length password) password_min_length
    then some "The password must be at least 10 characters."
    else none

-- `name || null`
abbrev or_null : String → Option String
or_null text = if is_empty text then none else some text

module _ (s : Server) (new_id : String) (now : ℕ) where
  abbrev new_user : (form : Assoc String) → (role : String) → Option ℕ → User
  new_user form role seen = record {
    id = new_id;
    email = normalize_email (field "email" form);
    name = or_null (trim (field "name" form));
    password_hash = s.hash (field "password" form);
    role = role;
    last_login_at = seen;
  }

  abbrev set_password : String → Option ℕ → User → User
  set_password password seen u = record u { password_hash = s.hash password; last_login_at = seen }

  abbrev add_user : User → Tables → Tables
  add_user u t = record t { users = t.users ++ u ∷ [] }

  abbrev on_users : (List User → List User) → Tables → Tables
  on_users f t = record t { users = f t.users }

  -- The role that a form asks for; `?? 'MEMBER'` is what a missing field means.
  abbrev role_of : Assoc String → String
  role_of form = role_text (as_role (field "role" form))

  create_as : Assoc String → User → Tables → Answer × Tables
  unfolding find_email validate
  create_as form actor t =
      let email = normalize_email (field "email" form) in
      elim (validate email (field "password" form)) [
        | some invalid ↦ (refused invalid, t)
        | none ↦
            if is_some (find_email email t.users)
            then (refused "An account already uses that email address.", t)
            else (
              done (
                  Text.◌++◌ email
                    " can now sign in. Send them the password over something private."),
              add_user (new_user form (role_of form) none) t,
            )
      ]

  unfoldable pub create_team_account : Option String → Assoc String → Tables → Answer × Tables
  unfolding require_owner create_as
  create_team_account subject form t = require_owner subject (create_as form) t

  set_role_as : (user_id role : String) → User → Tables → Answer × Tables
  unfolding would_leave_no_owner update_user
  set_role_as user_id role actor t =
      let next = as_role role in
      if not (any (λ (u : User). u.id == user_id) t.users)
      then (refused "That account no longer exists.", t)
      else if would_leave_no_owner t.users user_id (to_role next)
      then (refused "This deployment needs at least one owner.", t)
      else (
        done (if user_id == actor.id then "You changed your own role." else "Role updated."),
        on_users (update_user user_id (λ u. record u { role = role_text next })) t,
      )

  unfoldable pub set_team_account_role :
      Option String → (user_id role : String) → Tables → Answer × Tables
  unfolding require_owner set_role_as
  set_team_account_role subject user_id role t = require_owner subject (set_role_as user_id role) t

  -- The reset links of a deleted account go with it.
  abbrev without_user : String → Tables → Tables
  without_user user_id t = record {
    users = delete_user user_id t.users;
    resets = filter (λ (r : ResetToken). not (r.user_id == user_id)) t.resets;
  }

  remove_as : (user_id : String) → User → Tables → Answer × Tables
  unfolding would_leave_no_owner delete_user
  remove_as user_id actor t =
      if user_id == actor.id
      then (refused "You cannot remove your own account. Ask another owner to do it.", t)
      else if not (any (λ (u : User). u.id == user_id) t.users)
      then (refused "That account no longer exists.", t)
      else if would_leave_no_owner t.users user_id removed
      then (refused "This deployment needs at least one owner.", t)
      else (done "Account removed.", without_user user_id t)

  unfoldable pub remove_team_account : Option String → (user_id : String) → Tables → Answer × Tables
  unfolding require_owner remove_as
  remove_team_account subject user_id t = require_owner subject (remove_as user_id) t

  checked_change : (current next : String) → Option User → Tables → Answer × Tables
  unfolding update_user
  checked_change current next none t = (refused "That is not your current password.", t)
  checked_change current next (some user) t =
      if s.verify current user.password_hash
      then (
        done "Password changed.",
        on_users (update_user user.id (λ u. record u { password_hash = s.hash next })) t,
      )
      else (refused "That is not your current password.", t)

  change_password_as : Assoc String → User → Tables → Answer × Tables
  unfolding checked_change find_user
  change_password_as form actor t =
      let current = field "currentPassword" form in
      let next = field "newPassword" form in
      if ltb (Text.length next) password_min_length
      then (refused "The new password must be at least 10 characters.", t)
      else if next == current
      then (refused "The new password is the same as the current one.", t)
      else checked_change current next (find_user actor.id t.users) t

  unfoldable pub change_own_password : Option String → Assoc String → Tables → Answer × Tables
  unfolding require_dashboard_session change_password_as
  change_own_password subject form t = require_dashboard_session subject (change_password_as form) t

  abbrev not_configured : Answer
  not_configured = refused "Dashboard authentication is not configured on this server."

  login_as : Assoc String → Option User → Tables → Answer × Tables
  unfolding update_user
  login_as form none t = (refused "Invalid email or password.", t)
  login_as form (some user) t =
      if s.verify (field "password" form) user.password_hash
      then (
        start_session user.id (read_next form),
        on_users (update_user user.id (λ u. record u { last_login_at = some now })) t,
      )
      else (refused "Invalid email or password.", t)

  unfoldable pub login : Assoc String → Tables → Answer × Tables
  unfolding is_dashboard_auth_configured login_as find_email normalize_email
  login form t =
      let email = normalize_email (field "email" form) in
      if not (is_dashboard_auth_configured s)
      then (not_configured, t)
      else login_as form (if is_empty email then none else find_email email t.users) t

  -- The checks of a new password by the operator: the form's, and the server's password.
  unfoldable pub as_operator : Assoc String → (Tables → Answer × Tables) → Tables → Answer × Tables
  unfolding validate check_operator_password
  as_operator form act t =
      elim (validate (normalize_email (field "email" form)) (field "password" form)) [
        | some invalid ↦ (refused invalid, t)
        | none ↦
            if check_operator_password s (field "operatorPassword" form)
            then act t
            else (refused "That server password is not correct.", t)
      ]

  abbrev first_account : Assoc String → Tables → Answer × Tables
  first_account form t =
      (start_session new_id (read_next form), add_user (new_user form "OWNER" (some now)) t)

  unfoldable pub create_first_account : Assoc String → Tables → Answer × Tables
  unfolding is_dashboard_auth_configured as_operator
  create_first_account form t =
      if not (is_dashboard_auth_configured s)
      then (not_configured, t)
      else if ltb 0 (length t.users)
      then (refused "An account already exists on this server. Sign in instead.", t)
      else as_operator form (first_account form) t

  -- passwordResetToken.updateMany of the unused links of an account
  unfoldable pub retire : (user_id : String) → List ResetToken → List ResetToken
  retire user_id resets =
      map
        (λ (r : ResetToken).
          if r.user_id == user_id && not (is_some r.used_at)
          then record r { used_at = some now }
          else r)
        resets

  reset_password_of : Assoc String → Option User → Tables → Answer × Tables
  unfolding update_user retire
  reset_password_of form none t = (refused "No account uses that email address.", t)
  reset_password_of form (some user) t = (
    start_session user.id (read_next form),
    record {
      users = update_user user.id (set_password (field "password" form) (some now)) t.users;
      resets = retire user.id t.resets;
    },
  )

  abbrev recovered : Assoc String → Tables → Answer × Tables
  recovered form t =
      reset_password_of form (find_email (normalize_email (field "email" form)) t.users) t

  unfoldable pub reset_password : Assoc String → Tables → Answer × Tables
  unfolding is_dashboard_auth_configured as_operator reset_password_of find_email
  reset_password form t =
      if not (is_dashboard_auth_configured s)
      then (not_configured, t)
      else as_operator form (recovered form) t
