-- ===== src/Console.antt =====
-- src/lib/dashboard/roles.ts, password-rules.ts, password.ts, auth-session.ts and the reset links of
-- src/lib/password-reset.ts: the accounts of the console, their roles, and who is signed in.
-- The two tables of the schema that the console's actions change are the state.
pub mod Actions
pub mod Resets
pub mod Runs
pub mod Members
mod Tests
use openipaas.Prelude.{
  ℕ, ◌+◌, ◌*◌, String, Bool, true, false, ◌&&◌, ◌||◌, not, Option, none, some, List, [], ◌∷◌, ◌++◌,
  ◌==◌, ltb, leb, eqb, if◌then◌else◌, get_or, is_some, length, filter, any, all, map,
}
use openipaas.Prelude.Assoc.{Assoc, lookup}
use openipaas.Prelude.Text.{
  trim, to_lower_case, split, includes, starts_with, is_empty, is_space, every, before_last, slice,
}

pub data Role : Type 0 where
  owner member : Role

abbrev pub role_text : Role → String
role_text owner = "OWNER"
role_text member = "MEMBER"

abbrev pub default_role : Role
default_role = member

unfoldable pub as_role : String → Role
as_role value =
    if value == "OWNER" then owner else if value == "MEMBER" then member else default_role

abbrev pub is_owner : String → Bool
is_owner role = elim (as_role role) [ owner ↦ true | member ↦ false ]

-- A row of DashboardUser.
pub record User : Type 0 where
  pub id : String
  pub email : String
  pub name : Option String
  pub password_hash : String
  pub role : String
  pub last_login_at : Option ℕ

-- A row of PasswordResetToken.
pub record ResetToken : Type 0 where
  pub id : String
  pub user_id : String
  pub token_hash : String
  pub expires_at : ℕ
  pub used_at : Option ℕ
  pub created_at : ℕ

pub record Tables : Type 0 where
  pub users : List User
  pub resets : List ResetToken

-- What a change makes of an account: another role, or its removal.
pub data Change : Type 0 where
  to_role : Role → Change
  removed : Change

abbrev to_owner : Change → Bool
to_owner (to_role owner) = true
to_owner (to_role member) = false
to_owner removed = false

-- The owners that a change of the user's account would leave.
unfoldable pub would_leave_no_owner : List User → (user_id : String) → Change → Bool
would_leave_no_owner users user_id change = eqb 0 (
    length
      (filter (λ (u : User). if u.id == user_id then to_owner change else is_owner u.role) users))

-- findUnique by id and by email
unfoldable pub find_user : (user_id : String) → List User → Option User
find_user user_id [] = none
find_user user_id (u ∷ users) = if u.id == user_id then some u else find_user user_id users

unfoldable pub find_email : (email : String) → List User → Option User
find_email email [] = none
find_email email (u ∷ users) = if u.email == email then some u else find_email email users

-- update by id
unfoldable pub update_user : (user_id : String) → (User → User) → List User → List User
update_user user_id f users = map (λ (u : User). if u.id == user_id then f u else u) users

unfoldable pub delete_user : (user_id : String) → List User → List User
delete_user user_id users = filter (λ (u : User). not (u.id == user_id)) users

abbrev pub password_min_length : ℕ
password_min_length = 10

unfoldable pub normalize_email : String → String
normalize_email email = to_lower_case (trim email)

-- One part of an address: not empty, with no white space and no `@`.
unfoldable pub is_plain : String → Bool
is_plain text = not (is_empty text) && every (λ c. not (is_space c) && not (eqb c b'@')) text

plain_parts : List String → Bool
unfolding is_plain
plain_parts (name ∷ domain ∷ []) =
    is_plain name && is_plain domain && before_last b'.' (slice 1 domain)
plain_parts _ = false

-- /^[^\s@]+@[^\s@]+\.[^\s@]+$/
unfoldable pub looks_like_email : String → Bool
unfolding plain_parts
looks_like_email email = plain_parts (split b'@' email)

-- What the name of a form's field holds; a missing field is empty.
abbrev pub field : String → Assoc String → String
field name form = get_or (lookup name form) ""

-- The environment: whether the operator's password and the session's secret are set, and the
-- functions of other code. `verify` and `hash` are verifyPassword and hashPassword of password.ts,
-- `digest` is the SHA-256 of a token.
pub record Server : Type 0 where
  pub dashboard_password : String
  pub session_secret : String
  pub hash : String → String
  pub verify : String → String → Bool
  pub digest : String → String

unfoldable pub is_dashboard_auth_configured : Server → Bool
is_dashboard_auth_configured s =
    not (is_empty (trim s.dashboard_password)) && not (is_empty (trim s.session_secret))

unfoldable pub check_operator_password : Server → String → Bool
check_operator_password s candidate =
    let expected = trim s.dashboard_password in not (is_empty expected) && candidate == expected

-- The account of a session, whose subject the cookie's token gives.
unfoldable pub current_user : Option String → List User → Option User
unfolding find_user
current_user none users = none
current_user (some user_id) users = find_user user_id users

-- What an action ends with: an error that is thrown, one that is returned, a message, or a session
-- for the account and the page that it goes on to.
pub data Answer : Type 0 where
  unauthorized forbidden : Answer
  refused done : (message : String) → Answer
  signed_in : (user_id next : String) → Answer

-- requireDashboardSession, and then requireOwner: the action goes on with the account.
unfoldable pub require_dashboard_session :
    Option String → (User → Tables → Answer × Tables) → Tables → Answer × Tables
unfolding current_user
require_dashboard_session subject act t = elim (current_user subject t.users) [
  | none ↦ (unauthorized, t)
  | some user ↦ act user t
]

abbrev owner_only : (User → Tables → Answer × Tables) → User → Tables → Answer × Tables
owner_only act user t = if is_owner user.role then act user t else (forbidden, t)

unfoldable pub require_owner :
    Option String → (User → Tables → Answer × Tables) → Tables → Answer × Tables
unfolding require_dashboard_session
require_owner subject act t = require_dashboard_session subject (owner_only act) t
