-- ===== src/Console/Actions/Guards.antt =====
-- src/lib/auth-session.ts and the actions that only an owner may run.
use openipaas.Prelude.{
  ℕ, String, Bool, false, ◌≡◌, refl, Option, none, some, inl, inr, arith, is_some, if◌then◌else◌,
  Option-cases,
}
use openipaas.Prelude.Assoc.{Assoc}
use openipaas.Console.{
  is_owner, User, Tables, Server, unauthorized, forbidden, Answer, current_user,
  require_dashboard_session, require_owner,
}
use openipaas.Console.Actions.{
  create_team_account, create_as, set_team_account_role, set_role_as, remove_team_account,
  remove_as,
}

-- Whether the session's account is an owner's.
abbrev pub is_owner_session : Option String → Tables → Bool
is_owner_session subject t = elim (current_user subject t.users) [
  | none ↦ false
  | some user ↦ is_owner user.role
]

-- The error that is thrown without an owner's session.
abbrev pub denial : Option String → Tables → Answer
denial subject t = if is_some (current_user subject t.users) then forbidden else unauthorized

pub require_owner-denies :
    (subject : Option String) (act : User → Tables → Answer × Tables) (t : Tables)
    → is_owner_session subject t ≡ false
    → require_owner subject act t ≡ (denial subject t, t)
unfolding require_owner require_dashboard_session
require_owner-denies subject act t h = elim (Option-cases (current_user subject t.users)) [
  | inl e ↦ rw (e, require_dashboard_session) refl
  | inr (u, e) ↦ rw (e, require_dashboard_session) (rw (role_of_session u e) refl)
]
  where
    role_of_session : (u : User) → current_user subject t.users ≡ some u → is_owner u.role ≡ false
    role_of_session u e = ground (arith, h, e)

-- Without an owner's session an account is not created, given a role or removed: the action throws,
-- as forbidden with another account's session and as unauthorized without one, and changes nothing.
pub team_actions_denied :
    (s : Server) (new_id : String) (now : ℕ) (subject : Option String) (t : Tables)
    (form : Assoc String) (user_id role : String)
    → is_owner_session subject t ≡ false
    → (create_team_account s new_id now subject form t ≡ (denial subject t, t))
      × (set_team_account_role s new_id now subject user_id role t ≡ (denial subject t, t))
      × (remove_team_account s new_id now subject user_id t ≡ (denial subject t, t))
unfolding create_team_account set_team_account_role remove_team_account
team_actions_denied s new_id now subject t form user_id role h = (
  require_owner-denies subject (create_as s new_id now form) t h,
  require_owner-denies subject (set_role_as s new_id now user_id role) t h,
  require_owner-denies subject (remove_as s new_id now user_id) t h,
)
