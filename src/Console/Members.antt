-- ===== src/Console/Members.antt =====
-- src/app/actions/team.ts, auth.ts and password-reset.ts: who may change who is in the team.
use openipaas.Prelude.{
  String, true, false, ◌≡◌, refl, ap, ◌∙◌, ◌⊎◌, inl, inr, Option, some, [], arith, Bool-cases,
}
use openipaas.Console.{User, ResetToken, Tables, Server, Answer, field, check_operator_password}
use openipaas.Console.Actions.{create_team_account, set_team_account_role, remove_team_account}
use openipaas.Console.Actions.Guards.{is_owner_session, denial, team_actions_denied}
use openipaas.Console.Actions.Members.{
  members, members-update, Leaves, change_own_password-Leaves, login-Leaves, reset_password-Leaves,
  create_first_account-cases,
}
use openipaas.Console.Resets.{Context, claim_and_set}
use openipaas.Console.Resets.Requests.{
  request_password_reset_alike, complete_password_reset_claims, send_reset_link_to-users,
}
use openipaas.Console.Runs.{
  Moment, Action, create_account, set_role, remove_account, change_password, sign_in, set_up,
  recover, request_link, complete_link, send_link, perform,
}

-- What an action needs in order to change who is in the team.
abbrev pub MayChange : Server → Action → Tables → Type 0
MayChange s (create_account subject form) t = is_owner_session subject t ≡ true
MayChange s (set_role subject user_id role) t = is_owner_session subject t ≡ true
MayChange s (remove_account subject user_id) t = is_owner_session subject t ≡ true
MayChange s (set_up form) t =
    (t.users ≡ []) × (check_operator_password s (field "operatorPassword" form) ≡ true)
MayChange s _ t = ⊥

by_owner :
    (subject : Option String) (act : Tables → Answer × Tables) (t : Tables)
    → (is_owner_session subject t ≡ false → act t ≡ (denial subject t, t))
    → (members (act t).1.users ≡ members t.users) ⊎ (is_owner_session subject t ≡ true)
by_owner subject act t denied = elim (Bool-cases (is_owner_session subject t)) [
  | inl e ↦ inr e
  | inr e ↦ inl (ap (λ r. members r.1.users) (denied e))
]

claim_and_set-Leaves :
    (c : Context) (password : String) (stored : ResetToken)
    → Leaves (claim_and_set c password stored)
unfolding claim_and_set
claim_and_set-Leaves c password stored t =
    let set : User → User =
      λ u. record u { password_hash = c.server.hash password; last_login_at = some c.now } in
    ground (arith, members-update stored.user_id set t.users (λ u. refl) (λ u. refl))

-- An action leaves the accounts and their roles as they are, unless it creates, changes or removes an
-- account with an owner's session, or sets up the first account of a console that has none with the
-- server's password.
pub perform-members :
    (s : Server) (m : Moment) (a : Action) (t : Tables)
    → (members (perform s m a t).users ≡ members t.users) ⊎ MayChange s a t
unfolding perform
perform-members s m (create_account subject form) t =
    by_owner subject (create_team_account s m.new_id m.now subject form) t
      (λ h. (team_actions_denied s m.new_id m.now subject t form "" "" h).0)
perform-members s m (set_role subject user_id role) t =
    by_owner subject (set_team_account_role s m.new_id m.now subject user_id role) t
      (λ h. (team_actions_denied s m.new_id m.now subject t [] user_id role h).1)
perform-members s m (remove_account subject user_id) t =
    by_owner subject (remove_team_account s m.new_id m.now subject user_id) t
      (λ h. (team_actions_denied s m.new_id m.now subject t [] user_id "" h).2)
perform-members s m (change_password subject form) t =
    inl (change_own_password-Leaves s m.new_id m.now subject form t)
perform-members s m (sign_in form) t = inl (login-Leaves s m.new_id m.now form t)
perform-members s m (set_up form) t = elim (create_first_account-cases s m.new_id m.now form t) [
  | inl same ↦ inl (ap (λ u. members u.users) same)
  | inr checked ↦ inr checked
]
perform-members s m (recover form) t = inl (reset_password-Leaves s m.new_id m.now form t)
perform-members s m (request_link c form) t =
    inl (ap members (request_password_reset_alike c form t t).1)
perform-members s m (complete_link c form) t = elim (complete_password_reset_claims c form t) [
  | inl same ↦ inl (ap (λ u. members u.users) same)
  | inr (stored, found, unused, later, long, e) ↦
      inl (ap (λ r. members r.1.users) e ∙ claim_and_set-Leaves c (field "password" form) stored t)
]
perform-members s m (send_link c subject user_id) t =
    inl (ap members (send_reset_link_to-users c subject user_id t))
