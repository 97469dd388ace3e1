-- ===== src/Console/Runs.antt =====
-- src/app/actions: the console's actions one after another, and who they leave to manage it.
use openipaas.Prelude.{
  ℕ, String, true, ◌≡◌, refl, ap, ◌∙◌, ◌⊎◌, inl, inr, Option, some, List, [], ◌∷◌, arith,
}
use openipaas.Prelude.Assoc.{Assoc}
use openipaas.Console.Resets.Requests.{
  request_password_reset_alike, complete_password_reset_claims, send_reset_link_to-users,
  claim_and_set-empty,
}
use openipaas.Console.{ResetToken, Tables, field, Server, Answer}
use openipaas.Console.Actions.{
  create_team_account, set_team_account_role, remove_team_account, change_own_password, login,
  create_first_account, reset_password,
}
use openipaas.Console.Actions.Owners
use openipaas.Console.Actions.Empty
use openipaas.Console.Actions.Empty.{Rests}
use openipaas.Console.Actions.Owners.{has_owner, Keeps}
use openipaas.Console.Resets.{
  Context, claim_and_set, request_password_reset, complete_password_reset, send_reset_link_to,
}

-- An action on the console's accounts, with the cookie's subject where it has one.
pub data Action : Type 0 where
  create_account : Option String → Assoc String → Action
  set_role : Option String → (user_id role : String) → Action
  remove_account : Option String → (user_id : String) → Action
  change_password : Option String → Assoc String → Action
  sign_in set_up recover : Assoc String → Action
  request_link complete_link : Context → Assoc String → Action
  send_link : Context → Option String → (user_id : String) → Action

-- What is different in every action: the id of a new account and the clock.
pub record Moment : Type 0 where
  pub new_id : String
  pub now : ℕ

unfoldable pub perform : Server → Moment → Action → Tables → Tables
perform s m (create_account subject form) t =
    (create_team_account s m.new_id m.now subject form t).1
perform s m (set_role subject user_id role) t =
    (set_team_account_role s m.new_id m.now subject user_id role t).1
perform s m (remove_account subject user_id) t =
    (remove_team_account s m.new_id m.now subject user_id t).1
perform s m (change_password subject form) t =
    (change_own_password s m.new_id m.now subject form t).1
perform s m (sign_in form) t = (login s m.new_id m.now form t).1
perform s m (set_up form) t = (create_first_account s m.new_id m.now form t).1
perform s m (recover form) t = (reset_password s m.new_id m.now form t).1
perform s m (request_link c form) t = (request_password_reset c form t).1
perform s m (complete_link c form) t = (complete_password_reset c form t).1
perform s m (send_link c subject user_id) t = (send_reset_link_to c subject user_id t).1

unfoldable pub perform_all : Server → List (Moment × Action) → Tables → Tables
unfolding perform
perform_all s [] t = t
perform_all s ((m, a) ∷ actions) t = perform_all s actions (perform s m a t)

module _ (c : Context) where
  request_password_reset-Keeps : (form : Assoc String) → Keeps (request_password_reset c form)
  request_password_reset-Keeps form t h =
      ap has_owner (request_password_reset_alike c form t t).1 ∙ h

  claim_and_set-Keeps :
      (password : String) (stored : ResetToken) → Keeps (claim_and_set c password stored)
  unfolding claim_and_set
  claim_and_set-Keeps password stored t h = ground (
    arith,
    Owners.has_owner-update stored.user_id
        (λ u. record u { password_hash = c.server.hash password; last_login_at = some c.now })
        t.users (λ u. refl),
  )

  complete_password_reset-Keeps : (form : Assoc String) → Keeps (complete_password_reset c form)
  complete_password_reset-Keeps form t h = elim (complete_password_reset_claims c form t) [
    | inl same ↦ ap (λ u. has_owner u.users) same ∙ h
    | inr (stored, found, unused, later, long, e) ↦
        ap (λ r. has_owner r.1.users) e ∙ claim_and_set-Keeps (field "password" form) stored t h
  ]

  complete_password_reset-Rests : (form : Assoc String) → Rests (complete_password_reset c form)
  complete_password_reset-Rests form t h = elim (complete_password_reset_claims c form t) [
    | inl same ↦ ap (λ u. u.users) same ∙ h
    | inr (stored, found, unused, later, long, e) ↦
        ap (λ r. r.1.users) e ∙ claim_and_set-empty c (field "password" form) stored t h
  ]

-- A console without accounts waits for its first, and one with accounts has an owner.
abbrev pub IsAdministrable : Tables → Type 0
IsAdministrable t = (t.users ≡ []) ⊎ (has_owner t.users ≡ true)

settle :
    (f : Tables → Answer × Tables)
    → Rests f
    → Keeps f
    → (t : Tables) → IsAdministrable t
    → IsAdministrable (f t).1
settle f rests keeps t (inl none_yet) = inl (rests t none_yet)
settle f rests keeps t (inr owned) = inr (keeps t owned)

settle_first :
    (s : Server) (m : Moment) (form : Assoc String) (t : Tables)
    → IsAdministrable t
    → IsAdministrable (create_first_account s m.new_id m.now form t).1
settle_first s m form t (inr owned) =
    inr (Owners.create_first_account-Keeps s m.new_id m.now form t owned)
settle_first s m form t (inl none_yet) =
    elim (Owners.create_first_account-owner s m.new_id m.now form t none_yet) [
      | inl same ↦ inl (ap (λ u. u.users) same ∙ none_yet)
      | inr owned ↦ inr owned
    ]

settle_same : (t u : Tables) → u.users ≡ t.users → IsAdministrable t → IsAdministrable u
settle_same t u e (inl none_yet) = inl (e ∙ none_yet)
settle_same t u e (inr owned) = inr (ap has_owner e ∙ owned)

perform-IsAdministrable :
    (s : Server) (m : Moment) (a : Action) (t : Tables)
    → IsAdministrable t
    → IsAdministrable (perform s m a t)
unfolding perform
perform-IsAdministrable s m (create_account subject form) t =
    settle (create_team_account s m.new_id m.now subject form)
      (Empty.create_team_account-Rests s m.new_id m.now subject form)
      (Owners.create_team_account-Keeps s m.new_id m.now subject form) t
perform-IsAdministrable s m (set_role subject user_id role) t =
    settle (set_team_account_role s m.new_id m.now subject user_id role)
      (Empty.set_team_account_role-Rests s m.new_id m.now subject user_id role)
      (Owners.set_team_account_role-Keeps s m.new_id m.now subject user_id role) t
perform-IsAdministrable s m (remove_account subject user_id) t =
    settle (remove_team_account s m.new_id m.now subject user_id)
      (Empty.remove_team_account-Rests s m.new_id m.now subject user_id)
      (Owners.remove_team_account-Keeps s m.new_id m.now subject user_id) t
perform-IsAdministrable s m (change_password subject form) t =
    settle (change_own_password s m.new_id m.now subject form)
      (Empty.change_own_password-Rests s m.new_id m.now subject form)
      (Owners.change_own_password-Keeps s m.new_id m.now subject form) t
perform-IsAdministrable s m (sign_in form) t =
    settle (login s m.new_id m.now form) (Empty.login-Rests s m.new_id m.now form)
      (Owners.login-Keeps s m.new_id m.now form) t
perform-IsAdministrable s m (set_up form) t = settle_first s m form t
perform-IsAdministrable s m (recover form) t =
    settle (reset_password s m.new_id m.now form) (Empty.reset_password-Rests s m.new_id m.now form)
      (Owners.reset_password-Keeps s m.new_id m.now form) t
perform-IsAdministrable s m (request_link c form) t =
    settle_same t (request_password_reset c form t).1 (request_password_reset_alike c form t t).1
perform-IsAdministrable s m (complete_link c form) t =
    settle (complete_password_reset c form) (complete_password_reset-Rests c form)
      (complete_password_reset-Keeps c form) t
perform-IsAdministrable s m (send_link c subject user_id) t =
    settle_same t (send_reset_link_to c subject user_id t).1
      (send_reset_link_to-users c subject user_id t)

perform-Stays :
    (s : Server) (m : Moment) (a : Action) (t : Tables)
    → has_owner t.users ≡ true
    → has_owner (perform s m a t).users ≡ true
unfolding perform
perform-Stays s m (create_account subject form) t h =
    Owners.create_team_account-Keeps s m.new_id m.now subject form t h
perform-Stays s m (set_role subject user_id role) t h =
    Owners.set_team_account_role-Keeps s m.new_id m.now subject user_id role t h
perform-Stays s m (remove_account subject user_id) t h =
    Owners.remove_team_account-Keeps s m.new_id m.now subject user_id t h
perform-Stays s m (change_password subject form) t h =
    Owners.change_own_password-Keeps s m.new_id m.now subject form t h
perform-Stays s m (sign_in form) t h = Owners.login-Keeps s m.new_id m.now form t h
perform-Stays s m (set_up form) t h = Owners.create_first_account-Keeps s m.new_id m.now form t h
perform-Stays s m (recover form) t h = Owners.reset_password-Keeps s m.new_id m.now form t h
perform-Stays s m (request_link c form) t h = request_password_reset-Keeps c form t h
perform-Stays s m (complete_link c form) t h = complete_password_reset-Keeps c form t h
perform-Stays s m (send_link c subject user_id) t h =
    ap has_owner (send_reset_link_to-users c subject user_id t) ∙ h

perform_all-owned :
    (s : Server) (actions : List (Moment × Action)) (t : Tables)
    → has_owner t.users ≡ true
    → has_owner (perform_all s actions t).users ≡ true
unfolding perform_all
perform_all-owned s [] t h = h
perform_all-owned s ((m, a) ∷ actions) t h =
    perform_all-owned s actions (perform s m a t) (perform-Stays s m a t h)

-- A console that has no account, or has an owner, either has an owner after any actions that anyone
-- performs on it one after another, or had no account before them and has none after them.
pub perform_all-IsAdministrable :
    (s : Server) (actions : List (Moment × Action)) (t : Tables)
    → IsAdministrable t
    → (has_owner (perform_all s actions t).users ≡ true)
      ⊎ ((t.users ≡ []) × ((perform_all s actions t).users ≡ []))
unfolding perform_all
perform_all-IsAdministrable s actions t (inr owned) = inl (perform_all-owned s actions t owned)
perform_all-IsAdministrable s [] t (inl none_yet) = inr (none_yet, none_yet)
perform_all-IsAdministrable s ((m, a) ∷ actions) t (inl none_yet) =
    elim (perform-IsAdministrable s m a t (inl none_yet)) [
      | inr owned ↦ inl (perform_all-owned s actions (perform s m a t) owned)
      | inl still ↦ elim (perform_all-IsAdministrable s actions (perform s m a t) (inl still)) [
        | inl owned ↦ inl owned
        | inr (before, after) ↦ inr (none_yet, after)
      ]
    ]
