-- ===== src/Console/Tests.antt =====
-- The console's accounts and links on concrete forms.
use openipaas.Prelude.{
  String, true, false, ◌≡◌, ◌⊎◌, inr, refl, none, some, List, [], ◌∷◌, is_some, ◌<◌, ◌≤◌,
}
use openipaas.Prelude.Assoc.{Assoc, lookup}
use openipaas.Prelude.Text
use openipaas.Console.{
  User, ResetToken, Tables, Server, refused, signed_in, as_role, current_user, would_leave_no_owner,
  to_role, member, removed, looks_like_email, find_email, normalize_email, field,
}
use openipaas.Console.Actions.{
  safe_next, create_team_account, set_team_account_role, remove_team_account,
}
use openipaas.Console.Actions.Guards.{denial, team_actions_denied}
use openipaas.Console.Actions.Owners.{has_owner}
use openipaas.Console.Actions.Members.{members}
use openipaas.Console.Members.{MayChange, perform-members}
use openipaas.Console.Runs.{
  perform, Moment, Action, remove_account, set_role, perform_all, perform_all-IsAdministrable,
}
use openipaas.Console.Resets.{
  Context, find_reset, claim_and_set, complete_password_reset, request_password_reset,
  check_reset_token, issue_link, stored_for,
}
use openipaas.Console.Resets.Message.{Delivery, escape_html}
use openipaas.Console.Resets.Escapes.{without, escape_html-without}
use openipaas.Console.Resets.Links.{nothing, set_once}
use openipaas.Console.Resets.Requests.{
  issue_link-retires, request_password_reset_alike, complete_password_reset_claims,
}

-- A stand-in for the functions of other code, which the tests can compute.
abbrev server : Server
server = record {
  dashboard_password = "operator";
  session_secret = "secret";
  hash = λ p. p;
  verify = λ p h. false;
  digest = λ t. t;
}

abbrev ana : User
ana = record {
  id = "1";
  email = "ana@example.com";
  name = none;
  password_hash = "x";
  role = "OWNER";
  last_login_at = none;
}

abbrev bia : User
bia = record ana { id = "2"; email = "bia@example.com"; role = "MEMBER" }

abbrev link : ResetToken
link = record {
  id = "r1";
  user_id = "2";
  token_hash = "t1";
  expires_at = 5000;
  used_at = none;
  created_at = 100;
}

abbrev console : Tables
console = record { users = ana ∷ bia ∷ []; resets = link ∷ [] }

abbrev context : Context
context = record {
  server = server;
  token = "t2";
  new_id = "r2";
  now = 1000;
  app_url = "https://app.example.com/";
  mail_note = "";
  send = λ m. Delivery.delivered;
}

abbrev moment : Moment
moment = record { new_id = "3"; now = 2000 }

abbrev form : Assoc String
form = ("token", "t1") ∷ ("password", "a long password") ∷ []

last_owner : would_leave_no_owner console.users "1" (to_role member) ≡ true
unfolding would_leave_no_owner as_role
last_owner = refl

member_goes : would_leave_no_owner console.users "2" removed ≡ false
unfolding would_leave_no_owner as_role
member_goes = refl

addresses :
    (looks_like_email "ana@example.com" ≡ true)
    × (looks_like_email "ana@example" ≡ false)
    × (looks_like_email "ana@x@example.com" ≡ false)
unfolding looks_like_email Text.split Text.every Text.is_space Text.before_last Text.slice
addresses = (refl, refl, refl)

-- A path that a browser reads as another host passes.
backslash_passes : safe_next "/\\evil.example" ≡ "/\\evil.example"
unfolding safe_next Text.starts_with
backslash_passes = refl

abbrev acts : List (Moment × Action)
acts = (moment, set_role (some "1") "1" "MEMBER") ∷ (moment, remove_account (some "1") "2") ∷ []

perform_all-IsAdministrable_example :
    (has_owner (perform_all server acts console).users ≡ true)
    ⊎ ((console.users ≡ []) × ((perform_all server acts console).users ≡ []))
unfolding as_role
perform_all-IsAdministrable_example = perform_all-IsAdministrable server acts console (inr refl)

member_denied :
    (create_team_account server "3" 2000 (some "2") [] console
      ≡ (denial (some "2") console, console))
    × (set_team_account_role server "3" 2000 (some "2") "1" "MEMBER" console
        ≡ (denial (some "2") console, console))
    × (remove_team_account server "3" 2000 (some "2") "1" console
        ≡ (denial (some "2") console, console))
unfolding as_role current_user
member_denied = team_actions_denied server "3" 2000 (some "2") console [] "1" "MEMBER" refl

abbrev submitted : Tables
submitted = (claim_and_set context "a long password" link console).1

set_once_example :
    claim_and_set context "another password" link submitted
    ≡ (refused "This link does not work any more. Ask for a new one.", submitted)
set_once_example =
    set_once context context "a long password" "another password" link link console submitted refl
      nothing

issue_link-retires_example :
    (check_reset_token context "t2" (issue_link context bia console).1 ≡ true)
    × (check_reset_token context "t1" (issue_link context bia console).1 ≡ false)
unfolding find_reset
issue_link-retires_example = issue_link-retires context bia console "t1" refl

request_password_reset_alike_example :
    ((request_password_reset context form console).0
      ≡ (request_password_reset context form submitted).0)
    × ((request_password_reset context form console).1.users ≡ console.users)
    × ((is_some (find_email (normalize_email (field "email" form)) console.users) ≡ true)
        ⊎ ((request_password_reset context form console).1 ≡ console))
request_password_reset_alike_example = request_password_reset_alike context form console submitted

complete_password_reset_claims_example :
    ((complete_password_reset context form console).1 ≡ console)
    ⊎ ((stored : ResetToken) × (stored_for context form console ≡ some stored)
        × (stored.used_at ≡ none)
        × (1000 < stored.expires_at)
        × (10 ≤ Text.length (field "password" form))
        × (complete_password_reset context form console
            ≡ claim_and_set context (field "password" form) stored console))
complete_password_reset_claims_example = complete_password_reset_claims context form console

set_by_link : (complete_password_reset context form console).0 ≡ signed_in "2" "/dashboard/clients"
unfolding complete_password_reset lookup Text.trim
set_by_link = refl

escape_html-without_example :
    (without b'<' (escape_html "<b>\"&\"</b>") ≡ true)
    × (without b'>' (escape_html "<b>\"&\"</b>") ≡ true)
    × (without b'"' (escape_html "<b>\"&\"</b>") ≡ true)
escape_html-without_example = escape_html-without "<b>\"&\"</b>"

abbrev demoting : Action
demoting = set_role (some "2") "1" "MEMBER"

perform-members_example :
    (members (perform server moment demoting console).users ≡ members console.users)
    ⊎ MayChange server demoting console
perform-members_example = perform-members server moment demoting console
