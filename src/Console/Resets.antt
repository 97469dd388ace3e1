-- ===== src/Console/Resets.antt =====
-- src/lib/password-reset.ts and src/app/actions/password-reset.ts: the links that set a password.
-- A random token and the id of its row are inputs, as are the clock and the sending of mail.
pub mod Links
pub mod Requests
pub mod Message
pub mod Escapes
use openipaas.Prelude.{
  ℕ, ◌+◌, ◌-◌, ◌*◌, String, Bool, true, false, ◌&&◌, not, Option, none, some, List, [], ◌∷◌, ◌++◌,
  ◌==◌, ltb, leb, if◌then◌else◌, get_or, is_some, any, map, filter,
}
use openipaas.Prelude.Assoc.{Assoc}
use openipaas.Prelude.Text
use openipaas.Prelude.Text.{trim, is_empty, drop_trailing}
use openipaas.Console.{
  User, ResetToken, Tables, find_user, find_email, update_user, password_min_length,
  normalize_email, field, Server, Answer, refused, done, signed_in, require_owner,
}
use openipaas.Console.Actions.{retire}
use openipaas.Console.Resets.Message.{Mail, Delivery, reset_email}

abbrev pub reset_token_ttl_minutes : ℕ
reset_token_ttl_minutes = 60

abbrev pub reset_request_cooldown_seconds : ℕ
reset_request_cooldown_seconds = 60

abbrev pub reset_token_expiry : ℕ → ℕ
reset_token_expiry now = now + reset_token_ttl_minutes * 60000

pub data ResetTokenProblem : Type 0 where
  unknown used expired : ResetTokenProblem

unfoldable pub reset_token_problem : Option ResetToken → ℕ → Option ResetTokenProblem
reset_token_problem none now = some unknown
reset_token_problem (some stored) now =
    if is_some stored.used_at
    then some used
    else if leb stored.expires_at now
    then some expired
    else none

unfoldable pub can_request_another : Option ℕ → ℕ → Bool
can_request_another none now = true
can_request_another (some last) now = leb (reset_request_cooldown_seconds * 1000) (now - last)

unfoldable pub reset_link : (app_url token : String) → String
reset_link app_url token = Text.◌++◌ (drop_trailing b'/' app_url) (Text.◌++◌ "/reset/" token)

-- findUnique by the hash of the token
unfoldable pub find_reset : (token_hash : String) → List ResetToken → Option ResetToken
find_reset token_hash [] = none
find_reset token_hash (r ∷ resets) =
    if r.token_hash == token_hash then some r else find_reset token_hash resets

-- The time at which the account's latest link was made.
unfoldable pub latest_request : (user_id : String) → List ResetToken → Option ℕ
latest_request user_id [] = none
latest_request user_id (r ∷ resets) =
    let later = latest_request user_id resets in
    if not (r.user_id == user_id)
    then later
    else if ltb r.created_at (get_or later 0)
    then later
    else some r.created_at

-- updateMany of the unused row with this id: whether there was one, and the rows after it.
unfoldable pub claim : (id : String) → (now : ℕ) → List ResetToken → Bool × List ResetToken
claim id now resets =
    let is_open : ResetToken → Bool = λ r. r.id == id && not (is_some r.used_at) in
    (
      any is_open resets,
      map (λ (r : ResetToken). if is_open r then record r { used_at = some now } else r) resets,
    )

-- The server's own, the random token, the id of its row, the clock, the address of the application,
-- what the mail's state adds to an answer, and the sending of mail.
pub record Context : Type 0 where
  pub server : Server
  pub token : String
  pub new_id : String
  pub now : ℕ
  pub app_url : String
  pub mail_note : String
  pub send : Mail → Delivery

abbrev pub same_answer : String
same_answer = "If that address has an account, a link is on its way. It expires in an hour."

abbrev no_longer_works : Answer
no_longer_works = refused "This link does not work any more. Ask for a new one."

module _ (c : Context) where
  abbrev pub new_row : String → ResetToken
  new_row user_id = record {
    id = c.new_id;
    user_id = user_id;
    token_hash = c.server.digest c.token;
    expires_at = reset_token_expiry c.now;
    used_at = none;
    created_at = c.now;
  }

  abbrev link : String
  link = reset_link c.app_url c.token

  unfoldable pub issue_rows : (user_id : String) → List ResetToken → List ResetToken
  unfolding retire
  issue_rows user_id resets = retire c.server c.new_id c.now user_id resets ++ new_row user_id ∷ []

  unfoldable pub issue_link : User → Tables → (String × Delivery) × Tables
  unfolding issue_rows reset_link reset_email
  issue_link user t =
      let mail = reset_email user.email (reset_link c.app_url c.token) user.name in
      (
        (reset_link c.app_url c.token, c.send mail),
        record t { resets = issue_rows user.id t.resets },
      )

  request_for : Option User → Answer → Tables → Answer × Tables
  unfolding issue_link can_request_another latest_request
  request_for none answer t = (answer, t)
  request_for (some user) answer t =
      let issued = issue_link user t in
      if can_request_another (latest_request user.id t.resets) c.now
      then (answer, issued.1)
      else (answer, t)

  unfoldable pub request_password_reset : Assoc String → Tables → Answer × Tables
  unfolding request_for find_email
  request_password_reset form t =
      let email = normalize_email (field "email" form) in
      let answer = done (Text.◌++◌ same_answer c.mail_note) in
      if is_empty email
      then (refused "Enter the email address for your account.", t)
      else request_for (find_email email t.users) answer t

  unfoldable pub check_reset_token : String → Tables → Bool
  unfolding find_reset reset_token_problem
  check_reset_token token t =
      not (is_some (reset_token_problem (find_reset (c.server.digest token) t.resets) c.now))

  -- The row that a submitted form finds.
  unfoldable pub stored_for : Assoc String → Tables → Option ResetToken
  unfolding find_reset
  stored_for form t =
      let token = trim (field "token" form) in
      if is_empty token then none else find_reset (c.server.digest token) t.resets

  -- The claim of the row, and the password that it allows to set.
  unfoldable pub claim_and_set : String → ResetToken → Tables → Answer × Tables
  unfolding claim update_user
  claim_and_set password stored t =
      let (claimed, resets) = claim stored.id c.now t.resets in
      if claimed
      then (
        signed_in stored.user_id "/dashboard/clients",
        record {
          users =
              update_user stored.user_id
                (λ u. record u {
                  password_hash = c.server.hash password;
                  last_login_at = some c.now;
                })
                t.users;
          resets = resets;
        },
      )
      else (no_longer_works, t)

  usable : Option ResetToken → Option ResetToken
  unfolding reset_token_problem
  usable o = if is_some (reset_token_problem o c.now) then none else o

  set_with : String → Option ResetToken → Tables → Answer × Tables
  unfolding claim_and_set
  set_with password none t = (no_longer_works, t)
  set_with password (some stored) t = claim_and_set password stored t

  unfoldable pub complete_password_reset : Assoc String → Tables → Answer × Tables
  unfolding stored_for usable set_with
  complete_password_reset form t =
      let password = field "password" form in
      if ltb (Text.length password) password_min_length
      then (refused "The password must be at least 10 characters.", t)
      else set_with password (usable (stored_for form t)) t

  -- The answer of the owner who sends a link, with the link where mail was not sent.
  link_answer : User → String × Delivery → Answer × Option String
  link_answer user (link, delivery) = elim delivery [
    | Delivery.delivered ↦ (
      done (Text.◌++◌ "Sent to " (Text.◌++◌ user.email ". The link expires in 60 minutes.")),
      none,
    )
    | Delivery.not_sent none ↦ (
      done "This server sends no mail, so here is the link. It expires in 60 minutes.",
      some link,
    )
    | Delivery.not_sent (some problem) ↦ (
      done (
          Text.◌++◌ "Could not send the mail: "
            (Text.◌++◌ problem " Pass this link on yourself, it expires in 60 minutes.")),
      some link,
    )
  ]

  send_to : Option User → Tables → (Answer × Option String) × Tables
  unfolding issue_link link_answer
  send_to none t = ((refused "That account no longer exists.", none), t)
  send_to (some user) t = let (issued, t') = issue_link user t in (link_answer user issued, t')

  -- What follows the guard, which lets an owner through with a message that is not shown.
  after_guard : (user_id : String) → Answer → Tables → (Answer × Option String) × Tables
  unfolding send_to find_user
  after_guard user_id (done message) t = send_to (find_user user_id t.users) t
  after_guard user_id refusal t = ((refusal, none), t)

  unfoldable pub send_reset_link_to :
      Option String → (user_id : String) → Tables → (Answer × Option String) × Tables
  unfolding after_guard require_owner
  send_reset_link_to subject user_id t =
      let (guard, t') = require_owner subject (λ u t. (done "", t)) t in
      after_guard user_id guard t'
