-- ===== src/Console/Resets/Requests.antt =====
-- src/app/actions/password-reset.ts: what the request and the use of a link reveal and change.
use openipaas.Prelude.{
  ℕ, ◌≤◌, ◌<◌, String, true, ◌&&◌, not, ◌≡◌, refl, ap, ◌∙◌, ◌⊎◌, inl, inr, Option, none, some, List,
  [], ◌∷◌, ◌++◌, ◌==◌, if◌then◌else◌, is_some, arith, eq_refl, Option-cases,
}
use openipaas.Prelude.Assoc.{Assoc}
use openipaas.Prelude.Text
use openipaas.Prelude.Text.{trim, is_empty}
use openipaas.Console.{
  User, ResetToken, Tables, find_user, find_email, update_user, field, normalize_email, Server,
  Answer, unauthorized, forbidden, refused, done, signed_in, current_user,
  require_dashboard_session, require_owner,
}
use openipaas.Console.Actions.{retire}
use openipaas.Console.Resets.{
  reset_token_problem, find_reset, Context, new_row, issue_rows, issue_link, request_for,
  request_password_reset, check_reset_token, stored_for, claim_and_set, usable, set_with,
  complete_password_reset, send_to, after_guard, send_reset_link_to, same_answer,
}

-- A row of the table after the links of an account were retired.
abbrev retired : (user_id : String) → (now : ℕ) → ResetToken → ResetToken
retired user_id now r =
    if r.user_id == user_id && not (is_some r.used_at) then record r { used_at = some now } else r

find_reset-retire :
    (s : Server) (new_id : String) (now : ℕ) (user_id hash : String) (resets : List ResetToken)
    → find_reset hash (retire s new_id now user_id resets)
      ≡ (elim (find_reset hash resets) [ none ↦ none | some r ↦ some (retired user_id now r) ])
unfolding retire find_reset
find_reset-retire s new_id now user_id hash [] = refl
find_reset-retire s new_id now user_id hash (x ∷ resets) =
    ground (arith, find_reset-retire s new_id now user_id hash resets)

find_reset-append :
    (hash : String) (resets : List ResetToken) (new : ResetToken)
    → find_reset hash (resets ++ new ∷ []) ≡ (elim (find_reset hash resets) [
      | some r ↦ some r
      | none ↦ if new.token_hash == hash then some new else none
    ])
unfolding find_reset
find_reset-append hash [] new = ground arith
find_reset-append hash (r ∷ resets) new = ground (arith, find_reset-append hash resets new)

module _ (c : Context) (user : User) (t : Tables) where
  -- When a link is issued whose hash no row has, it works at once, whether or not the account had links
  -- before; no token of the account's earlier rows works any more; and a token of another account's row
  -- works exactly if it worked before.
  pub issue_link-retires :
      (token : String)
      → find_reset (c.server.digest c.token) t.resets ≡ none
      → (check_reset_token c c.token (issue_link c user t).1 ≡ true)
        × (check_reset_token c token (issue_link c user t).1
            ≡ (elim (find_reset (c.server.digest token) t.resets) [
              | none ↦ c.server.digest c.token == c.server.digest token
              | some r ↦ not (r.user_id == user.id) && check_reset_token c token t
            ]))
  unfolding issue_link issue_rows check_reset_token reset_token_problem
  issue_link-retires token fresh =
      let rows = retire c.server c.new_id c.now user.id t.resets in
      let first = find_reset-append (c.server.digest c.token) rows (new_row c user.id) in
      let none_yet =
        find_reset-retire c.server c.new_id c.now user.id (c.server.digest c.token) t.resets in
      let hash = c.server.digest token in
      let later = find_reset-append hash rows (new_row c user.id) in
      let kept = find_reset-retire c.server c.new_id c.now user.id hash t.resets in
      (
        ground (arith, first, none_yet, fresh, eq_refl (c.server.digest c.token)),
        elim (Option-cases (find_reset hash t.resets)) [
          | inl e ↦ ground (arith, later, kept, e)
          | inr (r, e) ↦ ground (arith, later, kept, e)
        ],
      )

request_for-same :
    (c : Context) (o : Option User) (answer : Answer) (t : Tables)
    → ((request_for c o answer t).0 ≡ answer) × ((request_for c o answer t).1.users ≡ t.users)
unfolding request_for issue_link
request_for-same c none answer t = (refl, refl)
request_for-same c (some user) answer t = ground arith

-- A request for a link is answered alike whatever accounts and links there are, so the answer does not
-- tell whether the address has an account; it changes no account, and nothing if the address has none.
pub request_password_reset_alike :
    (c : Context) (form : Assoc String) (t u : Tables)
    → ((request_password_reset c form t).0 ≡ (request_password_reset c form u).0)
      × ((request_password_reset c form t).1.users ≡ t.users)
      × ((is_some (find_email (normalize_email (field "email" form)) t.users) ≡ true)
          ⊎ ((request_password_reset c form t).1 ≡ t))
unfolding request_password_reset
request_password_reset_alike c form t u =
    let email = normalize_email (field "email" form) in
    (
      ground (
        arith,
        request_for-same c (find_email email t.users) (done (Text.◌++◌ same_answer c.mail_note)) t,
        request_for-same c (find_email email u.users) (done (Text.◌++◌ same_answer c.mail_note)) u,
      ),
      ground (
        arith,
        request_for-same c (find_email email t.users) (done (Text.◌++◌ same_answer c.mail_note)) t,
      ),
      elim (Option-cases (find_email email t.users)) [
        | inl absent ↦
            inr (rw (absent, request_password_reset) (unfold request_for in ground arith))
        | inr (user, e) ↦ inl (rw e refl)
      ],
    )

-- A form sets a password only through the claim of a row that its token finds, that was not used and
-- has not expired, and with a password that is long enough; otherwise it is refused and changes nothing.
pub complete_password_reset_claims :
    (c : Context) (form : Assoc String) (t : Tables)
    → ((complete_password_reset c form t).1 ≡ t)
      ⊎ ((stored : ResetToken) × (stored_for c form t ≡ some stored)
          × (stored.used_at ≡ none)
          × (c.now < stored.expires_at)
          × (10 ≤ Text.length (field "password" form))
          × (complete_password_reset c form t ≡ claim_and_set c (field "password" form) stored t))
unfolding complete_password_reset usable set_with reset_token_problem
complete_password_reset_claims c form t = elim (Option-cases (stored_for c form t)) [
  | inl e ↦ inl (rw (e, complete_password_reset) (ground arith))
  | inr (stored, e) ↦ rw (e, complete_password_reset) (ground arith)
]

module _ (c : Context) where
  send_to-users : (o : Option User) (t : Tables) → (send_to c o t).1.users ≡ t.users
  unfolding send_to issue_link
  send_to-users none t = refl
  send_to-users (some user) t = refl

  after_guard-users :
      (user_id : String) (a : Answer) (t : Tables) → (after_guard c user_id a t).1.users ≡ t.users
  unfolding after_guard
  after_guard-users user_id (done message) t = send_to-users (find_user user_id t.users) t
  after_guard-users user_id (refused message) t = refl
  after_guard-users user_id (signed_in u n) t = refl
  after_guard-users user_id unauthorized t = refl
  after_guard-users user_id forbidden t = refl

  guard-same :
      (subject : Option String) (t : Tables) → (require_owner subject (λ u t. (done "", t)) t).1 ≡ t
  unfolding require_owner require_dashboard_session
  guard-same subject t = elim (Option-cases (current_user subject t.users)) [
    | inl e ↦ rw (e, require_dashboard_session) refl
    | inr (u, e) ↦ rw (e, require_dashboard_session) (ground arith)
  ]

  -- Sending a link changes no account.
  pub send_reset_link_to-users :
      (subject : Option String) (user_id : String) (t : Tables)
      → (send_reset_link_to c subject user_id t).1.users ≡ t.users
  unfolding send_reset_link_to
  send_reset_link_to-users subject user_id t =
      let (a, u) = require_owner subject (λ u t. (done "", t)) t in
      after_guard-users user_id a u ∙ ap (λ v. v.users) (guard-same subject t)

  -- On a console without accounts, a link changes none.
  pub claim_and_set-empty :
      (password : String) (stored : ResetToken) (t : Tables)
      → t.users ≡ []
      → (claim_and_set c password stored t).1.users ≡ []
  unfolding claim_and_set update_user
  claim_and_set-empty password stored t h = ground (arith, h)
