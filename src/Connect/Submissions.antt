-- ===== src/Connect/Submissions.antt =====
-- src/app/actions/connect.ts: a session connects at most one account.
use openipaas.Prelude.{
  ℕ, String, Bool, false, ◌&&◌, not, ◌≡◌, refl, List, [], ◌∷◌, ◌++◌, ◌==◌, is_some, any, filter,
  arith, eq_refl, any-append,
}
use openipaas.Connect.{
  ConnectSession, complete_connect_session, Account, Rows, refused, finish_submission,
}

-- The changes that are made to the sessions, as seen by the one with this id: one is created under
-- another id, since ids are not used again, or one is completed.
pub data Step (id : String) : List ConnectSession → List ConnectSession → Type 0 where
  created :
      {sessions : List ConnectSession} (s : ConnectSession)
      → (s.id == id) ≡ false
      → Step id sessions (sessions ++ s ∷ [])
  completed :
      {sessions : List ConnectSession} (other account_id : String) (now : ℕ)
      → Step id sessions (complete_connect_session other account_id now sessions).1

pub data Steps (id : String) : List ConnectSession → List ConnectSession → Type 0 where
  nothing : {sessions : List ConnectSession} → Steps id sessions sessions
  after :
      {first second third : List ConnectSession}
      → Step id first second
      → Steps id second third
      → Steps id first third

-- Whether a completion of the session would succeed.
abbrev is_open : String → List ConnectSession → Bool
is_open id sessions = any (λ (s : ConnectSession). s.id == id && not (is_some s.used_at)) sessions

complete_keeps_closed :
    (id other account_id : String) (now : ℕ) (sessions : List ConnectSession)
    → is_open id sessions ≡ false
    → is_open id (complete_connect_session other account_id now sessions).1 ≡ false
unfolding complete_connect_session
complete_keeps_closed id other account_id now [] h = refl
complete_keeps_closed id other account_id now (s ∷ sessions) h =
    ground (arith, complete_keeps_closed id other account_id now sessions)

complete_closes :
    (id account_id : String) (now : ℕ) (sessions : List ConnectSession)
    → is_open id (complete_connect_session id account_id now sessions).1 ≡ false
unfolding complete_connect_session
complete_closes id account_id now [] = refl
complete_closes id account_id now (s ∷ sessions) =
    ground (arith, complete_closes id account_id now sessions)

closed-Step :
    (id : String) {before later : List ConnectSession}
    → Step id before later
    → is_open id before ≡ false
    → is_open id later ≡ false
closed-Step id (created {sessions} s other) h = ground (
  arith,
  any-append (λ (r : ConnectSession). r.id == id && not (is_some r.used_at)) sessions (s ∷ []),
)
closed-Step id (completed {sessions} other account_id now) h =
    complete_keeps_closed id other account_id now sessions h

closed-Steps :
    (id : String) {before later : List ConnectSession}
    → Steps id before later
    → is_open id before ≡ false
    → is_open id later ≡ false
closed-Steps id nothing h = h
closed-Steps id (after step steps) h = closed-Steps id steps (closed-Step id step h)

finish_closes :
    (s : ConnectSession) (account : Account) (now : ℕ) (rows : Rows)
    → is_open s.id (finish_submission s account now rows).1.sessions ≡ false
unfolding finish_submission complete_connect_session
finish_closes s account now rows = ground (arith, complete_closes s.id account.id now rows.sessions)

-- Deleting the account that was just added leaves the others.
filter-added :
    (account : Account) (accounts : List Account)
    → any (λ (a : Account). a.id == account.id) accounts ≡ false
    → filter (λ (a : Account). not (a.id == account.id)) (accounts ++ account ∷ []) ≡ accounts
filter-added account [] h = ground (arith, eq_refl account.id)
filter-added account (a ∷ accounts) h = ground (arith, filter-added account accounts)

refused_if_closed :
    (s : ConnectSession) (account : Account) (now : ℕ) (rows : Rows)
    → is_open s.id rows.sessions ≡ false
    → any (λ (a : Account). a.id == account.id) rows.accounts ≡ false
    → finish_submission s account now rows ≡ (refused "This link was already used.", rows)
unfolding finish_submission complete_connect_session
refused_if_closed s account now rows h k = ground (arith, filter-added account rows.accounts k)

-- Of two submissions of the form of a link that both found its session usable, with other changes of
-- the sessions between them, the second connects nothing and changes nothing, if its account has an id
-- that no other has.
pub connected_once :
    (s again : ConnectSession) (account other : Account) (now later : ℕ) (rows rows' : Rows)
    → again.id ≡ s.id
    → Steps s.id (finish_submission s account now rows).1.sessions rows'.sessions
    → any (λ (a : Account). a.id == other.id) rows'.accounts ≡ false
    → finish_submission again other later rows' ≡ (refused "This link was already used.", rows')
connected_once s again account other now later rows rows' same steps fresh =
    refused_if_closed again other later rows'
      (rw same (closed-Steps s.id steps (finish_closes s account now rows))) fresh
