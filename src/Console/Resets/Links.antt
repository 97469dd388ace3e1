-- ===== src/Console/Resets/Links.antt =====
-- src/app/actions/password-reset.ts: a link sets a password at most once, and a newer one retires it.
use openipaas.Prelude.{
  ℕ, String, Bool, false, ◌&&◌, not, ◌≡◌, refl, List, [], ◌∷◌, ◌++◌, ◌==◌, is_some, any, filter,
  arith, any-append,
}
use openipaas.Console.{ResetToken, Tables, Server, refused}
use openipaas.Console.Actions.{retire}
use openipaas.Console.Resets.{claim, Context, claim_and_set}

-- The changes that the console makes to the table of links, as seen by the row with this id: one is
-- issued under another id, since ids are not used again, those of an account are retired, one is
-- claimed, and those of a removed account go with it.
pub data Step (id : String) : List ResetToken → List ResetToken → Type 0 where
  issued :
      {resets : List ResetToken} (r : ResetToken)
      → (r.id == id) ≡ false
      → Step id resets (resets ++ r ∷ [])
  retired :
      {resets : List ResetToken} (s : Server) (new_id : String) (now : ℕ) (user_id : String)
      → Step id resets (retire s new_id now user_id resets)
  claimed :
      {resets : List ResetToken} (other : String) (now : ℕ)
      → Step id resets (claim other now resets).1
  deleted :
      {resets : List ResetToken} (user_id : String)
      → Step id resets (filter (λ (r : ResetToken). not (r.user_id == user_id)) resets)

pub data Steps (id : String) : List ResetToken → List ResetToken → Type 0 where
  nothing : {resets : List ResetToken} → Steps id resets resets
  after :
      {first second third : List ResetToken}
      → Step id first second
      → Steps id second third
      → Steps id first third

-- Whether a claim of the row would succeed.
abbrev is_open : String → List ResetToken → Bool
is_open id resets = any (λ (r : ResetToken). r.id == id && not (is_some r.used_at)) resets

spent-retire :
    (id : String) (s : Server) (new_id : String) (now : ℕ) (user_id : String)
    (resets : List ResetToken)
    → is_open id resets ≡ false
    → is_open id (retire s new_id now user_id resets) ≡ false
unfolding retire
spent-retire id s new_id now user_id [] h = refl
spent-retire id s new_id now user_id (r ∷ resets) h =
    ground (arith, spent-retire id s new_id now user_id resets)

spent-claim :
    (id other : String) (now : ℕ) (resets : List ResetToken)
    → is_open id resets ≡ false
    → is_open id (claim other now resets).1 ≡ false
unfolding claim
spent-claim id other now [] h = refl
spent-claim id other now (r ∷ resets) h = ground (arith, spent-claim id other now resets)

claim_spends :
    (id : String) (now : ℕ) (resets : List ResetToken) → is_open id (claim id now resets).1 ≡ false
unfolding claim
claim_spends id now [] = refl
claim_spends id now (r ∷ resets) = ground (arith, claim_spends id now resets)

spent-delete :
    (id user_id : String) (resets : List ResetToken)
    → is_open id resets ≡ false
    → is_open id (filter (λ (r : ResetToken). not (r.user_id == user_id)) resets) ≡ false
spent-delete id user_id [] h = refl
spent-delete id user_id (r ∷ resets) h = ground (arith, spent-delete id user_id resets)

spent-Step :
    (id : String) {before later : List ResetToken}
    → Step id before later
    → is_open id before ≡ false
    → is_open id later ≡ false
spent-Step id (issued {resets} r other) h =
    ground (
      arith,
      any-append (λ (q : ResetToken). q.id == id && not (is_some q.used_at)) resets (r ∷ []),
    )
spent-Step id (retired {resets} s new_id now user_id) h =
    spent-retire id s new_id now user_id resets h
spent-Step id (claimed {resets} other now) h = spent-claim id other now resets h
spent-Step id (deleted {resets} user_id) h = spent-delete id user_id resets h

spent-Steps :
    (id : String) {before later : List ResetToken}
    → Steps id before later
    → is_open id before ≡ false
    → is_open id later ≡ false
spent-Steps id nothing h = h
spent-Steps id (after step steps) h = spent-Steps id steps (spent-Step id step h)

submitted_spends :
    (c : Context) (password : String) (stored : ResetToken) (t : Tables)
    → is_open stored.id (claim_and_set c password stored t).1.resets ≡ false
unfolding claim_and_set claim
submitted_spends c password stored t = ground (arith, claim_spends stored.id c.now t.resets)

refused_if_spent :
    (c : Context) (password : String) (stored : ResetToken) (t : Tables)
    → is_open stored.id t.resets ≡ false
    → claim_and_set c password stored t
      ≡ (refused "This link does not work any more. Ask for a new one.", t)
unfolding claim_and_set claim
refused_if_spent c password stored t h = ground arith

-- Of two submissions of a link that both found its row usable, in any order with other changes of the
-- table between their claims, the second sets no password and changes nothing.
pub set_once :
    (c d : Context) (password other : String) (stored again : ResetToken) (t u : Tables)
    → again.id ≡ stored.id
    → Steps stored.id (claim_and_set c password stored t).1.resets u.resets
    → claim_and_set d other again u
      ≡ (refused "This link does not work any more. Ask for a new one.", u)
set_once c d password other stored again t u same steps =
    refused_if_spent d other again u
      (rw same (spent-Steps stored.id steps (submitted_spends c password stored t)))
