-- ===== src/UnifiedAuth/Keeps.antt =====
-- src/lib/api-auth.ts: the parts before the handler write nothing but the limiter's windows.
use openipaas.Prelude.{String, Bool, ◌≡◌, refl, ap, subst, ◌∙◌, Option, none, some, List, arith}
use openipaas.Credentials.{OAuthCredential}
use openipaas.Idempotency.{Write}
use openipaas.Scopes.{ScopeResource}
use openipaas.UnifiedAuth.Defs.{ApiKey, LinkedAccount, Request, Server, Env}
use openipaas.UnifiedAuth.Steps.{
  Progress, Step, continue, answer, raise, then_do, Exec, pure, ◌>>=◌,
}
use openipaas.UnifiedAuth.KeyCheck.{authenticate, check_scope, check_budget}
use openipaas.UnifiedAuth.Connection.{resolve_connection, usable_connection, check_incremental}
use openipaas.UnifiedAuth.Dispatch.{read_body, check_repeat, context_of, admit}

pub record Same {J W : Type 0} (s t : Server J W) : Type 0 where
  pub api_keys : t.api_keys ≡ s.api_keys
  pub accounts : t.accounts ≡ s.accounts
  pub rows : t.rows ≡ s.rows
  pub logs : t.logs ≡ s.logs
  pub world : t.world ≡ s.world

pub record Keeps {J W A : Type 0} (m : Exec J W A) : Type 0 where
  pub at : (p : Progress J W) → Same p.server (m p).1.server

module _ {J W : Type 0} where
  pub Same-refl : (s : Server J W) → Same s s
  Same-refl s = record { api_keys = refl; accounts = refl; rows = refl; logs = refl; world = refl }

  pub Same-trans : {s t u : Server J W} → Same s t → Same t u → Same s u
  Same-trans a b = record {
    api_keys = b.api_keys ∙ a.api_keys;
    accounts = b.accounts ∙ a.accounts;
    rows = b.rows ∙ a.rows;
    logs = b.logs ∙ a.logs;
    world = b.world ∙ a.world;
  }

module _ {J W A B : Type 0} where
  then_do-Same :
      (step : Step J A) (f : A → Exec J W B) (p : Progress J W)
      → ((a : A) → Keeps (f a))
      → Same p.server (then_do step f p).1.server
  then_do-Same (continue a) f p kf = (kf a).at p
  then_do-Same (answer response code) f p kf = Same-refl p.server
  then_do-Same (raise error) f p kf = Same-refl p.server

  Keeps-bind :
      (m : Exec J W A) (f : A → Exec J W B) → Keeps m → ((a : A) → Keeps (f a)) → Keeps (m >>= f)
  Keeps-bind m f km kf = record {
    at = λ p. let (step, p') = m p in Same-trans (km.at p) (then_do-Same step f p' kf);
  }

  then_do-eq-continue :
      (step : Step J A) (f : A → Exec J W B) (p : Progress J W) {b : B} {q : Progress J W}
      → then_do step f p ≡ (continue b, q)
      → (a : A) × (step ≡ continue a) × (f a p ≡ (continue b, q))
  then_do-eq-continue (continue a) f p h = (a, refl, h)
  then_do-eq-continue (answer response code) f p h = ground arith
  then_do-eq-continue (raise error) f p h = ground arith

  -- A sequence that continues has continued at its first part.
  pub bind-eq-continue :
      (m : Exec J W A) (f : A → Exec J W B) (p : Progress J W) {b : B} {q : Progress J W}
      → (m >>= f) p ≡ (continue b, q)
      → (a : A) × (p' : Progress J W) × (m p ≡ (continue a, p')) × (f a p' ≡ (continue b, q))
  bind-eq-continue m f p h =
      let (step, p') = m p in
      let (a, e, rest) = then_do-eq-continue step f p' h in (a, p', ap (λ s. (s, p')) e, rest)

  -- From a sequence that continues, its first part that continues and has kept the tables.
  pub after-Same :
      {C : Type 0} (m : Exec J W A) (f : A → Exec J W B) (p : Progress J W) {b : B}
      {q : Progress J W}
      → Keeps m
      → (m >>= f) p ≡ (continue b, q)
      → ((a : A) (p' : Progress J W)
          → m p ≡ (continue a, p')
          → f a p' ≡ (continue b, q)
          → Same p.server p'.server
          → C)
      → C
  after-Same m f p keeps h then =
      let (a, p', e, rest) = bind-eq-continue m f p h in
      then a p' e rest
        (subst (λ (r : Step J A × Progress J W). Same p.server r.1.server) e (keeps.at p))

module _ {J W : Type 0} (env : Env J) (req : Request) where
  pub authenticate-Keeps : Keeps (authenticate {W = W} env req)
  unfolding authenticate
  authenticate-Keeps = record { at = λ p. ground arith }

  pub check_scope-Keeps :
      (enforce : Bool) (k : ApiKey) → Keeps (check_scope {W = W} env req enforce k)
  unfolding check_scope
  check_scope-Keeps enforce k = record { at = λ p. ground arith }

  pub check_budget-Keeps : (k : ApiKey) → Keeps (check_budget {W = W} env req k)
  unfolding check_budget
  check_budget-Keeps k = record { at = λ p. ground arith }

  pub resolve_connection-Keeps :
      (client_id : String) → Keeps (resolve_connection {W = W} env req client_id)
  unfolding resolve_connection
  resolve_connection-Keeps client_id = record { at = λ p. ground arith }

  pub usable_connection-Keeps : (a : LinkedAccount) → Keeps (usable_connection {W = W} env a)
  unfolding usable_connection
  usable_connection-Keeps a = record { at = λ p. ground arith }

  pub check_incremental-Keeps :
      (a : LinkedAccount) (r : Option ScopeResource) → Keeps (check_incremental {W = W} env req a r)
  unfolding check_incremental
  check_incremental-Keeps a r = record { at = λ p. ground arith }

  pub read_body-Keeps : Keeps (read_body {W = W} env req)
  unfolding read_body
  read_body-Keeps = record { at = λ p. ground arith }

  pub check_repeat-Keeps : (w : Option (Write J)) → Keeps (check_repeat {W = W} env req w)
  unfolding check_repeat
  check_repeat-Keeps none = record { at = λ p. ground arith }
  check_repeat-Keeps (some w) = record { at = λ p. ground arith }

  pub context_of-Keeps :
      (a : LinkedAccount) (c : OAuthCredential) (body : Option J) (scopes : List String)
      → Keeps (context_of {W = W} env req a c body scopes)
  unfolding context_of
  context_of-Keeps a c body scopes = record { at = λ p. ground arith }

  pure-Keeps : {A : Type 0} (a : A) → Keeps (pure {J = J} {W = W} a)
  pure-Keeps a = record { at = λ p. Same-refl p.server }

  -- Up to the handler a request writes no table and leaves the world alone.
  pub admit-Keeps : (enforce : Bool) → Keeps (admit {W = W} env req enforce)
  unfolding admit
  admit-Keeps enforce =
      search
        (
          Keeps-bind, authenticate-Keeps, check_scope-Keeps, check_budget-Keeps,
          resolve_connection-Keeps, usable_connection-Keeps, check_incremental-Keeps,
          read_body-Keeps, check_repeat-Keeps, context_of-Keeps, pure-Keeps,
        )
        depth 14
