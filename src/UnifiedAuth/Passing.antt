-- ===== src/UnifiedAuth/Passing.antt =====
-- src/lib/api-auth.ts: a request that passes the checks before the stored outcomes are asked.
use openipaas.Prelude.{String, Bool, ◌≡◌, refl, Option, List, subst}
use openipaas.Credentials.{OAuthCredential}
use openipaas.Scopes.{resource_for_path}
use openipaas.UnifiedAuth.Defs.{ApiKey, LinkedAccount, Request, Env, Response}
use openipaas.UnifiedAuth.Steps.{Progress, Step, continue, answer, Exec}
use openipaas.UnifiedAuth.KeyCheck.{authenticate, check_scope, check_budget}
use openipaas.UnifiedAuth.Connection.{resolve_connection, usable_connection, check_incremental}
use openipaas.UnifiedAuth.Dispatch.{read_body, check_repeat, asked_write, admit}
use openipaas.UnifiedAuth.Keeps.{
  Same, Keeps, Same-trans, authenticate-Keeps, check_scope-Keeps, check_budget-Keeps,
  resolve_connection-Keeps, usable_connection-Keeps, check_incremental-Keeps, read_body-Keeps,
}

-- The key, the scope, the budget, the connection, its support and the body pass, one after another.
pub record Passes {J W : Type 0} (env : Env J) (req : Request) (enforce : Bool) (p : Progress J W)
    (k : ApiKey) (body : Option J) (q : Progress J W) : Type 0 where
  pub scopes : List String
  pub account : LinkedAccount
  pub credential : OAuthCredential
  pub p1 : Progress J W
  pub p2 : Progress J W
  pub p3 : Progress J W
  pub p4 : Progress J W
  pub p5 : Progress J W
  pub p6 : Progress J W
  pub has_key : authenticate env req p ≡ (continue k, p1)
  pub in_scope : check_scope env req enforce k p1 ≡ (continue scopes, p2)
  pub in_budget : check_budget env req k p2 ≡ (continue tt, p3)
  pub resolved : resolve_connection env req k.client_id p3 ≡ (continue account, p4)
  pub usable : usable_connection env account p4 ≡ (continue credential, p5)
  pub supported :
      check_incremental env req account (resource_for_path req.path) p5 ≡ (continue tt, p6)
  pub read : read_body env req p6 ≡ (continue body, q)

module _ {J W : Type 0} where
  step-Same :
      {A : Type 0} (m : Exec J W A) (p : Progress J W) {step : Step J A} {q : Progress J W}
      → Keeps m
      → m p ≡ (step, q)
      → Same p.server q.server
  step-Same {A} m p keeps e =
      subst (λ (r : Step J A × Progress J W). Same p.server r.1.server) e (keeps.at p)

module _ {J W : Type 0} (env : Env J) (req : Request) (enforce : Bool) (p q : Progress J W)
    (k : ApiKey) (body : Option J) (h : Passes env req enforce p k body q) where
  pub Passes-Same : Same p.server q.server
  Passes-Same =
      Same-trans (step-Same (authenticate env req) p (authenticate-Keeps env req) h.has_key) (
        Same-trans
          (step-Same (check_scope env req enforce k) h.p1 (check_scope-Keeps env req enforce k)
            h.in_scope)
          (Same-trans
            (step-Same (check_budget env req k) h.p2 (check_budget-Keeps env req k) h.in_budget)
            (Same-trans
              (step-Same (resolve_connection env req k.client_id) h.p3
                (resolve_connection-Keeps env req k.client_id) h.resolved)
              (Same-trans
                (step-Same (usable_connection env h.account) h.p4
                  (usable_connection-Keeps env req h.account) h.usable)
                (Same-trans
                  (step-Same (check_incremental env req h.account (resource_for_path req.path)) h.p5
                    (check_incremental-Keeps env req h.account (resource_for_path req.path))
                    h.supported)
                  (step-Same (read_body env req) h.p6 (read_body-Keeps env req) h.read))))))

  -- Where the stored outcomes answer, that is how the request is admitted.
  pub admit-answers :
      (response : Response J) (code : Option String)
      → check_repeat env req (asked_write req k.client_id body) q ≡ (answer response code, q)
      → admit env req enforce p ≡ (answer response code, q)
  unfolding admit
  admit-answers response code e =
      rw (h.has_key, h.in_scope, h.in_budget, h.resolved, h.usable, h.supported, h.read, e) refl
