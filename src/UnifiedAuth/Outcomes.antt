-- ===== src/UnifiedAuth/Outcomes.antt =====
-- src/lib/api-auth.ts: what a request does to the tables and to the world.
use openipaas.Prelude.{Bool, ◌≡◌, refl, sym, ap, subst, ◌∙◌, List}
use openipaas.Idempotency.{Row}
use openipaas.UnifiedAuth.Defs.{
  ApiKey, Request, Server, Env, AuthContext, Handled, responds, throws,
}
use openipaas.UnifiedAuth.Steps.{Progress, Step, continue, answer, raise, then_do}
use openipaas.UnifiedAuth.Keeps.{Same, admit-Keeps}
use openipaas.UnifiedAuth.Admission.{IsAdmitted, admit-IsAdmitted}
use openipaas.UnifiedAuth.Dispatch.{
  Admitted, store, touch, handled, run_handler, start, admit, finish, conclude, with_unified_auth,
}

-- What is left of the outcomes and of the keys when the handler of an admitted request is done.
module _ {J : Type 0} (env : Env J) (x : Admitted J) where
  abbrev pub rows_after : Handled J → List (Row J) → List (Row J)
  rows_after (throws error) rows = rows
  rows_after (responds status body) rows = store env x.write status body rows

  abbrev pub keys_after : Handled J → List ApiKey → List ApiKey
  keys_after (throws error) keys = keys
  keys_after (responds status body) keys = touch env x.api_key.id keys

-- The tables and the world that the handler of an admitted request leaves.
pub record IsRun {J W : Type 0} (env : Env J) (x : Admitted J)
    (handler : AuthContext J → W → Handled J × W) (s t : Server J W) : Type 0 where
  pub new_world : t.world ≡ (handler x.context s.world).1
  pub same_accounts : t.accounts ≡ s.accounts
  pub new_rows : t.rows ≡ rows_after env x (handler x.context s.world).0 s.rows
  pub new_keys : t.api_keys ≡ keys_after env x (handler x.context s.world).0 s.api_keys

-- Either no handler ran and no table changed but the log, or the handler ran once, on a request that
-- passed every check.
pub data Outcome {J W : Type 0} (env : Env J) (req : Request) (enforce : Bool)
    (handler : AuthContext J → W → Handled J × W) (s t : Server J W) : Type 0 where
  refused :
      t.api_keys ≡ s.api_keys
      → t.accounts ≡ s.accounts
      → t.rows ≡ s.rows
      → t.world ≡ s.world
      → Outcome env req enforce handler s t
  ran :
      (x : Admitted J)
      → IsAdmitted env req enforce s x
      → IsRun env x handler s t
      → Outcome env req enforce handler s t

-- The tables but the log.
pub record SameTables {J W : Type 0} (s t : Server J W) : Type 0 where
  pub api_keys : t.api_keys ≡ s.api_keys
  pub accounts : t.accounts ≡ s.accounts
  pub rows : t.rows ≡ s.rows
  pub world : t.world ≡ s.world

module _ {J W : Type 0} (env : Env J) (req : Request) where
  pub conclude-SameTables :
      (step : Step J ⊥) (p : Progress J W) → SameTables p.server (conclude env req (step, p)).1
  unfolding conclude finish
  conclude-SameTables (continue never) p = absurd never
  conclude-SameTables (answer response code) p = record {
    api_keys = refl;
    accounts = refl;
    rows = refl;
    world = refl;
  }
  conclude-SameTables (raise error) p = record {
    api_keys = refl;
    accounts = refl;
    rows = refl;
    world = refl;
  }

  handled-tables :
      (a : Admitted J) (h : Handled J) (p : Progress J W)
      → ((handled env req a h p).1.server.world ≡ p.server.world)
        × ((handled env req a h p).1.server.accounts ≡ p.server.accounts)
        × ((handled env req a h p).1.server.rows ≡ rows_after env a h p.server.rows)
        × ((handled env req a h p).1.server.api_keys ≡ keys_after env a h p.server.api_keys)
  unfolding handled
  handled-tables a (throws error) p = (refl, refl, refl, refl)
  handled-tables a (responds status body) p = (refl, refl, refl, refl)

  module _ (enforce : Bool) (handler : AuthContext J → W → Handled J × W) (s : Server J W) where
    refused-Outcome :
        (step : Step J ⊥) (p : Progress J W)
        → Same s p.server
        → Outcome env req enforce handler s (conclude env req (step, p)).1
    refused-Outcome step p same =
        let tables = conclude-SameTables step p in
        refused (tables.api_keys ∙ same.api_keys) (tables.accounts ∙ same.accounts)
          (tables.rows ∙ same.rows) (tables.world ∙ same.world)

    run_handler-IsRun :
        (a : Admitted J) (p : Progress J W)
        → Same s p.server
        → IsRun env a handler s (conclude env req (run_handler env req handler a p)).1
    unfolding run_handler
    run_handler-IsRun a p same =
        let before = handler a.context s.world in
        let (outcome, world) = handler a.context p.server.world in
        let p' : Progress J W = record p { server = record p.server { world = world } } in
        let (step, q) = handled env req a outcome p' in
        let tables = conclude-SameTables step q in
        let (same_world, same_accounts, new_rows, new_keys) = handled-tables a outcome p' in
        let same_run : handler a.context p.server.world ≡ before =
          ap (handler a.context) same.world in
        record {
          new_world = tables.world ∙ same_world ∙ ap (λ r. r.1) same_run;
          same_accounts = tables.accounts ∙ same_accounts ∙ same.accounts;
          new_rows =
              tables.rows
              ∙ new_rows
              ∙ ap (λ r. rows_after env a r.0 p.server.rows) same_run
              ∙ ap (λ rows. rows_after env a before.0 rows) same.rows;
          new_keys =
              tables.api_keys
              ∙ new_keys
              ∙ ap (λ r. keys_after env a r.0 p.server.api_keys) same_run
              ∙ ap (λ keys. keys_after env a before.0 keys) same.api_keys;
        }

    -- What the request leaves once it is known to be admitted.
    pub admitted-IsRun :
        (a : Admitted J) (p : Progress J W)
        → admit env req enforce (start s) ≡ (continue a, p)
        → IsRun env a handler s (with_unified_auth env req enforce handler s).1
    unfolding with_unified_auth
    admitted-IsRun a p e =
        subst
          (λ (r : Step J (Admitted J) × Progress J W).
            Same s r.1.server
            → IsRun env a handler s
                (conclude env req (then_do r.0 (run_handler env req handler) r.1)).1)
          (sym e) (run_handler-IsRun a p) ((admit-Keeps env req enforce).at (start s))

    run-Outcome :
        (step : Step J (Admitted J)) (p : Progress J W)
        → admit env req enforce (start s) ≡ (step, p)
        → Same s p.server
        → Outcome env req enforce handler s
            (conclude env req (then_do step (run_handler env req handler) p)).1
    run-Outcome (continue a) p e same =
        ran a (admit-IsAdmitted env req enforce (start s) p a e) (run_handler-IsRun a p same)
    run-Outcome (answer response code) p e same = refused-Outcome (answer response code) p same
    run-Outcome (raise error) p e same = refused-Outcome (raise error) p same

    -- A request that is refused, replayed or fails a check leaves the keys, the accounts, the stored
    -- outcomes and the world as they were. Otherwise its handler ran, once, on the world that the request
    -- found, and then: the header carries a live key of the table; its scopes allow the method on the
    -- path where the route enforces them; the budgets of the client and of the key had room; the account
    -- is of the table and belongs to the key's client; its provider is known; and a write whose header
    -- asks to be idempotent had no outcome stored under its client and key. Of the tables, a handler that throws leaves all as they were,
    -- and one that responds changes the time of the key's last use and, for an idempotent write answered
    -- below 400, the stored outcomes.
    pub with_unified_auth_outcome :
        Outcome env req enforce handler s (with_unified_auth env req enforce handler s).1
    unfolding with_unified_auth
    with_unified_auth_outcome =
        let (step, p) = admit env req enforce (start s) in
        run-Outcome step p refl ((admit-Keeps env req enforce).at (start s))
