-- ===== src/UnifiedAuth/Logging.antt =====
-- src/lib/api-auth.ts: what `finish` does to every response of the wrapper.
use openipaas.Prelude.{
  String, Bool, ◌≡◌, refl, subst, Option, some, List, [], ◌∷◌, ◌++◌, if◌then◌else◌,
}
use openipaas.Prelude.Assoc
use openipaas.UnifiedAuth.Defs.{
  LogEntry, Request, Response, Server, Env, AuthContext, Handled, responds, throws,
}
use openipaas.UnifiedAuth.Steps.{Progress, Step, continue, answer, raise, then_do}
use openipaas.UnifiedAuth.KeyCheck.{error_response}
use openipaas.UnifiedAuth.Keeps.{admit-Keeps}
use openipaas.UnifiedAuth.Dispatch.{
  Admitted, handled, run_handler, path_of, entry_of, start, admit, finish, conclude,
  with_unified_auth,
}

-- The log has one entry more, which tells of this response.
pub record IsLogged {J W : Type 0} (env : Env J) (req : Request) (before : List LogEntry)
    (result : Response J × Server J W) : Type 0 where
  pub entry : LogEntry
  pub appended : result.1.logs ≡ (if env.logged then before ++ entry ∷ [] else before)
  pub same_status : entry.status ≡ result.0.status
  pub same_request : entry.request_id ≡ env.request_id
  pub same_method : entry.method ≡ req.method
  pub same_path : entry.path ≡ path_of req.path
  pub header : Assoc.lookup "X-Request-Id" result.0.headers ≡ some env.request_id

module _ {J W : Type 0} (env : Env J) (req : Request) where
  finish-IsLogged :
      (response : Response J) (code : Option String) (p : Progress J W)
      → IsLogged env req p.server.logs (finish env req response code p)
  unfolding finish entry_of
  finish-IsLogged response code p = record {
    entry = entry_of env req p response.status code;
    appended = refl;
    same_status = refl;
    same_request = refl;
    same_method = refl;
    same_path = refl;
    header = Assoc.lookup-insert "X-Request-Id" "X-Request-Id" env.request_id response.headers;
  }

  conclude-IsLogged :
      (step : Step J ⊥) (p : Progress J W)
      → IsLogged env req p.server.logs (conclude env req (step, p))
  unfolding conclude
  conclude-IsLogged (continue never) p = absurd never
  conclude-IsLogged (answer response code) p = finish-IsLogged response code p
  conclude-IsLogged (raise error) p =
      let (response, code) = error_response env.request_id error in
      finish-IsLogged response (some code) p

  handled-logs :
      (a : Admitted J) (h : Handled J) (p : Progress J W)
      → (handled env req a h p).1.server.logs ≡ p.server.logs
  unfolding handled
  handled-logs a (throws error) p = refl
  handled-logs a (responds status body) p = refl

  run-IsLogged :
      (handler : AuthContext J → W → Handled J × W) (step : Step J (Admitted J)) (p : Progress J W)
      → IsLogged env req p.server.logs
          (conclude env req (then_do step (run_handler env req handler) p))
  unfolding run_handler
  run-IsLogged handler (continue a) p =
      let (outcome, world) = handler a.context p.server.world in
      let p' : Progress J W = record p { server = record p.server { world = world } } in
      let (step, q) = handled env req a outcome p' in
      subst (λ logs. IsLogged env req logs (conclude env req (step, q))) (handled-logs a outcome p')
        (conclude-IsLogged step q)
  run-IsLogged handler (answer response code) p = conclude-IsLogged (answer response code) p
  run-IsLogged handler (raise error) p = conclude-IsLogged (raise error) p

  -- Every request leaves one log entry more, if the log table takes it, and the entry has the status of
  -- the response, the identifier of the request, its method and the first 500 characters of its path
  -- without the query; the response carries the identifier as X-Request-Id. This holds of every answer:
  -- the handler's, a refusal, a replay, and an error that was thrown.
  pub with_unified_auth-IsLogged :
      (enforce : Bool) (handler : AuthContext J → W → Handled J × W) (s : Server J W)
      → IsLogged env req s.logs (with_unified_auth env req enforce handler s)
  unfolding with_unified_auth
  with_unified_auth-IsLogged enforce handler s =
      let (step, p) = admit env req enforce (start s) in
      subst
        (λ logs.
          IsLogged env req logs (conclude env req (then_do step (run_handler env req handler) p)))
        ((admit-Keeps env req enforce).at (start s)).logs (run-IsLogged handler step p)
