-- ===== src/UnifiedAuth/Dispatch.antt =====
-- src/lib/api-auth.ts: parts 6 and 7 of the wrapper, and the wrapper itself.
use openipaas.Prelude.{
  ℕ, String, Bool, Option, none, some, List, [], ◌∷◌, ◌++◌, ltb, if◌then◌else◌, map, ◌==◌, eqb, not,
  ◌||◌,
}
use openipaas.Prelude.Text
use openipaas.Prelude.Text.{is_empty, split}
use openipaas.Prelude.Assoc
use openipaas.Prelude.Assoc.{Assoc}
use openipaas.Scopes.{resource_for_path}
use openipaas.Credentials.{OAuthCredential, to_provider_context}
use openipaas.Idempotency
use openipaas.Idempotency.{Row, Write, Lookup, miss, conflict, replay}
use openipaas.Providers.Http.{unhandled}
use openipaas.UnifiedAuth.Defs.{
  ApiKey, LinkedAccount, Request, value, Response, LogEntry, AuthContext, Handled, responds, throws,
  Server, Env,
}
use openipaas.UnifiedAuth.Steps.{
  Progress, Step, continue, answer, raise, Exec, pure, refuse, fail, ◌>>=◌, ◌>>◌,
}
use openipaas.UnifiedAuth.KeyCheck.{
  refusal, is_write, given, error_response, authenticate, check_scope, check_budget,
}
use openipaas.UnifiedAuth.Connection.{resolve_connection, usable_connection, check_incremental}

-- `Assoc.insert` is `headers.set`.
abbrev pub with_header : {J : Type 0} → String → String → Response J → Response J
with_header name text r = record r { headers = Assoc.insert name text r.headers }

-- The write that a request asks to be idempotent, if it asks.
abbrev pub write_of : {J : Type 0} → Request → (client_id : String) → Option J → String → Write J
write_of req client_id body idempotency_key = record {
  client_id = client_id;
  key = idempotency_key;
  endpoint = Text.◌++◌ req.method (Text.◌++◌ " " req.path);
  body = body;
}

unfoldable pub asked_write :
    {J : Type 0} → Request → (client_id : String) → Option J → Option (Write J)
asked_write req client_id body = elim (given req.idempotency_key) [
  | none ↦ none
  | some k ↦ if is_write req then some (write_of req client_id body k) else none
]

module _ {J : Type 0} (env : Env J) where
  unfoldable pub store : Option (Write J) → ℕ → Option J → List (Row J) → List (Row J)
  store none status body rows = rows
  store (some w) status body rows =
      if ltb status 400
      then Idempotency.remember env.digest env.stored w status body env.now rows
      else rows

  -- Sets `lastUsedAt` of the key.
  unfoldable pub touch : (id : String) → List ApiKey → List ApiKey
  touch id keys =
      if env.touched
      then map (λ (k : ApiKey). if k.id == id then record k { last_used_at = some env.now } else k)
          keys
      else keys

-- The statuses that `NextResponse.json` takes: it throws for those that have no body.
abbrev pub takes_body : ℕ → Bool
takes_body status = not (eqb status 204 || eqb status 205 || eqb status 304)

-- What the parts 1 to 6 have found when the handler may run.
pub record Admitted (J : Type 0) : Type 0 where
  pub api_key : ApiKey
  pub account : LinkedAccount
  pub context : AuthContext J
  pub write : Option (Write J)

module _ {J W : Type 0} (env : Env J) (req : Request) where
  -- 6. body and idempotency. A body that is empty, or not read, is null.
  parse_body : String → Exec J W (Option J)
  parse_body text = if is_empty text then pure none else elim (env.parse_json text) [
    | none ↦ refuse (refusal 400 "Invalid JSON body" "INVALID_REQUEST") "INVALID_REQUEST"
    | some body ↦ pure (some body)
  ]

  unfoldable pub read_body : Exec J W (Option J)
  unfolding parse_body
  read_body =
      if is_write req
      then (elim req.text [
        | none ↦ refuse (refusal 400 "Invalid JSON body" "INVALID_REQUEST") "INVALID_REQUEST"
        | some text ↦ parse_body text
      ])
      else pure none

  unfoldable pub answer_lookup : Lookup J → Exec J W (Unit {0})
  answer_lookup miss = pure tt
  answer_lookup conflict =
      refuse
        (refusal 422 "This Idempotency-Key was already used with a different request body."
          "INVALID_REQUEST")
        "INVALID_REQUEST"
  answer_lookup (replay status body) =
      if takes_body status
      then (λ p. (
        answer
            (record {
              status = status;
              content = value body;
              headers = ("Idempotent-Replay", "true") ∷ [];
            })
            none,
        p,
      ))
      else fail unhandled

  unfoldable pub check_repeat : Option (Write J) → Exec J W (Unit {0})
  unfolding answer_lookup
  check_repeat none p = pure tt p
  check_repeat (some w) p = answer_lookup (Idempotency.lookup env.digest w p.server.rows) p

  -- 7. dispatch. `toProviderContext` throws an error of its own where the cipher does.
  unfoldable pub context_of :
      LinkedAccount → OAuthCredential → Option J → List String → Exec J W (AuthContext J)
  context_of a credential body scopes =
      elim (to_provider_context env.cipher credential a.provider) [
        | none ↦ fail unhandled
        | some context ↦ pure (record {
          request_id = env.request_id;
          linked_account = a;
          credentials = context;
          query = req.query;
          body = body;
          scopes = scopes;
        })
      ]

  unfoldable pub handled : Admitted J → Handled J → Exec J W ⊥
  unfolding store touch
  handled a (throws error) p = (raise error, p)
  handled a (responds status body) p = (
    answer (record { status = status; content = value body; headers = [] }) none,
    record p {
      server = record p.server {
        rows = store env a.write status body p.server.rows;
        api_keys = touch env a.api_key.id p.server.api_keys;
      };
    },
  )

  -- Runs the handler on the world, which never continues, and stores the outcome of a write that succeeded.
  unfoldable pub run_handler : (AuthContext J → W → Handled J × W) → Admitted J → Exec J W ⊥
  unfolding handled
  run_handler handler a p =
      let (outcome, world) = handler a.context p.server.world in
      handled a outcome (record p { server = record p.server { world = world } })

  unfoldable pub admit : (enforce : Bool) → Exec J W (Admitted J)
  admit enforce = do
    k ← authenticate env req
    scopes ← check_scope env req enforce k
    check_budget env req k
    a ← resolve_connection env req k.client_id
    credential ← usable_connection env a
    check_incremental env req a (resource_for_path req.path)
    body ← read_body
    let w = asked_write req k.client_id body
    check_repeat w
    context ← context_of a credential body scopes
    pure (record { api_key = k; account = a; context = context; write = w })

abbrev pub start : {J W : Type 0} → Server J W → Progress J W
start server = record {
  server = server;
  client_id = none;
  linked_account_id = none;
  provider = none;
}

-- The log entry and the header that `finish` adds. `slice(0, 500)` of a path without its query.
abbrev pub path_of : String → String
path_of path = elim (split b'?' path) [ [] ↦ "" | first ∷ _ ↦ Text.take 500 first ]

module _ {J W : Type 0} (env : Env J) (req : Request) where
  unfoldable pub entry_of : Progress J W → ℕ → Option String → LogEntry
  entry_of p status code = record {
    request_id = env.request_id;
    client_id = p.client_id;
    linked_account_id = p.linked_account_id;
    provider = p.provider;
    method = req.method;
    path = path_of req.path;
    status = status;
    error_code = code;
  }

  unfoldable pub finish : Response J → Option String → Progress J W → Response J × Server J W
  unfolding entry_of
  finish response code p = (
    with_header "X-Request-Id" env.request_id response,
    record p.server {
      logs =
          if env.logged
          then p.server.logs ++ entry_of p response.status code ∷ []
          else p.server.logs;
    },
  )

  unfoldable pub conclude : Step J ⊥ × Progress J W → Response J × Server J W
  unfolding finish error_response
  conclude (continue never, p) = absurd never
  conclude (answer response code, p) = finish response code p
  conclude (raise error, p) =
      let (response, code) = error_response env.request_id error in finish response (some code) p

  -- The wrapped route: the state that the request leaves, and its response.
  unfoldable pub with_unified_auth :
      (enforce : Bool) → (AuthContext J → W → Handled J × W) → Server J W → Response J × Server J W
  with_unified_auth enforce handler server =
      conclude ((admit env req enforce >>= run_handler env req handler) (start server))
