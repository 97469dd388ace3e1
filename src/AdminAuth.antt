-- ===== src/AdminAuth.antt =====
-- src/lib/admin-auth.ts: the wrapper of the routes that cross clients.
-- The state is the admin keys, the log, the limiter's windows and the world that a handler acts on.
pub mod Admitted
mod Tests
use openipaas.Prelude.{
  ℕ, String, Bool, true, false, not, ◌&&◌, Option, none, some, List, [], ◌∷◌, ◌++◌, ◌==◌, ltb,
  if◌then◌else◌, is_some, map, get_or,
}
use openipaas.Prelude.Assoc.{Assoc, insert}
use openipaas.Prelude.Text
use openipaas.Prelude.Text.{trim, starts_with, slice, is_empty}
use openipaas.ApiRateLimit.{Windows, RateLimitVerdict, RedisReply, Limits, consume}
use openipaas.UnifiedAuth.Defs.{
  Request, Response, error_content, value, LogEntry, Handled, responds, throws,
}
use openipaas.UnifiedAuth.KeyCheck.{refusal, is_write}
use openipaas.UnifiedAuth.Dispatch.{with_header, path_of}

pub record AdminKey : Type 0 where
  pub id : String
  pub key_hash : String
  pub revoked_at : Option ℕ
  pub last_used_at : Option ℕ

pub record State (W : Type 0) : Type 0 where
  pub admin_keys : List AdminKey
  pub logs : List LogEntry
  pub windows : Windows
  pub world : W

-- The digest of a key, the reading of JSON, the limits of the environment, and what one request is
-- given: the clock, its identifier, what Redis answers, and whether the tables take the log entry and the
-- time of the key's last use.
pub record Env (J : Type 0) : Type 0 where
  pub digest : String → String
  pub parse_json : String → Option J
  pub limits : Limits
  pub now : ℕ
  pub request_id : String
  pub reply : RedisReply
  pub touched : Bool
  pub logged : Bool

pub record AdminAuthContext (J : Type 0) : Type 0 where
  pub request_id : String
  pub admin_key_id : String
  pub body : Option J

unfoldable pub find_key : (hash : String) → List AdminKey → Option AdminKey
find_key hash [] = none
find_key hash (k ∷ keys) = if k.key_hash == hash then some k else find_key hash keys

-- The key that is presented, if the header is there and names one that is not revoked.
unfoldable pub presented : {J : Type 0} → Env J → Request → Option String
presented env req = elim req.authorization [
  | none ↦ none
  | some header ↦ if starts_with header "Bearer " then some (trim (slice 7 header)) else none
]

abbrev live : Option AdminKey → Option AdminKey
live none = none
live (some k) = if is_some k.revoked_at then none else some k

module _ {J : Type 0} (env : Env J) where
  abbrev touch : String → List AdminKey → List AdminKey
  touch id keys =
      map (λ (k : AdminKey). if k.id == id then record k { last_used_at = some env.now } else k)
        keys

module _ {J : Type 0} (env : Env J) (req : Request) where
  unfoldable pub entry_of : ℕ → Option String → LogEntry
  entry_of status code = record {
    request_id = env.request_id;
    client_id = none;
    linked_account_id = none;
    provider = none;
    method = req.method;
    path = path_of req.path;
    status = status;
    error_code = code;
  }

  -- The body of a write: `some` of it, or `none` where it cannot be read.
  unfoldable pub read_body : Option (Option J)
  read_body = if not (is_write req) then some none else elim req.text [
    | none ↦ none
    | some text ↦
        if is_empty text
        then some none
        else elim (env.parse_json text) [ none ↦ none | some body ↦ some (some body) ]
  ]

module _ {J W : Type 0} (env : Env J) (req : Request) where
  unfoldable pub finish : Response J → Option String → State W → Response J × State W
  unfolding entry_of
  finish response code s = (
    with_header "X-Request-Id" env.request_id response,
    record s {
      logs = if env.logged then s.logs ++ entry_of env req response.status code ∷ [] else s.logs;
    },
  )

  abbrev admin_error : (status : ℕ) → (code error : String) → State W → Response J × State W
  unfolding finish
  admin_error status code error s = finish (refusal status error code) (some code) s

  throttled : RateLimitVerdict → State W → Response J × State W
  unfolding finish
  throttled verdict s =
      finish
        (record {
          status = 429;
          content = error_content "Rate limit exceeded" "RATE_LIMITED";
          headers = ("Retry-After", Text.show verdict.retry_after_seconds) ∷ [];
        })
        (some "RATE_LIMITED") s

  module _ (handler : AdminAuthContext J → W → Handled J × W) where
    -- An answer of the handler, which notes the use of the key, or its error.
    after_handler : AdminKey → Handled J → State W → Response J × State W
    unfolding finish
    after_handler k (responds status body) s =
        finish (record { status = status; content = value body; headers = [] }) none
          (record s {
            admin_keys = if env.touched then touch env k.id s.admin_keys else s.admin_keys;
          })
    after_handler k (throws error) s = admin_error 500 "INTERNAL_ERROR" "Internal Server Error" s

    unfoldable pub run_handler : AdminKey → Option J → State W → Response J × State W
    unfolding after_handler
    run_handler k body s =
        let (answer, world) =
          handler (record { request_id = env.request_id; admin_key_id = k.id; body = body })
            s.world in
        after_handler k answer (record s { world = world })

    with_body : AdminKey → Option (Option J) → State W → Response J × State W
    unfolding run_handler finish
    with_body k none s = admin_error 400 "INVALID_REQUEST" "Invalid JSON body" s
    with_body k (some body) s = run_handler k body s

    -- The call of the limiter, and the state with the windows that it leaves.
    unfoldable pub budget : AdminKey → State W → RateLimitVerdict × State W
    unfolding consume
    budget k s =
        let (verdict, windows) =
          consume env.reply (Text.◌++◌ "admin:" k.id) env.limits.default_limit
            env.limits.default_window_ms env.now s.windows in
        (verdict, record s { windows = windows })

    with_key : Option AdminKey → State W → Response J × State W
    unfolding budget throttled with_body read_body finish
    with_key none s = admin_error 401 "UNAUTHORIZED" "Invalid admin key" s
    with_key (some k) s =
        let (verdict, s') = budget k s in
        if verdict.allowed then with_body k (read_body env req) s' else throttled verdict s'

    with_presented : Option String → State W → Response J × State W
    unfolding with_key find_key finish
    with_presented none s =
        admin_error 401 "UNAUTHORIZED" "Missing or invalid Authorization header" s
    with_presented (some key) s = with_key (live (find_key (env.digest key) s.admin_keys)) s

    unfoldable pub with_admin_auth : State W → Response J × State W
    unfolding presented with_presented
    with_admin_auth s = with_presented (presented env req) s

-- A name that a person will read later, or a refusal.
pub data ReadName : Type 0 where
  named error : String → ReadName

unfoldable pub read_name : Option String → (field : String) → ReadName
read_name given field =
    let name = trim (get_or given "") in
    if is_empty name
    then error (Text.◌++◌ field " is required.")
    else if ltb 120 (Text.length name)
    then error (Text.◌++◌ "Keep " (Text.◌++◌ field " under 120 characters."))
    else named name
