-- ===== src/UnifiedAuth/Defs.antt =====
-- src/lib/api-auth.ts: the types that the wrapper of the unified routes works on.
-- `J` are the values of JSON, `W` the world that a handler acts on.
use openipaas.Prelude.{ℕ, String, Bool, Option, List}
use openipaas.Prelude.Assoc.{Assoc}
use openipaas.ApiRateLimit.{Windows, Limits, BudgetReplies}
use openipaas.Credentials.{OAuthCredential, ProviderContext, Cipher}
use openipaas.Idempotency.{Row, Digest}
use openipaas.Providers.Http.{Thrown}
use openipaas.Providers.Manifests.{Registry}

pub record ApiKey : Type 0 where
  pub id : String
  pub key_hash : Option String
  -- The legacy column.
  pub key : Option String
  pub client_id : String
  pub scopes : List String
  pub rate_limit : Option ℕ
  pub expires_at : Option ℕ
  pub revoked_at : Option ℕ
  pub last_used_at : Option ℕ

pub record LinkedAccount : Type 0 where
  pub id : String
  pub client_id : String
  pub provider : String
  pub account_token : String
  pub label : Option String
  pub credentials : List OAuthCredential

pub record Request : Type 0 where
  pub method : String
  pub path : String
  pub query : Assoc String
  pub authorization : Option String
  pub account_token : Option String
  pub provider : Option String
  pub idempotency_key : Option String
  -- What `req.text()` gives, or none where it rejects.
  pub text : Option String

pub record Candidate : Type 0 where
  pub id : String
  pub label : Option String
  pub service : String
  pub connection_token : String

pub data Content (J : Type 0) : Type 0 where
  error_content : (error code : String) → Content J
  candidates : (error : String) → List Candidate → Content J
  value : Option J → Content J

pub record Response (J : Type 0) : Type 0 where
  pub status : ℕ
  pub content : Content J
  pub headers : Assoc String

pub record LogEntry : Type 0 where
  pub request_id : String
  pub client_id : Option String
  pub linked_account_id : Option String
  pub provider : Option String
  pub method : String
  pub path : String
  pub status : ℕ
  pub error_code : Option String

pub record AuthContext (J : Type 0) : Type 0 where
  pub request_id : String
  pub linked_account : LinkedAccount
  pub credentials : ProviderContext
  pub query : Assoc String
  pub body : Option J
  pub scopes : List String

-- A handler answers with a status and the JSON of its body, if it has one, or throws.
pub data Handled (J : Type 0) : Type 0 where
  responds : (status : ℕ) → Option J → Handled J
  throws : Thrown → Handled J

pub record Server (J W : Type 0) : Type 0 where
  -- Tables, the accounts in the order of their creation.
  pub api_keys : List ApiKey
  pub accounts : List LinkedAccount
  pub rows : List (Row J)
  pub logs : List LogEntry
  -- The limiter of the process.
  pub windows : Windows
  pub world : W

-- What lies outside the code, and what one request is given: the reading of the clock, the identifier
-- that is drawn for it, what Redis answers, and whether the tables take the outcome, the time of the
-- key's last use and the log entry, whose errors are caught.
pub record Env (J : Type 0) : Type 0 where
  pub digest : Digest J
  pub cipher : Cipher
  pub parse_json : String → Option J
  pub is_instant : String → Bool
  pub registry : Registry
  pub limits : Limits
  pub now : ℕ
  pub request_id : String
  pub replies : BudgetReplies
  pub stored : Bool
  pub touched : Bool
  pub logged : Bool
