-- ===== src/Lib.antt =====
-- Open IpaaS: an integration platform that gives its clients one API over many providers.
--
-- A request to the unified API carries the API key of a client, names one of the client's connected
-- accounts, and is handed to a provider. This library models the part of the platform that decides
-- whether and on what a request acts, the part that calls the provider, the server that offers the same
-- accounts to a model, and the console and the links by which people come to have accounts.
--
--   UnifiedAuth    src/lib/api-auth.ts, withUnifiedAuth, and recordRequest of src/lib/request-log.ts
--   AdminAuth      src/lib/admin-auth.ts
--   Scopes         src/lib/scopes.ts
--   ApiRateLimit   src/lib/api-rate-limit.ts
--   Idempotency    src/lib/idempotency.ts
--   Credentials    src/lib/credentials.ts: reading, writing and choosing stored credentials
--   Crypto         src/lib/crypto.ts: the envelope that credentials are stored in, and new keys
--   Providers      src/lib/providers/core: errors.ts, http.ts, rate-limit.ts (Providers.Throttle),
--                  operations.ts, the request of BaseProvider.ts (Providers.Base), and the lookups of
--                  manifests.ts and registry.ts
--   Webhooks       src/lib/webhooks.ts: signatures, events (Webhooks.Events), delivery runs (Webhooks.Runs)
--   TokenRefresh   src/lib/token-refresh.ts: one renewal (TokenRefresh.Locked) and the token request
--   Mcp            src/lib/mcp: protocol.ts, tools.ts, connections.ts and server.ts
--   Console        src/lib/dashboard/roles.ts, auth-session.ts and the actions on accounts of
--                  src/app/actions/team.ts and auth.ts (Console.Actions); src/lib/password-reset.ts and
--                  src/app/actions/password-reset.ts (Console.Resets)
--   Connect        src/lib/connect-session.ts and src/app/actions/connect.ts; connect-token.ts and
--                  session-token.ts (Connect.Tokens); oauth.ts (Connect.States)
--   Prelude        names, lists, maps with text keys and texts that the others share
--
-- How they interact: UnifiedAuth runs, in the order of the source, the key check, Scopes, ApiRateLimit,
-- the choice of the account (with Providers.Manifests), Credentials, the body, Idempotency, and then the
-- handler of the route, which is an input, as is the world that it acts on. UnifiedAuth.KeyCheck is parts
-- 1 to 3 of withUnifiedAuth, UnifiedAuth.Connection 4 and 5, UnifiedAuth.Dispatch 6 and 7 and the wrapper.
-- UnifiedAuth.Steps is the control flow: a part continues, answers early through `finish`, or throws into
-- the wrapper's catch. Providers.Http is one upstream call and httpRequest's retry loop; before it,
-- Providers.Throttle waits for a slot. Webhooks tells a client's endpoints of its connections; its runs
-- work on a snapshot of the deliveries that are due. TokenRefresh renews the credentials that Credentials
-- reads: its lock is modelled by its effect, that the callers of one credential follow each other.
-- Mcp.Server asks Scopes before it calls a provider's method, which Providers.Operations names.
-- Connect.submit_connect_credentials reads a session by its token, which Connect.Tokens checks, and makes
-- an account. Console.Runs puts the console's actions one after another.
--
-- State. A server is the tables that the wrapper reads and writes, the windows of the limiter and the
-- world of the handlers; the functions take it and return it. The log and the idempotency table and the
-- time of a key's last use may fail to be written, which the source catches: inputs say whether they are.
-- Reads of the database do not fail. Requests are steps one after the other: two requests of which one
-- runs inside the other's handler are not modelled, nor is a token refresh that a handler may cause.
-- Where the source makes a conditional update to settle a race, the reading and the update are two
-- functions, and the relations Steps of Console.Resets.Links and Connect.Submissions let other changes
-- happen between them. The requestId that error bodies repeat is the one of the X-Request-Id header.
--
-- Numbers are natural: times are whole milliseconds, statuses and counts are small, tokens of a provider's
-- bucket are counted in thousandths, where the source counts in doubles, so that a bucket there may hold
-- a little less than one token after the wait that it told; the numbers of JSON are whole. A text is the
-- list of its code points, also where the source takes a length in UTF-16 units, and the case mappings are
-- those of ASCII.
-- The retry loop recurs on the attempts that are left, and the waiting loops of the throttle on the 100
-- iterations that the source allows, so that no other bound is needed.
--
-- Inputs: SHA-256, AES-256-GCM, password hashes, HMAC, btoa and atob, the reading and writing of JSON,
-- the reading of dates and numbers in headers, the order of localeCompare, the environment, the token
-- endpoint, what fetch, Redis and the clock give, random numbers and ids, the sending of mail, and the
-- registry of providers. Where credentials are read and written, the cipher is an input, which Crypto fills where its texts are
-- not empty and a key is set.
--
-- Not modelled: withClientAuth, the callback of the OAuth flow after its state is consumed, the
-- in-process sharing of renewals, the scrypt parameters of password.ts, the resources of the MCP server,
-- the providers' own mappers, the routes and the screens.
pub mod Prelude
pub mod Scopes
pub mod ApiRateLimit
pub mod Providers
pub mod Idempotency
pub mod Credentials
pub mod UnifiedAuth
pub mod Webhooks
pub mod TokenRefresh
pub mod Console
pub mod Mcp
pub mod Connect
pub mod AdminAuth
pub mod Crypto
