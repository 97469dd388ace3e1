-- ===== src/AdminAuth/Tests.antt =====
-- An admin route on concrete requests.
use openipaas.Prelude.{ℕ, suc, String, true, ◌≡◌, refl, none, some, [], ◌∷◌}
use openipaas.Prelude.Text.{trim, slice, starts_with}
use openipaas.ApiRateLimit.{no_redis, default_limits, consume}
use openipaas.UnifiedAuth.Defs.{Request, Handled, responds}
use openipaas.AdminAuth.{State, Env, AdminAuthContext, with_admin_auth, read_name, named}
use openipaas.AdminAuth.Admitted.{IsGuarded, with_admin_auth_admits}

abbrev env : Env String
env = record {
  digest = λ key. key;
  parse_json = λ text. some text;
  limits = default_limits;
  now = 1000;
  request_id = "r1";
  reply = no_redis;
  touched = true;
  logged = true;
}

abbrev request : Request
request = record {
  method = "GET";
  path = "/api/admin/v1/clients";
  query = [];
  authorization = some "Bearer key";
  account_token = none;
  provider = none;
  idempotency_key = none;
  text = none;
}

abbrev state : State ℕ
state = record {
  admin_keys = record { id = "k1"; key_hash = "key"; revoked_at = none; last_used_at = none } ∷ [];
  logs = [];
  windows = [];
  world = 0;
}

abbrev count_calls : AdminAuthContext String → ℕ → Handled String × ℕ
count_calls context calls = (responds 200 none, suc calls)

with_admin_auth_admits_example :
    IsGuarded env request count_calls state (with_admin_auth env request count_calls state)
with_admin_auth_admits_example = with_admin_auth_admits env request count_calls state

served : (with_admin_auth env request count_calls state).1.world ≡ 1
unfolding with_admin_auth trim slice starts_with consume
served = refl

name_kept : read_name (some " Acme ") "name" ≡ named "Acme"
unfolding read_name trim
name_kept = refl
