-- ===== src/Connect/Tests.antt =====
-- Connect sessions, tokens and states on concrete values.
use openipaas.Prelude.{◌<◌, String, ◌≡◌, refl, none, some, List, [], ◌∷◌, if◌then◌else◌, ◌==◌}
use openipaas.Prelude.Text
use openipaas.Prelude.Text.{split, trim, every}
use openipaas.Connect.{ConnectSession, Account, Rows, refused, finish_submission}
use openipaas.Connect.Tokens.{
  ConnectClaims, Payload, Signing, secret_or_null, read_connect_token, mint_connect_token, decode,
}
use openipaas.Connect.Tokens.Signed.{read_connect_token_signed}
use openipaas.Connect.Submissions.{nothing, connected_once}
use openipaas.Connect.States.{
  OauthState, ConsumedState, burned, bad_request, find_state, consume_row, consume_oauth_state,
  slug_from_callback_segment,
}
use openipaas.Connect.States.Consumed.{consume_twice}

-- Stand-ins for the functions of other code, which the tests can compute.
abbrev claims : ConnectClaims
claims = record { sid = "s1"; org = "https://a.example" ∷ []; exp = 5000 }

abbrev read_payload : Payload
read_payload = record {
  sid = some "s1";
  sub = none;
  org = "https://a.example" ∷ [];
  exp = some 5000;
}

abbrev signing : Signing
signing = record {
  secret = "secret";
  hmac = λ secret content. if content == "a-_bc" then "sig" else "other";
  claims_json = λ c n. "{claims}";
  subject_json = λ s e. "{subject}";
  btoa = λ t. "a+/bc===";
  atob = λ t. if t == "a+/bc===" then some "{claims}" else none;
  read_json = λ t. if t == "{claims}" then some read_payload else none;
}

configured : secret_or_null signing ≡ some "secret"
unfolding secret_or_null trim
configured = refl

minted : mint_connect_token signing claims "n" ≡ some "a-_bc.sig"
unfolding mint_connect_token trim Text.replace_all Text.drop_trailing
minted = refl

read_back : read_connect_token signing 1000 "a-_bc.sig" ≡ some claims
unfolding read_connect_token trim split Text.replace_all
read_back = refl

read_connect_token_signed_example :
    (secret : String) × (encoded : String) × (rest : List String) × (p : Payload) × (secret_or_null
        signing
      ≡ some secret)
    × (split b'.' "a-_bc.sig" ≡ encoded ∷ signing.hmac secret encoded ∷ rest)
    × (decode signing encoded ≡ some p)
    × (p.sid ≡ some claims.sid)
    × (p.org ≡ claims.org)
    × (p.exp ≡ some claims.exp)
    × (1000 < claims.exp)
read_connect_token_signed_example =
    read_connect_token_signed signing 1000 "a-_bc.sig" claims read_back

forged : read_connect_token signing 1000 "a-_bc.sag" ≡ none
unfolding read_connect_token trim split Text.replace_all
forged = refl

abbrev session : ConnectSession
session = record {
  id = "s1";
  client_id = "c1";
  token_hash = "h";
  provider = none;
  redirect_url = none;
  origins = [];
  label = none;
  logo_url = none;
  accent_color = none;
  expires_at = 5000;
  used_at = none;
  linked_account_id = none;
}

abbrev account : Account
account = record {
  id = "a1";
  client_id = "c1";
  provider = "TINY";
  label = "Tiny";
  access_token = "t";
  secrets = [];
}

abbrev other : Account
other = record account { id = "a2" }

abbrev rows : Rows
rows = record { sessions = session ∷ []; accounts = [] }

abbrev after_first : Rows
after_first = (finish_submission session account 1000 rows).1

connected_once_example :
    finish_submission session other 1001 after_first
    ≡ (refused "This link was already used.", after_first)
unfolding finish_submission
connected_once_example =
    connected_once session session account other 1000 1001 rows after_first refl nothing refl

abbrev flow : OauthState
flow = record {
  id = "o1";
  state = "st";
  client_id = "c1";
  provider = "BLING";
  redirect_uri = "https://app.example/api/oauth/callback/bling";
  connect_session_id = none;
  code_verifier = none;
  expires_at = 5000;
  consumed_at = none;
}

abbrev first_answer : ConsumedState
first_answer = record {
  client_id = "c1";
  provider = "BLING";
  redirect_uri = "https://app.example/api/oauth/callback/bling";
  code_verifier = none;
  connect_session_id = none;
}

abbrev burned_rows : List OauthState
burned_rows = (consume_oauth_state "st" "BLING" 1000 (flow ∷ [])).1

consume_twice_example : consume_oauth_state "st" "BLING" 1001 burned_rows ≡ (
  bad_request "This authorization link is invalid or has expired. Please try again.",
  burned_rows,
)
unfolding consume_oauth_state find_state
consume_twice_example = consume_twice "st" "BLING" "BLING" 1000 1001 (flow ∷ []) first_answer refl

-- A second callback that found the row before the first one burned it is answered too.
both_answered : (consume_row "BLING" 1001 (some flow) burned_rows).0 ≡ burned first_answer
unfolding consume_row
both_answered = refl

segment : slug_from_callback_segment "rd-station-crm" ≡ "RD_STATION_CRM"
unfolding slug_from_callback_segment Text.to_upper_case Text.replace_all
segment = refl
