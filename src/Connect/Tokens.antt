-- ===== src/Connect/Tokens.antt =====
-- src/lib/connect-token.ts and session-token.ts: signed tokens. The HMAC, as base64url, the writing and
-- reading of JSON, `btoa` and `atob` are inputs.
pub mod Signed
use openipaas.Prelude.{
  ℕ, zero, suc, ◌+◌, ◌-◌, ◌%◌, String, Bool, true, false, ◌&&◌, not, Option, none, some, List, [],
  ◌∷◌, ◌==◌, leb, if◌then◌else◌, is_some, filter,
}
use openipaas.Prelude.Text
use openipaas.Prelude.Text.{split, trim, is_empty, drop_trailing, replace_all}

pub record ConnectClaims : Type 0 where
  pub sid : String
  pub org : List String
  pub exp : ℕ

-- What a payload holds under the names that are read, where it has the type that is asked for: an entry
-- of `org` that is no text is left out.
pub record Payload : Type 0 where
  pub sid : Option String
  pub sub : Option String
  pub org : List String
  pub exp : Option ℕ

-- `secret` is DASHBOARD_SESSION_SECRET. `claims_json` and `subject_json` are JSON.stringify, `btoa` takes the
-- UTF-8 of a text, one character for each byte, and `atob` and `read_json` are none where they throw.
pub record Signing : Type 0 where
  pub secret : String
  pub hmac : String → String → String
  pub claims_json : ConnectClaims → (nonce : String) → String
  pub subject_json : (sub : String) → (exp : ℕ) → String
  pub btoa : String → String
  pub atob : String → Option String
  pub read_json : String → Option Payload

-- base64urlEncode of the UTF-8 of a text
unfoldable pub base64url_encode : Signing → String → String
base64url_encode s text =
    drop_trailing b'=' (replace_all b'/' "_" (replace_all b'+' "-" (s.btoa text)))

-- '='.repeat(n)
repeat_equals : ℕ → String
repeat_equals zero = ""
repeat_equals (suc n) = Text.◌++◌ "=" (repeat_equals n)

unfoldable pub base64url_decode : Signing → String → Option String
unfolding repeat_equals
base64url_decode s value =
    let padded = replace_all b'_' "/" (replace_all b'-' "+" value) in
    s.atob (Text.◌++◌ padded (repeat_equals ((4 - Text.length padded % 4) % 4)))

-- JSON.parse(base64urlDecode(encoded)), none where either throws
unfoldable pub decode : Signing → String → Option Payload
unfolding base64url_decode
decode s encoded = elim (base64url_decode s encoded) [ none ↦ none | some text ↦ s.read_json text ]

-- secretOrNull
unfoldable pub secret_or_null : Signing → Option String
secret_or_null s = let secret = trim s.secret in if is_empty secret then none else some secret

abbrev pub signed : Signing → (secret encoded : String) → String
signed s secret encoded = Text.◌++◌ encoded (Text.◌++◌ "." (s.hmac secret encoded))

-- `none` where no secret is configured, which is thrown.
unfoldable pub mint_connect_token : Signing → ConnectClaims → (nonce : String) → Option String
unfolding secret_or_null base64url_encode
mint_connect_token s claims nonce = elim (secret_or_null s) [
  | none ↦ none
  | some secret ↦ some (signed s secret (base64url_encode s (s.claims_json claims nonce)))
]

-- The first part of a token whose second is the first one's signature.
opened_parts : Signing → (secret : String) → List String → Option String
opened_parts s secret (encoded ∷ signature ∷ _) =
    if is_empty encoded
    then none
    else if is_empty signature
    then none
    else if signature == s.hmac secret encoded
    then some encoded
    else none
opened_parts s secret _ = none

unfoldable pub opened : Signing → String → Option String
unfolding secret_or_null opened_parts
opened s token = elim (secret_or_null s) [
  | none ↦ none
  | some secret ↦ if is_empty token then none else opened_parts s secret (split b'.' token)
]

live : (now : ℕ) → Option ℕ → Option ℕ
live now none = none
live now (some exp) = if leb exp now then none else some exp

some_text : Option String → Option String
some_text none = none
some_text (some t) = if is_empty t then none else some t

claims_with : Payload → Option String → Option ℕ → Option ConnectClaims
claims_with p (some sid) (some exp) = some (record { sid = sid; org = p.org; exp = exp })
claims_with p _ _ = none

claims_in : (now : ℕ) → Option Payload → Option ConnectClaims
unfolding claims_with some_text live
claims_in now none = none
claims_in now (some p) = claims_with p (some_text p.sid) (live now p.exp)

-- Nothing of the payload is read before the signature agrees.
unfoldable pub read_connect_token : Signing → (now : ℕ) → String → Option ConnectClaims
unfolding opened claims_in decode
read_connect_token s now token = elim (opened s token) [
  | none ↦ none
  | some encoded ↦ claims_in now (decode s encoded)
]

abbrev pub session_ttl_ms : ℕ
session_ttl_ms = 43200000

-- `none` where no secret is configured or the subject is empty, which is thrown.
unfoldable pub issue_session_token : Signing → (now : ℕ) → (subject : String) → Option String
unfolding secret_or_null base64url_encode
issue_session_token s now subject = elim (secret_or_null s) [
  | none ↦ none
  | some secret ↦
      if is_empty subject
      then none
      else some
          (signed s secret (base64url_encode s (s.subject_json subject (now + session_ttl_ms))))
]

subject_with : Option String → Option ℕ → Option String
subject_with (some sub) (some exp) = some sub
subject_with _ _ = none

subject_in : (now : ℕ) → Option Payload → Option String
unfolding subject_with some_text live
subject_in now none = none
subject_in now (some p) = subject_with (some_text p.sub) (live now p.exp)

unfoldable pub session_subject : Signing → (now : ℕ) → String → Option String
unfolding opened subject_in decode
session_subject s now token = elim (opened s token) [
  | none ↦ none
  | some encoded ↦ subject_in now (decode s encoded)
]

unfoldable pub verify_session_token : Signing → (now : ℕ) → String → Bool
unfolding session_subject
verify_session_token s now token = is_some (session_subject s now token)
