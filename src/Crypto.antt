-- ===== src/Crypto.antt =====
-- src/lib/crypto.ts: the envelope of a stored credential. AES-256-GCM, the random bytes, the readings of
-- hexadecimal and base64 and the process's environment are inputs.
pub mod Envelopes
mod Tests
use openipaas.Prelude.{
  ℕ, String, Bool, true, false, ◌&&◌, ◌||◌, not, Option, none, some, List, [], ◌∷◌, ◌==◌, leb, eqb,
  if◌then◌else◌, length, is_some,
}
use openipaas.Prelude.Text
use openipaas.Prelude.Text.{split, trim, is_empty, starts_with, every, join}

abbrev pub Key : Type 0
Key = List ℕ

-- `seal` gives the tag and the ciphertext, each as base64, by the key, the base64 of the initial vector
-- and the plaintext; `unseal` is none where it throws.
pub record Platform : Type 0 where
  pub raw_key : String
  pub is_production : Bool
  pub from_hex : String → Key
  pub from_base64 : String → Key
  pub seal : Key → (iv : String) → String → String × String
  pub unseal : Key → (iv tag content : String) → Option String

-- [0-9a-fA-F]
abbrev is_hex : ℕ → Bool
is_hex c = leb b'0' c && leb c b'9' || leb b'a' c && leb c b'f' || leb b'A' c && leb c b'F'

pub data LoadedKey : Type 0 where
  no_key : LoadedKey
  bad_key : LoadedKey
  key_of : Key → LoadedKey

-- `bad_key` where it throws.
unfoldable pub load_key : Platform → LoadedKey
load_key io =
    let raw = trim io.raw_key in
    let key =
      if every is_hex raw && eqb (Text.length raw) 64
      then io.from_hex raw
      else io.from_base64 raw in
    if is_empty raw then no_key else if eqb (length key) 32 then key_of key else bad_key

unfoldable pub sealed : Platform → Key → (iv plaintext : String) → String
sealed io key iv plaintext =
    let (tag, content) = io.seal key iv plaintext in join ":" ("v1" ∷ iv ∷ tag ∷ content ∷ [])

-- None where it throws: by a key that cannot be used, and in production without one.
unfoldable pub encrypt : Platform → (iv plaintext : String) → Option String
unfolding sealed
encrypt io iv plaintext = elim (load_key io) [
  | bad_key ↦ none
  | no_key ↦ if io.is_production then none else some plaintext
  | key_of key ↦ some (sealed io key iv plaintext)
]

unfoldable pub open_parts : Platform → Key → List String → Option String
open_parts io key (_ ∷ iv ∷ tag ∷ content ∷ _) =
    if is_empty iv || is_empty tag || is_empty content then none else io.unseal key iv tag content
open_parts io key _ = none

-- A text without the prefix was written before encryption was enabled. None where it throws.
unfoldable pub decrypt : Platform → String → Option String
unfolding open_parts
decrypt io payload =
    if starts_with payload "v1:"
    then (elim (load_key io) [
      | bad_key ↦ none
      | no_key ↦ none
      | key_of key ↦ open_parts io key (split b':' payload)
    ])
    else some payload

unfoldable pub generate_key_value :
    (prefix : String)
    → (shown : ℕ) → (hash : String → String) → (random_hex : String) → String × String × String
generate_key_value prefix shown hash random_hex =
    let plaintext = Text.◌++◌ prefix random_hex in
    (plaintext, hash plaintext, Text.take shown plaintext)

-- `random_hex` is the hexadecimal text of 24 random bytes: the key, its hash and the prefix that is shown.
abbrev pub generate_api_key_value : (hash : String → String) → String → String × String × String
generate_api_key_value = generate_key_value "oip_live_" 16

abbrev pub generate_admin_key_value : (hash : String → String) → String → String × String × String
generate_admin_key_value = generate_key_value "oip_admin_" 17
