-- ===== src/Crypto/Tests.antt =====
-- src/lib/crypto.ts: the envelope at concrete texts.
use openipaas.Prelude.{String, true, ◌≡◌, refl, none, some, [], ◌∷◌}
use openipaas.Prelude.Text
use openipaas.Prelude.Text.{trim, every}
use openipaas.Crypto.{Key, Platform, key_of, load_key, encrypt, decrypt, open_parts}
use openipaas.Crypto.Envelopes.{decrypt-encrypt}

abbrev key : Key
key =
    1 ∷ 2 ∷ 3 ∷ 4 ∷ 5 ∷ 6 ∷ 7 ∷ 8 ∷ 9 ∷ 10 ∷ 11 ∷ 12 ∷ 13 ∷ 14 ∷ 15 ∷ 16 ∷ 1 ∷ 2 ∷ 3 ∷ 4 ∷ 5 ∷ 6 ∷ 7
    ∷ 8 ∷ 9 ∷ 10 ∷ 11 ∷ 12 ∷ 13 ∷ 14 ∷ 15 ∷ 16 ∷ []

-- A stand-in for the cipher that keeps the plaintext.
abbrev platform : Platform
platform = record {
  raw_key = " MTIz ";
  is_production = true;
  from_hex = λ s. [];
  from_base64 = λ s. key;
  seal = λ k iv s. ("dGFn", s);
  unseal = λ k iv tag content. some content;
}

keyed : load_key platform ≡ key_of key
unfolding load_key trim every
keyed = refl

read_as_stored : decrypt platform "v1:aXY=:dGFn:abc" ≡ some "abc"
unfolding decrypt load_key open_parts trim every Text.split Text.starts_with
read_as_stored = refl

-- Without a prefix a text is read as it stands, and in production nothing is stored without a key.
unkeyed_tests :
    (decrypt platform "abc" ≡ some "abc")
    × (encrypt (record platform { raw_key = "" }) "aXY=" "abc" ≡ none)
unfolding decrypt encrypt load_key trim Text.starts_with every
unkeyed_tests = (refl, refl)

decrypt-encrypt_example :
    (stored : String) × (encrypt platform "aXY=" "abc" ≡ some stored)
    × (decrypt platform stored ≡ some "abc")
unfolding every
decrypt-encrypt_example =
    decrypt-encrypt platform key "aXY=" "abc" keyed refl refl refl refl refl refl refl
