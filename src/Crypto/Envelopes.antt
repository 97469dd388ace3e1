-- ===== src/Crypto/Envelopes.antt =====
-- src/lib/crypto.ts: what is read of a text that was enciphered.
use text.Mathlib.TextLemmas.{nil-append, cons-append}
use openipaas.Prelude.{
  String, true, false, ◌≡◌, refl, ap, ◌∙◌, none, some, [], ◌∷◌, arith, if◌then◌else◌,
}
use openipaas.Prelude.Text
use openipaas.Prelude.Text.{split, is_empty, starts_with, every, join}
use openipaas.Prelude.Splits.{lacks, split-plain, split-joined, one-append}
use openipaas.Crypto.{Key, Platform, key_of, load_key, sealed, encrypt, open_parts, decrypt}

-- The parts between colons, as one text.
abbrev joined : (a b c d : String) → String
joined a b c d =
    Text.◌++◌ a (String.◌∷◌ ":" (Text.◌++◌ b (String.◌∷◌ ":" (Text.◌++◌ c (String.◌∷◌ ":" d)))))

join-joined : (a b c d : String) → join ":" (a ∷ b ∷ c ∷ d ∷ []) ≡ joined a b c d
unfolding join
join-joined a b c d = rw (one-append ":" d) (
    rw (one-append ":" (Text.◌++◌ c (String.◌∷◌ ":" d)))
      (rw (one-append ":" (Text.◌++◌ b (String.◌∷◌ ":" (Text.◌++◌ c (String.◌∷◌ ":" d))))) refl))

split-join :
    (a b c d : String)
    → lacks ":" a ≡ true
    → lacks ":" b ≡ true
    → lacks ":" c ≡ true
    → lacks ":" d ≡ true
    → split b':' (join ":" (a ∷ b ∷ c ∷ d ∷ [])) ≡ a ∷ b ∷ c ∷ d ∷ []
split-join a b c d h i j k =
    ap (split b':') (join-joined a b c d)
    ∙ split-joined ":" a (Text.◌++◌ b (String.◌∷◌ ":" (Text.◌++◌ c (String.◌∷◌ ":" d)))) h
    ∙ ap (λ l. a ∷ l)
        (split-joined ":" b (Text.◌++◌ c (String.◌∷◌ ":" d)) i
          ∙ ap (λ l. b ∷ l) (split-joined ":" c d j ∙ ap (λ l. c ∷ l) (split-plain ":" d k)))

starts-joined : (b c d : String) → starts_with (joined "v1" b c d) "v1:" ≡ true
unfolding starts_with
starts-joined b c d =
    let rest = String.◌∷◌ ":" (Text.◌++◌ b (String.◌∷◌ ":" (Text.◌++◌ c (String.◌∷◌ ":" d)))) in
    rw (cons-append "v" "1" rest, cons-append "1" "" rest, nil-append rest) refl

-- With a key of 32 bytes, what was enciphered is deciphered to what it was, if it is not empty, and is
-- refused if it is. The platform's cipher must open what it sealed, and the base64 of the initial
-- vector, of the tag and of the ciphertext hold no colon, the first two are not empty, and the last one
-- is empty exactly for an empty plaintext.
pub decrypt-encrypt :
    (io : Platform) (key : Key) (iv plaintext : String)
    → load_key io ≡ key_of key
    → io.unseal key iv (io.seal key iv plaintext).0 (io.seal key iv plaintext).1 ≡ some plaintext
    → lacks ":" iv ≡ true
    → lacks ":" (io.seal key iv plaintext).0 ≡ true
    → lacks ":" (io.seal key iv plaintext).1 ≡ true
    → is_empty iv ≡ false
    → is_empty (io.seal key iv plaintext).0 ≡ false
    → is_empty (io.seal key iv plaintext).1 ≡ is_empty plaintext
    → (stored : String) × (encrypt io iv plaintext ≡ some stored)
      × (decrypt io stored ≡ (if is_empty plaintext then none else some plaintext))
unfolding encrypt decrypt open_parts sealed every
decrypt-encrypt io key iv plaintext loaded opens iv_plain tag_plain plain iv_full tag_full
      same_empty =
    let tag = (io.seal key iv plaintext).0 in
    let content = (io.seal key iv plaintext).1 in
    let parts = split-join "v1" iv tag content refl iv_plain tag_plain plain in
    let marked =
      ap (λ s. starts_with s "v1:") (join-joined "v1" iv tag content)
      ∙ starts-joined iv tag content in
    (
      join ":" ("v1" ∷ iv ∷ tag ∷ content ∷ []),
      rw (loaded, encrypt) refl,
      rw (marked, decrypt)
          (rw (loaded) (rw (parts) (ground (arith, opens, iv_full, tag_full, same_empty)))),
    )
