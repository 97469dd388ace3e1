-- ===== src/Console/Resets/Escapes.antt =====
-- src/lib/password-reset.ts: no markup from a name or a link stands in the message.
use text.Mathlib.TextLemmas.{nil-append, cons-append}
use openipaas.Prelude.{ℕ, String, Bool, true, ◌&&◌, not, ◌≡◌, refl, arith, eqb}
use openipaas.Prelude.Text.{◌++◌, every, replace_all}
use openipaas.Console.Resets.Message.{escape_html}

-- No character of this code stands in the text.
abbrev pub without : ℕ → String → Bool
without d s = every (λ c. not (eqb c d)) s

every-append : (p : ℕ → Bool) (s t : String) → every p (s ++ t) ≡ (every p s && every p t)
unfolding every
every-append p String.[] t = rw (nil-append t)
every-append p (String.◌∷◌ c s) t = rw (cons-append c s t) (ground (arith, every-append p s t))

without-replace_all :
    (d e : ℕ) (by s : String)
    → without d by ≡ true
    → without d s ≡ true
    → without d (replace_all e by s) ≡ true
unfolding every replace_all
without-replace_all d e by String.[] h k = refl
without-replace_all d e by (String.◌∷◌ c s) h k =
    ground (
      arith,
      every-append (λ x. not (eqb x d)) by (replace_all e by s),
      without-replace_all d e by s,
    )

without-replaced :
    (d : ℕ) (by s : String) → without d by ≡ true → without d (replace_all d by s) ≡ true
unfolding every replace_all
without-replaced d by String.[] h = refl
without-replaced d by (String.◌∷◌ c s) h =
    ground
      (arith, every-append (λ x. not (eqb x d)) by (replace_all d by s), without-replaced d by s)

-- An escaped text holds no angle bracket and no double quote, so that it opens no tag and closes no
-- attribute.
pub escape_html-without :
    (value : String)
    → (without b'<' (escape_html value) ≡ true)
      × (without b'>' (escape_html value) ≡ true)
      × (without b'"' (escape_html value) ≡ true)
unfolding escape_html every
escape_html-without value =
    let amp = replace_all b'&' "&amp;" value in
    let lt = replace_all b'<' "&lt;" amp in
    let gt = replace_all b'>' "&gt;" lt in
    (
      without-replace_all b'<' b'"' "&quot;" gt refl
          (without-replace_all b'<' b'>' "&gt;" lt refl (without-replaced b'<' "&lt;" amp refl)),
      without-replace_all b'>' b'"' "&quot;" gt refl (without-replaced b'>' "&gt;" lt refl),
      without-replaced b'"' "&quot;" gt refl,
    )
