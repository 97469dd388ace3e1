-- ===== src/Prelude/Splits.antt =====
-- Texts that are joined at a character and split at it again.
use Prim.Native.Char.{Char, code}
use Prim.Native.String.{String}
use mathlib.Core.Bool.{Bool, true, not}
use mathlib.Core.Path.{◌≡◌, refl, ap, ◌∙◌}
use mathlib.Core.List.{[], ◌∷◌}
use native.Mathlib.Omega.{arith}
use text.Mathlib.TextLemmas.{nil-append, cons-append}
use openipaas.Prelude.Tests.{eqb}
use openipaas.Prelude.Text
use openipaas.Prelude.Text.{split, every}

-- The character does not stand in the text.
abbrev pub lacks : Char → String → Bool
lacks d s = every (λ c. not (eqb c (code d))) s

module _ (d : Char) where
  pub split-plain : (s : String) → lacks d s ≡ true → split (code d) s ≡ s ∷ []
  unfolding split every
  split-plain String.[] h = refl
  split-plain (String.◌∷◌ c s) h = rw (split-plain s (ground (arith, h)), split) (ground (arith, h))

  pub split-joined :
      (s t : String)
      → lacks d s ≡ true
      → split (code d) (Text.◌++◌ s (String.◌∷◌ d t)) ≡ s ∷ split (code d) t
  unfolding split every
  split-joined String.[] t h = rw (nil-append (String.◌∷◌ d t)) (ground arith)
  split-joined (String.◌∷◌ c s) t h =
      rw (cons-append c s (String.◌∷◌ d t), split-joined s t (ground (arith, h)), split)
        (ground (arith, h))

-- A text of one character before another text.
pub one-append : (d : Char) (t : String) → Text.◌++◌ (String.◌∷◌ d String.[]) t ≡ String.◌∷◌ d t
one-append d t = cons-append d String.[] t ∙ ap (String.◌∷◌ d) (nil-append t)
