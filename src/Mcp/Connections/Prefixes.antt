-- ===== src/Mcp/Connections/Prefixes.antt =====
-- src/lib/mcp/connections.ts: no prefix starts a tool's name of another connection.
use Prim.Native.Char.{Char, code}
use text.Mathlib.TextLemmas.{nil-append, cons-append}
use text.Mathlib.TextEquality.{Char-path}
use mathlib.Core.Path.{ap₂}
use openipaas.Prelude.{
  String, Bool, true, false, ◌&&◌, ◌||◌, not, ◌≡◌, refl, ap, ◌∙◌, subst, ◌⊎◌, inl, inr, List, ltb,
  eqb, arith, Bool-cases,
}
use openipaas.Prelude.Text
use openipaas.Prelude.Text.{drop_trailing, starts_with, is_empty, to_lower_case}
use openipaas.Mcp.Connections.{
  collapse, drop_leading, slug, short_id, NamedConnection, name_of, count_of,
}

-- Whether the text starts with an underscore.
abbrev bar_first : String → Bool
bar_first String.[] = false
bar_first (String.◌∷◌ c s) = eqb (code c) b'_'

-- No underscore follows another.
single : String → Bool
single String.[] = true
single (String.◌∷◌ c s) = not (eqb (code c) b'_' && bar_first s) && single s

-- Nor does one stand at the end.
plain : String → Bool
plain String.[] = true
plain (String.◌∷◌ c s) = not (eqb (code c) b'_' && (is_empty s || bar_first s)) && plain s

-- A text of other characters.
abbrev pub no_bar : String → Bool
no_bar s = Text.every (λ c. not (eqb c b'_')) s

collapse-single :
    (gap : Bool) (s : String)
    → (single (collapse gap s) ≡ true) × (bar_first (collapse true s) ≡ false)
unfolding single collapse
collapse-single gap String.[] = ground arith
collapse-single gap (String.◌∷◌ c s) =
    ground (arith, collapse-single true s, collapse-single false s)

drop_leading-single : (s : String) → single s ≡ true → single (drop_leading s) ≡ true
unfolding single drop_leading
drop_leading-single String.[] h = refl
drop_leading-single (String.◌∷◌ c s) h = ground (arith, drop_leading-single s)

drop_trailing-plain :
    (s : String)
    → single s ≡ true
    → (plain (drop_trailing b'_' s) ≡ true)
      × ((bar_first (drop_trailing b'_' s) ≡ false) ⊎ (bar_first s ≡ true))
unfolding single plain drop_trailing
drop_trailing-plain String.[] h = ground arith
drop_trailing-plain (String.◌∷◌ c s) h = ground (arith, drop_trailing-plain s (ground arith))

slug-plain : (value : String) → plain (slug value) ≡ true
unfolding slug
slug-plain value =
    (drop_trailing-plain (drop_leading (collapse false (to_lower_case value))) (
      drop_leading-single (collapse false (to_lower_case value))
        (collapse-single false (to_lower_case value)).0)).0

no_bar-plain : (s : String) → no_bar s ≡ true → (plain s ≡ true) × (bar_first s ≡ false)
unfolding plain Text.every
no_bar-plain String.[] h = ground arith
no_bar-plain (String.◌∷◌ c s) h = ground (arith, no_bar-plain s (ground arith))

-- A base and the start of an id, with one underscore between them.
unfoldable pub numbered : String → String → String
numbered base i = Text.◌++◌ base (Text.◌++◌ "_" i)

pub numbered-nil : (i : String) → numbered "" i ≡ String.◌∷◌ "_" i
unfolding numbered
numbered-nil i =
    nil-append (Text.◌++◌ "_" i) ∙ cons-append "_" "" i ∙ ap (String.◌∷◌ "_") (nil-append i)

pub numbered-cons :
    (c : Char) (base i : String) → numbered (String.◌∷◌ c base) i ≡ String.◌∷◌ c (numbered base i)
unfolding numbered
numbered-cons c base i = cons-append c base (Text.◌++◌ "_" i)

numbered-plain :
    (base i : String)
    → plain base ≡ true
    → no_bar i ≡ true
    → is_empty i ≡ false
    → (plain (numbered base i) ≡ true)
      × (is_empty (numbered base i) ≡ false)
      × ((is_empty base ≡ true) ⊎ (bar_first (numbered base i) ≡ bar_first base))
unfolding plain
numbered-plain String.[] i h k n = rw (numbered-nil i) (ground (arith, no_bar-plain i k, n))
numbered-plain (String.◌∷◌ c base) i h k n =
    rw (numbered-cons c base i) (ground (arith, h, numbered-plain base i (ground (arith, h)) k n))

-- A name, the separator, and what follows.
sealed : String → String → String
sealed String.[] rest = String.◌∷◌ "_" (String.◌∷◌ "_" rest)
sealed (String.◌∷◌ c s) rest = String.◌∷◌ c (sealed s rest)

sealed-append : (s rest : String) → Text.◌++◌ (Text.◌++◌ s "__") rest ≡ sealed s rest
unfolding sealed
sealed-append String.[] rest =
    ap (λ t. Text.◌++◌ t rest) (nil-append "__")
    ∙ cons-append "_" "_" rest
    ∙ ap (String.◌∷◌ "_") (cons-append "_" "" rest ∙ ap (String.◌∷◌ "_") (nil-append rest))
sealed-append (String.◌∷◌ c s) rest =
    ap (λ t. Text.◌++◌ t rest) (cons-append c s "__")
    ∙ cons-append c (Text.◌++◌ s "__") rest
    ∙ ap (String.◌∷◌ c) (sealed-append s rest)

sealed-end : (s : String) → Text.◌++◌ s "__" ≡ sealed s ""
unfolding sealed
sealed-end String.[] = nil-append "__"
sealed-end (String.◌∷◌ c s) = cons-append c s "__" ∙ ap (String.◌∷◌ c) (sealed-end s)

sealed_inj :
    (s t rest : String)
    → plain s ≡ true
    → plain t ≡ true
    → starts_with (sealed t rest) (sealed s "") ≡ true
    → s ≡ t
unfolding plain sealed starts_with
sealed_inj String.[] String.[] rest h k e = refl
sealed_inj String.[] (String.◌∷◌ d String.[]) rest h k e = ground arith
sealed_inj String.[] (String.◌∷◌ d (String.◌∷◌ d' t)) rest h k e = ground arith
sealed_inj (String.◌∷◌ c String.[]) String.[] rest h k e = ground arith
sealed_inj (String.◌∷◌ c (String.◌∷◌ c' s)) String.[] rest h k e = ground arith
sealed_inj (String.◌∷◌ c s) (String.◌∷◌ d t) rest h k e =
    cons_eq (Char-path c d (ground (arith, e)))
      (sealed_inj s t rest (ground (arith, h)) (ground (arith, k)) (ground (arith, e)))
  where
    cons_eq : c ≡ d → s ≡ t → String.◌∷◌ c s ≡ String.◌∷◌ d t
    cons_eq p q = ap₂ String.◌∷◌ p q

-- The ids that the database makes: the part of one that a name takes is not empty and has no
-- underscore.
abbrev pub IsId : NamedConnection → Type 0
IsId c = (no_bar (short_id c.id) ≡ true) × (is_empty (short_id c.id) ≡ false)

name_of-plain :
    (connections : List NamedConnection) (c : NamedConnection)
    → IsId c
    → plain (name_of connections c) ≡ true
unfolding name_of drop_trailing numbered
name_of-plain connections c (clean, long) =
    elim (Bool-cases (ltb 1 (count_of (slug c.provider_slug) connections))) [
      | inl shared ↦
          rw shared
            (numbered-plain (slug c.provider_slug) (short_id c.id) (slug-plain c.provider_slug)
              clean long).0
      | inr alone ↦ rw alone (slug-plain c.provider_slug)
    ]

-- What `prefixes_for` gives a connection.
abbrev pub prefix_of : List NamedConnection → NamedConnection → String
prefix_of connections c = Text.◌++◌ (name_of connections c) "__"

pub prefix_of-apart :
    (connections : List NamedConnection) (c d : NamedConnection) (rest : String)
    → IsId c
    → IsId d
    → starts_with (Text.◌++◌ (prefix_of connections d) rest) (prefix_of connections c) ≡ true
    → name_of connections c ≡ name_of connections d
prefix_of-apart connections c d rest clean clean' h =
    sealed_inj (name_of connections c) (name_of connections d) rest
      (name_of-plain connections c clean) (name_of-plain connections d clean')
      (subst (λ s. starts_with s (sealed (name_of connections c) "") ≡ true)
        (sealed-append (name_of connections d) rest)
        (subst (λ s. starts_with (Text.◌++◌ (prefix_of connections d) rest) s ≡ true)
          (sealed-end (name_of connections c)) h))
