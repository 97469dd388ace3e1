-- ===== src/Prelude/Text.antt =====
-- The operations of JavaScript's strings that the program uses, over the code points of a text.
-- `trim` knows all the white space of the language; the case mappings are those of ASCII.
use Prim.Native.Nat.{ℕ, zero, suc, ◌+◌, ◌%◌, ◌/◌}
use Prim.Native.Char.{Char, code, nul}
use Prim.Native.String
use Prim.Native.String.{String, [], ◌∷◌}
use mathlib.Core.Bool.{Bool, true, false, not, ◌&&◌, ◌||◌}
use mathlib.Core.Path.{◌≡◌, refl, ap}
use mathlib.Core.Logic.{◌↔◌, inl, inr}
use mathlib.Core.List.{List, map, Memᴰ}
use native.Mathlib.Omega.{arith}
use text.Mathlib.TextEquality.{eq_iff}
use text.Mathlib.Text.{◌==◌}
use openipaas.Prelude.Lists.{filter}
use openipaas.Prelude.Tests.{Bool-cases, leb, ltb, eqb, if◌then◌else◌}

infixr 65 ◌++◌
abbrev pub ◌++◌ : String → String → String
s ++ t = String.◌++◌ s t

abbrev pub is_empty : String → Bool
is_empty [] = true
is_empty (c ∷ s) = false

-- The white space and line ends of the language.
unfoldable pub is_space : ℕ → Bool
is_space c =
    leb 9 c && leb c 13
    || eqb c 32
    || eqb c 160
    || eqb c 0x1680
    || leb 0x2000 c && leb c 0x200a
    || eqb c 0x2028
    || eqb c 0x2029
    || eqb c 0x202f
    || eqb c 0x205f
    || eqb c 0x3000
    || eqb c 0xfeff

trim_start : String → String
trim_start [] = []
trim_start (c ∷ s) = let rest = trim_start s in if is_space (code c) then rest else c ∷ s

trim_end : String → String
trim_end [] = []
trim_end (c ∷ s) =
    let rest = trim_end s in if is_empty rest && is_space (code c) then [] else c ∷ rest

-- s.trim()
unfoldable pub trim : String → String
unfolding trim_start trim_end is_space
trim s = trim_end (trim_start s)

-- The character that stands in the second text where `c` stands in the first, or `c` itself.
replace_by : String → String → Char → Char
replace_by (x ∷ xs) (y ∷ ys) c = if eqb (code c) (code x) then y else replace_by xs ys c
replace_by _ _ c = c

map_chars : (Char → Char) → String → String
map_chars f [] = []
map_chars f (c ∷ s) = f c ∷ map_chars f s

-- s.toLowerCase()
unfoldable pub to_lower_case : String → String
unfolding map_chars replace_by
to_lower_case = map_chars (replace_by "ABCDEFGHIJKLMNOPQRSTUVWXYZ" "abcdefghijklmnopqrstuvwxyz")

-- s.toUpperCase()
unfoldable pub to_upper_case : String → String
unfolding map_chars replace_by
to_upper_case = map_chars (replace_by "abcdefghijklmnopqrstuvwxyz" "ABCDEFGHIJKLMNOPQRSTUVWXYZ")

push_first : Char → List String → List String
push_first c List.[] = List.◌∷◌ (c ∷ []) List.[]
push_first c (List.◌∷◌ part parts) = List.◌∷◌ (c ∷ part) parts

-- s.split(sep), for a separator of one character
unfoldable pub split : ℕ → String → List String
unfolding push_first
split sep [] = List.◌∷◌ "" List.[]
split sep (c ∷ s) =
    let rest = split sep s in if eqb (code c) sep then List.◌∷◌ "" rest else push_first c rest

-- s.startsWith(prefix)
unfoldable pub starts_with : String → String → Bool
starts_with s [] = true
starts_with [] (d ∷ t) = false
starts_with (c ∷ s) (d ∷ t) = eqb (code c) (code d) && starts_with s t

-- s.slice(n)
unfoldable pub slice : ℕ → String → String
slice zero s = s
slice (suc n) [] = []
slice (suc n) (c ∷ s) = slice n s

-- s.length
abbrev pub length : String → ℕ
length s = String.count s

-- parts.join(sep)
unfoldable pub join : String → List String → String
join sep List.[] = ""
join sep (List.◌∷◌ part List.[]) = part
join sep (List.◌∷◌ part (List.◌∷◌ next parts)) = part ++ sep ++ join sep (List.◌∷◌ next parts)

-- xs.includes(x)
abbrev pub includes : List String → String → Bool
includes List.[] x = false
includes (List.◌∷◌ y ys) x = y == x || includes ys x

-- Membership in a filtered list.
pub includes-filter :
    (p : String → Bool) (xs : List String) (x : String)
    → includes (filter p xs) x ≡ (includes xs x && p x)
includes-filter p List.[] x = refl
includes-filter p (List.◌∷◌ y ys) x = ground (arith, includes-filter p ys x, eq_iff y x)

module _ {ℓ} {A : Type ℓ} (f : A → String) (s : String) where
  mem_of_includes-map :
      (xs : List A) → includes (map f xs) s ≡ true → (x : A) × Memᴰ x xs × (f x ≡ s)
  mem_of_includes-map List.[] h = cc
  mem_of_includes-map (List.◌∷◌ x xs) h = elim (Bool-cases (f x == s)) [
    | inl here ↦ (x, Memᴰ.head refl, (eq_iff (f x) s).0 here)
    | inr other ↦
        let (y, m, e) = mem_of_includes-map xs (ground (arith, other)) in (y, Memᴰ.tail m, e)
  ]

  includes-map_of_mem : {x : A} {xs : List A} → Memᴰ x xs → f x ≡ s → includes (map f xs) s ≡ true
  includes-map_of_mem (Memᴰ.head {x = y} e) h = ground (arith, eq_iff (f y) s, ap f e)
  includes-map_of_mem (Memᴰ.tail m) h = ground (arith, includes-map_of_mem m h)

  -- Membership in a mapped list names the member that is mapped.
  pub includes-map_iff :
      (xs : List A) → (includes (map f xs) s ≡ true) ↔ ((x : A) × Memᴰ x xs × (f x ≡ s))
  includes-map_iff xs = (mem_of_includes-map xs, λ m. includes-map_of_mem m.1 m.2)

char_at : String → ℕ → Char
char_at [] i = nul
char_at (c ∷ s) zero = c
char_at (c ∷ s) (suc i) = char_at s i

show_from : ℕ → ℕ → String → String
unfolding char_at
show_from zero n out = out
show_from (suc fuel) n out =
    let text = char_at "0123456789" (n % 10) ∷ out in
    let rest = show_from fuel (n / 10) text in if ltb n 10 then text else rest

-- String(n); the number has at most n + 1 digits.
unfoldable pub show : ℕ → String
unfolding show_from
show n = show_from (n + 1) n ""

-- s.slice(0, n)
unfoldable pub take : ℕ → String → String
take zero s = []
take (suc n) [] = []
take (suc n) (c ∷ s) = c ∷ take n s

-- Whether each code point of a text passes a test.
unfoldable pub every : (ℕ → Bool) → String → Bool
every p [] = true
every p (c ∷ s) = p (code c) && every p s

-- Whether a character of this code stands before the last one.
unfoldable pub before_last : ℕ → String → Bool
before_last d [] = false
before_last d (c ∷ s) = eqb (code c) d && not (is_empty s) || before_last d s

-- s.replace(/c+$/, ''), for a character of this code
unfoldable pub drop_trailing : ℕ → String → String
drop_trailing d [] = []
drop_trailing d (c ∷ s) =
    let rest = drop_trailing d s in if is_empty rest && eqb (code c) d then [] else c ∷ rest

-- s.replaceAll(c, by), for a character of this code
unfoldable pub replace_all : ℕ → String → String → String
replace_all d by [] = []
replace_all d by (c ∷ s) =
    let rest = replace_all d by s in if eqb (code c) d then by ++ rest else c ∷ rest
