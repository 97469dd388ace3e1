-- ===== src/Prelude/Assoc.antt =====
-- A `Map` with text keys, as the list of its entries in insertion order.
use Prim.Native.String.{String}
use mathlib.Core.Path.{◌≡◌, refl}
use mathlib.Core.Bool.{Bool, false}
use mathlib.Core.Option.{Option, none, some}
use mathlib.Core.List.{List, [], ◌∷◌}
use native.Mathlib.Omega.{arith}
use text.Mathlib.Text.{◌==◌}
use text.Mathlib.TextEquality.{eq_iff}
use openipaas.Prelude.Tests.{if◌then◌else◌}

abbrev pub Assoc {ℓ} : Type ℓ → Type ℓ
Assoc V = List (String × V)

module _ {ℓ} {V : Type ℓ} where
  -- entries.get(name)
  unfoldable pub lookup : (name : String) → Assoc V → Option V
  lookup name [] = none
  lookup name ((at, value) ∷ rest) = if at == name then some value else lookup name rest

  -- Puts a value at a key: one that is there keeps its place and its own text.
  unfoldable pub insert : (name : String) → V → Assoc V → Assoc V
  insert name new [] = (name, new) ∷ []
  insert name new ((at, value) ∷ rest) =
      let more = insert name new rest in if at == name then (at, new) ∷ rest else (at, value) ∷ more

  -- m.delete(k)
  unfoldable pub remove : String → Assoc V → Assoc V
  remove k [] = []
  remove k ((j, w) ∷ m) = let rest = remove k m in if j == k then rest else (j, w) ∷ rest

  -- Deletes the entries whose value passes the test.
  unfoldable pub remove_if : (V → Bool) → Assoc V → Assoc V
  remove_if p [] = []
  remove_if p ((j, w) ∷ m) = let rest = remove_if p m in if p w then rest else (j, w) ∷ rest

  pub lookup-insert :
      (name other : String) (new : V) (entries : Assoc V)
      → lookup other (insert name new entries)
        ≡ (if name == other then some new else lookup other entries)
  unfolding lookup insert
  lookup-insert name other new [] = refl
  lookup-insert name other new ((at, value) ∷ rest) =
      ground (
        arith,
        lookup-insert name other new rest,
        eq_iff name other,
        eq_iff at other,
        eq_iff at name,
      )

  pub lookup-remove :
      (k j : String) (m : Assoc V) → lookup j (remove k m) ≡ (if k == j then none else lookup j m)
  unfolding lookup remove
  lookup-remove k j [] = ground arith
  lookup-remove k j ((i, w) ∷ m) =
      ground (arith, eq_iff k j, eq_iff i k, eq_iff i j, lookup-remove k j m)

  -- An entry that fails the test is still found.
  pub lookup-remove_if :
      (p : V → Bool) (k : String) (m : Assoc V) (v : V)
      → lookup k m ≡ some v
      → p v ≡ false
      → lookup k (remove_if p m) ≡ some v
  unfolding lookup remove_if
  lookup-remove_if p k [] v h q = cc
  lookup-remove_if p k ((i, w) ∷ m) v h q = ground (arith, eq_iff i k, lookup-remove_if p k m v)
