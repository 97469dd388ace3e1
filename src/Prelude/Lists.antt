-- ===== src/Prelude/Lists.antt =====
-- Lists measured by native numbers, filtered by Boolean tests, and predicates on their members.
use Prim.Native.Nat.{ℕ, zero, suc}
use mathlib.Core.Path.{◌≡◌, refl, sym, ap, subst, ◌∙◌}
use mathlib.Core.Logic.{inl, inr}
use mathlib.Core.Bool.{Bool, true, false, ◌&&◌, ◌||◌}
use mathlib.Core.List.{List, [], ◌∷◌, ◌++◌, map, Memᴰ}
use native.Mathlib.Omega.{arith}
use openipaas.Prelude.Tests.{if◌then◌else◌, Bool-cases}

module _ {ℓ} {A : Type ℓ} where
  abbrev pub length : List A → ℕ
  length [] = 0
  length (x ∷ xs) = suc (length xs)

  abbrev pub take : ℕ → List A → List A
  take zero xs = []
  take (suc n) [] = []
  take (suc n) (x ∷ xs) = x ∷ take n xs

  -- xs.filter(p)
  abbrev pub filter : (A → Bool) → List A → List A
  filter p [] = []
  filter p (x ∷ xs) = let rest = filter p xs in if p x then x ∷ rest else rest

  -- xs.some(p)
  abbrev pub any : (A → Bool) → List A → Bool
  any p [] = false
  any p (x ∷ xs) = p x || any p xs

  -- xs.every(p)
  abbrev pub all : (A → Bool) → List A → Bool
  all p [] = true
  all p (x ∷ xs) = p x && all p xs

-- A predicate holds of every member.
abbrev pub All {ℓ κ} : {A : Type ℓ} → (A → Type κ) → List A → Type κ
All P [] = Unit
All P (x ∷ xs) = P x × All P xs

mem_of_kept {ℓ} :
    {A : Type ℓ} (p : A → Bool) (x : A) (xs ys : List A) {a : A}
    → ((b : A) → Memᴰ b ys → Memᴰ b xs × (p b ≡ true))
    → p x ≡ true
    → Memᴰ a (x ∷ ys)
    → Memᴰ a (x ∷ xs) × (p a ≡ true)
mem_of_kept p x xs ys within e (Memᴰ.head same) = (Memᴰ.head same, ap p same ∙ e)
mem_of_kept p x xs ys {a} within e (Memᴰ.tail rest) =
    let (inside, passes) = within a rest in (Memᴰ.tail inside, passes)

-- A member of the filtered list is a member that passes the test.
pub mem_of_filter {ℓ} :
    {A : Type ℓ} (p : A → Bool) (xs : List A) (a : A)
    → Memᴰ a (filter p xs)
    → Memᴰ a xs × (p a ≡ true)
mem_of_filter p [] a m = elim m [ ]
mem_of_filter {A} p (x ∷ xs) a m = elim (Bool-cases (p x)) [
  | inl passes ↦
      mem_of_kept p x xs (filter p xs) (λ b i. mem_of_filter p xs b i) passes
        (subst (λ (l : List A). Memᴰ a l) (filter-pass passes) m)
  | inr fails ↦
      let (inside, e) =
        mem_of_filter p xs a (subst (λ (l : List A). Memᴰ a l) (filter-fail fails) m) in
      (Memᴰ.tail inside, e)
]
  where
    filter-pass : p x ≡ true → filter p (x ∷ xs) ≡ x ∷ filter p xs
    filter-pass e = rw e

    filter-fail : p x ≡ false → filter p (x ∷ xs) ≡ filter p xs
    filter-fail e = rw e

module _ {ℓ} {A : Type ℓ} (p : A → Bool) where
  pub any-append : (xs ys : List A) → any p (xs ++ ys) ≡ (any p xs || any p ys)
  any-append [] ys = refl
  any-append (x ∷ xs) ys = ground (arith, any-append xs ys)

  pub any-map_of_mem {κ} :
      {B : Type κ} (f : B → A) (xs : List B) (b : B)
      → Memᴰ b xs
      → p (f b) ≡ true
      → any p (map f xs) ≡ true
  any-map_of_mem f [] b m e = elim m [ ]
  any-map_of_mem f (x ∷ xs) b (Memᴰ.head same) e = ground (arith, sym (ap (λ c. p (f c)) same) ∙ e)
  any-map_of_mem f (x ∷ xs) b (Memᴰ.tail rest) e = ground (arith, any-map_of_mem f xs b rest e)
