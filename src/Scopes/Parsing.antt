-- ===== src/Scopes/Parsing.antt =====
-- src/lib/scopes.ts: what a request is allowed, in terms of the entries that are stored.
use mathlib.Core.List.{Memᴰ}
use openipaas.Prelude.{
  String, true, false, ◌||◌, ◌≡◌, ◌≢◌, ◌↔◌, ◌⊎◌, inl, inr, refl, some, Option, List, [], ◌∷◌, map,
  ◌==◌, filter, not, arith, eq_iff, Bool-cases,
}
use openipaas.Prelude.Text.{includes, includes-filter, includes-map_iff}
use openipaas.Scopes.{
  ScopeAction, read, write, ScopeResource, customers, is_valid_scope, distinct, array,
  normalize_scope, parse_scopes, any_scope, scope_of, allows,
}

includes-distinct : (xs : List String) (s : String) → includes (distinct xs) s ≡ includes xs s
unfolding distinct
includes-distinct [] s = refl
includes-distinct (x ∷ xs) s = ground (
  arith,
  includes-filter (λ y. not (y == x)) (distinct xs) s,
  includes-distinct xs s,
  eq_iff x s,
  eq_iff s x,
)

includes-parse_scopes :
    (entries : List String) (s : String)
    → is_valid_scope s ≡ true
    → includes (parse_scopes (array entries)) s ≡ includes (map normalize_scope entries) s
unfolding parse_scopes
includes-parse_scopes entries s valid = ground (
  arith,
  includes-distinct (filter is_valid_scope (map normalize_scope entries)) s,
  includes-filter is_valid_scope (map normalize_scope entries) s,
)

any_scope-valid : (action : ScopeAction) → is_valid_scope (any_scope action) ≡ true
unfolding is_valid_scope
any_scope-valid read = refl
any_scope-valid write = refl

scope_of-valid :
    (action : ScopeAction) (resource : ScopeResource)
    → is_valid_scope (scope_of action resource) ≡ true
unfolding is_valid_scope
scope_of-valid read customers = refl
scope_of-valid read _ = refl
scope_of-valid write customers = refl
scope_of-valid write _ = refl

allows-cons :
    (scopes : List String) (action : ScopeAction) (resource : ScopeResource)
    → scopes ≢ []
    → allows scopes action (some resource)
      ≡ (includes scopes (any_scope action) || includes scopes (scope_of action resource))
unfolding allows
allows-cons [] action resource h = absurd (h refl)
allows-cons (s ∷ scopes) action resource h = refl

-- An entry of a key grants a request if its text, trimmed and in lower case, is `action:*` or `action:resource`.
abbrev pub Grants : ScopeAction → ScopeResource → String → Type 0
Grants action resource entry =
    (normalize_scope entry ≡ any_scope action) ⊎ (normalize_scope entry ≡ scope_of action resource)

module _ (entries : List String) (action : ScopeAction) (resource : ScopeResource) where
  allows-parse_scopes :
      parse_scopes (array entries) ≢ []
      → allows (parse_scopes (array entries)) action (some resource) ≡ (
          includes (map normalize_scope entries) (any_scope action)
          || includes (map normalize_scope entries) (scope_of action resource))
  allows-parse_scopes h = ground (
    arith,
    allows-cons (parse_scopes (array entries)) action resource h,
    includes-parse_scopes entries (any_scope action) (any_scope-valid action),
    includes-parse_scopes entries (scope_of action resource) (scope_of-valid action resource),
  )

  granted :
      (includes (map normalize_scope entries) (any_scope action)
          || includes (map normalize_scope entries) (scope_of action resource))
        ≡ true
      → (entry : String) × Memᴰ entry entries × Grants action resource entry
  granted h = elim (Bool-cases (includes (map normalize_scope entries) (any_scope action))) [
    | inl all ↦
        let (entry, m, e) = (includes-map_iff normalize_scope (any_scope action) entries).0 all in
        (entry, m, inl e)
    | inr one ↦
        let (entry, m, e) =
          (includes-map_iff normalize_scope (scope_of action resource) entries).0 (ground arith) in
        (entry, m, inr e)
  ]

  grants :
      (entry : String)
      → Memᴰ entry entries
      → Grants action resource entry
      → (includes (map normalize_scope entries) (any_scope action)
          || includes (map normalize_scope entries) (scope_of action resource))
        ≡ true
  grants entry m (inl e) =
      ground (arith, (includes-map_iff normalize_scope (any_scope action) entries).1 (entry, m, e))
  grants entry m (inr e) =
      ground (
        arith,
        (includes-map_iff normalize_scope (scope_of action resource) entries).1 (entry, m, e),
      )

-- A key whose stored entries leave at least one scope after parsing may do exactly what one of its
-- entries names: there is an entry whose text, trimmed and in lower case, is `action:*` or
-- `action:resource`. Entries that are not scopes grant nothing.
pub allows-parse_scopes_iff :
    (entries : List String) (action : ScopeAction) (resource : ScopeResource)
    → parse_scopes (array entries) ≢ []
    → (allows (parse_scopes (array entries)) action (some resource) ≡ true)
      ↔ ((entry : String) × Memᴰ entry entries × Grants action resource entry)
allows-parse_scopes_iff entries action resource h =
    rw (allows-parse_scopes entries action resource h)
      (granted entries action resource, λ g. grants entries action resource g.0 g.1 g.2)

all_invalid :
    (entries : List String)
    → ((entry : String) → Memᴰ entry entries → is_valid_scope (normalize_scope entry) ≡ false)
    → filter is_valid_scope (map normalize_scope entries) ≡ []
all_invalid [] h = refl
all_invalid (e ∷ es) h =
    ground (arith, h e (Memᴰ.head refl), all_invalid es (λ x m. h x (Memᴰ.tail m)))

-- If no stored entry is a scope, the key is allowed every action on every resource, and on a path
-- that names no resource.
pub allows_of_no_valid_entry :
    (entries : List String) (action : ScopeAction) (resource : Option ScopeResource)
    → ((entry : String) → Memᴰ entry entries → is_valid_scope (normalize_scope entry) ≡ false)
    → allows (parse_scopes (array entries)) action resource ≡ true
unfolding parse_scopes distinct allows
allows_of_no_valid_entry entries action resource h = rw (all_invalid entries h)
