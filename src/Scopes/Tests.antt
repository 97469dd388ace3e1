-- ===== src/Scopes/Tests.antt =====
-- src/lib/scopes.ts: keys, paths and descriptions at concrete inputs.
use mathlib.Core.List.{Memᴰ}
use openipaas.Prelude.{◌≢◌, ◌↔◌, ap, true, false, String, ◌≡◌, refl, [], ◌∷◌, some, none, List}
use openipaas.Scopes.{
  is_valid_scope, parse_scopes, array, resource_for_path, describe_scopes, categories, customers,
  sales, sellers, contacts, read, write, allows, normalize_scope,
}
use openipaas.Scopes.Parsing.{Grants, allows-parse_scopes_iff, allows_of_no_valid_entry}

valid_tests :
    (parse_scopes (array (" READ:contacts" ∷ "nope" ∷ "read:contacts" ∷ "write:*" ∷ "read" ∷ []))
      ≡ "read:contacts" ∷ "write:*" ∷ [])
unfolding parse_scopes
valid_tests = refl

path_tests :
    (resource_for_path "/api/unified/v1/products/categories" ≡ some categories)
    × (resource_for_path "/api/unified/v1/customers/bulk/delete" ≡ some customers)
    × (resource_for_path "/api/unified/v1/sales/sellers" ≡ some sellers)
    × (resource_for_path "/api/unified/v1/sales/7/pdf" ≡ some sales)
    × (resource_for_path "/api/mcp" ≡ none)
unfolding resource_for_path
path_tests = (refl, refl, refl, refl, refl)

describe_tests :
    (describe_scopes ("write:deals" ∷ "read:*" ∷ "write:contacts" ∷ [])
      ≡ "read everything; write contacts, deals")
    × (describe_scopes [] ≡ "Everything this client has")
unfolding describe_scopes
describe_tests = (refl, refl)

abbrev read_contacts : List String
read_contacts = "Read:Contacts " ∷ "nope" ∷ []

abbrev no_scope : List String
no_scope = "admin" ∷ []

read_contacts-parsed : parse_scopes (array read_contacts) ≢ []
unfolding parse_scopes
read_contacts-parsed e = cc

no_scope-invalid :
    (entry : String) → Memᴰ entry no_scope → is_valid_scope (normalize_scope entry) ≡ false
unfolding is_valid_scope normalize_scope
no_scope-invalid entry (Memᴰ.head same) = ap (λ e. is_valid_scope (normalize_scope e)) same
no_scope-invalid entry (Memᴰ.tail rest) = elim rest [ ]

allows-parse_scopes_iff_example :
    (allows (parse_scopes (array read_contacts)) read (some contacts) ≡ true)
    ↔ ((entry : String) × Memᴰ entry read_contacts × Grants read contacts entry)
allows-parse_scopes_iff_example =
    allows-parse_scopes_iff read_contacts read contacts read_contacts-parsed

allows_of_no_valid_entry_example : allows (parse_scopes (array no_scope)) write none ≡ true
allows_of_no_valid_entry_example = allows_of_no_valid_entry no_scope write none no_scope-invalid
