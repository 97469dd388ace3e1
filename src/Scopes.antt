-- ===== src/Scopes.antt =====
-- src/lib/scopes.ts: what an API key is allowed to do.
-- The unions of string literals are data types with a function to their text.
pub mod Parsing
mod Tests
use Prim.Native.Nat.{Ordering}
use Prim.Native.String
use openipaas.Prelude.{
  String, Bool, true, false, ◌&&◌, ◌||◌, Option, none, some, List, [], ◌∷◌, map, ◌==◌, filter,
  if◌then◌else◌, not, ◌+◌, is_some,
}
use openipaas.Prelude.Text.{
  ◌++◌, trim, to_lower_case, to_upper_case, split, starts_with, slice, join, includes, is_empty,
}
use openipaas.Prelude.Text

pub data ScopeAction : Type 0 where
  read write : ScopeAction

pub data ScopeResource : Type 0 where
  customers products categories brands units sales sellers contacts : ScopeResource
  companies deals pipelines passthrough connections : ScopeResource

abbrev pub action_name : ScopeAction → String
action_name read = "read"
action_name write = "write"

abbrev pub resource_name : ScopeResource → String
resource_name customers = "customers"
resource_name products = "products"
resource_name categories = "categories"
resource_name brands = "brands"
resource_name units = "units"
resource_name sales = "sales"
resource_name sellers = "sellers"
resource_name contacts = "contacts"
resource_name companies = "companies"
resource_name deals = "deals"
resource_name pipelines = "pipelines"
resource_name passthrough = "passthrough"
resource_name connections = "connections"

abbrev pub scope_resources : List ScopeResource
scope_resources =
    customers ∷ products ∷ categories ∷ brands ∷ units ∷ sales ∷ sellers ∷ contacts ∷ companies
    ∷ deals ∷ pipelines ∷ passthrough ∷ connections ∷ []

abbrev pub actions : List ScopeAction
actions = read ∷ write ∷ []

abbrev pub full_access : List String
full_access = "read:*" ∷ "write:*" ∷ []

abbrev pub read_only : List String
read_only = "read:*" ∷ []

-- The first two parts of the split; a missing second one is `undefined`, which is no resource.
valid_parts : List String → Bool
valid_parts (action ∷ resource ∷ _) =
    includes (map action_name actions) action
    && (resource == "*" || includes (map resource_name scope_resources) resource)
valid_parts _ = false

unfoldable pub is_valid_scope : String → Bool
unfolding valid_parts split
is_valid_scope scope = valid_parts (split b':' scope)

-- [...new Set(xs)]
unfoldable pub distinct : List String → List String
distinct [] = []
distinct (x ∷ xs) = x ∷ filter (λ y. not (y == x)) (distinct xs)

-- An entry is the text that `String(entry)` gives.
pub data RawScopes : Type 0 where
  not_array : RawScopes
  array : List String → RawScopes

unfoldable pub normalize_scope : String → String
unfolding trim to_lower_case
normalize_scope entry = to_lower_case (trim entry)

unfoldable pub parse_scopes : RawScopes → List String
unfolding normalize_scope is_valid_scope distinct
parse_scopes not_array = []
parse_scopes (array entries) = distinct (filter is_valid_scope (map normalize_scope entries))

-- `SCOPE_RESOURCES.includes(head) ? head : null`
resource_of_name : List ScopeResource → String → Option ScopeResource
resource_of_name [] name = none
resource_of_name (r ∷ rs) name =
    if resource_name r == name then some r else resource_of_name rs name

-- pathname.replace(/^\/api\/unified\/v1/, '')
strip_root : String → String
strip_root path = if starts_with path "/api/unified/v1" then slice 15 path else path

-- A comparison with a value that may be `undefined`.
abbrev pub is_text : Option String → String → Bool
is_text none t = false
is_text (some s) t = s == t

-- `next` where it is categories, brands or units
nested_product : Option String → Option ScopeResource
nested_product next =
    if is_text next "categories"
    then some categories
    else if is_text next "brands"
    then some brands
    else if is_text next "units"
    then some units
    else none

resource_for_head : String → Option String → Option ScopeResource
unfolding nested_product resource_of_name
resource_for_head head next =
    if head == "passthrough"
    then some passthrough
    else if head == "connections"
    then some connections
    else if head == "products" && is_some (nested_product next)
    then nested_product next
    else if head == "sales" && is_text next "sellers"
    then some sellers
    else resource_of_name scope_resources head

resource_for_parts : List String → Option ScopeResource
unfolding resource_for_head
resource_for_parts [] = none
resource_for_parts (head ∷ []) = resource_for_head head none
resource_for_parts (head ∷ next ∷ _) = resource_for_head head (some next)

unfoldable pub resource_for_path : String → Option ScopeResource
unfolding resource_for_parts split strip_root starts_with slice
resource_for_path path =
    resource_for_parts (filter (λ part. not (is_empty part)) (split b'/' (strip_root path)))

abbrev pub write_methods : List String
write_methods = "POST" ∷ "PUT" ∷ "PATCH" ∷ "DELETE" ∷ []

unfoldable pub action_for_method : String → ScopeAction
unfolding to_upper_case
action_for_method method = if includes write_methods (to_upper_case method) then write else read

-- `${action}:*` and `${action}:${resource}`
abbrev pub any_scope : ScopeAction → String
any_scope action = action_name action ++ ":*"

abbrev pub scope_of : ScopeAction → ScopeResource → String
scope_of action resource = action_name action ++ ":" ++ resource_name resource

unfoldable pub allows : List String → ScopeAction → Option ScopeResource → Bool
allows [] action resource = true
allows (s ∷ scopes) action none = false
allows (s ∷ scopes) action (some resource) =
    includes (s ∷ scopes) (any_scope action) || includes (s ∷ scopes) (scope_of action resource)

-- resources.sort()
insert_text : String → List String → List String
insert_text x [] = x ∷ []
insert_text x (y ∷ ys) = elim (String.compare x y) [
  | Ordering.gt ↦ y ∷ insert_text x ys
  | _ ↦ x ∷ y ∷ ys
]

sort : List String → List String
unfolding insert_text
sort [] = []
sort (x ∷ xs) = insert_text x (sort xs)

-- One entry of `byAction`.
describe_action : List String → ScopeAction → Option String
unfolding sort starts_with slice join
describe_action scopes action =
    let prefix = action_name action ++ ":" in
    let resources =
      map (slice (Text.length (action_name action) + 1))
        (filter (λ s. starts_with s prefix) scopes) in
    elim resources [
      | [] ↦ none
      | r ∷ rs ↦
          if includes (r ∷ rs) "*"
          then some (action_name action ++ " everything")
          else some (action_name action ++ " " ++ join ", " (sort (r ∷ rs)))
    ]

-- .filter(Boolean)
present : List (Option String) → List String
present [] = []
present (none ∷ xs) = present xs
present (some x ∷ xs) = x ∷ present xs

unfoldable pub describe_scopes : List String → String
unfolding describe_action present join
describe_scopes [] = "Everything this client has"
describe_scopes (s ∷ scopes) = elim (present (map (describe_action (s ∷ scopes)) actions)) [
  | [] ↦ "Nothing"
  | part ∷ parts ↦ join "; " (part ∷ parts)
]
