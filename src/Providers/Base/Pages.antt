-- ===== src/Providers/Base/Pages.antt =====
-- src/lib/providers/core/BaseProvider.ts: capabilities, pages, and the paths that passthrough accepts.
use openipaas.Prelude.{
  ℕ, String, Bool, true, false, ◌&&◌, ◌||◌, not, Option, List, ◌==◌, eqb, leb, if◌then◌else◌, any,
  is_some,
}
use openipaas.Prelude.Text.{trim, starts_with, split, includes}
use openipaas.Providers.Errors.{provider_error, invalid_request, for_provider}
use openipaas.Providers.Manifests.{Manifest, ResourceName, resource_text}
use openipaas.Providers.Http.{provider, Outcome, ok, thrown}
use Prim.Native.Char.{code}

abbrev same_resource : ResourceName → ResourceName → Bool
same_resource a b = resource_text a == resource_text b

-- A page, with the flag that a scan of all pages may not be trusted.
pub record Page (A : Type 0) : Type 0 where
  pub items : List A
  pub next_cursor : Option String
  pub has_more : Bool
  pub total_items : Option ℕ
  pub unstable_list : Bool

unfoldable pub page :
    {A : Type 0}
    → Manifest
    → List A
    → ResourceName
    → (total_items : Option ℕ) → (next_cursor : Option String) → Page A
page m items resource total_items next_cursor = record {
  items = items;
  next_cursor = next_cursor;
  has_more = is_some next_cursor;
  total_items = total_items;
  unstable_list = not (any (same_resource resource) m.stable_list);
}

is_word : ℕ → Bool
is_word c =
    leb b'a' c && leb c b'z' || leb b'A' c && leb c b'Z' || leb b'0' c && leb c b'9' || eqb c b'_'

-- /^\w*:/ on what is left, `some_word` telling that a character of a word went before
after_word : (some_word : Bool) → String → Bool
unfolding is_word
after_word some_word String.[] = false
after_word some_word (String.◌∷◌ c s) =
    let rest = after_word true s in
    if is_word (code c) then rest else some_word && eqb (code c) b':'

-- /^\/+\w+:/
unfoldable pub has_scheme : String → Bool
unfolding after_word
has_scheme String.[] = false
has_scheme (String.◌∷◌ c s) =
    let rest = has_scheme s in eqb (code c) b'/' && (after_word false s || rest)

-- path.includes('://')
unfoldable pub has_authority : String → Bool
unfolding starts_with
has_authority String.[] = false
has_authority (String.◌∷◌ c s) =
    let rest = has_authority s in starts_with (String.◌∷◌ c s) "://" || rest

abbrev refused_path : (slug message : String) → Outcome String
refused_path slug message =
    thrown (provider (provider_error invalid_request message (for_provider slug)))

unfoldable pub normalize_passthrough_path : (raw_path slug : String) → Outcome String
unfolding has_scheme has_authority trim starts_with split
normalize_passthrough_path raw_path slug =
    let path = trim raw_path in
    if not (starts_with path "/") || starts_with path "//"
    then refused_path slug "Passthrough path must be relative and start with a single \"/\"."
    else if has_scheme path || has_authority path
    then refused_path slug "Passthrough path must not contain an absolute URL."
    else if includes (split b'/' path) ".."
    then refused_path slug "Passthrough path must not contain \"..\" segments."
    else ok path
