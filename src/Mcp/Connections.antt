-- ===== src/Mcp/Connections.antt =====
-- src/lib/mcp/connections.ts: the prefix of each connection's tools.
pub mod Prefixes
pub mod Distinct
use Prim.Native.Char.{code}
use openipaas.Prelude.{
  ℕ, zero, suc, ◌+◌, String, Bool, true, false, ◌&&◌, ◌||◌, not, Option, none, some, List, [], ◌∷◌,
  ◌==◌, leb, ltb, eqb, if◌then◌else◌, map, filter, length, get_or,
}
use openipaas.Prelude.Text
use openipaas.Prelude.Text.{to_lower_case, drop_trailing, replace_all, trim, is_empty}
use openipaas.Prelude.Assoc.{Assoc}

pub record NamedConnection : Type 0 where
  pub id : String
  pub provider_slug : String

-- [a-z0-9]
abbrev is_word : ℕ → Bool
is_word c = leb b'a' c && leb c b'z' || leb b'0' c && leb c b'9'

-- replace(/[^a-z0-9]+/g, '_'); `gap` tells whether the run before was replaced.
collapse : (gap : Bool) → String → String
collapse gap String.[] = ""
collapse gap (String.◌∷◌ c s) =
    let word = String.◌∷◌ c (collapse false s) in
    let inside = collapse true s in
    if is_word (code c) then word else if gap then inside else String.◌∷◌ "_" inside

-- replace(/^_+/, '')
drop_leading : String → String
drop_leading String.[] = ""
drop_leading (String.◌∷◌ c s) =
    let rest = drop_leading s in if eqb (code c) b'_' then rest else String.◌∷◌ c s

unfoldable pub slug : String → String
unfolding collapse drop_leading
slug value = drop_trailing b'_' (drop_leading (collapse false (to_lower_case value)))

-- How many of the connections have this base.
abbrev count_of : String → List NamedConnection → ℕ
unfolding slug
count_of base connections =
    length (filter (λ (c : NamedConnection). slug c.provider_slug == base) connections)

-- id.replace(/-/g, '').slice(0, 6)
unfoldable pub short_id : String → String
short_id id = Text.take 6 (replace_all b'-' "" id)

unfoldable pub name_of : List NamedConnection → NamedConnection → String
unfolding slug short_id
name_of connections c =
    let base = slug c.provider_slug in
    if ltb 1 (count_of base connections)
    then Text.◌++◌ base (Text.◌++◌ "_" (short_id c.id))
    else base

unfoldable pub prefixes_for : List NamedConnection → List String
unfolding name_of
prefixes_for connections =
    map (λ (c : NamedConnection). Text.◌++◌ (name_of connections c) "__") connections

unfoldable pub connection_label : (provider_name : String) → Option String → String
connection_label provider_name label =
    let extra = trim (get_or label "") in
    if is_empty extra || to_lower_case extra == to_lower_case (trim provider_name)
    then provider_name
    else Text.◌++◌ provider_name (Text.◌++◌ " (" (Text.◌++◌ extra ")"))

pub record AgentEligibility : Type 0 where
  pub id : String
  pub provider_slug : String
  pub usable : Bool

abbrev named : AgentEligibility → NamedConnection
named a = record { id = a.id; provider_slug = a.provider_slug }

unfoldable pub client_scope_prefixes : List AgentEligibility → Assoc String
unfolding name_of
client_scope_prefixes accounts =
    let usable = map named (filter (λ (a : AgentEligibility). a.usable) accounts) in
    map (λ (c : NamedConnection). (c.id, Text.◌++◌ (name_of usable c) "__")) usable
