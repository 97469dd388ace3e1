-- ===== src/Mcp/Connections/Distinct.antt =====
-- src/lib/mcp/connections.ts: a tool's name is one connection's.
use openipaas.Prelude.{String, Bool, List, [], ◌∷◌, ltb}
use openipaas.Prelude.Text
use openipaas.Prelude.Text.{is_empty}
use openipaas.Mcp.Connections.{NamedConnection, slug, count_of}

tail : String → String
tail String.[] = String.[]
tail (String.◌∷◌ c s) = s

module _ (connections : List NamedConnection) where
  abbrev is_shared : NamedConnection → Bool
  is_shared c = ltb 1 (count_of (slug c.provider_slug) connections)
