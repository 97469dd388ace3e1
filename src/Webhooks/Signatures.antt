-- ===== src/Webhooks/Signatures.antt =====
-- src/lib/webhooks.ts: what an accepted signature stands for.
use openipaas.Prelude.{String, List, [], ◌∷◌}
use openipaas.Prelude.Text

-- The text that the HMAC is taken of.
abbrev signed_text : (timestamp body : String) → String
signed_text timestamp body = Text.◌++◌ timestamp (Text.◌++◌ "." body)

first_part : List String → String
first_part [] = ""
first_part (part ∷ parts) = part
