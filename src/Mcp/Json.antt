-- ===== src/Mcp/Json.antt =====
-- The values of JSON that the server reads and writes; its numbers are whole and not negative here.
use openipaas.Prelude.{
  ℕ, String, Bool, true, false, not, Option, none, some, List, [], ◌∷◌, ◌==◌, eqb, if◌then◌else◌,
}
use openipaas.Prelude.Text.{is_empty}

mutual
  pub data Json : Type 0 where
    null : Json
    boolean : Bool → Json
    number : ℕ → Json
    text : String → Json
    array : Items → Json
    object : Fields → Json

  pub data Items : Type 0 where
    end : Items
    item : Json → Items → Items

  pub data Fields : Type 0 where
    empty : Fields
    field : (name : String) → Json → Fields → Fields

-- Items, and fields, in the order in which they are given.
abbrev pub items : List Json → Json
items values = array (go values)
  where
    go : List Json → Items
    go [] = end
    go (v ∷ vs) = item v (go vs)

abbrev pub texts : List String → Json
texts values = array (go values)
  where
    go : List String → Items
    go [] = end
    go (v ∷ vs) = item (text v) (go vs)

abbrev pub fields : List (String × Json) → Fields
fields [] = empty
fields ((name, value) ∷ rest) = field name value (fields rest)

abbrev pub record_of : List (String × Json) → Json
record_of entries = object (fields entries)

-- args.name; a missing field is `undefined`.
unfoldable pub get : (name : String) → Fields → Option Json
get name empty = none
get name (field at value rest) = if at == name then some value else get name rest

-- Whether a value counts as true in a test.
abbrev pub is_truthy : Option Json → Bool
is_truthy none = false
is_truthy (some null) = false
is_truthy (some (boolean b)) = b
is_truthy (some (number n)) = not (eqb n 0)
is_truthy (some (text s)) = not (is_empty s)
is_truthy (some (array xs)) = true
is_truthy (some (object fs)) = true

-- value ?? fallback
abbrev pub or_else : Json → Option Json → Json
or_else fallback none = fallback
or_else fallback (some null) = fallback
or_else fallback (some (boolean b)) = boolean b
or_else fallback (some (number n)) = number n
or_else fallback (some (text s)) = text s
or_else fallback (some (array xs)) = array xs
or_else fallback (some (object fs)) = object fs
