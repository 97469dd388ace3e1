-- ===== src/Mcp/Tools/Schemas.antt =====
-- src/lib/mcp/tools.ts: the words and the input schemas of the tools.
use openipaas.Prelude.{String, Bool, true, false, List, [], ◌∷◌, ◌++◌, any, ◌==◌, if◌then◌else◌}
use openipaas.Prelude.Text
use openipaas.Providers.Manifests.{
  Manifest, ResourceName, customers, products, categories, brands, units, sales, sellers, contacts,
  companies, deals, pipelines, resource_text, Operation,
}
use openipaas.Mcp.Json.{Json, boolean, number, text, record_of, texts}

abbrev pub singular : ResourceName → String
singular customers = "customer"
singular products = "product"
singular categories = "category"
singular brands = "brand"
singular units = "unit"
singular sales = "sale"
singular sellers = "seller"
singular contacts = "contact"
singular companies = "company"
singular deals = "deal"
singular pipelines = "pipeline"

abbrev described : (type description : String) → Json
described type description =
    record_of (("type", text type) ∷ ("description", text description) ∷ [])

-- A schema of an object that takes the properties and no others.
abbrev object_schema : List (String × Json) → List (String × Json) → Json
object_schema properties required = record_of (
    ("type", text "object") ∷ ("properties", record_of properties) ∷ required
    ++ ("additionalProperties", boolean false) ∷ [])

abbrev list_properties : List (String × Json)
list_properties =
    ("cursor", described "string" "Cursor from a previous call. Omit for the first page.")
    ∷ (
      "limit",
      record_of (
          ("type", text "integer")
          ∷ ("minimum", number 1)
          ∷ ("maximum", number 200)
          ∷ ("description", text "Page size, at most 200.")
          ∷ []),
    )
    ∷ ("search", described "string" "Free-text search, where the provider supports it.")
    ∷ []

abbrev list_schema : Json
list_schema = object_schema list_properties []

-- The spread keeps the place of `properties`, and `updatedAfter` comes last in it.
abbrev incremental_list_schema : Json
incremental_list_schema =
    object_schema
      (list_properties
        ++ (
          "updatedAfter",
          described "string"
              "ISO-8601 instant. Only records changed since then come back, which is how you follow up on a list you already have instead of reading it all again.",
        )
          ∷ [])
      []

abbrev match_properties : List (String × Json)
match_properties =
    (
      "field",
      described "string"
          "The field to match on, for example 'email'. The provider decides which fields it accepts.",
    )
    ∷ ("value", described "string" "The value to match.")
    ∷ []

abbrev required : List String → List (String × Json)
required names = ("required", texts names) ∷ []

abbrev match_schema : Json
match_schema = object_schema match_properties (required ("field" ∷ "value" ∷ []))

abbrev id_schema : Json
id_schema =
    object_schema
      (("id", described "string" "The record's id, as returned by the matching list tool.") ∷ [])
      (required ("id" ∷ []))

abbrev ids_schema : Json
ids_schema =
    object_schema
      ((
        "ids",
        record_of (
            ("type", text "array")
            ∷ ("items", record_of (("type", text "string") ∷ []))
            ∷ ("minItems", number 1)
            ∷ []),
      )
        ∷ [])
      (required ("ids" ∷ []))

abbrev open_object : (description : String) → Json
open_object description = record_of (
    ("type", text "object")
    ∷ ("description", text description)
    ∷ ("additionalProperties", boolean true)
    ∷ [])

write_schema : ResourceName → (with_id : Bool) → Json
write_schema resource with_id =
    let data_field : String × Json = (
      "data",
      open_object (
          Text.◌++◌ "Unified " (
            Text.◌++◌ (resource_text resource)
              " fields. Only the fields the provider accepts are written; the rest are ignored.")),
    ) in
    if with_id
    then object_schema (data_field ∷ ("id", described "string" "The record to change.") ∷ [])
        (required ("id" ∷ "data" ∷ []))
    else object_schema (data_field ∷ []) (required ("data" ∷ []))

upsert_schema : ResourceName → Json
upsert_schema resource =
    object_schema
      (match_properties
        ++ (
          "data",
          open_object (
              Text.◌++◌ "Unified " (
                Text.◌++◌ (resource_text resource)
                  " fields to write, whether the record is created or updated.")),
        )
          ∷ [])
      (required ("field" ∷ "value" ∷ "data" ∷ []))

abbrev pub is_incremental : Manifest → ResourceName → Bool
is_incremental m resource = any (λ r. resource_text r == resource_text resource) m.incremental

unfoldable pub schema_for : ResourceName → Operation → Manifest → Json
unfolding write_schema upsert_schema
schema_for resource operation m = elim operation [
  | Operation.list ↦ if is_incremental m resource then incremental_list_schema else list_schema
  | Operation.search ↦ match_schema
  | Operation.create ↦ write_schema resource false
  | Operation.upsert ↦ upsert_schema resource
  | Operation.update ↦ write_schema resource true
  | Operation.bulk_delete ↦ ids_schema
  | Operation.bulk_activate ↦ ids_schema
  | Operation.bulk_deactivate ↦ ids_schema
  | _ ↦ id_schema
]

-- The methods of passthrough; without the right to write, GET is the only one.
unfoldable pub passthrough_schema : (may_write : Bool) → Json
passthrough_schema may_write =
    let methods =
      if may_write then "GET" ∷ "POST" ∷ "PUT" ∷ "PATCH" ∷ "DELETE" ∷ [] else "GET" ∷ [] in
    object_schema
      (("path", described "string" "Provider path, starting with /. For example '/contacts'.")
        ∷ (
          "method",
          record_of
              (("type", text "string") ∷ ("enum", texts methods) ∷ ("default", text "GET") ∷ []),
        )
        ∷ (
          "query",
          record_of (
              ("type", text "object")
              ∷ ("additionalProperties", boolean true)
              ∷ ("description", text "Query string parameters.")
              ∷ []),
        )
        ∷ (
          "body",
          record_of (
              ("type", text "object")
              ∷ ("additionalProperties", boolean true)
              ∷ ("description", text "JSON body, for writes.")
              ∷ []),
        )
        ∷ [])
      (required ("path" ∷ []))

-- The parts of a text, one after another.
abbrev pub concat : List String → String
concat [] = ""
concat (part ∷ parts) = Text.◌++◌ part (concat parts)

unfoldable pub describe : (provider_name : String) → ResourceName → Operation → String
describe provider_name resource operation =
    let many = resource_text resource in
    let one = singular resource in
    let place = Text.◌++◌ " in " provider_name in
    elim operation [
      | Operation.list ↦ concat (
          "List " ∷ many ∷ place
          ∷ ". Returns one page plus a cursor; call again with the cursor for the next page." ∷ [])
      | Operation.get ↦ concat ("Fetch one " ∷ one ∷ place ∷ " by id." ∷ [])
      | Operation.search ↦ concat (
          "Find " ∷ many ∷ place ∷ " by a field other than the id, such as an email. "
          ∷ "Returns every match, which may be none or several." ∷ [])
      | Operation.create ↦ concat ("Create a " ∷ one ∷ place ∷ "." ∷ [])
      | Operation.upsert ↦ concat (
          "Create a " ∷ one ∷ place ∷ ", or update the existing one if the match finds it. "
          ∷ "Use this instead of create when you are not sure whether the record is already there. "
          ∷ "A match that finds several records fails rather than picking one." ∷ [])
      | Operation.update ↦
          concat
            ("Update an existing " ∷ one ∷ place ∷ ". Only the fields you send are changed." ∷ [])
      | Operation.delete ↦ concat ("Delete a " ∷ one ∷ place ∷ ". This cannot be undone." ∷ [])
      | Operation.pdf ↦ concat ("Get the PDF document for a " ∷ one ∷ place ∷ "." ∷ [])
      | Operation.bulk_delete ↦
          concat ("Delete several " ∷ many ∷ place ∷ " in one call. This cannot be undone." ∷ [])
      | Operation.bulk_activate ↦ concat ("Activate several " ∷ many ∷ place ∷ " in one call." ∷ [])
      | Operation.bulk_deactivate ↦
          concat ("Deactivate several " ∷ many ∷ place ∷ " in one call." ∷ [])
    ]

unfoldable pub describe_passthrough : Manifest → (may_write : Bool) → String
describe_passthrough m may_write = concat (
    "Call "
    ∷ m.name
    ∷ "'s own API directly, for anything the unified tools do not cover. "
    ∷ "The path is appended to "
    ∷ m.base_url
    ∷ " and the raw provider response comes back unchanged. "
    ∷ "Prefer the unified tools: their shape is stable across providers, this one's is not."
    ∷ (if may_write then "" else " This key may only read, so GET is the only method accepted.")
    ∷ [])
