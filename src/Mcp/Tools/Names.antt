-- ===== src/Mcp/Tools/Names.antt =====
-- src/lib/mcp/tools.ts: a tool's name says its resource and its operation.
use openipaas.Prelude.{
  String, Bool, true, false, ◌&&◌, ◌||◌, not, ◌≡◌, refl, sym, ap, ◌∙◌, List, [], ◌∷◌, ◌==◌, all,
  arith, eq_iff, Option, none, some, if◌then◌else◌,
}
use openipaas.Prelude.Text.{starts_with}
use openipaas.Providers.Manifests.{
  ResourceName, customers, products, categories, brands, units, sales, sellers, contacts, companies,
  deals, pipelines, resource_text, Operation,
}
use openipaas.Providers.Operations.{operation_text}
use openipaas.Mcp.Tools.{tool_name}

abbrev resources : List ResourceName
resources =
    customers ∷ products ∷ categories ∷ brands ∷ units ∷ sales ∷ sellers ∷ contacts ∷ companies
    ∷ deals ∷ pipelines ∷ []

abbrev operations : List Operation
operations =
    Operation.list ∷ Operation.get ∷ Operation.search ∷ Operation.create ∷ Operation.update
    ∷ Operation.upsert ∷ Operation.delete ∷ Operation.bulk_delete ∷ Operation.bulk_activate
    ∷ Operation.bulk_deactivate ∷ Operation.pdf ∷ []

each_resource : (p : ResourceName → Bool) → all p resources ≡ true → (r : ResourceName) → p r ≡ true
each_resource p h customers = ground arith
each_resource p h products = ground arith
each_resource p h categories = ground arith
each_resource p h brands = ground arith
each_resource p h units = ground arith
each_resource p h sales = ground arith
each_resource p h sellers = ground arith
each_resource p h contacts = ground arith
each_resource p h companies = ground arith
each_resource p h deals = ground arith
each_resource p h pipelines = ground arith

each_operation : (p : Operation → Bool) → all p operations ≡ true → (o : Operation) → p o ≡ true
each_operation p h Operation.list = ground arith
each_operation p h Operation.get = ground arith
each_operation p h Operation.search = ground arith
each_operation p h Operation.create = ground arith
each_operation p h Operation.update = ground arith
each_operation p h Operation.upsert = ground arith
each_operation p h Operation.delete = ground arith
each_operation p h Operation.bulk_delete = ground arith
each_operation p h Operation.bulk_activate = ground arith
each_operation p h Operation.bulk_deactivate = ground arith
each_operation p h Operation.pdf = ground arith

abbrev told_apart : ResourceName → Operation → ResourceName → Operation → Bool
told_apart r o q p =
    not (tool_name r o == tool_name q p)
    || resource_text r == resource_text q && operation_text o == operation_text p

names_differ :
    all
      (λ r. all (λ o. all (λ q. all (λ p. told_apart r o q p) operations) resources) operations)
      resources
    ≡ true
unfolding tool_name starts_with
names_differ = refl

resource_at : List ResourceName → String → Option ResourceName
resource_at [] t = none
resource_at (r ∷ rs) t = if resource_text r == t then some r else resource_at rs t

operation_at : List Operation → String → Option Operation
operation_at [] t = none
operation_at (o ∷ os) t = if operation_text o == t then some o else operation_at os t

resource_read : (r : ResourceName) → resource_at resources (resource_text r) ≡ some r
unfolding resource_at
resource_read customers = refl
resource_read products = refl
resource_read categories = refl
resource_read brands = refl
resource_read units = refl
resource_read sales = refl
resource_read sellers = refl
resource_read contacts = refl
resource_read companies = refl
resource_read deals = refl
resource_read pipelines = refl

operation_read : (o : Operation) → operation_at operations (operation_text o) ≡ some o
unfolding operation_at
operation_read Operation.list = refl
operation_read Operation.get = refl
operation_read Operation.search = refl
operation_read Operation.create = refl
operation_read Operation.update = refl
operation_read Operation.upsert = refl
operation_read Operation.delete = refl
operation_read Operation.bulk_delete = refl
operation_read Operation.bulk_activate = refl
operation_read Operation.bulk_deactivate = refl
operation_read Operation.pdf = refl

some_inj {ℓ} : {A : Type ℓ} {a b : A} → some a ≡ some b → a ≡ b
some_inj {a} h = ap (λ o. elim o [ none ↦ a | some x ↦ x ]) h

-- Two capabilities whose tools have the same name are the same capability.
pub tool_name_inj :
    (r q : ResourceName) (o p : Operation) → tool_name r o ≡ tool_name q p → (r ≡ q) × (o ≡ p)
tool_name_inj r q o p same =
    let apart =
      each_operation (λ p. told_apart r o q p)
        (each_resource (λ q. all (λ p. told_apart r o q p) operations)
          (each_operation (λ o. all (λ q. all (λ p. told_apart r o q p) operations) resources)
            (each_resource
              (λ r.
                all (λ o. all (λ q. all (λ p. told_apart r o q p) operations) resources) operations)
              names_differ r)
            o)
          q)
        p in
    let texts : ((resource_text r == resource_text q) ≡ true)
        × ((operation_text o == operation_text p) ≡ true) =
      ground (arith, apart, (eq_iff (tool_name r o) (tool_name q p)).1 same) in
    (
      some_inj (
          sym (resource_read r)
          ∙ ap (resource_at resources) ((eq_iff (resource_text r) (resource_text q)).0 texts.0)
          ∙ resource_read q),
      some_inj (
          sym (operation_read o)
          ∙ ap (operation_at operations) ((eq_iff (operation_text o) (operation_text p)).0 texts.1)
          ∙ operation_read p),
    )

not_passthrough :
    all (λ r. all (λ o. not (tool_name r o == "passthrough")) operations) resources ≡ true
unfolding tool_name starts_with
not_passthrough = refl

-- No capability's tool is called passthrough.
pub tool_name-ne-passthrough :
    (r : ResourceName) (o : Operation) → (tool_name r o == "passthrough") ≡ false
tool_name-ne-passthrough r o = ground (
  arith,
  each_operation (λ o. not (tool_name r o == "passthrough"))
      (each_resource (λ r. all (λ o. not (tool_name r o == "passthrough")) operations)
        not_passthrough r)
      o,
)
