-- ===== src/Providers/Operations.antt =====
-- src/lib/providers/core/operations.ts: which provider method serves which capability.
use openipaas.Prelude.{String, ◌&&◌, Option, none, some, List, [], ◌∷◌, ◌==◌, if◌then◌else◌}
use openipaas.Providers.Manifests.{
  ResourceName, customers, products, categories, brands, units, sales, sellers, contacts, companies,
  deals, pipelines, resource_text, Operation,
}

abbrev pub operation_text : Operation → String
operation_text Operation.list = "list"
operation_text Operation.get = "get"
operation_text Operation.search = "search"
operation_text Operation.create = "create"
operation_text Operation.upsert = "upsert"
operation_text Operation.update = "update"
operation_text Operation.delete = "delete"
operation_text Operation.bulk_delete = "bulkDelete"
operation_text Operation.bulk_activate = "bulkActivate"
operation_text Operation.bulk_deactivate = "bulkDeactivate"
operation_text Operation.pdf = "pdf"

pub record ResourceMethod : Type 0 where
  pub method : String
  pub resource : ResourceName
  pub operation : Operation

abbrev serves : String → ResourceName → Operation → ResourceMethod
serves method resource operation = record {
  method = method;
  resource = resource;
  operation = operation;
}

abbrev pub resource_methods : List ResourceMethod
resource_methods =
    serves "listCustomers" customers Operation.list
    ∷ serves "getCustomer" customers Operation.get
    ∷ serves "createCustomer" customers Operation.create
    ∷ serves "updateCustomer" customers Operation.update
    ∷ serves "bulkActivateCustomers" customers Operation.bulk_activate
    ∷ serves "bulkDeactivateCustomers" customers Operation.bulk_deactivate
    ∷ serves "bulkDeleteCustomers" customers Operation.bulk_delete
    ∷ serves "listProducts" products Operation.list
    ∷ serves "getProduct" products Operation.get
    ∷ serves "createProduct" products Operation.create
    ∷ serves "updateProduct" products Operation.update
    ∷ serves "deleteProduct" products Operation.delete
    ∷ serves "listCategories" categories Operation.list
    ∷ serves "listBrands" brands Operation.list
    ∷ serves "listUnits" units Operation.list
    ∷ serves "listSales" sales Operation.list
    ∷ serves "getSale" sales Operation.get
    ∷ serves "createSale" sales Operation.create
    ∷ serves "getSalePdf" sales Operation.pdf
    ∷ serves "bulkDeleteSales" sales Operation.bulk_delete
    ∷ serves "listSellers" sellers Operation.list
    ∷ serves "listContacts" contacts Operation.list
    ∷ serves "getContact" contacts Operation.get
    ∷ serves "searchContacts" contacts Operation.search
    ∷ serves "createContact" contacts Operation.create
    ∷ serves "upsertContact" contacts Operation.upsert
    ∷ serves "listCompanies" companies Operation.list
    ∷ serves "getCompany" companies Operation.get
    ∷ serves "createCompany" companies Operation.create
    ∷ serves "listDeals" deals Operation.list
    ∷ serves "getDeal" deals Operation.get
    ∷ serves "createDeal" deals Operation.create
    ∷ serves "listPipelines" pipelines Operation.list
    ∷ []

method_in : List ResourceMethod → ResourceName → Operation → Option String
method_in [] resource operation = none
method_in (m ∷ methods) resource operation =
    if resource_text m.resource == resource_text resource
      && operation_text m.operation == operation_text operation
    then some m.method
    else method_in methods resource operation

unfoldable pub method_for : ResourceName → Operation → Option String
unfolding method_in
method_for resource operation = method_in resource_methods resource operation
