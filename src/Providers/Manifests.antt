-- ===== src/Providers/Manifests.antt =====
-- src/lib/providers/core/types.ts, manifests.ts and registry.ts: what the platform knows of a provider.
-- The registry and the list of manifests hold the same slugs, so one list stands for both.
use openipaas.Prelude.{
  String, Bool, Option, none, some, List, [], ◌∷◌, ◌==◌, if◌then◌else◌, is_some,
}
use openipaas.Prelude.Text.{trim, to_upper_case, ◌++◌}
use openipaas.Providers.Errors.{ProviderError, provider_error, invalid_request}
use openipaas.Scopes.{ScopeResource, resource_name}
use openipaas.Scopes

pub data ResourceName : Type 0 where
  customers products categories brands units sales sellers contacts : ResourceName
  companies deals pipelines : ResourceName

-- The same word as a resource that a scope can name.
abbrev pub as_scope : ResourceName → ScopeResource
as_scope customers = Scopes.customers
as_scope products = Scopes.products
as_scope categories = Scopes.categories
as_scope brands = Scopes.brands
as_scope units = Scopes.units
as_scope sales = Scopes.sales
as_scope sellers = Scopes.sellers
as_scope contacts = Scopes.contacts
as_scope companies = Scopes.companies
as_scope deals = Scopes.deals
as_scope pipelines = Scopes.pipelines

abbrev pub resource_text : ResourceName → String
resource_text r = resource_name (as_scope r)

pub data Operation : Type 0 where
  list get search create update upsert delete : Operation
  bulk_delete bulk_activate bulk_deactivate pdf : Operation

-- How a provider authenticates; the URLs and fields that only screens show are left out.
pub data AuthConfig : Type 0 where
  oauth2 : (token_url : String) → (basic : Bool) → AuthConfig
  static : AuthConfig

pub record Manifest : Type 0 where
  pub slug : String
  pub name : String
  pub base_url : String
  pub auth : AuthConfig
  pub capabilities : List (ResourceName × List Operation)
  pub incremental : List ResourceName
  pub stable_list : List ResourceName
  pub passthrough : Bool
  pub enabled : Bool

abbrev pub Registry : Type 0
Registry = List Manifest

unfoldable pub normalize_slug : String → String
unfolding trim to_upper_case
normalize_slug slug = to_upper_case (trim slug)

-- MANIFESTS[key]
manifest_at : String → Registry → Option Manifest
manifest_at key [] = none
manifest_at key (m ∷ ms) = if m.slug == key then some m else manifest_at key ms

unfoldable pub find_manifest : Registry → String → Option Manifest
unfolding manifest_at normalize_slug
find_manifest registry slug = manifest_at (normalize_slug slug) registry

unfoldable pub is_known_provider : Registry → String → Bool
unfolding find_manifest
is_known_provider registry slug = is_some (find_manifest registry slug)

-- The error that `getManifest` raises for a slug that the registry lacks.
abbrev pub unknown_provider : String → ProviderError
unknown_provider slug =
    provider_error invalid_request ("Unknown provider \"" ++ slug ++ "\".")
      (record { provider = none; details = none; retryable = none; status = some 400 })
