-- ===== src/Mcp/Tools/Bound.antt =====
-- src/lib/mcp/tools.ts: the name of a capability's tool is bound to that capability.
use mathlib.Core.List.{Memᴰ}
use text.Mathlib.TextLemmas.{nil-append, cons-append, length-cons}
use openipaas.Prelude.{
  String, true, ◌≡◌, refl, sym, ap, ◌∙◌, ◌⊎◌, inl, inr, Option, none, some, List, [], ◌∷◌, ◌==◌,
  arith, Bool-cases, subst, eq_iff,
}
use openipaas.Prelude.Text
use openipaas.Prelude.Text.{starts_with, slice, to_upper_case}
use openipaas.Providers.Manifests.{ResourceName, Operation}
use openipaas.Providers.Operations.{method_for}
use openipaas.Mcp.Tools.{tool_name, ToolBinding, binding_of, operation_binding, capability_binding}
use openipaas.Mcp.Tools.Names.{tool_name_inj}

module _ (name : String) (resource : ResourceName) (operation : Operation)
    (e : tool_name resource operation ≡ name) where
  abbrev pub own : Option ToolBinding
  own = binding_of resource operation (method_for resource operation)

  same_binding :
      (r : ResourceName) (o : Operation)
      → tool_name r o ≡ name
      → binding_of r o (method_for r o) ≡ own
  same_binding r o h =
      let (s, t) = tool_name_inj r resource o operation (h ∙ sym e) in rw (s, t) refl

  -- The operations of a resource give the name no binding, or that of the capability.
  operation_binding-own :
      (r : ResourceName) (os : List Operation)
      → (operation_binding name r os ≡ none) ⊎ (operation_binding name r os ≡ some own)
  unfolding operation_binding
  operation_binding-own r [] = inl refl
  operation_binding-own r (o ∷ os) = elim (Bool-cases (tool_name r o == name)) [
    | inl h ↦ inr (rw h (ap some (same_binding r o ((eq_iff (tool_name r o) name).0 h))))
    | inr h ↦ rw h (operation_binding-own r os)
  ]

  operation_binding-found :
      (os : List Operation) → Memᴰ operation os → operation_binding name resource os ≡ some own
  unfolding operation_binding
  operation_binding-found [] m = elim m [ ]
  operation_binding-found (o ∷ os) (Memᴰ.head same) =
      elim (Bool-cases (tool_name resource o == name)) [
        | inl h ↦
            rw h (ap some (same_binding resource o ((eq_iff (tool_name resource o) name).0 h)))
        | inr h ↦ ground (
          arith,
          h,
          (eq_iff (tool_name resource o) name).1 (ap (tool_name resource) (sym same) ∙ e),
        )
      ]
  operation_binding-found (o ∷ os) (Memᴰ.tail m) =
      elim (Bool-cases (tool_name resource o == name)) [
        | inl h ↦
            rw h (ap some (same_binding resource o ((eq_iff (tool_name resource o) name).0 h)))
        | inr h ↦ rw h (operation_binding-found os m)
      ]

  pub capability_binding-found :
      (os : List Operation) (caps : List (ResourceName × List Operation))
      → Memᴰ (resource, os) caps
      → Memᴰ operation os
      → capability_binding name caps ≡ own
  unfolding capability_binding
  capability_binding-found os [] m n = elim m [ ]
  capability_binding-found os ((r, os') ∷ caps) (Memᴰ.head same) n =
      let here : operation_binding name r os' ≡ some own =
        subst (λ (c : ResourceName × List Operation). operation_binding name c.0 c.1 ≡ some own)
          same (operation_binding-found os n) in
      rw (here, capability_binding) refl
  capability_binding-found os ((r, os') ∷ caps) (Memᴰ.tail m) n =
      elim (operation_binding-own r os') [
        | inl none_there ↦
            rw (none_there, capability_binding) (capability_binding-found os caps m n)
        | inr here ↦ rw (here, capability_binding) refl
      ]

pub slice-append : (s t : String) → slice (Text.length s) (Text.◌++◌ s t) ≡ t
unfolding slice
slice-append String.[] t = nil-append t
slice-append (String.◌∷◌ c s) t = rw (cons-append c s t, length-cons c s, slice) (slice-append s t)

pub starts_with-append : (s t : String) → starts_with (Text.◌++◌ s t) s ≡ true
unfolding starts_with
starts_with-append String.[] t = refl
starts_with-append (String.◌∷◌ c s) t =
    rw (cons-append c s t) (ground (arith, starts_with-append s t))
