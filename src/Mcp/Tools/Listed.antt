-- ===== src/Mcp/Tools/Listed.antt =====
-- src/lib/mcp/tools.ts: a tool that is listed can be called.
use mathlib.Core.List.{Memᴰ}
use openipaas.Prelude.{
  String, Bool, true, false, ◌&&◌, ◌||◌, ◌≡◌, refl, sym, ap, ◌∙◌, ◌⊎◌, inl, inr, some, List, [],
  ◌∷◌, ◌++◌, ◌==◌, is_some, arith, Bool-cases, Option-cases, subst,
}
use openipaas.Prelude.Text
use openipaas.Prelude.Text.{starts_with, slice, to_upper_case}
use openipaas.Scopes.{read, write, passthrough, allows}
use openipaas.Providers.Manifests.{Manifest, ResourceName, Operation}
use openipaas.Providers.Operations.{method_for}
use openipaas.Mcp.Tools.{
  tool_name, McpTool, ToolBinding, raw, resource_call, scope_for_binding, tool_of, offered,
  operation_tools, capability_tools, passthrough_tool, passthrough_tools, insert_tool, sort_tools,
  tools_for, binding_of, capability_binding, binding_for,
}
use openipaas.Mcp.Tools.Names.{tool_name-ne-passthrough}
use openipaas.Mcp.Tools.Bound.{capability_binding-found, slice-append, starts_with-append}

mem_of_append {ℓ} :
    {A : Type ℓ} {a : A} (xs : List A) {ys : List A} → Memᴰ a (xs ++ ys) → Memᴰ a xs ⊎ Memᴰ a ys
mem_of_append [] k = inr k
mem_of_append (x ∷ xs) (Memᴰ.head same) = inl (Memᴰ.head same)
mem_of_append (x ∷ xs) (Memᴰ.tail k) = elim (mem_of_append xs k) [
  | inl here ↦ inl (Memᴰ.tail here)
  | inr later ↦ inr later
]

module _ (m : Manifest) (prefix : String) (scopes : List String) where
  -- The binding of a tool's name, which the key's scopes allow to call, for passthrough with GET or
  -- with POST.
  abbrev pub IsCallable : McpTool → Type 0
  IsCallable t =
      (b : ToolBinding) × (binding_for m t.name prefix ≡ some b)
      × ((allows scopes (scope_for_binding b "GET").0 (some (scope_for_binding b "GET").1) ≡ true)
          ⊎ ((b ≡ raw)
              × (allows scopes (scope_for_binding b "POST").0 (some (scope_for_binding b "POST").1)
                  ≡ true)))

  method_cases :
      (r : ResourceName) (o : Operation)
      → is_some (method_for r o) ≡ true
      → (method : String) × (method_for r o ≡ some method)
  method_cases r o h = elim (Option-cases (method_for r o)) [
    | inl e ↦ (let absurd : ⊥ = ground (arith, h, e) in elim absurd [ ])
    | inr found ↦ found
  ]

  binding_for-prefix :
      (name : String)
      → (name == "passthrough") ≡ false
      → binding_for m (Text.◌++◌ prefix name) prefix ≡ capability_binding name m.capabilities
  unfolding binding_for
  binding_for-prefix name h =
      rw (slice-append prefix name, starts_with-append prefix name, binding_for) (rw h refl)

  tool_of-IsCallable :
      (r : ResourceName) (o : Operation) (os : List Operation)
      → Memᴰ (r, os) m.capabilities
      → Memᴰ o os
      → offered m prefix scopes r o ≡ true
      → IsCallable (tool_of m prefix scopes r o)
  unfolding tool_of scope_for_binding binding_of
  tool_of-IsCallable r o os n k h =
      let (method, found) = method_cases r o (ground (arith, h)) in
      (
        resource_call method r o,
        binding_for-prefix (tool_name r o) (tool_name-ne-passthrough r o)
            ∙ capability_binding-found (tool_name r o) r o refl os m.capabilities n k
            ∙ ap (binding_of r o) found,
        inl (ground (arith, h)),
      )

  operation_tools-IsCallable :
      (r : ResourceName) (all some_of : List Operation)
      → Memᴰ (r, all) m.capabilities
      → ((o : Operation) → Memᴰ o some_of → Memᴰ o all)
      → (t : McpTool) → Memᴰ t (operation_tools m prefix scopes r some_of)
      → IsCallable t
  unfolding operation_tools
  operation_tools-IsCallable r all [] n within t k = elim k [ ]
  operation_tools-IsCallable r all (o ∷ os) n within t k =
      elim (Bool-cases (offered m prefix scopes r o)) [
        | inl h ↦
            listed (tool_of-IsCallable r o all n (within o (Memᴰ.head refl)) h)
              (operation_tools-IsCallable r all os n (λ p i. within p (Memᴰ.tail i)) t)
              (subst (λ (l : List McpTool). Memᴰ t l) (passes h) k)
        | inr h ↦
            operation_tools-IsCallable r all os n (λ p i. within p (Memᴰ.tail i)) t
              (subst (λ (l : List McpTool). Memᴰ t l) (fails h) k)
      ]
    where
      passes :
          offered m prefix scopes r o ≡ true
          → operation_tools m prefix scopes r (o ∷ os)
            ≡ tool_of m prefix scopes r o ∷ operation_tools m prefix scopes r os
      passes e = rw (e, operation_tools) refl

      fails :
          offered m prefix scopes r o ≡ false
          → operation_tools m prefix scopes r (o ∷ os) ≡ operation_tools m prefix scopes r os
      fails e = rw (e, operation_tools) refl

      listed :
          IsCallable (tool_of m prefix scopes r o)
          → (Memᴰ t (operation_tools m prefix scopes r os) → IsCallable t)
          → Memᴰ t (tool_of m prefix scopes r o ∷ operation_tools m prefix scopes r os)
          → IsCallable t
      listed callable later (Memᴰ.head same) = subst IsCallable (sym same) callable
      listed callable later (Memᴰ.tail i) = later i

  capability_tools-IsCallable :
      (caps : List (ResourceName × List Operation))
      → ((c : ResourceName × List Operation) → Memᴰ c caps → Memᴰ c m.capabilities)
      → (t : McpTool) → Memᴰ t (capability_tools m prefix scopes caps)
      → IsCallable t
  unfolding capability_tools
  capability_tools-IsCallable [] within t k = elim k [ ]
  capability_tools-IsCallable ((r, os) ∷ caps) within t k =
      elim (mem_of_append (operation_tools m prefix scopes r os) k) [
        | inl here ↦
            operation_tools-IsCallable r os os (within (r, os) (Memᴰ.head refl)) (λ o i. i) t here
        | inr later ↦ capability_tools-IsCallable caps (λ c i. within c (Memᴰ.tail i)) t later
      ]

  abbrev raw_allowed : Bool
  raw_allowed =
      m.passthrough
      && (allows scopes read (some passthrough) || allows scopes write (some passthrough))

  without : raw_allowed ≡ false → passthrough_tools m prefix scopes ≡ []
  unfolding passthrough_tools
  without e = rw e refl

  with_one :
      raw_allowed ≡ true → passthrough_tools m prefix scopes ≡ passthrough_tool m prefix scopes ∷ []
  unfolding passthrough_tools
  with_one e = rw e refl

  bound : raw_allowed ≡ true → binding_for m (Text.◌++◌ prefix "passthrough") prefix ≡ some raw
  unfolding binding_for
  bound e =
      rw (slice-append prefix "passthrough", starts_with-append prefix "passthrough", binding_for)
        (ground (arith, e))

  callable : raw_allowed ≡ true → IsCallable (passthrough_tool m prefix scopes)
  unfolding passthrough_tool scope_for_binding to_upper_case
  callable e = (raw, bound e, ground (arith, e))

  passthrough_tools-IsCallable :
      (t : McpTool) → Memᴰ t (passthrough_tools m prefix scopes) → IsCallable t
  passthrough_tools-IsCallable t k = elim (Bool-cases raw_allowed) [
    | inr not_raw ↦
        (let none_there : Memᴰ t [] = subst (λ (l : List McpTool). Memᴰ t l) (without not_raw) k in
          elim none_there [ ])
    | inl is_raw ↦ only (subst (λ (l : List McpTool). Memᴰ t l) (with_one is_raw) k) is_raw
  ]
    where
      only : Memᴰ t (passthrough_tool m prefix scopes ∷ []) → raw_allowed ≡ true → IsCallable t
      only (Memᴰ.head same) e = subst IsCallable (sym same) (callable e)
      only (Memᴰ.tail i) e = elim i [ ]

  module _ (before : String → String → Bool) where
    mem_of_insert :
        (t u : McpTool) (us : List McpTool)
        → Memᴰ t (insert_tool m prefix scopes before u us)
        → Memᴰ t (u ∷ us)
    unfolding insert_tool
    mem_of_insert t u [] k = k
    mem_of_insert t u (v ∷ vs) k = elim (Bool-cases (before u.name v.name)) [
      | inl first ↦ subst (λ (l : List McpTool). Memᴰ t l) (stands first) k
      | inr later ↦
          swapped (mem_of_insert t u vs) (subst (λ (l : List McpTool). Memᴰ t l) (goes later) k)
    ]
      where
        stands :
            before u.name v.name ≡ true → insert_tool m prefix scopes before u (v ∷ vs) ≡ u ∷ v ∷ vs
        stands e = rw (e, insert_tool) refl

        goes :
            before u.name v.name ≡ false
            → insert_tool m prefix scopes before u (v ∷ vs)
              ≡ v ∷ insert_tool m prefix scopes before u vs
        goes e = rw (e, insert_tool) refl

        swapped :
            (Memᴰ t (insert_tool m prefix scopes before u vs) → Memᴰ t (u ∷ vs))
            → Memᴰ t (v ∷ insert_tool m prefix scopes before u vs)
            → Memᴰ t (u ∷ v ∷ vs)
        swapped f (Memᴰ.head same) = Memᴰ.tail (Memᴰ.head same)
        swapped f (Memᴰ.tail i) = under (f i)
          where
            under : Memᴰ t (u ∷ vs) → Memᴰ t (u ∷ v ∷ vs)
            under (Memᴰ.head same) = Memᴰ.head same
            under (Memᴰ.tail j) = Memᴰ.tail (Memᴰ.tail j)

    mem_of_sort :
        (t : McpTool) (ts : List McpTool)
        → Memᴰ t (sort_tools m prefix scopes before ts)
        → Memᴰ t ts
    unfolding sort_tools
    mem_of_sort t [] k = k
    mem_of_sort t (u ∷ us) k =
        within (mem_of_sort t us) (mem_of_insert t u (sort_tools m prefix scopes before us) k)
      where
        within :
            (Memᴰ t (sort_tools m prefix scopes before us) → Memᴰ t us)
            → Memᴰ t (u ∷ sort_tools m prefix scopes before us)
            → Memᴰ t (u ∷ us)
        within f (Memᴰ.head same) = Memᴰ.head same
        within f (Memᴰ.tail i) = Memᴰ.tail (f i)

    -- Every tool that is listed to a key can be called by it: its name resolves to a provider method,
    -- or to passthrough, and the key's scopes allow the call, for passthrough with GET or with POST.
    pub tools_for-IsCallable :
        (t : McpTool) → Memᴰ t (tools_for m prefix scopes before) → IsCallable t
    unfolding tools_for
    tools_for-IsCallable t k =
        elim (mem_of_append (capability_tools m prefix scopes m.capabilities) (mem_of_sort t _ k)) [
          | inl here ↦ capability_tools-IsCallable m.capabilities (λ c i. i) t here
          | inr later ↦ passthrough_tools-IsCallable t later
        ]
