-- ===== src/Mcp/Server/Calls.antt =====
-- src/lib/mcp/server.ts: a provider is called only for a tool of its own that the key may use.
use mathlib.Core.List.{Memᴰ}
use openipaas.Prelude.{
  String, true, false, ◌≡◌, refl, sym, ap, ◌∙◌, ◌⊎◌, inl, inr, Option, none, some, List, [], ◌∷◌,
  ◌==◌, ltb, filter, arith, Bool-cases, Option-cases, mem_of_filter, eq_iff,
}
use openipaas.Prelude.Text
use openipaas.Prelude.Text.{starts_with}
use openipaas.Mcp.Json.{Json, Fields, get}
use openipaas.Mcp.Protocol.{JsonRpcRequest}
use openipaas.Mcp.Tools.{ToolBinding, binding_for}
use openipaas.Mcp.Server.{
  McpConnection, McpContext, Builtins, CallOutcome, longest, connection_for, is_allowed,
  asks_in_vain, invoke, call_bound, call_named, call_with, call_tool, fields_or_empty,
}
use openipaas.Mcp.Server.Dispatch.{dispatch}

module _ {W : Type 0} (builtins : Builtins) (ctx : McpContext W) where
  mem_of_longest :
      (cs : List (McpConnection W)) (c : McpConnection W)
      → longest builtins ctx cs ≡ some c
      → Memᴰ c cs
  mem_of_longest [] c h = let absurd : ⊥ = cc in elim absurd [ ]
  mem_of_longest (d ∷ ds) c h = elim (Option-cases (longest builtins ctx ds)) [
    | inl e ↦ Memᴰ.head (some_inj (sym h ∙ alone e))
    | inr (x, e) ↦ elim (Bool-cases (ltb (Text.length d.prefix) (Text.length x.prefix))) [
      | inl longer ↦ Memᴰ.tail (mem_of_longest ds c (e ∙ sym (sym h ∙ beaten x e longer)))
      | inr short ↦ Memᴰ.head (some_inj (sym h ∙ kept x e short))
    ]
  ]
    where
      some_inj : {a b : McpConnection W} → some a ≡ some b → a ≡ b
      some_inj {a} p = ap (λ o. elim o [ none ↦ a | some y ↦ y ]) p

      alone : longest builtins ctx ds ≡ none → longest builtins ctx (d ∷ ds) ≡ some d
      alone p = rw p refl

      beaten :
          (x : McpConnection W)
          → longest builtins ctx ds ≡ some x
          → ltb (Text.length d.prefix) (Text.length x.prefix) ≡ true
          → longest builtins ctx (d ∷ ds) ≡ some x
      beaten x p q = rw p (rw q refl)

      kept :
          (x : McpConnection W)
          → longest builtins ctx ds ≡ some x
          → ltb (Text.length d.prefix) (Text.length x.prefix) ≡ false
          → longest builtins ctx (d ∷ ds) ≡ some d
      kept x p q = rw p (rw q refl)

  connection_for-own :
      (name : String) (c : McpConnection W)
      → connection_for builtins ctx name ≡ some c
      → Memᴰ c ctx.connections × (starts_with name c.prefix ≡ true)
  unfolding connection_for
  connection_for-own name c h =
      mem_of_filter (λ (d : McpConnection W). starts_with name d.prefix) ctx.connections c
        (mem_of_longest
          (filter (λ (d : McpConnection W). starts_with name d.prefix) ctx.connections) c h)

  -- A call of a connection's method for a tool of its own, which the key's scopes allow and whose
  -- filter the provider has.
  abbrev pub IsAuthorized : Option Fields → W → CallOutcome × W → Type 0
  IsAuthorized params w outcome =
      (c : McpConnection W) × (name : String) × (given : Fields) × (b : ToolBinding) × (params
        ≡ some given)
      × (get "name" given ≡ some (Json.text name))
      × Memᴰ c ctx.connections
      × (starts_with name c.prefix ≡ true)
      × (binding_for c.manifest name c.prefix ≡ some b)
      × (is_allowed builtins ctx b (fields_or_empty (get "arguments" given)) ≡ true)
      × (asks_in_vain builtins ctx c b (fields_or_empty (get "arguments" given)) ≡ false)
      × (outcome ≡ invoke builtins ctx c name b (fields_or_empty (get "arguments" given)) w)

  call_bound-cases :
      (c : McpConnection W) (name : String) (b : ToolBinding) (args : Fields) (w : W)
      → ((call_bound builtins ctx c name b args w).1 ≡ w)
        ⊎ ((is_allowed builtins ctx b args ≡ true)
            × (asks_in_vain builtins ctx c b args ≡ false)
            × (call_bound builtins ctx c name b args w ≡ invoke builtins ctx c name b args w))
  unfolding call_bound
  call_bound-cases c name b args w = elim (Bool-cases (is_allowed builtins ctx b args)) [
    | inr denied ↦ inl (rw denied refl)
    | inl allowed ↦ elim (Bool-cases (asks_in_vain builtins ctx c b args)) [
      | inl vain ↦ inl (rw allowed (rw vain refl))
      | inr fine ↦ inr (allowed, fine, rw allowed (rw fine refl))
    ]
  ]

  call_named-cases :
      (given : Fields) (name : String) (o : Option (McpConnection W)) (w : W)
      → get "name" given ≡ some (Json.text name)
      → connection_for builtins ctx name ≡ o
      → let outcome = call_named builtins ctx name (fields_or_empty (get "arguments" given)) o w in
        (outcome.1 ≡ w) ⊎ IsAuthorized (some given) w outcome
  unfolding call_named
  call_named-cases given name none w h k = inl refl
  call_named-cases given name (some c) w h k =
      elim (Option-cases (binding_for c.manifest name c.prefix)) [
        | inl e ↦ inl (rw (e, call_named) refl)
        | inr (b, e) ↦
            rw (e, call_named)
              (elim (call_bound-cases c name b (fields_or_empty (get "arguments" given)) w) [
                | inl same ↦ inl same
                | inr (allowed, fine, called) ↦
                    let (mine, starts) = connection_for-own name c k in
                    inr (c, name, given, b, refl, h, mine, starts, e, allowed, fine, called)
              ])
      ]

  call_with-cases :
      (given : Fields) (o : Option Json) (w : W)
      → get "name" given ≡ o
      → let outcome = call_with builtins ctx given o w in
        (outcome.1 ≡ w) ⊎ IsAuthorized (some given) w outcome
  unfolding call_with
  call_with-cases given (some (Json.text name)) w h =
      call_named-cases given name (connection_for builtins ctx name) w h refl
  call_with-cases given (some Json.null) w h = inl refl
  call_with-cases given (some (Json.boolean x)) w h = inl refl
  call_with-cases given (some (Json.number x)) w h = inl refl
  call_with-cases given (some (Json.array x)) w h = inl refl
  call_with-cases given (some (Json.object x)) w h = inl refl
  call_with-cases given none w h = inl refl

  call_tool-cases :
      (params : Option Fields) (w : W)
      → ((call_tool builtins ctx params w).1 ≡ w)
        ⊎ IsAuthorized params w (call_tool builtins ctx params w)
  unfolding call_tool
  call_tool-cases none w = inl refl
  call_tool-cases (some given) w = call_with-cases given (get "name" given) w refl

  -- A message changes nothing, or it is a tools/call for a tool of a connection of this server, by its
  -- name and the connection's prefix, that the key's scopes allow and whose updatedAfter the provider can
  -- filter by; then the world is what the connection's method makes of it. For passthrough the scopes are
  -- asked with the method of the arguments if it is a text, and with GET if it is anything else, although
  -- the provider is handed the arguments as they are.
  pub dispatch-guarded :
      (resources : Json) (read_resource : String → Option Fields) (message : JsonRpcRequest) (w : W)
      → ((dispatch builtins ctx resources read_resource message w).1 ≡ w)
        ⊎ ((message.method ≡ "tools/call")
            × IsAuthorized message.params w (call_tool builtins ctx message.params w)
            × ((dispatch builtins ctx resources read_resource message w).1
                ≡ (call_tool builtins ctx message.params w).1))
  unfolding dispatch
  dispatch-guarded resources read_resource message w =
      elim (Bool-cases (message.method == "tools/call")) [
        | inr other ↦ inl (ground (arith, other))
        | inl calls ↦ elim (call_tool-cases message.params w) [
          | inl same ↦ inl (ground (arith, same))
          | inr authorized ↦
              let e = (eq_iff message.method "tools/call").0 calls in inr (e, authorized, rw e refl)
        ]
      ]
