-- ===== src/Webhooks/Events.antt =====
-- src/lib/webhooks.ts: `emitConnectionEvent`, the events that tell of a connection.
-- The run of deliveries that it starts when it has queued some is `deliver_pending`.
use openipaas.Prelude.{
  ℕ, ◌*◌, String, Option, none, some, List, [], ◌∷◌, ◌==◌, if◌then◌else◌, get_or,
}
use openipaas.Prelude.Text.{trim, is_empty}
use openipaas.Prelude.Assoc.{Assoc}
use openipaas.Providers.Manifests.{Registry, Manifest, find_manifest}
use openipaas.UnifiedAuth.Defs.{LinkedAccount}
use openipaas.Webhooks.{
  EventType, connected, expired, disconnected, Endpoint, Delivery, DedupeKey, Event, emit,
}

-- EXPIRY_DEDUPE_MS
abbrev pub expiry_dedupe_ms : ℕ
expiry_dedupe_ms = 60 * 60 * 1000

-- s || t
abbrev or_text : String → String → String
or_text s t = if is_empty s then t else s

abbrev key_of : LinkedAccount → DedupeKey
key_of a = record { field = "connectionId"; value = a.id }

abbrev dedupe_of : LinkedAccount → EventType → Option (DedupeKey × ℕ)
dedupe_of a expired = some (key_of a, expiry_dedupe_ms)
dedupe_of a connected = none
dedupe_of a disconnected = none

abbrev reason_entries : Option String → Assoc String
reason_entries none = []
reason_entries (some reason) = if is_empty reason then [] else ("reason", reason) ∷ []

abbrev manifest_name : Option Manifest → Option String
manifest_name none = none
manifest_name (some m) = some m.name

unfoldable pub event_of : Registry → LinkedAccount → EventType → (reason : Option String) → Event
unfolding trim
event_of registry a type reason =
    let name = manifest_name (find_manifest registry a.provider) in
    let label : String = elim a.label [ none ↦ "" | some l ↦ trim l ] in
    record {
      client_id = a.client_id;
      event_type = type;
      payload =
          ("connectionId", a.id)
          ∷ ("service", a.provider)
          ∷ ("serviceName", get_or name a.provider)
          ∷ ("label", or_text label (or_text (get_or name "") a.provider))
          ∷ reason_entries reason;
      dedupe = dedupe_of a type;
    }

-- findUnique by id
account_at : String → List LinkedAccount → Option LinkedAccount
account_at id [] = none
account_at id (a ∷ rest) = if a.id == id then some a else account_at id rest

unfoldable pub emit_connection_event :
    Registry
    → (id_of : String → String) → EventType
    → (account_id : String) → (reason : Option String) → (now : ℕ) → List LinkedAccount
    → List Endpoint
    → List Delivery
    → ℕ × List Delivery
unfolding account_at event_of emit
emit_connection_event registry id_of type account_id reason now accounts endpoints deliveries =
    elim (account_at account_id accounts) [
      | none ↦ (0, deliveries)
      | some a ↦ emit id_of (event_of registry a type reason) now endpoints deliveries
    ]
