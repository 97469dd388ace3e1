-- ===== src/Webhooks/Tests.antt =====
-- src/lib/webhooks.ts: events and deliveries at concrete inputs.
use mathlib.Core.List.{Memᴰ}
use openipaas.Prelude.{◌+◌, String, true, ◌≡◌, refl, some, [], ◌∷◌, arith, All, length}
use openipaas.Prelude.Text
use openipaas.Prelude.Assoc
use openipaas.Webhooks.{
  expired, Endpoint, Delivery, DedupeKey, Event, Signed, targets, queued, emit, is_recent,
}
use openipaas.Webhooks.Runs.{Sender, plain, answered, due, deliver_pending}
use openipaas.Webhooks.Attempts.{IsSound, deliver_pending-IsSound}
use openipaas.Webhooks.Dedupe.{here, run, emit_once}

abbrev endpoint : Endpoint
endpoint = record {
  id = "ep";
  client_id = "client";
  url = "https://example.com/hook";
  secret = "sealed";
  events = expired ∷ [];
  active = true;
}

abbrev by_connection : DedupeKey
by_connection = record { field = "connectionId"; value = "acc" }

abbrev broken : Event
broken = record {
  client_id = "client";
  event_type = expired;
  payload = ("connectionId", "acc") ∷ [];
  dedupe = some (by_connection, 3600000);
}

abbrev hmac : String → String → String
hmac secret text = Text.◌++◌ secret text

abbrev sender : Sender
sender = record {
  hmac = hmac;
  decrypt = λ s. plain s;
  render = λ d. "{}";
  post = λ p. answered 500;
}

abbrev waiting : Delivery
waiting = queued (λ s. s) broken 1000 endpoint

-- The fifth attempt of this one failed.
abbrev last_chance : Delivery
last_chance = record waiting { id = "last"; attempts = 5 }

webhook_tests :
    ((emit (λ s. s) broken 1000 (endpoint ∷ []) []).0 ≡ 1)
    × ((emit (λ s. s) broken 2000 (endpoint ∷ []) (waiting ∷ [])).0 ≡ 0)
    × ((emit (λ s. s) broken 4000000 (endpoint ∷ []) (waiting ∷ [])).0 ≡ 1)
unfolding emit targets is_recent Assoc.lookup
webhook_tests = (refl, refl, refl)

deliver_pending-IsSound_example :
    All IsSound (deliver_pending sender 5000 50 (waiting ∷ last_chance ∷ [])).1
    × ((deliver_pending sender 5000 50 (waiting ∷ last_chance ∷ [])).0.delivered_count
          + (deliver_pending sender 5000 50 (waiting ∷ last_chance ∷ [])).0.failed_count
        ≡ length (due 5000 50 (waiting ∷ last_chance ∷ [])))
deliver_pending-IsSound_example =
    deliver_pending-IsSound sender 5000 50 (waiting ∷ last_chance ∷ [])
      ((omega arith, refl), ((omega arith, refl), tt))

abbrev signed : Signed
signed = record { secret = "s"; timestamp = "1000"; body = "{}"; signature = "sha256=s1000.{}" }

told : Memᴰ endpoint (targets broken 1000 (endpoint ∷ []) [])
unfolding targets
told = Memᴰ.head refl

-- The run at 5000 comes to the first attempt of the delivery, which fails.
emit_once_example : ¬ Memᴰ endpoint (
    targets broken 9000
      (endpoint ∷ [])
      (deliver_pending sender 5000 50 (emit (λ s. s) broken 1000 (endpoint ∷ []) []).1).1)
unfolding Assoc.lookup
emit_once_example =
    emit_once broken broken by_connection 3600000 refl (omega arith) refl (λ s. s) 1000 9000
      (endpoint ∷ []) (endpoint ∷ []) []
      (deliver_pending sender 5000 50 (emit (λ s. s) broken 1000 (endpoint ∷ []) []).1).1 endpoint
      refl (omega arith) told (run sender 5000 50 here)
