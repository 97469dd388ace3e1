-- ===== src/Idempotency/Tests.antt =====
-- src/lib/idempotency.ts: a write and its repeats at concrete inputs.
use openipaas.Idempotency.Refinement.{
  Event, remembered, purged, table_after, outcomes_after, find_row-refines,
}
use openipaas.Prelude.{
  false, List, ◌∷◌, eq_iff, String, true, ◌≡◌, ◌≢◌, refl, none, some, [], inr, arith, if◌then◌else◌,
  ◌==◌, get_or,
}
use openipaas.Prelude.Text
use openipaas.Idempotency.{
  Digest, hash_request, miss, conflict, replay, Write, find_row, lookup, remember,
}
use openipaas.Idempotency.Laws.{lookup-remember, remember_first, lookup-remember_other}

-- A digest that is the text itself, of values that are texts.
abbrev digest : Digest String
digest = record { sha256_hex = λ s. Text.◌++◌ "h" s; stringify = λ body. get_or body "null" }

abbrev sale : Write String
sale = record {
  client_id = "c";
  key = "once";
  endpoint = "POST /api/unified/v1/sales";
  body = some "{}";
}

abbrev refund : Write String
refund = record sale { key = "twice" }

sale-misses : lookup digest sale [] ≡ miss
unfolding lookup find_row
sale-misses = refl

repeat_tests :
    (lookup digest sale (remember digest true sale 201 (some "7") 5 []) ≡ replay 201 (some "7"))
    × (lookup digest (record sale { body = none }) (remember digest true sale 201 (some "7") 5 [])
        ≡ conflict)
unfolding lookup find_row remember
repeat_tests = (refl, refl)

lookup-remember_example :
    lookup digest (record sale { body = none }) (remember digest true sale 201 (some "7") 5 []) ≡ (
      if hash_request digest sale.endpoint sale.body == hash_request digest sale.endpoint none
      then replay 201 (some "7")
      else conflict)
lookup-remember_example =
    lookup-remember digest sale 201 (some "7") 5 [] (record sale { body = none }) refl refl
      sale-misses

kept_first :
    remember digest true sale 409 none 9 (remember digest true sale 201 (some "7") 5 [])
    ≡ remember digest true sale 201 (some "7") 5 []
kept_first = remember_first digest sale 201 (some "7") 5 [] sale 409 none 9 refl refl

other_key : refund.key ≢ sale.key
other_key e = ground (arith, (eq_iff refund.key sale.key).1 e)

lookup-remember_other_example :
    lookup digest refund (remember digest true sale 201 (some "7") 5 []) ≡ lookup digest refund []
lookup-remember_other_example =
    lookup-remember_other digest sale 201 (some "7") 5 [] true refund (inr other_key)

abbrev events : List (Event String)
events =
    remembered true sale 201 (some "7") 5
    ∷ remembered true sale 409 none 6
    ∷ purged 100 50
    ∷ remembered false refund 200 none 60
    ∷ []

find_row-refines_example :
    find_row "c" "once" (table_after digest events [])
    ≡ outcomes_after digest events (λ client_id key. none) "c" "once"
find_row-refines_example = find_row-refines digest events "c" "once"
