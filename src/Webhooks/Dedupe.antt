-- ===== src/Webhooks/Dedupe.antt =====
-- src/lib/webhooks.ts: an event with a dedupe key is not queued again for an endpoint.
use mathlib.Core.List.{Memᴰ}
use openipaas.Prelude.{
  ℕ, ◌+◌, ◌≤◌, ◌<◌, String, Bool, true, false, not, ◌≡◌, refl, ◌∙◌, subst, some, List, [], ◌∷◌,
  ◌++◌, arith, any, map, filter, eq_refl, mem_of_filter, any-append, any-map_of_mem,
}
use openipaas.Prelude.Assoc
use openipaas.Webhooks.{
  event_text, EventType, Endpoint, Delivery, DedupeKey, Event, is_recent, subscribed, targets,
  queued, emit, schedule_retry, mark_delivered,
}
use openipaas.Webhooks.Runs.{
  Sender, Sent, answered, errored, due, update, attempt, change_of, Tally, counted, deliver_all,
  deliver_pending,
}

module _ (e : Event) (k : DedupeKey) (window_ms : ℕ) (keyed : e.dedupe ≡ some (k, window_ms))
    (wide : 0 < window_ms) where
  targets-keyed :
      (now : ℕ) (endpoints : List Endpoint) (deliveries : List Delivery)
      → targets e now endpoints deliveries
        ≡ filter
            (λ p. not (any (is_recent k window_ms now e.event_type p) deliveries))
            (subscribed e endpoints)
  unfolding targets
  targets-keyed now endpoints deliveries = rw (keyed, targets) (ground arith)

  targets-fresh :
      (now : ℕ) (endpoints : List Endpoint) (deliveries : List Delivery) (p : Endpoint)
      → Memᴰ p (targets e now endpoints deliveries)
      → any (is_recent k window_ms now e.event_type p) deliveries ≡ false
  targets-fresh now endpoints deliveries p m =
      let fresh : Endpoint → Bool =
        λ q. not (any (is_recent k window_ms now e.event_type q) deliveries) in
      let (stands, passes) =
        mem_of_filter fresh (subscribed e endpoints) p
          (subst (λ (l : List Endpoint). Memᴰ p l) (targets-keyed now endpoints deliveries) m) in
      ground (arith, passes)

module _ (e again : Event) (k : DedupeKey) (window_ms : ℕ)
    (keyed : again.dedupe ≡ some (k, window_ms)) (wide : 0 < window_ms)
    (same_type : again.event_type ≡ e.event_type) where
  queued-recent :
      (id_of : String → String) (now later : ℕ) (p : Endpoint)
      → Assoc.lookup k.field e.payload ≡ some k.value
      → later ≤ now + window_ms
      → is_recent k window_ms later again.event_type p (queued id_of e now p) ≡ true
  unfolding is_recent
  queued-recent id_of now later p carried near =
      rw same_type
        (ground (arith, carried, eq_refl p.id, eq_refl (event_text e.event_type), eq_refl k.value))

-- The deliveries that emissions, delivery runs and other additions lead to, one after another.
pub data Later (ds : List Delivery) : List Delivery → Type 0 where
  here : Later ds ds
  emitted :
      {es : List Delivery} (id_of : String → String) (e : Event) (now : ℕ)
      (endpoints : List Endpoint)
      → Later ds es
      → Later ds (emit id_of e now endpoints es).1
  run :
      {es : List Delivery} (sender : Sender) (now limit : ℕ)
      → Later ds es
      → Later ds (deliver_pending sender now limit es).1
  added : {es : List Delivery} (more : List Delivery) → Later ds es → Later ds (es ++ more)

module _ (k : DedupeKey) (window_ms later : ℕ) (type : EventType) (p : Endpoint) where
  abbrev recent : Delivery → Bool
  recent = is_recent k window_ms later type p

  -- An attempt leaves what a delivery tells, and when it was made.
  recent-change_of :
      (now attempts : ℕ) (sent : Sent) (d : Delivery)
      → recent ((change_of now attempts sent).1 d) ≡ recent d
  unfolding change_of schedule_retry mark_delivered is_recent
  recent-change_of now attempts (answered status) d = ground arith
  recent-change_of now attempts (errored message) d = refl

  any-update :
      (id : String) (change : Delivery → Delivery) (ds : List Delivery)
      → ((d : Delivery) → recent (change d) ≡ recent d)
      → any recent (update id change ds) ≡ any recent ds
  unfolding update
  any-update id change [] same = refl
  any-update id change (d ∷ ds) same = ground (arith, any-update id change ds same, same d)

  any-deliver_all :
      (sender : Sender) (now : ℕ) (items : List Delivery) (tally : Tally) (ds : List Delivery)
      → any recent (deliver_all sender now items tally ds).1 ≡ any recent ds
  unfolding deliver_all
  any-deliver_all sender now [] tally ds = refl
  any-deliver_all sender now (item ∷ items) tally ds =
      let (done, change) = change_of now (item.attempts + 1) (attempt sender now item) in
      any-deliver_all sender now items (counted done tally) (update item.id change ds)
      ∙ any-update item.id change ds
          (recent-change_of now (item.attempts + 1) (attempt sender now item))

  Later-recent : {ds es : List Delivery} → Later ds es → any recent ds ≡ true → any recent es ≡ true
  unfolding emit deliver_pending
  Later-recent here h = h
  Later-recent (emitted {es} id_of e now endpoints steps) h = ground (
    arith,
    Later-recent steps h,
    any-append recent es (map (queued id_of e now) (targets e now endpoints es)),
  )
  Later-recent (run {es} sender now limit steps) h =
      any-deliver_all sender now (due now limit es)
        (record { delivered_count = 0; failed_count = 0 }) es
      ∙ Later-recent steps h
  Later-recent (added {es} more steps) h =
      ground (arith, Later-recent steps h, any-append recent es more)

-- An endpoint that an event was queued for is not a target of a later event of the same type and key
-- until the window after it has passed, whatever emissions, delivery runs and additions come between,
-- and so whether its delivery is pending, was delivered or has failed, if the first event's payload
-- carries the key.
pub emit_once :
    (e again : Event) (k : DedupeKey) (window_ms : ℕ)
    → again.dedupe ≡ some (k, window_ms)
    → 0 < window_ms
    → again.event_type ≡ e.event_type
    → (id_of : String → String) (now later : ℕ) (endpoints endpoints' : List Endpoint)
      (deliveries deliveries' : List Delivery) (p : Endpoint)
    → Assoc.lookup k.field e.payload ≡ some k.value
    → later ≤ now + window_ms
    → Memᴰ p (targets e now endpoints deliveries)
    → Later (emit id_of e now endpoints deliveries).1 deliveries'
    → ¬ Memᴰ p (targets again later endpoints' deliveries')
unfolding emit
emit_once e again k window_ms keyed wide same_type id_of now later endpoints endpoints' deliveries
      deliveries' p carried near told steps repeated =
    let to = targets e now endpoints deliveries in
    let found =
      any-map_of_mem (is_recent k window_ms later again.event_type p) (queued id_of e now) to p told
        (queued-recent e again k window_ms keyed wide same_type id_of now later p carried near) in
    let first =
      any-append (is_recent k window_ms later again.event_type p) deliveries
        (map (queued id_of e now) to) in
    let still =
      Later-recent k window_ms later again.event_type p steps (ground (arith, first, found)) in
    let fresh =
      targets-fresh again k window_ms keyed wide later endpoints' deliveries' p repeated in
    ground (arith, fresh, still)
