-- ===== src/Webhooks/Attempts.antt =====
-- src/lib/webhooks.ts: what every run leaves of the deliveries.
use openipaas.Prelude.{
  ℕ, zero, suc, ◌+◌, ◌≤◌, ◌<◌, String, Bool, true, false, ◌≡◌, Option, none, List, [], ◌∷◌, ◌==◌,
  filter, take, arith, All, Bool-cases, inl, inr, is_some, length,
}
use openipaas.Webhooks.{
  Delivery, DeliveryStatus, pending, delivered, failed, schedule_retry, mark_delivered,
}
use openipaas.Webhooks.Runs.{
  Sender, Sent, answered, errored, is_pending, is_due, insert_due, sort_due, due, update, attempt,
  change_of, Tally, counted, deliver_all, deliver_pending,
}

-- What a status promises of the attempts and of the next one.
abbrev pub IsSoundAt : DeliveryStatus → ℕ → Option ℕ → Type 0
IsSoundAt pending attempts next = (attempts < 6) × (is_some next ≡ true)
IsSoundAt delivered attempts next = (1 ≤ attempts) × (attempts ≤ 6)
IsSoundAt failed attempts next = (attempts ≡ 6) × (next ≡ none)

abbrev pub IsSound : Delivery → Type 0
IsSound d = IsSoundAt d.status d.attempts d.next_attempt_at

-- An item that a run may attempt.
abbrev IsOpen : Delivery → Type 0
IsOpen d = d.attempts < 6

few_of_pending :
    (status : DeliveryStatus) (attempts : ℕ) (next : Option ℕ)
    → IsSoundAt status attempts next
    → is_pending status ≡ true
    → attempts < 6
few_of_pending pending attempts next (few, later) e = few
few_of_pending delivered attempts next sound e = ground arith
few_of_pending failed attempts next sound e = ground arith

is_due-IsOpen : (now : ℕ) (d : Delivery) → IsSound d → is_due now d ≡ true → IsOpen d
is_due-IsOpen now d s e = few_of_pending d.status d.attempts d.next_attempt_at s (ground arith)

change_of-IsSound :
    (now attempts : ℕ) (sent : Sent) (d : Delivery)
    → attempts < 6
    → IsSound ((change_of now (attempts + 1) sent).1 d)
unfolding change_of schedule_retry mark_delivered
change_of-IsSound now attempts (answered status) d few = ground arith
change_of-IsSound now attempts (errored message) d few = ground arith

update-IsSound :
    (id : String) (change : Delivery → Delivery) (deliveries : List Delivery)
    → ((d : Delivery) → IsSound (change d))
    → All IsSound deliveries
    → All IsSound (update id change deliveries)
unfolding update
update-IsSound id change [] sound all = tt
update-IsSound id change (d ∷ ds) sound (here, rest) = elim (Bool-cases (d.id == id)) [
  | inl same ↦ (rw (same) (sound d), update-IsSound id change ds sound rest)
  | inr other ↦ (rw (other) here, update-IsSound id change ds sound rest)
]

filter-IsOpen :
    (now : ℕ) (ds : List Delivery) → All IsSound ds → All IsOpen (filter (is_due now) ds)
filter-IsOpen now [] all = tt
filter-IsOpen now (d ∷ ds) (here, rest) = elim (Bool-cases (is_due now d)) [
  | inl e ↦ rw (e) (is_due-IsOpen now d here e, filter-IsOpen now ds rest)
  | inr e ↦ rw (e) (filter-IsOpen now ds rest)
]

insert_due-IsOpen :
    (d : Delivery) (ds : List Delivery) → IsOpen d → All IsOpen ds → All IsOpen (insert_due d ds)
unfolding insert_due
insert_due-IsOpen d [] here all = (here, tt)
insert_due-IsOpen d (e ∷ es) here (first, rest) = ground (arith, insert_due-IsOpen d es here rest)

sort_due-IsOpen : (ds : List Delivery) → All IsOpen ds → All IsOpen (sort_due ds)
unfolding sort_due
sort_due-IsOpen [] all = tt
sort_due-IsOpen (d ∷ ds) (here, rest) =
    insert_due-IsOpen d (sort_due ds) here (sort_due-IsOpen ds rest)

take-IsOpen : (n : ℕ) (ds : List Delivery) → All IsOpen ds → All IsOpen (take n ds)
take-IsOpen zero ds all = tt
take-IsOpen (suc n) [] all = tt
take-IsOpen (suc n) (d ∷ ds) (here, rest) = (here, take-IsOpen n ds rest)

counted_one :
    (done : Bool) (tally : Tally)
    → (counted done tally).delivered_count + (counted done tally).failed_count
      ≡ tally.delivered_count + tally.failed_count + 1
counted_one true tally = omega arith
counted_one false tally = omega arith

deliver_all-IsSound :
    (sender : Sender) (now : ℕ) (items : List Delivery) (tally : Tally) (deliveries : List Delivery)
    → All IsOpen items
    → All IsSound deliveries
    → All IsSound (deliver_all sender now items tally deliveries).1
      × ((deliver_all sender now items tally deliveries).0.delivered_count
            + (deliver_all sender now items tally deliveries).0.failed_count
          ≡ tally.delivered_count + tally.failed_count + length items)
unfolding deliver_all
deliver_all-IsSound sender now [] tally deliveries few sound = (sound, omega arith)
deliver_all-IsSound sender now (item ∷ items) tally deliveries (here, rest) sound =
    let (done, change) = change_of now (item.attempts + 1) (attempt sender now item) in
    let (later, sum) =
      deliver_all-IsSound sender now items (counted done tally) (update item.id change deliveries)
        rest
        (update-IsSound item.id change deliveries
          (λ d. change_of-IsSound now item.attempts (attempt sender now item) d here) sound) in
    (later, ground (arith, sum, counted_one done tally))

-- A run keeps every delivery sound: a pending one has made fewer than six attempts and has a time for
-- the next, a delivered one has made between one and six, and a failed one has made six and has no next.
-- What it reports as delivered and as failed is together the number of deliveries that it took.
pub deliver_pending-IsSound :
    (sender : Sender) (now limit : ℕ) (deliveries : List Delivery)
    → All IsSound deliveries
    → All IsSound (deliver_pending sender now limit deliveries).1
      × ((deliver_pending sender now limit deliveries).0.delivered_count
            + (deliver_pending sender now limit deliveries).0.failed_count
          ≡ length (due now limit deliveries))
unfolding deliver_pending due
deliver_pending-IsSound sender now limit deliveries sound =
    let items = due now limit deliveries in
    let empty : Tally = record { delivered_count = 0; failed_count = 0 } in
    let (kept, sum) =
      deliver_all-IsSound sender now items empty deliveries
        (take-IsOpen limit _ (sort_due-IsOpen _ (filter-IsOpen now deliveries sound))) sound in
    (kept, ground (arith, sum))
