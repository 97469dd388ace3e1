-- ===== src/Idempotency/Refinement.antt =====
-- src/lib/idempotency.ts: the table of outcomes keeps, for each client and key, the first outcome that
-- was stored and is not too old.
use openipaas.Prelude.{
  ℕ, ◌-◌, String, Bool, true, false, not, ◌≡◌, refl, sym, ap, ◌∙◌, Option, none, some, List, [],
  ◌∷◌, ◌++◌, ltb, eq_iff, arith, inl, inr, Option-cases, Bool-cases, if◌then◌else◌, filter,
}
use openipaas.Idempotency.{Row, Digest, Write, find_row, is_for, row_of, remember, purge_expired}

-- What happens to the table: the outcome of a write is stored, unless the database refuses it, or the
-- rows that are too old are deleted.
pub data Event (J : Type 0) : Type 0 where
  remembered : (stored : Bool) → Write J → (status : ℕ) → Option J → (now : ℕ) → Event J
  purged : (older_than_ms now : ℕ) → Event J

module _ {J : Type 0} where
  module _ (d : Digest J) where
    abbrev pub table_after : List (Event J) → List (Row J) → List (Row J)
    table_after [] rows = rows
    table_after (remembered stored w status body now ∷ events) rows =
        table_after events (remember d stored w status body now rows)
    table_after (purged older_than_ms now ∷ events) rows =
        table_after events (purge_expired older_than_ms now rows).1

    -- The specification: a map from a client and a key to an outcome.
    abbrev pub Outcomes : Type 0
    Outcomes = (client_id key : String) → Option (Row J)

    abbrev first_of : Option (Row J) → Option (Row J) → Option (Row J)
    first_of (some row) new = some row
    first_of none new = new

    -- A stored outcome takes the place of no other.
    abbrev keep_first : Row J → Outcomes → Outcomes
    keep_first row m client_id key =
        first_of (m client_id key) (if is_for client_id key row then some row else none)

    abbrev fresh : (cutoff : ℕ) → Option (Row J) → Option (Row J)
    fresh cutoff none = none
    fresh cutoff (some row) = if ltb row.created_at cutoff then none else some row

    abbrev pub outcomes_after : List (Event J) → Outcomes → Outcomes
    outcomes_after [] m = m
    outcomes_after (remembered false w status body now ∷ events) m = outcomes_after events m
    outcomes_after (remembered true w status body now ∷ events) m =
        outcomes_after events (keep_first (row_of d w status body now) m)
    outcomes_after (purged older_than_ms now ∷ events) m =
        outcomes_after events (λ client_id key. fresh (now - older_than_ms) (m client_id key))

    -- No two rows have the same client and key.
    abbrev IsKeyed : List (Row J) → Type 0
    IsKeyed [] = Unit
    IsKeyed (row ∷ rows) = (find_row row.client_id row.key rows ≡ none) × IsKeyed rows

    find_row-added :
        (client_id key : String) (rows : List (Row J)) (row : Row J)
        → find_row client_id key (rows ++ row ∷ [])
          ≡ first_of
              (find_row client_id key rows)
              (if is_for client_id key row then some row else none)
    unfolding find_row
    find_row-added client_id key [] row = ground arith
    find_row-added client_id key (r ∷ rows) row =
        ground (arith, find_row-added client_id key rows row)

    is_for-same :
        (client_id key : String) (r : Row J)
        → is_for client_id key r ≡ true
        → (r.client_id ≡ client_id) × (r.key ≡ key)
    is_for-same client_id key r h = ground (arith, eq_iff r.client_id client_id, eq_iff r.key key)

    added-IsKeyed :
        (rows : List (Row J)) (row : Row J)
        → IsKeyed rows
        → find_row row.client_id row.key rows ≡ none
        → IsKeyed (rows ++ row ∷ [])
    unfolding find_row
    added-IsKeyed [] row keyed absent = (refl, tt)
    added-IsKeyed (r ∷ rows) row (own, keyed) absent = (
      find_row-added r.client_id r.key rows row
          ∙ ground (
            arith,
            own,
            eq_iff r.client_id row.client_id,
            eq_iff r.key row.key,
            eq_iff row.client_id r.client_id,
            eq_iff row.key r.key,
            absent,
          ),
      added-IsKeyed rows row keyed (ground (arith, absent)),
    )

    absent-filter :
        (p : Row J → Bool) (client_id key : String) (rows : List (Row J))
        → find_row client_id key rows ≡ none
        → find_row client_id key (filter p rows) ≡ none
    unfolding find_row
    absent-filter p client_id key [] h = refl
    absent-filter p client_id key (r ∷ rows) h = ground (arith, absent-filter p client_id key rows)

    filter-IsKeyed :
        (p : Row J → Bool) (rows : List (Row J)) → IsKeyed rows → IsKeyed (filter p rows)
    filter-IsKeyed p [] keyed = tt
    filter-IsKeyed p (r ∷ rows) (own, keyed) = elim (Bool-cases (p r)) [
      | inl e ↦ rw e (absent-filter p r.client_id r.key rows own, filter-IsKeyed p rows keyed)
      | inr e ↦ rw e (filter-IsKeyed p rows keyed)
    ]

    find_row-purged :
        (cutoff : ℕ) (client_id key : String) (rows : List (Row J))
        → IsKeyed rows
        → find_row client_id key (filter (λ (r : Row J). not (ltb r.created_at cutoff)) rows)
          ≡ fresh cutoff (find_row client_id key rows)
    unfolding find_row
    find_row-purged cutoff client_id key [] keyed = refl
    find_row-purged cutoff client_id key (r ∷ rows) (own, keyed) =
        elim (Bool-cases (is_for client_id key r)) [
          | inl e ↦
              let same = is_for-same client_id key r e in
              let gone =
                absent-filter (λ (x : Row J). not (ltb x.created_at cutoff)) client_id key rows
                  (ap (λ c. find_row c key rows) (sym same.0)
                    ∙ ap (λ k. find_row r.client_id k rows) (sym same.1)
                    ∙ own) in
              ground (arith, e, gone)
          | inr e ↦ ground (arith, e, find_row-purged cutoff client_id key rows keyed)
        ]

    remember-IsKeyed :
        (stored : Bool) (w : Write J) (status : ℕ) (body : Option J) (now : ℕ) (rows : List (Row J))
        → IsKeyed rows
        → IsKeyed (remember d stored w status body now rows)
    unfolding remember
    remember-IsKeyed false w status body now rows keyed = keyed
    remember-IsKeyed true w status body now rows keyed =
        elim (Option-cases (find_row w.client_id w.key rows)) [
          | inl absent ↦
              rw (absent, remember) (added-IsKeyed rows (row_of d w status body now) keyed absent)
          | inr (row, e) ↦ rw (e, remember) keyed
        ]

    find_row-stored :
        (w : Write J) (status : ℕ) (body : Option J) (now : ℕ) (rows : List (Row J))
        (client_id key : String)
        → find_row client_id key (remember d true w status body now rows)
          ≡ first_of (find_row client_id key rows) (
              if is_for client_id key (row_of d w status body now)
              then some (row_of d w status body now)
              else none)
    unfolding remember
    find_row-stored w status body now rows client_id key =
        elim (Option-cases (find_row w.client_id w.key rows)) [
          | inl absent ↦
              rw (absent, remember) (find_row-added client_id key rows (row_of d w status body now))
          | inr (row, e) ↦
              rw (e, remember)
                (elim (Bool-cases (is_for client_id key (row_of d w status body now))) [
                  | inl own ↦
                      let same = is_for-same client_id key (row_of d w status body now) own in
                      let found =
                        ap (λ c. find_row c key rows) (sym same.0)
                        ∙ ap (λ k. find_row w.client_id k rows) (sym same.1)
                        ∙ e in
                      ground (arith, found)
                  | inr other ↦ ground (arith, other)
                ])
        ]

    refines :
        (events : List (Event J)) (rows : List (Row J)) (m : Outcomes)
        → IsKeyed rows
        → ((client_id key : String) → find_row client_id key rows ≡ m client_id key)
        → (client_id key : String)
        → find_row client_id key (table_after events rows) ≡ outcomes_after events m client_id key
    refines [] rows m keyed same = same
    refines (remembered false w status body now ∷ events) rows m keyed same =
        refines events (remember d false w status body now rows) m
          (remember-IsKeyed false w status body now rows keyed) (λ c k. unfold remember in same c k)
    refines (remembered true w status body now ∷ events) rows m keyed same =
        refines events (remember d true w status body now rows)
          (keep_first (row_of d w status body now) m)
          (remember-IsKeyed true w status body now rows keyed)
          (λ c k.
            find_row-stored w status body now rows c k
            ∙ ap
                (λ o. first_of o (
                  if is_for c k (row_of d w status body now)
                  then some (row_of d w status body now)
                  else none))
                (same c k))
    refines (purged older_than_ms now ∷ events) rows m keyed same =
        refines events (purge_expired older_than_ms now rows).1
          (λ c k. fresh (now - older_than_ms) (m c k))
          (unfold purge_expired in
            filter-IsKeyed (λ (r : Row J). not (ltb r.created_at (now - older_than_ms))) rows keyed)
          (λ c k.
            unfold purge_expired in
            (find_row-purged (now - older_than_ms) c k rows keyed
              ∙ ap (fresh (now - older_than_ms)) (same c k)))

    -- After any sequence of stored outcomes and deletions of old ones, from an empty table, what the
    -- table finds for a client and a key is what a map that keeps the first outcome holds for them.
    pub find_row-refines :
        (events : List (Event J)) (client_id key : String)
        → find_row client_id key (table_after events [])
          ≡ outcomes_after events (λ client_id key. none) client_id key
    unfolding find_row
    find_row-refines events = refines events [] (λ client_id key. none) tt (λ client_id key. refl)
