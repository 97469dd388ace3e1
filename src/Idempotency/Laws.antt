-- ===== src/Idempotency/Laws.antt =====
-- src/lib/idempotency.ts: what a repeated write finds.
use openipaas.Prelude.{
  ℕ, String, Bool, true, false, ◌≡◌, ◌≢◌, refl, sym, ◌∙◌, Option, none, some, List, [], ◌∷◌, ◌++◌,
  ◌==◌, eq_iff, eq_refl, arith, Option-cases, inl, inr, ◌⊎◌, ap, if◌then◌else◌,
}
use openipaas.Idempotency.{
  Row, Digest, hash_request, miss, conflict, replay, Write, find_row, is_for, lookup, answer_from,
  row_of, remember,
}

module _ {J : Type 0} where
  find_row-append :
      (client_id key : String) (rows : List (Row J)) (row : Row J)
      → find_row client_id key rows ≡ none
      → find_row client_id key (rows ++ row ∷ [])
        ≡ (if is_for client_id key row then some row else none)
  unfolding find_row
  find_row-append client_id key [] row h = ground arith
  find_row-append client_id key (r ∷ rows) row h =
      ground (arith, find_row-append client_id key rows row)

  find_row-append_other :
      (client_id key : String) (rows : List (Row J)) (row : Row J)
      → is_for client_id key row ≡ false
      → find_row client_id key (rows ++ row ∷ []) ≡ find_row client_id key rows
  unfolding find_row
  find_row-append_other client_id key [] row h = ground arith
  find_row-append_other client_id key (r ∷ rows) row h =
      ground (arith, find_row-append_other client_id key rows row h)

  find_row-append_kept :
      (client_id key : String) (rows : List (Row J)) (new row : Row J)
      → find_row client_id key rows ≡ some row
      → find_row client_id key (rows ++ new ∷ []) ≡ some row
  unfolding find_row
  find_row-append_kept client_id key [] new row h = ground arith
  find_row-append_kept client_id key (r ∷ rows) new row h =
      ground (arith, find_row-append_kept client_id key rows new row)

  none_of_miss :
      (d : Digest J) (w : Write J) (o : Option (Row J)) → answer_from d w o ≡ miss → o ≡ none
  unfolding answer_from
  none_of_miss d w none h = refl
  none_of_miss d w (some row) h = ground arith

module _ {J : Type 0} (d : Digest J) (w : Write J) (status : ℕ) (body : Option J) (now : ℕ)
    (rows : List (Row J)) where
  find_row-remember :
      find_row w.client_id w.key rows ≡ none
      → find_row w.client_id w.key (remember d true w status body now rows)
        ≡ some (row_of d w status body now)
  unfolding remember
  find_row-remember h =
      rw (h, remember)
        (rw (find_row-append w.client_id w.key rows (row_of d w status body now) h)
          (ground (arith, eq_refl w.client_id, eq_refl w.key)))

  -- After the outcome of a write that missed is stored, the same client's next write under the same
  -- key is answered from it: with the stored status and body if its endpoint and body have the same
  -- hash, and as a conflict if they have another.
  pub lookup-remember :
      (again : Write J)
      → again.client_id ≡ w.client_id
      → again.key ≡ w.key
      → lookup d w rows ≡ miss
      → lookup d again (remember d true w status body now rows) ≡ (
          if hash_request d w.endpoint w.body == hash_request d again.endpoint again.body
          then replay status body
          else conflict)
  unfolding lookup
  lookup-remember again c k missed =
      let absent = none_of_miss d w (find_row w.client_id w.key rows) missed in
      rw (c, k, find_row-remember absent) (unfold answer_from in refl)

  -- The first outcome is kept: a second one under the same client and key changes nothing.
  pub remember_first :
      (other : Write J) (status' : ℕ) (body' : Option J) (now' : ℕ)
      → other.client_id ≡ w.client_id
      → other.key ≡ w.key
      → remember d true other status' body' now' (remember d true w status body now rows)
        ≡ remember d true w status body now rows
  unfolding remember
  remember_first other status' body' now' c k =
      rw (c, k)
        (elim (Option-cases (find_row w.client_id w.key rows)) [
          | inl absent ↦ rw (find_row-remember absent, remember)
          | inr (row, e) ↦ rw (e, remember) (rw (e, remember))
        ])

  find_row-remember_other :
      (stored : Bool) (other : Write J)
      → (other.client_id ≢ w.client_id) ⊎ (other.key ≢ w.key)
      → find_row other.client_id other.key (remember d stored w status body now rows)
        ≡ find_row other.client_id other.key rows
  unfolding remember
  find_row-remember_other stored other h = ground (
    arith,
    find_row-append_other other.client_id other.key rows (row_of d w status body now),
    eq_iff w.client_id other.client_id,
    eq_iff w.key other.key,
  )

  -- Other keys and other clients find what they found before.
  pub lookup-remember_other :
      (stored : Bool) (other : Write J)
      → (other.client_id ≢ w.client_id) ⊎ (other.key ≢ w.key)
      → lookup d other (remember d stored w status body now rows) ≡ lookup d other rows
  unfolding lookup
  lookup-remember_other stored other h =
      ap (answer_from d other) (find_row-remember_other stored other h)

  find_row-remember_kept :
      (stored : Bool) (client_id key : String) (row : Row J)
      → find_row client_id key rows ≡ some row
      → find_row client_id key (remember d stored w status body now rows) ≡ some row
  unfolding remember
  find_row-remember_kept stored client_id key row h =
      ground (arith, find_row-append_kept client_id key rows (row_of d w status body now) row)

  -- A stored outcome survives every later one.
  pub lookup-remember_kept :
      (e : Digest J) (stored : Bool) (other : Write J) {status' : ℕ} {body' : Option J}
      → lookup e other rows ≡ replay status' body'
      → lookup e other (remember d stored w status body now rows) ≡ replay status' body'
  unfolding lookup
  lookup-remember_kept e stored other h =
      elim (Option-cases (find_row other.client_id other.key rows)) [
        | inl absent ↦ ground arith
        | inr (row, found) ↦
            ap (answer_from e other)
              (find_row-remember_kept stored other.client_id other.key row found ∙ sym found)
            ∙ h
      ]
