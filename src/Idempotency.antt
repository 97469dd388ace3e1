-- ===== src/Idempotency.antt =====
-- src/lib/idempotency.ts: the stored outcomes of writes, by client and Idempotency-Key.
-- `J` are the values of JSON. The digest of a text and the writing of a value are inputs.
pub mod Laws
pub mod Refinement
mod Tests
use openipaas.Prelude.{
  ℕ, ◌-◌, String, Bool, true, false, ◌&&◌, not, Option, none, some, List, [], ◌∷◌, ◌++◌, ◌==◌, ltb,
  if◌then◌else◌, length, filter,
}
use openipaas.Prelude.Text

-- The column of the request's hash, the response that was stored and when.
pub record Row (J : Type 0) : Type 0 where
  pub client_id : String
  pub key : String
  pub endpoint : String
  pub request_hash : String
  pub status : ℕ
  pub response_body : Option J
  pub created_at : ℕ

-- `sha256_hex` is the digest of a text, `stringify` what `JSON.stringify(body ?? null)` writes.
pub record Digest (J : Type 0) : Type 0 where
  pub sha256_hex : String → String
  pub stringify : Option J → String

abbrev pub hash_request : {J : Type 0} → Digest J → String → Option J → String
hash_request d endpoint body = d.sha256_hex (Text.◌++◌ endpoint (Text.◌++◌ ":" (d.stringify body)))

pub data Lookup (J : Type 0) : Type 0 where
  miss conflict : Lookup J
  replay : (status : ℕ) → Option J → Lookup J

-- A write that asks to be idempotent.
pub record Write (J : Type 0) : Type 0 where
  pub client_id : String
  pub key : String
  pub endpoint : String
  pub body : Option J

module _ {J : Type 0} where
  abbrev is_for : String → String → Row J → Bool
  is_for client_id key row = row.client_id == client_id && row.key == key

  -- findUnique on the pair (clientId, key)
  unfoldable pub find_row : String → String → List (Row J) → Option (Row J)
  find_row client_id key [] = none
  find_row client_id key (row ∷ rows) =
      if is_for client_id key row then some row else find_row client_id key rows

  answer_from : Digest J → Write J → Option (Row J) → Lookup J
  answer_from d w none = miss
  answer_from d w (some row) =
      if row.request_hash == hash_request d w.endpoint w.body
      then replay row.status row.response_body
      else conflict

  unfoldable pub lookup : Digest J → Write J → List (Row J) → Lookup J
  unfolding answer_from
  lookup d w rows = answer_from d w (find_row w.client_id w.key rows)

  abbrev row_of : Digest J → Write J → (status : ℕ) → Option J → (now : ℕ) → Row J
  row_of d w status response_body now = record {
    client_id = w.client_id;
    key = w.key;
    endpoint = w.endpoint;
    request_hash = hash_request d w.endpoint w.body;
    status = status;
    response_body = response_body;
    created_at = now;
  }

  upsert : Row J → Option (Row J) → List (Row J) → List (Row J)
  upsert row none rows = rows ++ row ∷ []
  upsert row (some _) rows = rows

  -- The upsert keeps a row that is there. `stored` is false where the database refuses the write,
  -- which is caught and logged.
  unfoldable pub remember :
      Digest J
      → (stored : Bool) → Write J
      → (status : ℕ) → Option J
      → (now : ℕ) → List (Row J)
      → List (Row J)
  unfolding upsert
  remember d stored w status response_body now rows =
      if stored
      then upsert (row_of d w status response_body now) (find_row w.client_id w.key rows) rows
      else rows

  -- Deletes the rows older than the retention window; the count is what was deleted.
  unfoldable pub purge_expired : (older_than_ms now : ℕ) → List (Row J) → ℕ × List (Row J)
  purge_expired older_than_ms now rows =
      let kept = filter (λ (row : Row J). not (ltb row.created_at (now - older_than_ms))) rows in
      (length rows - length kept, kept)
