-- ===== src/UnifiedAuth/Replay.antt =====
-- src/lib/api-auth.ts and src/lib/idempotency.ts: a write that succeeded is not done again.
use openipaas.Prelude.{
  ℕ, ◌<◌, ltb, Bool, true, ◌≡◌, ◌≢◌, refl, sym, eq_refl, ap, subst, ◌∙◌, Option, Bool-cases, inl,
  inr, none, some, List, [], ◌∷◌, arith,
}
use openipaas.Idempotency
use openipaas.Idempotency.{Row, Digest, Write, Lookup, replay, miss}
use openipaas.Idempotency.Laws.{lookup-remember, lookup-remember_kept}
use openipaas.UnifiedAuth.Defs.{
  ApiKey, Response, Request, value, Server, Env, AuthContext, Handled, responds, throws,
}
use openipaas.UnifiedAuth.Steps.{Progress, continue, answer}
use openipaas.UnifiedAuth.Outcomes.{
  SameTables, refused, ran, admitted-IsRun, rows_after, with_unified_auth_outcome,
}
use openipaas.UnifiedAuth.Passing.{Passes, Passes-Same, admit-answers}
use openipaas.UnifiedAuth.Admission.{found_of, admit-IsAdmitted}
use openipaas.UnifiedAuth.Dispatch.{
  Admitted, store, start, admit, answer_lookup, check_repeat, with_unified_auth, asked_write,
  with_header, takes_body, conclude, finish,
}

-- The answer to a write that was done before.
abbrev pub replayed : {J : Type 0} → ℕ → Option J → Response J
replayed status body = record {
  status = status;
  content = value body;
  headers = ("Idempotent-Replay", "true") ∷ [];
}

-- The servers that requests lead to, each with its own environment and handler.
pub data Reaches {J W : Type 0} (s : Server J W) : Server J W → Type 0 where
  here : Reaches s s
  after :
      {t : Server J W} (env : Env J) (req : Request) (enforce : Bool)
      (handler : AuthContext J → W → Handled J × W)
      → Reaches s t
      → Reaches s (with_unified_auth env req enforce handler t).1

module _ {J : Type 0} (d : Digest J) (w : Write J) (status : ℕ) (body : Option J) where
  store-kept :
      (env : Env J) (o : Option (Write J)) (st : ℕ) (b : Option J) (rows : List (Row J))
      → Idempotency.lookup d w rows ≡ replay status body
      → Idempotency.lookup d w (store env o st b rows) ≡ replay status body
  unfolding store
  store-kept env none st b rows e = e
  store-kept env (some v) st b rows e = elim (Bool-cases (ltb st 400)) [
    | inl fine ↦ rw (fine) (lookup-remember_kept env.digest v st b env.now rows d env.stored w e)
    | inr failed ↦ rw (failed) e
  ]

  rows_after-kept :
      (env : Env J) (x : Admitted J) (h : Handled J) (rows : List (Row J))
      → Idempotency.lookup d w rows ≡ replay status body
      → Idempotency.lookup d w (rows_after env x h rows) ≡ replay status body
  rows_after-kept env x (throws error) rows e = e
  rows_after-kept env x (responds st b) rows e = store-kept env x.write st b rows e

  rows_after-success :
      (env : Env J) (x : Admitted J) (h : Handled J) (rows : List (Row J))
      → h ≡ responds status body
      → x.write ≡ some w
      → status < 400
      → env.stored ≡ true
      → rows_after env x h rows ≡ Idempotency.remember env.digest true w status body env.now rows
  unfolding store
  rows_after-success env x h rows responded asked success stored =
      subst
        (λ (g : Handled J).
          rows_after env x g rows ≡ Idempotency.remember env.digest true w status body env.now rows)
        (sym responded)
        (subst
          (λ (o : Option (Write J)).
            store env o status body rows
            ≡ Idempotency.remember env.digest true w status body env.now rows)
          (sym asked) (rw (stored) (ground arith)))

module _ {J W : Type 0} where
  -- One request keeps every outcome that is stored.
  request-kept :
      (env : Env J) (req : Request) (enforce : Bool) (handler : AuthContext J → W → Handled J × W)
      (s : Server J W) (d : Digest J) (w : Write J) (status : ℕ) (body : Option J)
      → Idempotency.lookup d w s.rows ≡ replay status body
      → Idempotency.lookup d w (with_unified_auth env req enforce handler s).1.rows
        ≡ replay status body
  request-kept env req enforce handler s d w status body e =
      elim (with_unified_auth_outcome env req enforce handler s) [
        | refused keys accounts rows world ↦ ap (Idempotency.lookup d w) rows ∙ e
        | ran x admitted run ↦
            ap (Idempotency.lookup d w) run.new_rows
            ∙ rows_after-kept d w status body env x (handler x.context s.world).0 s.rows e
      ]

  reached-kept :
      {s t : Server J W}
      → Reaches s t
      → (d : Digest J) (w : Write J) (status : ℕ) (body : Option J)
      → Idempotency.lookup d w s.rows ≡ replay status body
      → Idempotency.lookup d w t.rows ≡ replay status body
  reached-kept here d w status body e = e
  reached-kept (after {t} env req enforce handler steps) d w status body e =
      request-kept env req enforce handler t d w status body (reached-kept steps d w status body e)

-- A request that got to its handler with a write, was answered below 400, and whose outcome was stored.
pub record Succeeds {J W : Type 0} (env : Env J) (req : Request) (enforce : Bool)
    (handler : AuthContext J → W → Handled J × W) (s : Server J W) (w : Write J) (status : ℕ)
    (body : Option J) : Type 0 where
  pub admitted : Admitted J
  pub progress : Progress J W
  pub admits : admit env req enforce (start s) ≡ (continue admitted, progress)
  pub write : admitted.write ≡ some w
  pub responded : (handler admitted.context s.world).0 ≡ responds status body
  pub success : status < 400
  pub stored : env.stored ≡ true

module _ {J W : Type 0} (env : Env J) (req : Request) (enforce : Bool)
    (handler : AuthContext J → W → Handled J × W) (s : Server J W) (w : Write J) (status : ℕ)
    (body : Option J) (done : Succeeds env req enforce handler s w status body) where
  succeeded-replays :
      Idempotency.lookup env.digest w (with_unified_auth env req enforce handler s).1.rows
      ≡ replay status body
  unfolding store
  succeeded-replays =
      let x = done.admitted in
      let run = admitted-IsRun env req enforce handler s x done.progress done.admits in
      let passed = admit-IsAdmitted env req enforce (start s) done.progress x done.admits in
      let missed : Idempotency.lookup env.digest w s.rows ≡ miss =
        subst (λ (o : Option (Write J)). found_of env o s.rows ≡ miss) done.write passed.fresh in
      ap (Idempotency.lookup env.digest w) (
        run.new_rows
        ∙ rows_after-success env.digest w status body env x (handler x.context s.world).0 s.rows
            done.responded done.write done.success done.stored)
      ∙ lookup-remember env.digest w status body env.now s.rows w refl refl missed
      ∙ rw (eq_refl (Idempotency.hash_request env.digest w.endpoint w.body)) refl

  module _ (t : Server J W)
      (steps : Reaches (with_unified_auth env req enforce handler s).1 t) where
    check_repeat-replays :
        (env' : Env J) (req' : Request) (p : Progress J W)
        → env'.digest ≡ env.digest
        → takes_body status ≡ true
        → p.server.rows ≡ t.rows
        → check_repeat env' req' (some w) p ≡ (answer (replayed status body) none, p)
    unfolding check_repeat answer_lookup
    check_repeat-replays env' req' p same_digest bodied same_rows =
        let found = reached-kept steps env.digest w status body succeeded-replays in
        rw (same_digest, same_rows) (rw (found) (rw (bodied) refl))

    -- After a write with an Idempotency-Key got to its handler, was answered below 400 and was stored,
    -- and after any requests that followed, a request that asks for the same write and passes the checks
    -- that come first is answered with the status and the body of the first answer, marked
    -- Idempotent-Replay and with its own identifier. No handler runs, and no key, account, stored outcome
    -- or part of the world changes. The status must be one that takes a body.
    pub repeat_answered :
        (env' : Env J) (req' : Request) (enforce' : Bool)
        (handler' : AuthContext J → W → Handled J × W) (k : ApiKey) (body' : Option J)
        (p : Progress J W)
        → Passes env' req' enforce' (start t) k body' p
        → asked_write req' k.client_id body' ≡ some w
        → env'.digest ≡ env.digest
        → takes_body status ≡ true
        → ((with_unified_auth env' req' enforce' handler' t).0
            ≡ with_header "X-Request-Id" env'.request_id (replayed status body))
          × SameTables t (with_unified_auth env' req' enforce' handler' t).1
    unfolding with_unified_auth conclude finish
    repeat_answered env' req' enforce' handler' k body' p passes asks same_digest bodied =
        let same = Passes-Same env' req' enforce' (start t) p k body' passes in
        let repeats = check_repeat-replays env' req' p same_digest bodied same.rows in
        let answers =
          admit-answers env' req' enforce' (start t) p k body' passes (replayed status body) none (
            subst (λ o. check_repeat env' req' o p ≡ (answer (replayed status body) none, p))
              (sym asks) repeats) in
        rw answers (
          refl,
          record {
            api_keys = same.api_keys;
            accounts = same.accounts;
            rows = same.rows;
            world = same.world;
          },
        )

    -- Nor does any request that follows get to its handler with that write.
    pub handled_once :
        (env' : Env J) (req' : Request) (enforce' : Bool) (x : Admitted J) (p : Progress J W)
        → env'.digest ≡ env.digest
        → admit env' req' enforce' (start t) ≡ (continue x, p)
        → x.write ≢ some w
    handled_once env' req' enforce' x p same_digest admits again =
        let found = reached-kept steps env.digest w status body succeeded-replays in
        let fresh =
          subst (λ (o : Option (Write J)). found_of env' o t.rows ≡ miss) again
            (admit-IsAdmitted env' req' enforce' (start t) p x admits).fresh in
        let missed : Idempotency.lookup env.digest w t.rows ≡ miss =
          subst (λ d. Idempotency.lookup d w t.rows ≡ miss) same_digest fresh in
        ground arith
