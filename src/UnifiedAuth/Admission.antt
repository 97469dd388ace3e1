-- ===== src/UnifiedAuth/Admission.antt =====
-- src/lib/api-auth.ts: what must hold of a request whose handler runs.
use openipaas.Prelude.{
  not, ◌||◌, String, Bool, true, false, ◌≡◌, refl, sym, ap, subst, ◌∙◌, Option, none, some, List,
  arith, Option-cases, inl, inr,
}
use openipaas.Prelude.Text.{starts_with, slice, trim}
use openipaas.Scopes.{array, parse_scopes, action_for_method, resource_for_path, allows}
use openipaas.ApiRateLimit.{consume_for_key}
use openipaas.Credentials.{OAuthCredential}
use openipaas.Idempotency
use openipaas.Idempotency.{Row, Write, Lookup, miss, conflict, replay}
use openipaas.Providers.Manifests.{is_known_provider}
use openipaas.UnifiedAuth.Defs.{ApiKey, LinkedAccount, Request, Server, Env, AuthContext}
use openipaas.UnifiedAuth.Steps.{Progress, continue}
use openipaas.UnifiedAuth.Ownership.{IsOwn, resolve_connection-IsOwn}
use openipaas.UnifiedAuth.KeyCheck.{find_api_key, is_past, authenticate, check_scope, check_budget}
use openipaas.UnifiedAuth.Connection.{resolve_connection, usable_connection, check_incremental}
use openipaas.UnifiedAuth.Dispatch.{
  Admitted, answer_lookup, read_body, check_repeat, context_of, asked_write, admit,
}
use openipaas.UnifiedAuth.Keeps.{
  after-Same, Same-trans, authenticate-Keeps, check_scope-Keeps, check_budget-Keeps,
  resolve_connection-Keeps, usable_connection-Keeps, check_incremental-Keeps, read_body-Keeps,
  check_repeat-Keeps, context_of-Keeps,
}

-- The header carries a key of the table that is neither revoked nor past its expiry.
pub record HasKey {J : Type 0} (env : Env J) (req : Request) (keys : List ApiKey) (k : ApiKey)
    : Type 0 where
  pub header : String
  pub sent : req.authorization ≡ some header
  pub bearer : starts_with header "Bearer " ≡ true
  pub found :
      find_api_key (env.digest.sha256_hex (trim (slice 7 header))) (trim (slice 7 header)) keys
      ≡ some k
  pub active : k.revoked_at ≡ none
  pub current : is_past k.expires_at env.now ≡ false

-- Where a route enforces scopes, they allow the method on the path.
abbrev pub is_in_scope : Request → Bool → ApiKey → Bool
is_in_scope req enforce k =
    not enforce
    || allows (parse_scopes (array k.scopes)) (action_for_method req.method)
        (resource_for_path req.path)

-- What a write finds in the stored outcomes, a miss where none is asked for.
abbrev pub found_of : {J : Type 0} → Env J → Option (Write J) → List (Row J) → Lookup J
found_of env none rows = miss
found_of env (some w) rows = Idempotency.lookup env.digest w rows

module _ {J W : Type 0} (env : Env J) (req : Request) (p q : Progress J W) where
  authenticate-HasKey :
      (k : ApiKey) → authenticate env req p ≡ (continue k, q) → HasKey env req p.server.api_keys k
  unfolding authenticate
  authenticate-HasKey k h = elim (Option-cases req.authorization) [
    | inl missing ↦ ground arith
    | inr (header, sent) ↦ record {
      header = header;
      sent = sent;
      bearer = ground arith;
      found = ground arith;
      active = ground arith;
      current = ground arith;
    }
  ]

  check_scope-allows :
      (enforce : Bool) (k : ApiKey) (scopes : List String)
      → check_scope env req enforce k p ≡ (continue scopes, q)
      → is_in_scope req enforce k ≡ true
  unfolding check_scope
  check_scope-allows enforce k scopes h = ground arith

  check_budget-allowed :
      (k : ApiKey)
      → check_budget env req k p ≡ (continue tt, q)
      → (consume_for_key env.limits env.replies
          (record { client_id = k.client_id; key_id = k.id; key_limit = k.rate_limit })
          env.now
          p.server.windows).0.0.allowed
        ≡ true
  unfolding check_budget
  check_budget-allowed k h = ground arith

  usable_connection-known :
      (a : LinkedAccount) (c : OAuthCredential)
      → usable_connection env a p ≡ (continue c, q)
      → is_known_provider env.registry a.provider ≡ true
  unfolding usable_connection
  usable_connection-known a c h = ground arith

  authenticate-server :
      (k : ApiKey) → authenticate env req p ≡ (continue k, q) → q.server ≡ p.server
  unfolding authenticate
  authenticate-server k h = ground arith

  check_scope-server :
      (enforce : Bool) (k : ApiKey) (scopes : List String)
      → check_scope env req enforce k p ≡ (continue scopes, q)
      → q.server ≡ p.server
  unfolding check_scope
  check_scope-server enforce k scopes h = ground arith

  answer_lookup-misses : (l : Lookup J) → answer_lookup env req l p ≡ (continue tt, q) → l ≡ miss
  unfolding answer_lookup
  answer_lookup-misses miss h = refl
  answer_lookup-misses conflict h = ground arith
  answer_lookup-misses (replay status body) h = ground arith

  check_repeat-misses :
      (w : Option (Write J))
      → check_repeat env req w p ≡ (continue tt, q)
      → found_of env w p.server.rows ≡ miss
  unfolding check_repeat answer_lookup
  check_repeat-misses none h = refl
  check_repeat-misses (some w) h =
      answer_lookup-misses (Idempotency.lookup env.digest w p.server.rows) h

  context_of-account :
      (a : LinkedAccount) (c : OAuthCredential) (body : Option J) (scopes : List String)
      (x : AuthContext J)
      → context_of env req a c body scopes p ≡ (continue x, q)
      → (x.linked_account ≡ a) × (x.body ≡ body)
  unfolding context_of
  context_of-account a c body scopes x h = ground arith

-- What holds of a request that gets to its handler, on the tables that it found.
pub record IsAdmitted {J W : Type 0} (env : Env J) (req : Request) (enforce : Bool) (s : Server J W)
    (x : Admitted J) : Type 0 where
  pub has_key : HasKey env req s.api_keys x.api_key
  pub in_scope : is_in_scope req enforce x.api_key ≡ true
  pub in_budget :
      (consume_for_key env.limits env.replies
        (record {
          client_id = x.api_key.client_id;
          key_id = x.api_key.id;
          key_limit = x.api_key.rate_limit;
        })
        env.now
        s.windows).0.0.allowed
      ≡ true
  pub own_account : IsOwn x.api_key.client_id s.accounts x.account
  pub same_account : x.context.linked_account ≡ x.account
  pub known : is_known_provider env.registry x.account.provider ≡ true
  pub asked : x.write ≡ asked_write req x.api_key.client_id x.context.body
  pub fresh : found_of env x.write s.rows ≡ miss

module _ {J W : Type 0} (env : Env J) (req : Request) where
  -- A request that gets to its handler has passed every check of the wrapper.
  pub admit-IsAdmitted :
      (enforce : Bool) (p q : Progress J W) (x : Admitted J)
      → admit env req enforce p ≡ (continue x, q)
      → IsAdmitted env req enforce p.server x
  unfolding admit
  admit-IsAdmitted enforce p q x h =
      after-Same (authenticate env req) _ p (authenticate-Keeps env req) h (λ k p1 e1 h1 s1.
        after-Same (check_scope env req enforce k) _ p1 (check_scope-Keeps env req enforce k) h1
          (λ scopes p2 e2 h2 s2.
            after-Same (check_budget env req k) _ p2 (check_budget-Keeps env req k) h2
              (λ done p3 e3 h3 s3.
                after-Same (resolve_connection env req k.client_id) _ p3
                  (resolve_connection-Keeps env req k.client_id) h3
                  (λ a p4 e4 h4 s4.
                    after-Same (usable_connection env a) _ p4 (usable_connection-Keeps env req a) h4
                      (λ c p5 e5 h5 s5.
                        after-Same (check_incremental env req a (resource_for_path req.path)) _ p5
                          (check_incremental-Keeps env req a (resource_for_path req.path)) h5
                          (λ done' p6 e6 h6 s6.
                            after-Same (read_body env req) _ p6 (read_body-Keeps env req) h6
                              (λ body p7 e7 h7 s7.
                                let w = asked_write req k.client_id body in
                                after-Same (check_repeat env req w) _ p7
                                  (check_repeat-Keeps env req w) h7
                                  (λ done'' p8 e8 h8 s8.
                                    after-Same (context_of env req a c body scopes) _ p8
                                      (context_of-Keeps env req a c body scopes) h8
                                      (λ context p9 e9 h9 s9.
                                        let to3 = Same-trans s1 (Same-trans s2 s3) in
                                        let to7 =
                                          Same-trans to3
                                            (Same-trans s4 (Same-trans s5 (Same-trans s6 s7))) in
                                        let (is_here, is_body) =
                                          context_of-account env req p8 p9 a c body scopes context
                                            e9 in
                                        let reached : record {
                                          api_key = k;
                                          account = a;
                                          context = context;
                                          write = w;
                                        }
                                            ≡ x =
                                          ground arith in
                                        subst
                                          (λ (y : Admitted J).
                                            IsAdmitted env req enforce p.server y)
                                          reached
                                          (record {
                                            has_key = authenticate-HasKey env req p p1 k e1;
                                            in_scope =
                                                check_scope-allows env req p1 p2 enforce k scopes
                                                  e2;
                                            in_budget =
                                                subst
                                                  (λ (s : Server J W).
                                                    (consume_for_key env.limits env.replies
                                                      (record {
                                                        client_id = k.client_id;
                                                        key_id = k.id;
                                                        key_limit = k.rate_limit;
                                                      })
                                                      env.now s.windows).0.0.allowed
                                                    ≡ true)
                                                  (check_scope-server env req p1 p2 enforce k scopes
                                                      e2
                                                    ∙ authenticate-server env req p p1 k e1)
                                                  (check_budget-allowed env req p2 p3 k e3);
                                            own_account =
                                                subst (λ accounts. IsOwn k.client_id accounts a)
                                                  to3.accounts
                                                  (resolve_connection-IsOwn env req k.client_id p3
                                                    p4 a e4);
                                            same_account = is_here;
                                            known = usable_connection-known env req p4 p5 a c e5;
                                            asked = ap (asked_write req k.client_id) (sym is_body);
                                            fresh =
                                                subst (λ rows. found_of env w rows ≡ miss) to7.rows
                                                  (check_repeat-misses env req p7 p8 w e8);
                                          }))))))))))
