-- ===== src/Server/Access.antt =====
-- Which requests reach the store.
use nordicintel_storage_api.Prelude.{
  ◌≡◌, ◌↔◌, refl, ◌⊎◌, inl, inr, Bytes, bytes_beq_iff, Bool, true, false, not, ◌&&◌, some,
  Option-cases, List, [], ◌∷◌, All, Result, ok, err, ◌>>◌, >>=-eq-ok, Bool-cases, if◌then◌else◌,
  arith,
}
use nordicintel_storage_api.Domain.Channels.{Json}
use nordicintel_storage_api.Domain.Payload.{BodyDecoder, ReplacementPayload, SelectionPayload}
use nordicintel_storage_api.Server.Store.{
  Store, StoreError, Call, ping_call, replace_call, delete_call,
}
use nordicintel_storage_api.Server.Guards.{
  reply_not_allowed, write_challenge, write_error, forbidden, ServerFields, Request, Reply, Method,
  authorize, bearer_token, check_access, matches, get, post, delete, other_method,
}
use nordicintel_storage_api.Server.Tokens.{HasToken, bearer_token_iff}
use nordicintel_storage_api.Server.Handlers.{
  Route, Served, guarded, call_store, only, refuse, handle, handle_health, handle_providers,
  handle_datasets, handle_dataset, handle_structure, handle_data, handle_query, handle_open_api,
  handle_docs_redirect, handle_docs, handle_not_found, get_summary, replace, delete_dataset,
  parse_replace_request, parse_query_request,
}

module _ (c : ServerFields) (r : Request) where
  with_digest :
      (digest token : Bytes)
      → bearer_token r.authorization ≡ some token
      → c.sum256 token ≡ digest
      → HasToken c r digest
  with_digest digest token given digests =
      let (header, supplied) = (bearer_token_iff r.authorization token).0 given in
      record { token = token; header = header; supplied = supplied; digests = digests }

  given_token :
      (digest : Bytes) (t : HasToken c r digest) → bearer_token r.authorization ≡ some t.token
  given_token digest t = (bearer_token_iff r.authorization t.token).1 (t.header, t.supplied)

  -- `authorize` accepts exactly the two tokens for reading, and only the read-write token for a
  -- mutation.
  pub authorize_sound :
      (is_mutation : Bool)
      → authorize c r is_mutation ≡ ok tt
      → HasToken c r c.read_write_digest ⊎ (HasToken c r c.read_only_digest × (is_mutation ≡ false))
  unfolding authorize
  authorize_sound is_mutation e = elim (Option-cases (bearer_token r.authorization)) [
    | inl missing ↦ absurd (cc (rw missing at e))
    | inr (token, given) ↦ by_token token given (rw given at e)
  ]
    where
      by_token :
          (token : Bytes)
          → bearer_token r.authorization ≡ some token
          → check_access c is_mutation (some token) ≡ ok tt
          → HasToken c r c.read_write_digest
            ⊎ (HasToken c r c.read_only_digest × (is_mutation ≡ false))
      by_token token given e = elim (Bool-cases (matches c token c.read_write_digest)) [
        | inl write ↦ inl (with_digest _ token given ((bytes_beq_iff _ _).0 write))
        | inr no_write ↦ elim (Bool-cases (matches c token c.read_only_digest)) [
          | inl read ↦ inr (
            with_digest _ token given ((bytes_beq_iff _ _).0 read),
            ground (arith, rw (no_write, read) at e),
          )
          | inr no_read ↦ absurd (cc (rw (no_write, no_read) at e))
        ]
      ]

  -- `authorize` accepts a request exactly when its header is "Bearer " and a token, not empty, that
  -- has the digest of the read-write token, or that of the read-only token while the operation is no
  -- mutation.
  pub authorize_iff :
      (is_mutation : Bool)
      → (authorize c r is_mutation ≡ ok tt) ↔ (
          HasToken c r c.read_write_digest
          ⊎ (HasToken c r c.read_only_digest × (is_mutation ≡ false)))
  unfolding authorize
  authorize_iff is_mutation = (
    authorize_sound is_mutation,
    λ h. elim h [
      | inl t ↦
          let yes : matches c t.token c.read_write_digest ≡ true =
            (bytes_beq_iff _ _).1 t.digests in
          rw (given_token _ t) (accept is_mutation _ _ (inl yes))
      | inr (t, reads) ↦
          let yes : matches c t.token c.read_only_digest ≡ true = (bytes_beq_iff _ _).1 t.digests in
          rw (given_token _ t) (accept is_mutation _ _ (inr (yes, reads)))
    ],
  )
    where
      accept :
          (m write read : Bool)
          → (write ≡ true) ⊎ ((read ≡ true) × (m ≡ false))
          → ◌≡◌ {A = Result Reply (Unit {0})}
              (if not write && not read
                then err write_challenge
                else if m && not write
                then err (write_error 403 forbidden)
                else ok tt)
              (ok tt)
      accept m write read h = ground arith

  -- What a call of the store needs: the health check nothing, a mutation the read-write token, any
  -- other call one of the two tokens.
  abbrev pub Permitted : Call → Type 0
  Permitted ping_call = Unit
  Permitted (replace_call replacement) = HasToken c r c.read_write_digest
  Permitted (delete_call provider code) = HasToken c r c.read_write_digest
  Permitted _ = HasToken c r c.read_write_digest ⊎ HasToken c r c.read_only_digest

  can_read :
      {A : Type 0} (rest : Result Reply A) {a : A}
      → (authorize c r false >> rest) ≡ ok a
      → HasToken c r c.read_write_digest ⊎ HasToken c r c.read_only_digest
  can_read rest e =
      let (_, accepted, _) = >>=-eq-ok (authorize c r false) _ e in
      elim (authorize_sound false accepted) [ inl t ↦ inl t | inr (t, _) ↦ inr t ]

  can_write :
      {A : Type 0} (rest : Result Reply A) {a : A}
      → (authorize c r true >> rest) ≡ ok a
      → HasToken c r c.read_write_digest
  can_write rest e =
      let (_, accepted, _) = >>=-eq-ok (authorize c r true) _ e in
      elim (authorize_sound true accepted) [ inl t ↦ t | inr (_, reads) ↦ absurd (cc) ]

-- Every call that was made has the property.
pub record AllCalls {S : Type 0} (P : Call → Type 0) (served : Served S) : Type 0 where
  pub each : All P served.calls

module _ {S : Type 0} {P : Call → Type 0} where
  refuse-AllCalls : (db : S) (reply : Reply) → AllCalls P (refuse db reply)
  refuse-AllCalls db reply = record { each = tt }

  guarded-AllCalls :
      {A : Type 0} (db : S) (g : Result Reply A) (rest : A → Served S)
      → ((a : A) → g ≡ ok a → AllCalls P (rest a))
      → AllCalls P (guarded db g rest)
  unfolding guarded
  guarded-AllCalls db (ok a) rest h = h a refl
  guarded-AllCalls db (err e) rest h = record { each = tt }

  call_store-AllCalls :
      {A : Type 0} (call : Call) (result : Result StoreError A × S) (answer : A → Reply)
      (refusal : StoreError → Reply)
      → P call
      → AllCalls P (call_store call result answer refusal)
  unfolding call_store
  call_store-AllCalls call (ok a, db) answer refusal p = record { each = (p, tt) }
  call_store-AllCalls call (err e, db) answer refusal p = record { each = (p, tt) }

  only-AllCalls :
      (db : S) (b : Bool) (methods : List Method) (served : Served S)
      → AllCalls P served
      → AllCalls P (only db b methods served)
  unfolding only
  only-AllCalls db true methods served h = h
  only-AllCalls db false methods served h = record { each = tt }

module _ {S : Type 0} (c : ServerFields) (store : Store S) (j : Json)
    (replacements : BodyDecoder ReplacementPayload)
    (selections : BodyDecoder SelectionPayload) where
  module _ (r : Request) (db : S) where
    health-Permitted :
        AllCalls (Permitted c r) (handle_health c store j replacements selections r db)
    unfolding handle_health
    health-Permitted = only-AllCalls _ _ _ _ (call_store-AllCalls _ _ _ _ tt)

    providers-Permitted :
        AllCalls (Permitted c r) (handle_providers c store j replacements selections r db)
    unfolding handle_providers
    providers-Permitted =
        only-AllCalls _ _ _ _
          (guarded-AllCalls _ _ _ (λ a e. call_store-AllCalls _ _ _ _ (can_read c r _ e)))

    datasets-Permitted :
        AllCalls (Permitted c r) (handle_datasets c store j replacements selections r db)
    unfolding handle_datasets
    datasets-Permitted =
        only-AllCalls _ _ _ _
          (guarded-AllCalls _ _ _ (λ a e. call_store-AllCalls _ _ _ _ (can_read c r _ e)))

    summary-Permitted :
        AllCalls (Permitted c r) (get_summary c store j replacements selections r db)
    unfolding get_summary
    summary-Permitted =
        guarded-AllCalls _ _ _ (λ a e. call_store-AllCalls _ _ _ _ (can_read c r _ e))

    replace-Permitted : AllCalls (Permitted c r) (replace c store j replacements selections r db)
    unfolding replace parse_replace_request
    replace-Permitted =
        guarded-AllCalls _ _ _ (λ a e. call_store-AllCalls _ _ _ _ (can_write c r _ e))

    delete-Permitted :
        AllCalls (Permitted c r) (delete_dataset c store j replacements selections r db)
    unfolding delete_dataset
    delete-Permitted =
        guarded-AllCalls _ _ _ (λ a e. call_store-AllCalls _ _ _ _ (can_write c r _ e))

    by_method :
        (m : Method)
        → AllCalls (Permitted c r) (elim m [
          | get ↦ get_summary c store j replacements selections r db
          | post ↦ replace c store j replacements selections r db
          | delete ↦ delete_dataset c store j replacements selections r db
          | other_method ↦ refuse db (reply_not_allowed (get ∷ post ∷ delete ∷ []))
        ])
    by_method get = summary-Permitted
    by_method post = replace-Permitted
    by_method delete = delete-Permitted
    by_method other_method = refuse-AllCalls db _

    structure-Permitted :
        AllCalls (Permitted c r) (handle_structure c store j replacements selections r db)
    unfolding handle_structure
    structure-Permitted =
        only-AllCalls _ _ _ _
          (guarded-AllCalls _ _ _ (λ a e. call_store-AllCalls _ _ _ _ (can_read c r _ e)))

    data-Permitted : AllCalls (Permitted c r) (handle_data c store j replacements selections r db)
    unfolding handle_data
    data-Permitted =
        only-AllCalls _ _ _ _
          (guarded-AllCalls _ _ _ (λ a e. call_store-AllCalls _ _ _ _ (can_read c r _ e)))

    query-Permitted : AllCalls (Permitted c r) (handle_query c store j replacements selections r db)
    unfolding handle_query parse_query_request
    query-Permitted =
        only-AllCalls _ _ _ _
          (guarded-AllCalls _ _ _ (λ a e. call_store-AllCalls _ _ _ _ (can_read c r _ e)))

  -- Whatever a request asks, the handlers replace or delete a dataset only for a request with the
  -- read-write token, and read from the store only for one with either token; just the health check
  -- needs none.
  pub handle-Permitted :
      (route : Route) (r : Request) (db : S)
      → AllCalls (Permitted c r) (handle c store j replacements selections route r db)
  unfolding handle handle_dataset handle_open_api handle_docs_redirect handle_docs handle_not_found
  handle-Permitted Route.health r db = health-Permitted r db
  handle-Permitted Route.open_api r db = only-AllCalls _ _ _ _ (refuse-AllCalls db _)
  handle-Permitted Route.docs_redirect r db = only-AllCalls _ _ _ _ (refuse-AllCalls db _)
  handle-Permitted Route.docs r db = only-AllCalls _ _ _ _ (refuse-AllCalls db _)
  handle-Permitted Route.providers r db = providers-Permitted r db
  handle-Permitted Route.datasets r db = datasets-Permitted r db
  handle-Permitted Route.dataset r db = by_method r db r.method
  handle-Permitted Route.dataset_structure r db = structure-Permitted r db
  handle-Permitted Route.dataset_data r db = data-Permitted r db
  handle-Permitted Route.dataset_query r db = query-Permitted r db
  handle-Permitted Route.unmatched r db = refuse-AllCalls db _
