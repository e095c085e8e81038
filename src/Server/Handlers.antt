-- ===== src/Server/Handlers.antt =====
-- The handlers of internal/httpapi/server.go, on a store whose state they may change.
use nordicintel_storage_api.Prelude.{
  ℕ, Bytes, bytes_beq, codes, Bool, true, false, List, [], ◌∷◌, if◌then◌else◌, Result, ok, err,
  ◌>>=◌, ◌>>◌, map_err,
}
use nordicintel_storage_api.Domain.Model.{Code, Replacement, Selection}
use nordicintel_storage_api.Domain.Index.{cell_limit}
use nordicintel_storage_api.Domain.Structure.{cube}
use nordicintel_storage_api.Domain.Channels.{Json}
use nordicintel_storage_api.Domain.Payload.{
  PayloadError, BodyDecoder, ReplacementPayload, SelectionPayload, parse_replacement,
  parse_selection, invalid_json, structure,
}
use nordicintel_storage_api.Presentation.{
  Format, PresentationError, Data, data_response, structure_response,
}
use nordicintel_storage_api.Server.Store.{
  Store, StoreError, not_found, dataset_exists, invalid_selection, selection_limit,
  deadline_exceeded, Call, ping_call, list_providers_call, list_datasets_call, get_summary_call,
  replace_call, delete_call, get_structure_call, get_data_call, query_call,
}
use nordicintel_storage_api.Server.Guards.{
  ServerFields, Request, Reply, Body, Method, get, post, delete, other_method, ErrorCode,
  internal_error, service_unavailable, validation_failed, cell_limit_exceeded, write_json,
  write_error, reply_not_allowed, authorize, require_json, read_body, read_format,
  validate_no_query, path_code, path_identity, check_spellings,
}

-- The handler of each registered pattern, and of the rest.
pub data Route : Type 0 where
  health : Route
  open_api : Route
  docs_redirect : Route
  docs : Route
  providers : Route
  datasets : Route
  dataset : Route
  dataset_structure : Route
  dataset_data : Route
  dataset_query : Route
  unmatched : Route

-- The reply, the database afterwards, and the calls that were made.
pub record Served (S : Type 0) : Type 0 where
  pub reply : Reply
  pub database : S
  pub calls : List Call

-- `writeStoreError`
unfoldable pub write_store_error : Request → StoreError → Reply
write_store_error r not_found = write_error 404 ErrorCode.not_found
write_store_error r dataset_exists = write_error 409 ErrorCode.dataset_exists
write_store_error r deadline_exceeded = write_error 503 service_unavailable
write_store_error r _ =
    if r.is_cancelled then write_error 503 service_unavailable else write_error 500 internal_error

-- what `handleQuery` writes for an error of the store
unfoldable pub write_query_error : Request → StoreError → Reply
unfolding write_store_error
write_query_error r (selection_limit n) = write_error 422 cell_limit_exceeded
write_query_error r invalid_selection = write_error 422 validation_failed
write_query_error r e = write_store_error r e

-- what `replace` and `handleQuery` write for an error of the parser
unfoldable pub write_payload_error : PayloadError → Reply
write_payload_error (invalid_json e) = write_error 400 ErrorCode.invalid_json
write_payload_error (structure (cube (cell_limit n))) = write_error 422 cell_limit_exceeded
write_payload_error e = write_error 422 validation_failed

-- `handleQuery` does not look for a CellLimitError of the parser.
unfoldable pub write_selection_error : PayloadError → Reply
write_selection_error (invalid_json e) = write_error 400 ErrorCode.invalid_json
write_selection_error e = write_error 422 validation_failed

abbrev created_status : Bytes → ℕ
created_status result = if bytes_beq result (codes "created") then 201 else 200

-- `writeData`
abbrev reply_data : Result PresentationError Data → Reply
reply_data (ok response) = write_json 200 (Body.view_data response)
reply_data (err e) = write_error 500 internal_error

module _ {S : Type 0} where
  -- the reply that a guard chose: the store is not called
  abbrev pub refuse : S → Reply → Served S
  refuse db reply = record { reply = reply; database = db; calls = [] }

  -- The guards, then the rest of the handler.
  unfoldable pub guarded : {A : Type 0} → S → Result Reply A → (A → Served S) → Served S
  guarded db (err reply) rest = refuse db reply
  guarded db (ok a) rest = rest a

  -- One call of the store, and the reply to its result.
  unfoldable pub call_store :
      {A : Type 0} → Call → Result StoreError A × S → (A → Reply) → (StoreError → Reply) → Served S
  call_store call (ok a, db) answer refusal = record {
    reply = answer a;
    database = db;
    calls = call ∷ [];
  }
  call_store call (err e, db) answer refusal = record {
    reply = refusal e;
    database = db;
    calls = call ∷ [];
  }

  -- A handler of one method.
  unfoldable pub only : S → Bool → List Method → Served S → Served S
  only db true methods served = served
  only db false methods served = refuse db (reply_not_allowed methods)

abbrev is_get : Method → Bool
is_get get = true
is_get _ = false

abbrev is_post : Method → Bool
is_post post = true
is_post _ = false

module _ {S : Type 0} (c : ServerFields) (store : Store S) (j : Json)
    (replacements : BodyDecoder ReplacementPayload)
    (selections : BodyDecoder SelectionPayload) where
  unfoldable pub handle_health : Request → S → Served S
  handle_health r db = only db (is_get r.method) (get ∷ []) (
      call_store ping_call (store.ping db) (λ _. write_json 200 (Body.health true))
        (λ e. write_json 503 (Body.health false)))

  unfoldable pub handle_providers : Request → S → Served S
  handle_providers r db = only db (is_get r.method) (get ∷ []) (
      guarded db (do authorize c r false; validate_no_query c r)
        (λ _.
          call_store list_providers_call (store.list_providers db)
            (λ items. write_json 200 (Body.providers items)) (write_store_error r)))

  unfoldable pub handle_datasets : Request → S → Served S
  handle_datasets r db = only db (is_get r.method) (get ∷ []) (
      guarded db (do authorize c r false; validate_no_query c r; path_code c r.provider)
        (λ provider.
          call_store (list_datasets_call provider) (store.list_datasets provider db)
            (λ (spelling, items). write_json 200 (Body.datasets spelling items))
            (write_store_error r)))

  unfoldable pub get_summary : Request → S → Served S
  get_summary r db =
      guarded db (do authorize c r false; validate_no_query c r; path_identity c r)
        (λ (provider, code).
          call_store (get_summary_call provider code) (store.get_summary provider code db)
            (λ summary. write_json 200 (Body.summary summary)) (write_store_error r))

  -- the checks of `replace` and its call of `ParseReplacement`
  unfoldable pub parse_replace_request : Request → Result Reply Replacement
  unfolding authorize validate_no_query require_json check_spellings read_body parse_replacement
  parse_replace_request r = do
    authorize c r true
    validate_no_query c r
    require_json c r
    check_spellings c r
    body ← read_body c r
    map_err write_payload_error
        (parse_replacement c.unicode j replacements r.provider r.dataset body c.max_cells)

  unfoldable pub replace : Request → S → Served S
  replace r db = guarded db (parse_replace_request r) (λ replacement.
      call_store (replace_call replacement) (store.replace replacement db)
        (λ (result, summary). write_json (created_status result) (Body.mutation result summary))
        (write_store_error r))

  unfoldable pub delete_dataset : Request → S → Served S
  delete_dataset r db =
      guarded db (do authorize c r true; validate_no_query c r; path_identity c r)
        (λ (provider, code).
          call_store (delete_call provider code) (store.delete provider code db)
            (λ _. write_json 204 Body.no_content) (write_store_error r))

  unfoldable pub handle_dataset : Request → S → Served S
  unfolding get_summary replace delete_dataset
  handle_dataset r db = elim r.method [
    | get ↦ get_summary r db
    | post ↦ replace r db
    | delete ↦ delete_dataset r db
    | other_method ↦ refuse db (reply_not_allowed (get ∷ post ∷ delete ∷ []))
  ]

  unfoldable pub handle_structure : Request → S → Served S
  handle_structure r db = only db (is_get r.method) (get ∷ []) (
      guarded db (do authorize c r false; validate_no_query c r; path_identity c r)
        (λ (provider, code).
          call_store (get_structure_call provider code) (store.get_structure provider code db)
            (λ view. write_json 200 (Body.structure (structure_response view)))
            (write_store_error r)))

  abbrev pub parse_data_request : Request → Result Reply (Format × (Code × Code))
  parse_data_request r = do
    authorize c r false
    format ← read_format c r
    identity ← path_identity c r
    ok (format, identity)

  unfoldable pub handle_data : Request → S → Served S
  unfolding data_response
  handle_data r db = only db (is_get r.method) (get ∷ []) (
      guarded db (parse_data_request r) (λ (format, (provider, code)).
        call_store (get_data_call provider code) (store.get_data provider code db)
          (λ view. reply_data (data_response view format)) (write_store_error r)))

  -- the checks of `handleQuery` and its call of `ParseSelection`
  unfoldable pub parse_query_request : Request → Result Reply (Format × ((Code × Code) × Selection))
  unfolding authorize require_json read_format path_identity read_body parse_selection
  parse_query_request r = do
    authorize c r false
    require_json c r
    format ← read_format c r
    identity ← path_identity c r
    body ← read_body c r
    selection ← map_err write_selection_error (parse_selection c.unicode j selections body)
    ok (format, (identity, selection))

  unfoldable pub handle_query : Request → S → Served S
  unfolding data_response
  handle_query r db = only db (is_post r.method) (post ∷ []) (
      guarded db (parse_query_request r) (λ (format, ((provider, code), selection)).
        call_store (query_call provider code selection c.max_cells)
          (store.query provider code selection c.max_cells db)
          (λ view. reply_data (data_response view format)) (write_query_error r)))

  unfoldable pub handle_open_api : Request → S → Served S
  handle_open_api r db = only db (is_get r.method) (get ∷ []) (
      refuse db (
        if c.has_open_api
        then write_json 200 Body.open_api
        else write_error 503 service_unavailable))

  unfoldable pub handle_docs_redirect : Request → S → Served S
  handle_docs_redirect r db =
      only db (is_get r.method) (get ∷ []) (refuse db (write_json 308 Body.redirect))

  unfoldable pub handle_docs : Request → S → Served S
  handle_docs r db = only db (is_get r.method) (get ∷ []) (
      refuse db
        (if c.has_docs then write_json 200 Body.docs_page else write_error 503 service_unavailable))

  unfoldable pub handle_not_found : Request → S → Served S
  handle_not_found r db = refuse db (write_error 404 ErrorCode.not_found)

  unfoldable pub handle : Route → Request → S → Served S
  unfolding handle_health handle_providers handle_datasets handle_dataset handle_structure
      handle_data handle_query handle_open_api handle_docs_redirect handle_docs handle_not_found
  handle health r db = handle_health r db
  handle open_api r db = handle_open_api r db
  handle docs_redirect r db = handle_docs_redirect r db
  handle docs r db = handle_docs r db
  handle providers r db = handle_providers r db
  handle datasets r db = handle_datasets r db
  handle dataset r db = handle_dataset r db
  handle dataset_structure r db = handle_structure r db
  handle dataset_data r db = handle_data r db
  handle dataset_query r db = handle_query r db
  handle unmatched r db = handle_not_found r db
