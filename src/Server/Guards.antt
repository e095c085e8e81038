-- ===== src/Server/Guards.antt =====
-- The checks of internal/httpapi/server.go: each returns a value, or the reply that ends the
-- request.
use nordicintel_storage_api.Prelude.{
  ℕ, suc, ℤ, pos, lt_ℤ, to_ℕ, wrap64, ◌+ℤ◌, Bytes, bytes_beq, bytes_eq, codes, Bool, true, false,
  not, ◌&&◌, ◌||◌, Option, none, some, List, [], ◌∷◌, length, if◌then◌else◌, nat_beq, Result, ok,
  err, ◌>>=◌, map_err, lookup,
}
use nordicintel_storage_api.Domain.Model.{Code, Summary, ProviderListItem}
use nordicintel_storage_api.Presentation.{Structure, Data, Format, dense, sparse}
use nordicintel_storage_api.Domain.Normalize.{Unicode, normalize_code}

-- The `code` member of an error body.
pub data ErrorCode : Type 0 where
  unauthorized : ErrorCode
  forbidden : ErrorCode
  invalid_query : ErrorCode
  invalid_path_code : ErrorCode
  unsupported_media_type : ErrorCode
  request_too_large : ErrorCode
  invalid_json : ErrorCode
  validation_failed : ErrorCode
  cell_limit_exceeded : ErrorCode
  not_found : ErrorCode
  dataset_exists : ErrorCode
  service_unavailable : ErrorCode
  internal_error : ErrorCode
  method_not_allowed : ErrorCode

-- What the handlers write.
pub data Body : Type 0 where
  error : ErrorCode → Body
  health : Bool → Body
  providers : List ProviderListItem → Body
  datasets : Bytes → List Summary → Body
  summary : Summary → Body
  mutation : Bytes → Summary → Body
  structure : Structure → Body
  view_data : Data → Body
  no_content : Body
  open_api : Body
  redirect : Body
  docs_page : Body

pub data Method : Type 0 where
  get : Method
  post : Method
  delete : Method
  other_method : Method

pub record Reply : Type 0 where
  pub status : ℕ
  pub body : Body
  pub challenge : Bool
  pub allow : List Method

abbrev pub write_json : ℕ → Body → Reply
write_json status body = record { status = status; body = body; challenge = false; allow = [] }

abbrev pub write_error : ℕ → ErrorCode → Reply
write_error status code = write_json status (error code)

-- `WWW-Authenticate: Bearer`
abbrev pub write_challenge : Reply
write_challenge = record (write_error 401 unauthorized) { challenge = true }

abbrev pub reply_not_allowed : List Method → Reply
reply_not_allowed methods = record (write_error 405 method_not_allowed) { allow = methods }

-- What the handlers read of a request. `query` is what URL.Query() returns, `body_text` what reading
-- the body yields, or `none` for a failure.
pub record Request : Type 0 where
  pub method : Method
  pub authorization : Bytes
  pub content_encoding : Bytes
  pub content_type : Bytes
  pub raw_query : Bytes
  pub query : List (Bytes × List Bytes)
  pub content_length : ℤ
  pub body_text : Option Bytes
  pub provider : Bytes
  pub dataset : Bytes
  pub is_cancelled : Bool

-- The fields of `Server` that the handlers read, and the library functions that they call.
pub record ServerFields : Type 0 where
  pub read_write_digest : Bytes
  pub read_only_digest : Bytes
  pub max_request_bytes : ℤ
  pub max_cells : ℤ
  pub has_open_api : Bool
  pub has_docs : Bool
  pub unicode : Unicode
  -- sha256.Sum256
  pub sum256 : Bytes → Bytes
  -- strings.EqualFold
  pub equal_fold : Bytes → Bytes → Bool
  -- mime.ParseMediaType
  pub parse_media_type : Bytes → Option (Bytes × List (Bytes × Bytes))

-- strings.HasPrefix(s, prefix): what follows the prefix
unfoldable pub after_prefix : Bytes → Bytes → Option Bytes
after_prefix [] s = some s
after_prefix (a ∷ prefix) [] = none
after_prefix (a ∷ prefix) (b ∷ s) = if nat_beq a b then after_prefix prefix s else none

-- the token of a header "Bearer ..."; none if the prefix is missing or nothing follows it
abbrev pub check_token : Option Bytes → Option Bytes
check_token none = none
check_token (some []) = none
check_token (some (c ∷ token)) = some (c ∷ token)

unfoldable pub bearer_token : Bytes → Option Bytes
unfolding after_prefix
bearer_token header = check_token (after_prefix (codes "Bearer ") header)

pub contains_slash : Bytes → Bool
contains_slash [] = false
contains_slash (c ∷ value) = nat_beq c b'/' || contains_slash value

pub valid_path_spelling : Bytes → Bool
unfolding contains_slash
valid_path_spelling value = not (bytes_beq value []) && not (contains_slash value)

-- the first bytes, as io.LimitReader returns them
pub limited : ℕ → Bytes → Bytes
limited ℕ.zero s = []
limited (suc n) [] = []
limited (suc n) (c ∷ s) = c ∷ limited n s

module _ (c : ServerFields) where
  -- ConstantTimeCompare(supplied, digest) == 1
  abbrev pub matches : Bytes → Bytes → Bool
  matches token digest = bytes_beq (c.sum256 token) digest

  -- `authorize` on a token
  abbrev pub check_access : Bool → Option Bytes → Result Reply (Unit {0})
  check_access is_mutation none = err write_challenge
  check_access is_mutation (some token) =
      if not (matches token c.read_write_digest) && not (matches token c.read_only_digest)
      then err write_challenge
      else if is_mutation && not (matches token c.read_write_digest)
      then err (write_error 403 forbidden)
      else ok tt

  unfoldable pub authorize : Request → Bool → Result Reply (Unit {0})
  unfolding bearer_token
  authorize r is_mutation = check_access is_mutation (bearer_token r.authorization)

  -- the loop over the parameters of the media type
  pub only_utf8 : List (Bytes × Bytes) → Bool
  only_utf8 [] = true
  only_utf8 ((key, value) ∷ params) =
      c.equal_fold key (codes "charset") && c.equal_fold value (codes "utf-8") && only_utf8 params

  abbrev check_media_type : Option (Bytes × List (Bytes × Bytes)) → Result Reply (Unit {0})
  unfolding only_utf8
  check_media_type none = err (write_error 415 unsupported_media_type)
  check_media_type (some (media_type, params)) =
      if not (c.equal_fold media_type (codes "application/json"))
      then err (write_error 415 unsupported_media_type)
      else if not (only_utf8 params)
      then err (write_error 415 unsupported_media_type)
      else ok tt

  unfoldable pub require_json : Request → Result Reply (Unit {0})
  unfolding check_media_type
  require_json r =
      if not (bytes_beq r.content_encoding [])
        && not (c.equal_fold r.content_encoding (codes "identity"))
      then err (write_error 415 unsupported_media_type)
      else check_media_type (c.parse_media_type r.content_type)

  abbrev check_body : Option Bytes → Result Reply Bytes
  check_body none = err (write_error 400 invalid_json)
  check_body (some text) =
      if lt_ℤ c.max_request_bytes (pos (length text))
      then err (write_error 413 request_too_large)
      else ok text

  abbrev limit_body : Option Bytes → Option Bytes
  unfolding limited wrap64
  limit_body none = none
  limit_body (some text) = some (limited (to_ℕ (wrap64 (c.max_request_bytes +ℤ pos 1))) text)

  unfoldable pub read_body : Request → Result Reply Bytes
  unfolding limit_body
  read_body r =
      if lt_ℤ c.max_request_bytes r.content_length
      then err (write_error 413 request_too_large)
      else check_body (limit_body r.body_text)

  abbrev format_of : Option (List Bytes) → Result Reply Format
  format_of (some (value ∷ [])) =
      if bytes_beq value (codes "dense")
      then ok dense
      else if bytes_beq value (codes "sparse")
      then ok sparse
      else err (write_error 400 invalid_query)
  format_of _ = err (write_error 400 invalid_query)

  unfoldable pub read_format : Request → Result Reply Format
  read_format r =
      if nat_beq (length r.query) 0
      then ok sparse
      else if not (nat_beq (length r.query) 1)
      then err (write_error 400 invalid_query)
      else format_of (lookup (codes "format") r.query)

  unfoldable pub validate_no_query : Request → Result Reply (Unit {0})
  validate_no_query r =
      if bytes_beq r.raw_query [] then ok tt else err (write_error 400 invalid_query)

  unfoldable pub path_code : Bytes → Result Reply Code
  unfolding valid_path_spelling normalize_code
  path_code spelling =
      if not (valid_path_spelling spelling)
      then err (write_error 400 invalid_path_code)
      else map_err (λ e. write_error 400 invalid_path_code) (normalize_code c.unicode spelling)

  unfoldable pub path_identity : Request → Result Reply (Code × Code)
  unfolding path_code
  path_identity r = do
    provider ← path_code r.provider
    dataset ← path_code r.dataset
    ok (provider, dataset)

  -- the test of the path values in `replace`
  unfoldable pub check_spellings : Request → Result Reply (Unit {0})
  unfolding valid_path_spelling
  check_spellings r =
      if not (valid_path_spelling r.provider) || not (valid_path_spelling r.dataset)
      then err (write_error 400 invalid_path_code)
      else ok tt
