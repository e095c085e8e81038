-- ===== src/Tests/Serving.antt =====
-- Requests, a configuration and a shared status, on concrete inputs.
use nordicintel_storage_api.Prelude.{
  ℕ, ◌≡◌, ◌↔◌, ◌≤◌, inl, refl, pos, Bytes, codes, replicate, bytes_beq, true, false, none, some, [],
  ◌∷◌, length, All, ok, err, arith, if◌then◌else◌,
}
use nordicintel_storage_api.Jsonx.{scalar}
use nordicintel_storage_api.Domain.Model.{Cell}
use nordicintel_storage_api.Domain.Payload.{BodyDecoder, SelectionPayload}
use nordicintel_storage_api.Presentation.{shared_status}
use nordicintel_storage_api.Presentation.Status.{HasStatus, shared_status_iff}
use nordicintel_storage_api.Config.{
  Config, Environment, info_level, load, checked_config, validate, env_int64, env_int32,
  env_duration, env_log_level,
}
use nordicintel_storage_api.Config.Laws.{IsUsable, load-IsUsable}
use nordicintel_storage_api.Server.Store.{Store, not_found}
use nordicintel_storage_api.Server.Guards.{ServerFields, Request, delete, authorize}
use nordicintel_storage_api.Server.Handlers.{dataset, handle}
use nordicintel_storage_api.Server.Tokens.{HasToken}
use nordicintel_storage_api.Server.Access.{AllCalls, Permitted, authorize_iff, handle-Permitted}
use nordicintel_storage_api.Tests.Samples.{plain}
use nordicintel_storage_api.Tests.Payloads.{sample_json, sample_decoder}

abbrev write_token : Bytes
write_token = codes "write"

-- The digest of a token is the token.
abbrev sample_fields : ServerFields
sample_fields = record {
  read_write_digest = write_token;
  read_only_digest = codes "read";
  max_request_bytes = pos 100;
  max_cells = pos 1_000_000;
  has_open_api = true;
  has_docs = false;
  unicode = plain;
  sum256 = λ s. s;
  equal_fold = bytes_beq;
  parse_media_type = λ s. some (s, []);
}

abbrev sample_request : Request
sample_request = record {
  method = delete;
  authorization = codes "Bearer write";
  content_encoding = [];
  content_type = codes "application/json";
  raw_query = [];
  query = [];
  content_length = pos 2;
  body_text = some (codes "{}");
  provider = codes "scb";
  dataset = codes "pop";
  is_cancelled = false;
}

-- A store that counts the deletions and holds nothing.
abbrev sample_store : Store ℕ
sample_store = record {
  ping = λ n. (ok tt, n);
  list_providers = λ n. (ok [], n);
  list_datasets = λ p n. (err not_found, n);
  get_summary = λ p d n. (err not_found, n);
  replace = λ r n. (err not_found, n);
  delete = λ p d n. (ok tt, ℕ.suc n);
  get_structure = λ p d n. (err not_found, n);
  get_data = λ p d n. (err not_found, n);
  query = λ p d s m n. (err not_found, n);
}

abbrev sample_selections : BodyDecoder SelectionPayload
sample_selections = record {
  valid_utf8 = λ s. true;
  tokens = λ s. some scalar ∷ [];
  decode = λ s. none;
}

handle-Permitted_example : AllCalls (Permitted sample_fields sample_request) (
    handle sample_fields sample_store sample_json sample_decoder sample_selections dataset
      sample_request 0)
handle-Permitted_example =
    handle-Permitted sample_fields sample_store sample_json sample_decoder sample_selections dataset
      sample_request 0

sample-HasToken : HasToken sample_fields sample_request write_token
sample-HasToken = record { token = write_token; header = refl; supplied = λ e. cc; digests = refl }

authorize_iff_example : authorize sample_fields sample_request true ≡ ok tt
authorize_iff_example = (authorize_iff sample_fields sample_request true).1 (inl sample-HasToken)

abbrev marked : ℕ → Cell
marked n = record { index = pos n; numeric = none; text = none; status = some (codes "e") }

shared_status_iff_example :
    (shared_status (marked 0 ∷ marked 1 ∷ []) (pos 2) ≡ some (codes "e")) ↔ (
      (2 ≤ length (marked 0 ∷ marked 1 ∷ []))
      × All (HasStatus (codes "e")) (marked 0 ∷ marked 1 ∷ []))
shared_status_iff_example = shared_status_iff (codes "e") (marked 0 ∷ marked 1 ∷ []) 2 (omega arith)

abbrev sample_environment : Environment
sample_environment = record {
  getenv = λ name.
      if bytes_beq name (codes "DATABASE_URL")
      then codes "postgres"
      else if bytes_beq name (codes "API_READ_WRITE_TOKEN")
      then replicate 32 1
      else if bytes_beq name (codes "API_READ_ONLY_TOKEN")
      then replicate 32 2
      else [];
  parse_int = λ s. none;
  parse_duration = λ s. none;
}

abbrev sample_config : Config
sample_config = record {
  database_url = codes "postgres";
  read_write_token = replicate 32 1;
  read_only_token = replicate 32 2;
  port = pos 8080;
  max_request_bytes = pos 134_217_728;
  max_cells = pos 1_000_000;
  db_max_conns = pos 4;
  request_timeout = pos 300_000_000_000;
  db_timeout = pos 270_000_000_000;
  shutdown_timeout = pos 30_000_000_000;
  log_level = info_level;
}

load_run : load sample_environment ≡ ok sample_config
unfolding load checked_config validate env_int64 env_int32 env_duration env_log_level
load_run = refl

load-IsUsable_example : IsUsable sample_config
load-IsUsable_example = load-IsUsable sample_environment sample_config load_run
