-- ===== src/Tests/Posting.antt =====
-- The sample body, posted to an empty database and read back.
use nordicintel_storage_api.Prelude.{◌≡◌, ◌⊎◌, refl, false, some, Bytes, codes, ok, err, arith}
use nordicintel_storage_api.Domain.Model.{Summary}
use nordicintel_storage_api.Server.Store.{dataset_exists}
use nordicintel_storage_api.Postgres.Tables.{ProviderRow, DatasetRow, Tables, find_identity}
use nordicintel_storage_api.Postgres.Replace.{replace}
use nordicintel_storage_api.Postgres.Reads.{get_data}
use nordicintel_storage_api.Postgres.Posted.{posted-get_data}
use nordicintel_storage_api.Tests.Samples.{plain}
use nordicintel_storage_api.Tests.Payloads.{
  sample_json, sample_decoder, sample_replacement, replacement_run,
}
use nordicintel_storage_api.Tests.Database.{running, empty_tables, empty_tables-IsDatabase}

posted-get_data_example :
    ((result : Bytes) × (s : Summary) × (t' : Tables) × (replace running sample_replacement
          empty_tables
        ≡ (ok (result, s), t'))
      × (get_data running sample_replacement.provider sample_replacement.dataset t'
          ≡ ok (record {
            summary = s;
            dimensions = sample_replacement.dimensions;
            cells = sample_replacement.cells;
          })))
    ⊎ ((sample_replacement.replace ≡ false)
        × (replace running sample_replacement empty_tables ≡ (err dataset_exists, empty_tables))
        × ((p : ProviderRow) × (c : DatasetRow) × (find_identity empty_tables
                sample_replacement.provider.key sample_replacement.dataset.key
              ≡ some (p, c))))
posted-get_data_example =
    posted-get_data plain sample_json sample_decoder running (λ s t. refl) (codes "scb")
      (codes "pop") (codes "{}") 1_000_000 sample_replacement empty_tables (omega arith)
      (omega arith) replacement_run empty_tables-IsDatabase
