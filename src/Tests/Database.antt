-- ===== src/Tests/Database.antt =====
-- internal/store/postgres.go on small databases, and witnesses of the theorems about it.
use nordicintel_storage_api.Prelude.{◌⊎◌}
use nordicintel_storage_api.Postgres.Tables.{ProviderRow, DatasetRow, find_identity}
use nordicintel_storage_api.Postgres.Total.{replace_total}
use nordicintel_storage_api.Prelude.{
  ℤ, pos, ◌≡◌, refl, Bytes, codes, false, Option, none, some, [], ◌∷◌, Result, ok, err,
}
use nordicintel_storage_api.Domain.Model.{Category, Code, Replacement, Summary}
use nordicintel_storage_api.Server.Store.{StoreError, dataset_exists, not_found, other_failure}
use nordicintel_storage_api.Postgres.Tables.{Tables}
use nordicintel_storage_api.Postgres.Statements.{
  Backend, Statement, Fault, failed, copy_observations,
}
use nordicintel_storage_api.Postgres.Replace.{replace}
use nordicintel_storage_api.Postgres.Delete.{delete}
use nordicintel_storage_api.Postgres.Reads.{get_data, get_summary}
use nordicintel_storage_api.Postgres.Integrity.{IsDatabase}
use nordicintel_storage_api.Postgres.Kept.{replace-IsDatabase}
use nordicintel_storage_api.Postgres.Deletion.{delete-IsDatabase}
use nordicintel_storage_api.Postgres.Gone.{delete-not_found}
use nordicintel_storage_api.Postgres.RoundTrip.{replace-get_data}
use nordicintel_storage_api.Postgres.Query.{query}
use nordicintel_storage_api.Postgres.Query.Correct.{selected_cells, replace-query}
use nordicintel_storage_api.Postgres.Advisory.Distinct.{advisory_buffer-ne}
use nordicintel_storage_api.Postgres.Advisory.{advisory_buffer}
use nordicintel_storage_api.Domain.Remap.{stored_dimensions}
use nordicintel_storage_api.Tests.Samples.{sample_dimensions}
use nordicintel_storage_api.Tests.Selecting.{
  sample_selection, sample_output, selection_run, sample-IsStored,
}
use nordicintel_storage_api.Domain.Model.{Cell}
use nordicintel_storage_api.Prelude.{◌≢◌, Distinct, map, eq_ℤ, ap, arith}

abbrev pub running : Backend
running = record {
  fault = λ s t. none;
  gap = λ t. 2;
  clock_timestamp = λ s t. 7;
  to_jsonb = λ m. m;
  sha256 = λ b. b;
}

abbrev copy_fault : Statement → Option Fault
copy_fault copy_observations = some failed
copy_fault _ = none

abbrev failing : Backend
failing = record running { fault = λ s t. copy_fault s }

abbrev pub empty_tables : Tables
empty_tables = record {
  providers = [];
  datasets = [];
  dimensions = [];
  categories = [];
  observations = [];
  next_provider = 1;
  next_dataset = 1;
  next_dimension = 1;
}

pub empty_tables-IsDatabase : IsDatabase empty_tables
empty_tables-IsDatabase = record {
  provider_bound = λ p (i, e). absurd (cc);
  provider_unique = λ p q (i, e) at same. absurd (cc);
  dataset_provider = λ d (i, e). absurd (cc);
  dataset_bound = λ d (i, e). absurd (cc);
  dataset_unique = λ c d (i, e) at same. absurd (cc);
  dataset_named = λ c d (i, e) at. absurd (cc);
  dimension_bound = λ d (i, e). absurd (cc);
  dimension_dataset = λ d (i, e). absurd (cc);
  category_dimension = λ c (i, e). absurd (cc);
  observation_dataset = λ o (i, e). absurd (cc);
}

abbrev pub code_of : Bytes → Code
code_of b = record { spelling = b; key = b }

abbrev category_of : Bytes → ℤ → Category
category_of b p = record { code = code_of b; position = p }

abbrev pub stored_replacement : Replacement
stored_replacement = record {
  provider = code_of (codes "ssb");
  dataset = code_of (codes "cpi");
  replace = false;
  source_stamp = codes "1";
  cell_count = pos 2;
  valued_count = pos 1;
  dimensions = stored_dimensions sample_dimensions;
  cells =
      record { index = pos 1; numeric = some 9; text = none; status = none }
      ∷ record { index = pos 2; numeric = none; text = some (codes "x"); status = none }
      ∷ [];
}

abbrev pub once_stored : Result StoreError (Bytes × Summary) × Tables
once_stored = replace running stored_replacement empty_tables

abbrev pub stored_summary : Summary
stored_summary = record {
  provider_code = codes "ssb";
  dataset_code = codes "cpi";
  source_stamp = codes "1";
  cell_count = pos 2;
  valued_cell_count = pos 1;
  null_cell_count = pos 1;
  updated_at = 7;
}

stored_reply : once_stored ≡ (ok (codes "created", stored_summary), once_stored.1)
unfolding replace stored_dimensions
stored_reply = refl

-- A second POST is refused, a copy that fails is undone.
refused : (replace running stored_replacement once_stored.1).0 ≡ err dataset_exists
unfolding replace stored_dimensions
refused = refl

undone : replace failing stored_replacement empty_tables ≡ (err other_failure, empty_tables)
unfolding replace stored_dimensions
undone = refl

gone :
    get_summary running
      (code_of (codes "ssb"))
      (code_of (codes "cpi"))
      (delete running (code_of (codes "ssb")) (code_of (codes "cpi")) once_stored.1).1
    ≡ err not_found
unfolding replace delete get_summary stored_dimensions
gone = refl

pub replace-IsDatabase_stored : IsDatabase once_stored.1
replace-IsDatabase_stored =
    replace-IsDatabase running empty_tables empty_tables-IsDatabase stored_replacement

replace-IsDatabase_example : IsDatabase (replace running stored_replacement empty_tables).1
replace-IsDatabase_example =
    replace-IsDatabase running empty_tables empty_tables-IsDatabase stored_replacement

delete-IsDatabase_example :
    IsDatabase (delete running (code_of (codes "ssb")) (code_of (codes "cpi")) once_stored.1).1
delete-IsDatabase_example =
    delete-IsDatabase running (code_of (codes "ssb")) (code_of (codes "cpi")) once_stored.1
      replace-IsDatabase_stored

replace-get_data_example :
    get_data running (code_of (codes "ssb")) (code_of (codes "cpi")) once_stored.1
    ≡ ok (record {
      summary = stored_summary;
      dimensions = stored_replacement.dimensions;
      cells = stored_replacement.cells;
    })
replace-get_data_example =
    replace-get_data running running stored_replacement empty_tables once_stored.1 (codes "created")
      stored_summary empty_tables-IsDatabase sample-IsStored (refl, tt) stored_reply (λ s. refl)

stored_indices-Distinct : Distinct (map (λ (c : Cell). c.index) stored_replacement.cells)
stored_indices-Distinct = ((λ e. absurd (cc (ap (λ i. eq_ℤ i (pos 1)) e)), tt), (tt, tt))

replace-query_example :
    query running
      (code_of (codes "ssb"))
      (code_of (codes "cpi"))
      sample_selection
      (pos 100)
      once_stored.1
    ≡ ok (record {
      summary = stored_summary;
      dimensions = sample_output;
      cells = selected_cells stored_replacement.cells 0 (pos 1 ∷ pos 4 ∷ []);
    })
replace-query_example =
    replace-query running running stored_replacement empty_tables once_stored.1 (codes "created")
      stored_summary sample_selection (pos 100) sample_output (pos 1 ∷ pos 4 ∷ [])
      empty_tables-IsDatabase sample-IsStored (refl, tt) stored_indices-Distinct stored_reply
      (λ s. refl) selection_run

different_keys : ¬ ((codes "ab" ≡ codes "a") × (codes "c" ≡ codes "bc"))
different_keys (e, _) = absurd (cc)

advisory_buffer-ne_example :
    advisory_buffer (codes "ab") (codes "c") ≢ advisory_buffer (codes "a") (codes "bc")
advisory_buffer-ne_example =
    advisory_buffer-ne (codes "ab") (codes "c") (codes "a") (codes "bc") (omega arith) (omega arith)
      different_keys

once_deleted :
    delete running (code_of (codes "ssb")) (code_of (codes "cpi")) once_stored.1
    ≡ (ok tt, (delete running (code_of (codes "ssb")) (code_of (codes "cpi")) once_stored.1).1)
unfolding delete replace stored_dimensions
once_deleted = refl

delete-not_found_example :
    (get_summary running
        (code_of (codes "ssb"))
        (code_of (codes "cpi"))
        (delete running (code_of (codes "ssb")) (code_of (codes "cpi")) once_stored.1).1
      ≡ err not_found)
    × (get_data running
          (code_of (codes "ssb"))
          (code_of (codes "cpi"))
          (delete running (code_of (codes "ssb")) (code_of (codes "cpi")) once_stored.1).1
        ≡ err not_found)
delete-not_found_example =
    delete-not_found running running (code_of (codes "ssb")) (code_of (codes "cpi")) once_stored.1
      (delete running (code_of (codes "ssb")) (code_of (codes "cpi")) once_stored.1).1
      replace-IsDatabase_stored once_deleted (λ s. refl)

replace_total_example :
    ((result : Bytes) × (s : Summary) × (t' : Tables) × (replace running stored_replacement
          once_stored.1
        ≡ (ok (result, s), t')))
    ⊎ ((stored_replacement.replace ≡ false)
        × (replace running stored_replacement once_stored.1 ≡ (err dataset_exists, once_stored.1))
        × ((p : ProviderRow) × (d : DatasetRow) × (find_identity once_stored.1
                stored_replacement.provider.key stored_replacement.dataset.key
              ≡ some (p, d))))
replace_total_example =
    replace_total running (λ s t. refl) stored_replacement once_stored.1 replace-IsDatabase_stored
