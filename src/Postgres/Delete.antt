-- ===== src/Postgres/Delete.antt =====
-- `Delete` of internal/store/postgres.go.
use nordicintel_storage_api.Prelude.{
  ℕ, not, nat_beq, filter_by, Option, none, some, Result, ok, ◌>>=◌,
}
use nordicintel_storage_api.Domain.Model.{Code}
use nordicintel_storage_api.Server.Store.{StoreError}
use nordicintel_storage_api.Postgres.Tables.{ProviderRow, DatasetRow, Tables, find_identity}
use nordicintel_storage_api.Postgres.Statements.{
  Backend, attempt, begin, advisory_lock, delete_observations, delete_dataset_row, commit,
}
use nordicintel_storage_api.Postgres.Advisory.{advisory_key}
use nordicintel_storage_api.Postgres.Replace.{drop_observations, drop_dimensions, end_transaction}

-- A delete of the rows of one identity: the keys are unique, so the join finds one dataset at most.
abbrev pub drop_identified :
    (ℕ → Tables → Tables) → Option (ProviderRow × DatasetRow) → Tables → Tables
drop_identified drop none t = t
drop_identified drop (some (p, d)) t = drop d.id t

-- The delete of a dataset's row cascades to its dimensions and to their categories.
unfoldable pub drop_dataset : ℕ → Tables → Tables
unfolding drop_dimensions
drop_dataset id t =
    let t' = drop_dimensions id t in
    record t' { datasets = filter_by (λ (d : DatasetRow). not (nat_beq d.id id)) t'.datasets }

unfoldable pub delete_rows : Backend → Code → Code → Tables → Result StoreError (Unit {0} × Tables)
unfolding advisory_key drop_observations drop_dataset find_identity
delete_rows e provider dataset t = do
  t ← attempt e begin t t
  t ← attempt e (advisory_lock (advisory_key e provider.key dataset.key)) t t
  t1 ←
      attempt e delete_observations t
        (drop_identified drop_observations (find_identity t provider.key dataset.key) t)
  t2 ←
      attempt e delete_dataset_row t1
        (drop_identified drop_dataset (find_identity t1 provider.key dataset.key) t1)
  t2 ← attempt e commit t2 t2
  ok (tt, t2)

unfoldable pub delete : Backend → Code → Code → Tables → Result StoreError (Unit {0}) × Tables
unfolding delete_rows
delete e provider dataset t = end_transaction (delete_rows e provider dataset t) t
