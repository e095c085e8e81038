-- ===== src/Tests/Others.antt =====
-- Two datasets of internal/store/postgres.go, one stored after the other, then deleted.
use mathlib.Core.Bool.{false≢true}
use nordicintel_storage_api.Prelude.{◌≡◌, ◌≢◌, refl, ap, Bytes, bytes_beq, codes, Result, ok}
use nordicintel_storage_api.Domain.Model.{Replacement, Summary}
use nordicintel_storage_api.Domain.Remap.{stored_dimensions}
use nordicintel_storage_api.Server.Store.{StoreError}
use nordicintel_storage_api.Postgres.Tables.{Tables}
use nordicintel_storage_api.Postgres.Replace.{replace}
use nordicintel_storage_api.Postgres.Delete.{delete}
use nordicintel_storage_api.Postgres.Reads.{get_summary}
use nordicintel_storage_api.Postgres.Integrity.{IsDatabase}
use nordicintel_storage_api.Postgres.Kept.{replace-IsDatabase}
use nordicintel_storage_api.Postgres.Isolation.{replace-get_summary_other}
use nordicintel_storage_api.Postgres.Others.{delete-get_summary_other}
use nordicintel_storage_api.Tests.Database.{
  running, code_of, stored_replacement, stored_summary, once_stored, replace-IsDatabase_stored,
}

abbrev other_replacement : Replacement
other_replacement = record stored_replacement { dataset = code_of (codes "pop") }

abbrev twice_stored : Result StoreError (Bytes × Summary) × Tables
twice_stored = replace running other_replacement once_stored.1

twice_stored-IsDatabase : IsDatabase twice_stored.1
twice_stored-IsDatabase =
    replace-IsDatabase running once_stored.1 replace-IsDatabase_stored other_replacement

cpi_deleted :
    delete running (code_of (codes "ssb")) (code_of (codes "cpi")) twice_stored.1
    ≡ (ok tt, (delete running (code_of (codes "ssb")) (code_of (codes "cpi")) twice_stored.1).1)
unfolding delete replace stored_dimensions
cpi_deleted = refl

other_key : codes "ssb" ≡ codes "ssb" → codes "cpi" ≢ codes "pop"
other_key e e' = false≢true (ap (λ s. bytes_beq s (codes "pop")) e')

delete-get_summary_other_example :
    get_summary running
      (code_of (codes "ssb"))
      (code_of (codes "pop"))
      (delete running (code_of (codes "ssb")) (code_of (codes "cpi")) twice_stored.1).1
    ≡ get_summary running (code_of (codes "ssb")) (code_of (codes "pop")) twice_stored.1
delete-get_summary_other_example =
    delete-get_summary_other running running (code_of (codes "ssb")) (code_of (codes "cpi"))
      (code_of (codes "ssb")) (code_of (codes "pop")) twice_stored.1
      (delete running (code_of (codes "ssb")) (code_of (codes "cpi")) twice_stored.1).1
      twice_stored-IsDatabase cpi_deleted other_key (λ s x. refl)

pop_stored :
    twice_stored
    ≡ (ok (codes "created", record stored_summary { dataset_code = codes "pop" }), twice_stored.1)
unfolding replace stored_dimensions
pop_stored = refl

replaced_key : codes "ssb" ≡ codes "ssb" → codes "pop" ≢ codes "cpi"
replaced_key e e' = false≢true (ap (λ s. bytes_beq s (codes "cpi")) e')

replace-get_summary_other_example :
    get_summary running (code_of (codes "ssb")) (code_of (codes "cpi")) twice_stored.1
    ≡ get_summary running (code_of (codes "ssb")) (code_of (codes "cpi")) once_stored.1
replace-get_summary_other_example =
    replace-get_summary_other running running other_replacement (code_of (codes "ssb"))
      (code_of (codes "cpi")) once_stored.1 twice_stored.1 (codes "created")
      (record stored_summary { dataset_code = codes "pop" }) replace-IsDatabase_stored pop_stored
      replaced_key (λ s x. refl)
