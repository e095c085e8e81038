-- ===== src/Domain/Selection/Total.antt =====
-- `ResolveSelection` never indexes a slice out of range.
use nordicintel_storage_api.Prelude.{◌≢◌, bytes_eq, Result, err}
use nordicintel_storage_api.Domain.Model.{Selection}
use nordicintel_storage_api.Domain.Selection.{SelectionError, out_of_range}

abbrev IsSafe : {A : Type 0} → Result SelectionError A → Type 0
IsSafe r = r ≢ err out_of_range
