-- ===== src/Postgres/Posted.antt =====
-- From a posted body to the data that is read: ParseReplacement of internal/domain/payload.go, then
-- `Replace` and `GetData` of internal/store/postgres.go.
use nordicintel_storage_api.Prelude.{
  ℕ, ◌≤◌, pos, ◌≡◌, ◌⊎◌, inl, inr, false, none, some, Bytes, ok, err, max_int64,
}
use nordicintel_storage_api.Domain.Model.{Replacement, Summary}
use nordicintel_storage_api.Domain.Normalize.{Unicode}
use nordicintel_storage_api.Domain.Channels.{Json}
use nordicintel_storage_api.Domain.Payload.{BodyDecoder, ReplacementPayload, parse_replacement}
use nordicintel_storage_api.Domain.Payload.WellFormed.{parse_replacement-IsWellFormed}
use nordicintel_storage_api.Server.Store.{dataset_exists}
use nordicintel_storage_api.Postgres.Tables.{ProviderRow, DatasetRow, Tables, find_identity}
use nordicintel_storage_api.Postgres.Statements.{Backend, Statement}
use nordicintel_storage_api.Postgres.Replace.{replace}
use nordicintel_storage_api.Postgres.Reads.{get_data}
use nordicintel_storage_api.Postgres.Integrity.{IsDatabase}
use nordicintel_storage_api.Postgres.RoundTrip.{replace-get_data}
use nordicintel_storage_api.Postgres.Total.{replace_total}

module _ (u : Unicode) (j : Json) (d : BodyDecoder ReplacementPayload) (e : Backend)
    (runs : (s : Statement) (t : Tables) → e.fault s t ≡ none) where
  -- A body that `ParseReplacement` accepts under a positive limit that an int64 holds, stored in the
  -- tables of a database while no statement fails, is read back: `Replace` reports a summary, and
  -- `GetData` then returns it with the dimensions and cells that were parsed. Or the body does not
  -- ask to replace, and `Replace` ends with ErrDatasetExists and the tables as they were, which have
  -- the dataset: the provider and the dataset with the keys of the body.
  pub posted-get_data :
      (provider dataset body : Bytes) (limit : ℕ) (r : Replacement) (t : Tables)
      → 1 ≤ limit
      → limit ≤ max_int64
      → parse_replacement u j d provider dataset body (pos limit) ≡ ok r
      → IsDatabase t
      → ((result : Bytes) × (s : Summary) × (t' : Tables) × (replace e r t ≡ (ok (result, s), t'))
          × (get_data e r.provider r.dataset t'
              ≡ ok (record { summary = s; dimensions = r.dimensions; cells = r.cells })))
        ⊎ ((r.replace ≡ false)
            × (replace e r t ≡ (err dataset_exists, t))
            × ((p : ProviderRow) × (c : DatasetRow) × (find_identity t r.provider.key r.dataset.key
                  ≡ some (p, c))))
  posted-get_data provider dataset body limit r t low high parsed w =
      let formed =
        parse_replacement-IsWellFormed u j d provider dataset body limit r low high parsed in
      elim (replace_total e runs r t w) [
        | inl (result, s, t', stored) ↦ inl (
          result,
          s,
          t',
          stored,
          replace-get_data e e r t t' result s w formed.is_stored formed.sorted stored
              (λ x. runs x t'),
        )
        | inr (kept, refused, exists) ↦ inr (kept, refused, exists)
      ]
