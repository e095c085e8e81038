-- ===== src/Postgres/RoundTrip.antt =====
-- What `GetData` of internal/store/postgres.go reads after `Replace`.
use nordicintel_storage_api.Prelude.{
  ◌≡◌, refl, ap, sym, subst, ◌∙◌, nat_eq, nat_beq, bytes_eq, Bytes, eq_of_==, none, some,
  find_by-Has, ok,
}
use nordicintel_storage_api.Domain.Model.{Code, Replacement, Summary}
use nordicintel_storage_api.Prelude.{IsSorted}
use nordicintel_storage_api.Domain.Axes.{IsStored}
use nordicintel_storage_api.Domain.Remap.{cell_less}
use nordicintel_storage_api.Postgres.Tables.{
  ProviderRow, DatasetRow, Tables, is_dataset, find_provider, find_dataset, find_identity,
  summary_of, load_structure, load_all_cells,
}
use nordicintel_storage_api.Postgres.Statements.{
  Backend, Statement, begin, select_summary, select_dimension_rows, select_category_rows,
  select_cells, commit,
}
use nordicintel_storage_api.Postgres.Replace.{replace, replace_rows}
use nordicintel_storage_api.Postgres.Reads.{summary_and_id, get_data}
use nordicintel_storage_api.Postgres.Integrity.{IsDatabase}
use nordicintel_storage_api.Postgres.Stages.{replace_rows-Replaced, end_transaction-eq-ok}
use nordicintel_storage_api.Postgres.Kept.{Replaced-IsDatabase}
use nordicintel_storage_api.Postgres.Loading.Order.{IsStored-DimensionPlaces, IsSorted-InOrder}
use nordicintel_storage_api.Postgres.Stored.{Stored, Replaced-Stored}

-- A read without a fault.
get_data-eq :
    (e : Backend) (provider dataset : Code) (t : Tables) (p : ProviderRow) (d : DatasetRow)
    (r : Replacement)
    → ((s : Statement) → e.fault s t ≡ none)
    → find_identity t provider.key dataset.key ≡ some (p, d)
    → load_structure d.id t.dimensions t.categories ≡ ok r.dimensions
    → load_all_cells d.id t.observations ≡ r.cells
    → get_data e provider dataset t
      ≡ ok (record { summary = summary_of p d; dimensions = r.dimensions; cells = r.cells })
unfolding get_data summary_and_id
get_data-eq e provider dataset t p d r runs found structure cells =
    rw
      (
        runs begin,
        runs select_summary,
        found,
        runs select_dimension_rows,
        runs select_category_rows,
        structure,
        runs select_cells,
        cells,
        runs commit,
      )
      refl

find_identity-of :
    (t : Tables) (provider_key dataset_key : Bytes) (p : ProviderRow) (d : DatasetRow)
    → find_provider provider_key t.providers ≡ some p
    → find_dataset p.id dataset_key t.datasets ≡ some d
    → find_identity t provider_key dataset_key ≡ some (p, d)
unfolding find_identity
find_identity-of t provider_key dataset_key p d at here = rw (at, here) refl

-- What is found of a replacement that succeeded, under its identity.
pub record Readable (r : Replacement) (s : Summary) (t : Tables) : Type 0 where
  pub p : ProviderRow
  pub d : DatasetRow
  pub found : find_identity t r.provider.key r.dataset.key ≡ some (p, d)
  pub summarised : summary_of p d ≡ s
  pub stored : Stored p r d.id t

pub replace-Readable :
    (e : Backend) (r : Replacement) (t t' : Tables) (result : Bytes) (s : Summary)
    → IsDatabase t
    → IsStored r.dimensions
    → IsSorted cell_less r.cells
    → replace e r t ≡ (ok (result, s), t')
    → Readable r s t'
unfolding replace find_dataset
replace-Readable e r t t' result s w is_stored sorted h =
    let z =
      replace_rows-Replaced e r t result s t'
        (end_transaction-eq-ok (replace_rows e r t) t (result, s) t' h) in
    let o =
      Replaced-Stored e r (IsStored-DimensionPlaces r.dimensions is_stored)
        (IsSorted-InOrder r.cells sorted) t result s t' w z in
    let w' = Replaced-IsDatabase e r t result s t' w z in
    let (here, _) = find_by-Has (is_dataset z.p.id r.dataset.key) t'.datasets o.d o.found in
    let (here', same') =
      find_by-Has (λ (d : DatasetRow). nat_beq d.id z.id) t'.datasets z.d z.returned in
    let one : z.d ≡ o.d =
      w'.dataset_unique z.d o.d here' here (eq_of_== z.d.id z.id same' ∙ sym o.identified) in
    record {
      p = z.p;
      d = o.d;
      found = find_identity-of t' r.provider.key r.dataset.key z.p o.d o.provider o.found;
      summarised = ap (summary_of z.p) (sym one) ∙ z.summarised;
      stored = subst (λ id. Stored z.p r id t') (sym o.identified) o;
    }

-- After `Replace` has reported a summary, `GetData` of the same identity returns it, with the
-- dimensions and the cells of the replacement, whatever the tables held before: they are those of a
-- database, the dimensions of the replacement are a stored structure, its cells are sorted, and no
-- statement of the read fails.
pub replace-get_data :
    (e reads : Backend) (r : Replacement) (t t' : Tables) (result : Bytes) (s : Summary)
    → IsDatabase t
    → IsStored r.dimensions
    → IsSorted cell_less r.cells
    → replace e r t ≡ (ok (result, s), t')
    → ((statement : Statement) → reads.fault statement t' ≡ none)
    → get_data reads r.provider r.dataset t'
      ≡ ok (record { summary = s; dimensions = r.dimensions; cells = r.cells })
replace-get_data e reads r t t' result s w is_stored sorted h runs =
    let z = replace-Readable e r t t' result s w is_stored sorted h in
    get_data-eq reads r.provider r.dataset t' z.p z.d r runs z.found z.stored.structure
      z.stored.cells
    ∙ ap (λ v. ok (record { summary = v; dimensions = r.dimensions; cells = r.cells })) z.summarised
