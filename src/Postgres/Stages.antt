-- ===== src/Postgres/Stages.antt =====
-- What `Replace` of internal/store/postgres.go went through, when it succeeded.
use mathlib.Core.Path.{ap₂}
use nordicintel_storage_api.Prelude.{
  err, ℕ, ◌≡◌, Bytes, some, nat_beq, ltb, length, if◌then◌else◌, find_by, Result, ok, >>=-eq-ok,
  ok-inj, require, require-eq-ok, subst, ap,
}
use nordicintel_storage_api.Domain.Model.{Replacement, Summary}
use nordicintel_storage_api.Server.Store.{StoreError, other_failure}
use nordicintel_storage_api.Postgres.Tables.{
  ProviderRow, DatasetRow, Tables, find_provider, summary_of,
}
use nordicintel_storage_api.Postgres.Statements.{
  Backend, attempt, outcome->>=, begin, advisory_lock, insert_provider, select_provider,
  before_structure, before_copy, copy_observations, update_dataset, before_commit, commit,
}
use nordicintel_storage_api.Postgres.Advisory.{advisory_key}
use nordicintel_storage_api.Postgres.Replace.{
  end_transaction, add_provider, open_dataset, insert_dimensions, add_observations, set_dataset,
  finish_replace, store_replacement, replace_rows,
}

-- The step that copies the observations, if there are any.
abbrev pub copy_cells : Backend → Replacement → ℕ → Tables → Result StoreError Tables
copy_cells e r id t =
    if ltb 0 (length r.cells)
    then attempt e copy_observations t (add_observations id r.cells t)
    else ok t

pub record Replaced (e : Backend) (r : Replacement) (t : Tables) (result : Bytes) (s : Summary)
    (t' : Tables) : Type 0 where
  pub p : ProviderRow
  pub id : ℕ
  pub opened : Tables
  pub structured : Tables
  pub copied : Tables
  pub d : DatasetRow
  pub found : find_provider r.provider.key (add_provider e r.provider t).providers ≡ some p
  pub opened_by : open_dataset e p r (add_provider e r.provider t) ≡ ok (result, id, opened)
  pub structured_by : insert_dimensions e id r.dimensions opened ≡ ok structured
  pub copied_by : copy_cells e r id structured ≡ ok copied
  pub updated : set_dataset e r id copied ≡ t'
  pub returned : find_by (λ (d : DatasetRow). nat_beq d.id id) t'.datasets ≡ some d
  pub summarised : summary_of p d ≡ s

module _ (e : Backend) (r : Replacement) where
  finish_replace-eq-ok :
      (p : ProviderRow) (result word : Bytes) (id : ℕ) (t : Tables) (s : Summary) (t' : Tables)
      → finish_replace e r p word id t ≡ ok ((result, s), t')
      → (word ≡ result)
        × (set_dataset e r id t ≡ t')
        × ((d : DatasetRow) × (find_by (λ (d : DatasetRow). nat_beq d.id id) t'.datasets ≡ some d)
            × (summary_of p d ≡ s))
  unfolding finish_replace
  finish_replace-eq-ok p result word id t s t' h =
      let t1 = set_dataset e r id t in
      let h1 = outcome->>= (e.fault update_dataset t) t1 _ h in
      let (d, at, h2) =
        >>=-eq-ok
          (require other_failure (find_by (λ (d : DatasetRow). nat_beq d.id id) t1.datasets)) _
          h1 in
      let h3 = outcome->>= (e.fault before_commit t1) t1 _ h2 in
      let h4 = ok-inj (outcome->>= (e.fault commit t1) t1 _ h3) in
      let same : t1 ≡ t' = ap (λ z. z.1) h4 in
      (
        ap (λ z. z.0.0) h4,
        same,
        (
          d,
          subst (λ (z : Tables). find_by (λ (x : DatasetRow). nat_beq x.id id) z.datasets ≡ some d)
              same (require-eq-ok other_failure _ at),
          ap (λ z. z.0.1) h4,
        ),
      )

  pub replace_rows-Replaced :
      (t : Tables) (result : Bytes) (s : Summary) (t' : Tables)
      → replace_rows e r t ≡ ok ((result, s), t')
      → Replaced e r t result s t'
  unfolding replace_rows store_replacement
  replace_rows-Replaced t result s t' h =
      let h1 = outcome->>= (e.fault begin t) t _ h in
      let h2 =
        outcome->>= (e.fault (advisory_lock (advisory_key e r.provider.key r.dataset.key)) t) t _
          h1 in
      let t1 = add_provider e r.provider t in
      let h3 = outcome->>= (e.fault insert_provider t) t1 _ h2 in
      let found = find_provider r.provider.key t1.providers in
      let h4 = outcome->>= (e.fault select_provider t1) found _ h3 in
      let (p, at, h5) = >>=-eq-ok (require other_failure found) _ h4 in
      let ((word, id, t2), opened_by, h6) = >>=-eq-ok (open_dataset e p r t1) _ h5 in
      let h7 = outcome->>= (e.fault before_structure t2) t2 _ h6 in
      let (t3, structured_by, h8) = >>=-eq-ok (insert_dimensions e id r.dimensions t2) _ h7 in
      let h9 = outcome->>= (e.fault before_copy t3) t3 _ h8 in
      let (t5, copied_by, h10) = >>=-eq-ok (copy_cells e r id t3) _ h9 in
      let (same_word, updated, (d, returned, summarised)) =
        finish_replace-eq-ok p result word id t5 s t' h10 in
      record {
        p = p;
        id = id;
        opened = t2;
        structured = t3;
        copied = t5;
        d = d;
        found = require-eq-ok other_failure found at;
        opened_by = subst (λ w. open_dataset e p r t1 ≡ ok (w, id, t2)) same_word opened_by;
        structured_by = structured_by;
        copied_by = copied_by;
        updated = updated;
        returned = returned;
        summarised = summarised;
      }

-- A transaction that reports a result has committed it.
pub end_transaction-eq-ok :
    {A : Type 0} (b : Result StoreError (A × Tables)) (t : Tables) (a : A) (t' : Tables)
    → end_transaction b t ≡ (ok a, t')
    → b ≡ ok (a, t')
end_transaction-eq-ok (ok (a', t'')) t a t' h =
    ap ok (ap₂ (λ x y. (x, y)) (ok-inj (ap (λ z. z.0) h)) (ap (λ z. z.1) h))
end_transaction-eq-ok (err error) t a t' h = absurd (cc (ap (λ z. z.0) h))
