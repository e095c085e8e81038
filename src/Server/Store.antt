-- ===== src/Server/Store.antt =====
-- internal/store/store.go: the interface that the handlers call. The database is a state that an
-- operation may change; how it does is the implementation's.
use nordicintel_storage_api.Prelude.{ℤ, Bytes, List, Result}
use nordicintel_storage_api.Domain.Model.{
  Code, Summary, ProviderListItem, Replacement, Selection, View,
}

-- The errors that the handlers tell apart: ErrNotFound, ErrDatasetExists, ErrInvalidSelection, a
-- CellLimitError, an expired or cancelled context, any other.
pub data StoreError : Type 0 where
  not_found : StoreError
  dataset_exists : StoreError
  invalid_selection : StoreError
  selection_limit : ℤ → StoreError
  deadline_exceeded : StoreError
  other_failure : StoreError

-- `Replace` reports "created" or "replaced".
pub record Store (S : Type 0) : Type 0 where
  pub ping : S → Result StoreError (Unit {0}) × S
  pub list_providers : S → Result StoreError (List ProviderListItem) × S
  pub list_datasets : Code → S → Result StoreError (Bytes × List Summary) × S
  pub get_summary : Code → Code → S → Result StoreError Summary × S
  pub replace : Replacement → S → Result StoreError (Bytes × Summary) × S
  pub delete : Code → Code → S → Result StoreError (Unit {0}) × S
  pub get_structure : Code → Code → S → Result StoreError View × S
  pub get_data : Code → Code → S → Result StoreError View × S
  pub query : Code → Code → Selection → ℤ → S → Result StoreError View × S

-- A call that a handler made.
pub data Call : Type 0 where
  ping_call : Call
  list_providers_call : Call
  list_datasets_call : Code → Call
  get_summary_call : Code → Code → Call
  replace_call : Replacement → Call
  delete_call : Code → Code → Call
  get_structure_call : Code → Code → Call
  get_data_call : Code → Code → Call
  query_call : Code → Code → Selection → ℤ → Call
