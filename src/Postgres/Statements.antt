-- ===== src/Postgres/Statements.antt =====
-- What internal/store/postgres.go relies on outside it: PostgreSQL, pgx, the clock of the database,
-- and the test hooks `transactionCheckpoints`. A statement may fail for a reason of their own, which
-- a violated constraint of the schema is too; a transaction that fails changes nothing but the
-- identity columns, whose next value may leave a gap.
use nordicintel_storage_api.Prelude.{
  ℕ, ℤ, Bytes, Option, none, some, Result, ok, err, ◌>>=◌, ◌≡◌, Bool, true, false, if◌then◌else◌,
  subst, ok-inj, refl,
}
use nordicintel_storage_api.Domain.Model.{RawMessage, Time}
use nordicintel_storage_api.Server.Store.{StoreError, deadline_exceeded, other_failure}
use nordicintel_storage_api.Postgres.Tables.{Tables}

pub data Statement : Type 0 where
  ping_pool : Statement
  begin : Statement
  advisory_lock : ℤ → Statement
  insert_provider : Statement
  select_provider : Statement
  select_dataset : Statement
  insert_dataset : Statement
  delete_observations : Statement
  delete_dimensions : Statement
  before_structure : Statement
  insert_dimension : ℤ → Statement
  copy_categories : ℤ → Statement
  before_copy : Statement
  copy_observations : Statement
  update_dataset : Statement
  before_commit : Statement
  delete_dataset_row : Statement
  select_providers : Statement
  select_summaries : Statement
  select_summary : Statement
  select_dimension_rows : Statement
  select_category_rows : Statement
  select_cells : Statement
  select_batch : ℕ → Statement
  commit : Statement

pub data Fault : Type 0 where
  expired : Fault
  failed : Fault

pub record Backend : Type 0 where
  pub fault : Statement → Tables → Option Fault
  pub gap : Tables → ℕ
  pub clock_timestamp : Statement → Tables → Time
  pub to_jsonb : RawMessage → RawMessage
  pub sha256 : Bytes → Bytes

abbrev pub fault_error : Fault → StoreError
fault_error expired = deadline_exceeded
fault_error failed = other_failure

-- A statement that may fail, and what it returns.
abbrev pub outcome {ℓ} : {A : Type ℓ} → Option Fault → A → Result StoreError A
outcome none a = ok a
outcome (some f) a = err (fault_error f)

abbrev pub attempt {ℓ} : {A : Type ℓ} → Backend → Statement → Tables → A → Result StoreError A
attempt e s t a = outcome (e.fault s t) a

-- `checkpoint`: a hook that is not set is one that does not fail, and no hook changes a row.
abbrev pub checkpoint : Backend → Statement → Tables → Result StoreError Tables
checkpoint e hook t = attempt e hook t t

-- What follows a statement that succeeds runs on what it returns.
pub outcome->>= {ℓ κ} :
    {A : Type ℓ} {B : Type κ} (f : Option Fault) (a : A) (next : A → Result StoreError B) {b : B}
    → (outcome f a >>= next) ≡ ok b
    → next a ≡ ok b
outcome->>= none a next h = h
outcome->>= (some f) a next h = absurd (cc)

-- A step that is taken under a condition keeps what both its ends have.
pub outcome_if {ℓ} :
    (P : Tables → Type ℓ) (b : Bool) (f : Option Fault) (t' t : Tables) {last : Tables}
    → P t'
    → (b ≡ false → P t)
    → (if b then outcome f t' else ok t) ≡ ok last
    → P last
outcome_if P true none t' t taken skipped h = subst P (ok-inj h) taken
outcome_if P true (some f) t' t taken skipped h = absurd (cc)
outcome_if P false f t' t taken skipped h = subst P (ok-inj h) (skipped refl)
