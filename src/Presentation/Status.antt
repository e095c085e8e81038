-- ===== src/Presentation/Status.antt =====
-- When a response carries one status for all cells.
use nordicintel_storage_api.Prelude.{
  ℕ, ◌≤◌, ◌<◌, ◌≡◌, ◌↔◌, refl, pos, Bytes, bytes_beq, bytes_beq_iff, true, false, some,
  Option-cases, some-inj, List, [], ◌∷◌, length, All, Bool-cases, inl, inr, ltb, nat_beq, arith,
}
use nordicintel_storage_api.Domain.Model.{Cell}
use nordicintel_storage_api.Presentation.{all_status, first_status, shared_status, status_of_first}

abbrev pub HasStatus : Bytes → Cell → Type 0
HasStatus s cell = cell.status ≡ some s

all_status_sound :
    (s : Bytes) (cells : List Cell) → all_status s cells ≡ true → All (HasStatus s) cells
unfolding all_status
all_status_sound s [] e = tt
all_status_sound s (cell ∷ cells) e = elim (Option-cases cell.status) [
  | inl missing ↦ absurd (cc (rw missing at e))
  | inr (t, found) ↦ elim (Bool-cases (bytes_beq t s)) [
    | inl same ↦
        let at : t ≡ s = (bytes_beq_iff t s).0 same in
        (rw at at found, all_status_sound s cells (rw (found, same) at e))
    | inr other ↦ absurd (cc (rw (found, other) at e))
  ]
]

all_status_complete :
    (s : Bytes) (cells : List Cell) → All (HasStatus s) cells → all_status s cells ≡ true
unfolding all_status
all_status_complete s [] h = refl
all_status_complete s (cell ∷ cells) (found, h) =
    rw (found, (bytes_beq_iff s s).1 refl) (all_status_complete s cells h)

first_status_iff :
    (s : Bytes) (cell : Cell) (cells : List Cell)
    → (first_status (cell ∷ cells) ≡ some s) ↔ All (HasStatus s) (cell ∷ cells)
unfolding first_status status_of_first
first_status_iff s cell cells = (
  λ e. elim (Option-cases cell.status) [
    | inl missing ↦ absurd (cc (rw missing at e))
    | inr (t, found) ↦ elim (Bool-cases (all_status t cells)) [
      | inl same ↦
          let at : t ≡ s = some-inj (rw (found, same) at e) in
          (rw at at found, rw at at (all_status_sound t cells same))
      | inr other ↦ absurd (cc (rw (found, other) at e))
    ]
  ],
  λ (found, h). rw (found, all_status_complete s cells h),
)

-- A response cube of at least one cell has the shared status `s` exactly when it has as many stored
-- cells as logical ones, or more, and every one of them has the status `s`.
pub shared_status_iff :
    (s : Bytes) (cells : List Cell) (n : ℕ)
    → 0 < n
    → (shared_status cells (pos n) ≡ some s) ↔ ((n ≤ length cells) × All (HasStatus s) cells)
unfolding shared_status
shared_status_iff s [] n positive = ground arith
shared_status_iff s (cell ∷ cells) n positive = elim (Bool-cases (ltb (length (cell ∷ cells)) n)) [
  | inl short ↦ rw short (λ e. absurd (cc), λ (enough, h). absurd (ground arith))
  | inr enough ↦
      let some_cells : nat_beq n 0 ≡ false = ground arith in
      rw (enough, some_cells)
        (
          λ e. (ground arith, (first_status_iff s cell cells).0 e),
          λ (fits, h). (first_status_iff s cell cells).1 h,
        )
]
