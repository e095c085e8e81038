-- ===== src/Domain/Index/Agreement.antt =====
-- The machine-integer code of index.go computes row-major order, where the cube fits an int64.
use native.Mathlib.Nat.{mul_comm}
use nordicintel_storage_api.Prelude.{
  ℕ, suc, ◌+◌, ◌*◌, ◌/◌, ◌%◌, ◌≤◌, ◌<◌, ◌≡◌, refl, ap, List, [], ◌∷◌, map, pos, wrap64-pos,
  max_int64, ok, arith,
}
use nordicintel_storage_api.Domain.Index.{strides_from, strides, coordinates_from, cell_index_from}
use nordicintel_storage_api.Domain.Index.Spec.{
  product, weights, rank, unrank, AllPos, InBox, product-pos, block_le, rank-lt-product,
}

-- A cube that has a cell and whose cells an int64 can count.
pub record IsCube (ns : List ℕ) : Type 0 where
  pub all_pos : AllPos ns
  pub fits : product ns ≤ max_int64

IsCube-tail : (n : ℕ) (ns : List ℕ) → IsCube (n ∷ ns) → IsCube ns
unfolding product
IsCube-tail n ns c =
    let p = product-pos ns c.all_pos.1 in
    let q = c.all_pos.0 in let r = c.fits in record { all_pos = c.all_pos.1; fits = grind arith }

pub strides_from-pos :
    (ns : List ℕ) → IsCube ns → strides_from (map pos ns) ≡ (map pos (weights ns), pos (product ns))
unfolding strides_from weights product
strides_from-pos [] c = refl
strides_from-pos (n ∷ ns) c =
    let f = c.fits in
    rw (strides_from-pos ns (IsCube-tail n ns c), wrap64-pos (product ns * n) (grind arith))
      (ap (λ k. (pos (product ns) ∷ map pos (weights ns), pos k)) (mul_comm (product ns) n))

pub strides-pos : (ns : List ℕ) → IsCube ns → strides (map pos ns) ≡ map pos (weights ns)
unfolding strides
strides-pos ns c = ap (λ p. p.0) (strides_from-pos ns c)

pub coordinates_from-pos :
    (i : ℕ) (ns : List ℕ)
    → AllPos ns
    → i < product ns
    → coordinates_from (pos i) (map pos ns) (map pos (weights ns)) ≡ ok (map pos (unrank i ns))
unfolding coordinates_from weights unrank product
coordinates_from-pos i [] h p = refl
coordinates_from-pos i (n ∷ ns) h p =
    let q = product-pos ns h.1 in
    let below : i / product ns < n = grind arith in
    let ih = coordinates_from-pos (i % product ns) ns h.1 (grind arith) in ground (arith, ih)

pub cell_index_from-pos :
    (a : ℕ) (cs ns : List ℕ)
    → InBox cs ns
    → a + product ns ≤ suc max_int64
    → cell_index_from (pos a) (map pos cs) (map pos ns) (map pos (weights ns))
      ≡ ok (pos (a + rank cs ns))
unfolding cell_index_from weights rank product
cell_index_from-pos a [] [] h p = ap (λ k. ok (pos k)) (omega arith)
cell_index_from-pos a [] (n ∷ ns) h p = elim h [ ]
cell_index_from-pos a (c ∷ cs) [] h p = elim h [ ]
cell_index_from-pos a (c ∷ cs) (n ∷ ns) h p =
    let q = rank-lt-product cs ns h.1 in
    let block = block_le c n (product ns) h.0 in
    let ih = cell_index_from-pos (a + c * product ns) cs ns h.1 (omega arith) in
    rw (wrap64-pos (c * product ns) (omega arith), wrap64-pos (a + c * product ns) (omega arith))
      (ground (arith, ih))
