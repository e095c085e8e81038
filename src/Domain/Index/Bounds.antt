-- ===== src/Domain/Index/Bounds.antt =====
-- Exactly which indexes and coordinates index.go accepts.
use nordicintel_storage_api.Prelude.{
  ℕ, ◌*◌, ◌/◌, ◌≤◌, ◌<◌, ◌≡◌, refl, ap, List, [], ◌∷◌, map, length, length-map, ℤ, pos, negsuc,
  wrap64, ok, err, arith, ◌≢◌, ltb, ltb→lt, Bool-cases, inl, inr, ◌+ℤ◌, ◌*ℤ◌, nat_beq_iff, sym, ◌∙◌,
}
use nordicintel_storage_api.Domain.Index.{
  outside_cube, strides, coordinates_from, coordinates, cell_index_from, cell_index,
}
use nordicintel_storage_api.Domain.Index.Spec.{
  product, weights, rank, unrank, AllPos, InBox, product-pos, InBox-length, length-weights,
}
use nordicintel_storage_api.Domain.Index.Agreement.{
  IsCube, strides-pos, coordinates_from-pos, cell_index_from-pos,
}

quotient_large : (i n p : ℕ) → 0 < p → n * p ≤ i → n ≤ i / p
quotient_large i n p h q = grind arith

coordinates_from-outside :
    (i : ℕ) (ns : List ℕ)
    → ns ≢ []
    → AllPos ns
    → product ns ≤ i
    → coordinates_from (pos i) (map pos ns) (map pos (weights ns)) ≡ err outside_cube
unfolding coordinates_from weights product
coordinates_from-outside i [] ne h p = absurd (ne refl)
coordinates_from-outside i (n ∷ ns) ne h p =
    let q = product-pos ns h.1 in let large = quotient_large i n (product ns) q p in ground arith

coordinates_from-negative :
    (k : ℕ) (ns : List ℕ)
    → ns ≢ []
    → coordinates_from (negsuc k) (map pos ns) (map pos (weights ns)) ≡ err outside_cube
unfolding coordinates_from weights
coordinates_from-negative k [] ne = absurd (ne refl)
coordinates_from-negative k (n ∷ ns) ne = ground arith

-- an accepted coordinate list lies in the cube
cell_index_from-InBox :
    (a : ℤ) (coords : List ℤ) (ns : List ℕ) (k : ℤ)
    → length coords ≡ length ns
    → cell_index_from a coords (map pos ns) (map pos (weights ns)) ≡ ok k
    → (cs : List ℕ) × (coords ≡ map pos cs) × InBox cs ns
unfolding cell_index_from weights
cell_index_from-InBox a [] [] k l e = ([], refl, tt)
cell_index_from-InBox a [] (n ∷ ns) k l e = absurd (omega arith)
cell_index_from-InBox a (c ∷ coords) [] k l e = absurd (omega arith)
cell_index_from-InBox a (negsuc c ∷ coords) (n ∷ ns) k l e = absurd (ground arith)
cell_index_from-InBox a (pos c ∷ coords) (n ∷ ns) k l e = elim (Bool-cases (ltb c n)) [
  | inl below ↦
      let (cs, same, inside) =
        cell_index_from-InBox (wrap64 (a +ℤ wrap64 (pos c *ℤ pos (product ns)))) coords ns k
          (omega arith) (ground arith) in
      (c ∷ cs, ap (◌∷◌ (pos c)) same, (ltb→lt c n below, inside))
  | inr above ↦ absurd (ground arith)
]

module _ (ns : List ℕ) (cube : IsCube ns) where
  same_length : length (map pos ns) ≡ length (strides (map pos ns))
  same_length =
      rw (strides-pos ns cube, length-map pos ns, length-map pos (weights ns))
        (sym (length-weights ns))

  coordinates-from :
      (index : ℤ)
      → coordinates index (map pos ns) (strides (map pos ns))
        ≡ coordinates_from index (map pos ns) (map pos (weights ns))
  unfolding coordinates
  coordinates-from index = rw ((nat_beq_iff _ _).1 same_length, strides-pos ns cube)

  -- `Coordinates` of an index in the cube is the row-major decomposition.
  pub coordinates-inside :
      (i : ℕ)
      → i < product ns
      → coordinates (pos i) (map pos ns) (strides (map pos ns)) ≡ ok (map pos (unrank i ns))
  coordinates-inside i h = rw coordinates-from (coordinates_from-pos i ns cube.all_pos h)

  pub coordinates-outside :
      (i : ℕ)
      → ns ≢ []
      → product ns ≤ i
      → coordinates (pos i) (map pos ns) (strides (map pos ns)) ≡ err outside_cube
  coordinates-outside i ne h = rw coordinates-from (coordinates_from-outside i ns ne cube.all_pos h)

  pub coordinates-negative :
      (k : ℕ)
      → ns ≢ []
      → coordinates (negsuc k) (map pos ns) (strides (map pos ns)) ≡ err outside_cube
  coordinates-negative k ne = rw coordinates-from (coordinates_from-negative k ns ne)

  cell_index-from :
      (coords : List ℤ)
      → length coords ≡ length ns
      → cell_index coords (map pos ns) (strides (map pos ns))
        ≡ cell_index_from (pos 0) coords (map pos ns) (map pos (weights ns))
  unfolding cell_index
  cell_index-from coords l = rw (
    (nat_beq_iff (length coords) (length (map pos ns))).1 (l ∙ sym (length-map pos ns)),
    (nat_beq_iff _ _).1 same_length,
    strides-pos ns cube,
  )

  cell_index-length :
      (coords : List ℤ) (k : ℤ)
      → cell_index coords (map pos ns) (strides (map pos ns)) ≡ ok k
      → length coords ≡ length ns
  unfolding cell_index
  cell_index-length coords k e = ground (arith, length-map pos ns)

  pub cell_index-inside :
      (cs : List ℕ)
      → InBox cs ns
      → cell_index (map pos cs) (map pos ns) (strides (map pos ns)) ≡ ok (pos (rank cs ns))
  cell_index-inside cs h =
      let fits = cube.fits in
      rw (cell_index-from (map pos cs) (length-map pos cs ∙ InBox-length cs ns h))
        (cell_index_from-pos 0 cs ns h (omega arith) ∙ ap (λ k. ok (pos k)) (omega arith))

  pub cell_index-InBox :
      (coords : List ℤ) (k : ℤ)
      → cell_index coords (map pos ns) (strides (map pos ns)) ≡ ok k
      → (cs : List ℕ) × (coords ≡ map pos cs) × InBox cs ns
  cell_index-InBox coords k e =
      let l = cell_index-length coords k e in
      cell_index_from-InBox (pos 0) coords ns k l (rw (cell_index-from coords l) at e)
