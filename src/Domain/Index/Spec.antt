-- ===== src/Domain/Index/Spec.antt =====
-- Row-major order in natural numbers, with no machine integers: what index.go computes.
use nordicintel_storage_api.Prelude.{
  ℕ, suc, ◌+◌, ◌*◌, ◌/◌, ◌%◌, ◌≤◌, ◌<◌, ◌≡◌, refl, ap, List, [], ◌∷◌, All, length, arith,
}

-- The number of cells.
unfoldable pub product : List ℕ → ℕ
product [] = 1
product (n ∷ ns) = n * product ns

-- The weight of each dimension: the last one varies fastest.
unfoldable pub weights : List ℕ → List ℕ
unfolding product
weights [] = []
weights (n ∷ ns) = product ns ∷ weights ns

-- The flat index of coordinates.
unfoldable pub rank : List ℕ → List ℕ → ℕ
unfolding product
rank (c ∷ cs) (n ∷ ns) = c * product ns + rank cs ns
rank _ _ = 0

-- The coordinates of a flat index.
unfoldable pub unrank : ℕ → List ℕ → List ℕ
unfolding product
unrank i [] = []
unrank i (n ∷ ns) = (i / product ns) ∷ unrank (i % product ns) ns

abbrev pub AllPos : List ℕ → Type 0
AllPos ns = All (λ n. 0 < n) ns

-- One coordinate for each dimension, each below its size.
abbrev pub InBox : List ℕ → List ℕ → Type 0
InBox [] [] = Unit
InBox (c ∷ cs) (n ∷ ns) = (c < n) × InBox cs ns
InBox _ _ = ⊥

-- The block of coordinate `c` ends within the cube.
pub block_le : (c n p : ℕ) → c < n → c * p + p ≤ n * p
block_le c n p h = grind arith

pub product-pos : (ns : List ℕ) → AllPos ns → 0 < product ns
unfolding product
product-pos [] h = omega arith
product-pos (n ∷ ns) h = let p = product-pos ns h.1 in grind arith

pub InBox-length : (cs ns : List ℕ) → InBox cs ns → length cs ≡ length ns
InBox-length [] [] h = refl
InBox-length [] (n ∷ ns) h = elim h [ ]
InBox-length (c ∷ cs) [] h = elim h [ ]
InBox-length (c ∷ cs) (n ∷ ns) h = ap suc (InBox-length cs ns h.1)

pub length-weights : (ns : List ℕ) → length (weights ns) ≡ length ns
unfolding weights
length-weights [] = refl
length-weights (n ∷ ns) = ap suc (length-weights ns)

pub rank-lt-product : (cs ns : List ℕ) → InBox cs ns → rank cs ns < product ns
unfolding rank product
rank-lt-product [] [] h = omega arith
rank-lt-product [] (n ∷ ns) h = elim h [ ]
rank-lt-product (c ∷ cs) [] h = elim h [ ]
rank-lt-product (c ∷ cs) (n ∷ ns) h = let p = rank-lt-product cs ns h.1 in grind arith

pub unrank-InBox : (i : ℕ) (ns : List ℕ) → AllPos ns → i < product ns → InBox (unrank i ns) ns
unfolding unrank product
unrank-InBox i [] h p = tt
unrank-InBox i (n ∷ ns) h p =
    let q = product-pos ns h.1 in (grind arith, unrank-InBox (i % product ns) ns h.1 (grind arith))

pub rank-unrank : (i : ℕ) (ns : List ℕ) → AllPos ns → i < product ns → rank (unrank i ns) ns ≡ i
unfolding unrank rank product
rank-unrank i [] h p = omega arith
rank-unrank i (n ∷ ns) h p =
    let q = product-pos ns h.1 in
    let ih = rank-unrank (i % product ns) ns h.1 (grind arith) in grind arith

div_of_split : (c p r : ℕ) → r < p → (c * p + r) / p ≡ c
div_of_split c p r h = grind arith

mod_of_split : (c p r : ℕ) → r < p → (c * p + r) % p ≡ r
mod_of_split c p r h = grind arith

pub unrank-rank : (cs ns : List ℕ) → InBox cs ns → unrank (rank cs ns) ns ≡ cs
unfolding unrank rank
unrank-rank [] [] h = refl
unrank-rank [] (n ∷ ns) h = elim h [ ]
unrank-rank (c ∷ cs) [] h = elim h [ ]
unrank-rank (c ∷ cs) (n ∷ ns) h =
    let p = rank-lt-product cs ns h.1 in
    rw (div_of_split c _ _ p, mod_of_split c _ _ p) (ap (◌∷◌ c) (unrank-rank cs ns h.1))
