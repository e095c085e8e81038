-- ===== src/Prelude/Sort.antt =====
-- sort.Slice and slices.SortFunc. Which sorting algorithm runs makes no difference here, since the
-- keys that the code sorts by are distinct; this one is by insertion.
use Prim.Native.Nat.{ℕ, zero, suc, ◌+◌}
use mathlib.Core.Path.{◌≡◌, refl, ap, ◌∙◌, sym}
use mathlib.Core.Bool.{Bool, true, false, ◌||◌}
use mathlib.Core.Logic.{inl, inr, ◌≢◌}
use mathlib.Core.Option.{some}
use mathlib.Core.List.{List, [], ◌∷◌, map}
use native.Mathlib.Omega.{arith}
use nordicintel_storage_api.Prelude.Tests.{if◌then◌else◌, Bool-cases, some-inj, HasEq, ◌==◌}
use nordicintel_storage_api.Prelude.Maps.{contains}
use nordicintel_storage_api.Prelude.Lists.{length, get_elem?, All, Fresh, Distinct}

module _ {ℓ} {A : Type ℓ} (less : A → A → Bool) where
  unfoldable pub insert_sorted : A → List A → List A
  insert_sorted x [] = x ∷ []
  insert_sorted x (y ∷ ys) = if less y x then y ∷ insert_sorted x ys else x ∷ y ∷ ys

  unfoldable pub sort : List A → List A
  unfolding insert_sorted
  sort [] = []
  sort (x ∷ xs) = insert_sorted x (sort xs)

module _ {ℓ} {A : Type ℓ} (less : A → A → Bool) where
  length-insert_sorted : (x : A) (ys : List A) → length (insert_sorted less x ys) ≡ suc (length ys)
  unfolding insert_sorted
  length-insert_sorted x [] = refl
  length-insert_sorted x (y ∷ ys) = ground (arith, length-insert_sorted x ys)

  pub length-sort : (xs : List A) → length (sort less xs) ≡ length xs
  unfolding sort
  length-sort [] = refl
  length-sort (x ∷ xs) = length-insert_sorted x (sort less xs) ∙ ap suc (length-sort xs)

module _ {ℓ κ μ} {A : Type ℓ} {B : Type κ} (P : B → Type μ) (f : A → B) where
  pub All-map : (xs : List A) → All (λ x. P (f x)) xs → All P (map f xs)
  All-map [] h = tt
  All-map (x ∷ xs) (p, h) = (p, All-map xs h)

  pub All-of_map : (xs : List A) → All P (map f xs) → All (λ x. P (f x)) xs
  All-of_map [] h = tt
  All-of_map (x ∷ xs) (p, h) = (p, All-of_map xs h)

-- A property of every element holds before and after.
module _ {ℓ κ} {A : Type ℓ} (less : A → A → Bool) (P : A → Type κ) where
  All-insert_sorted : (x : A) (ys : List A) → P x → All P ys → All P (insert_sorted less x ys)
  unfolding insert_sorted
  All-insert_sorted x [] p h = (p, tt)
  All-insert_sorted x (y ∷ ys) p (q, h) = elim (Bool-cases (less y x)) [
    | inl after ↦ rw after (q, All-insert_sorted x ys p h)
    | inr before ↦ rw before (p, (q, h))
  ]

  pub All-sort : (xs : List A) → All P xs → All P (sort less xs)
  unfolding sort
  All-sort [] h = tt
  All-sort (x ∷ xs) (p, h) = All-insert_sorted x (sort less xs) p (All-sort xs h)

-- No element is less than the one before it.
abbrev pub IsSorted {ℓ} : {A : Type ℓ} → (A → A → Bool) → List A → Type 0
IsSorted less [] = Unit
IsSorted less (x ∷ []) = Unit
IsSorted less (x ∷ y ∷ ys) = (less y x ≡ false) × IsSorted less (y ∷ ys)

module _ {ℓ} {A : Type ℓ} (less : A → A → Bool)
    (asym : (x y : A) → less x y ≡ true → less y x ≡ false) where
  insert_sorted-IsSorted :
      (x : A) (ys : List A) → IsSorted less ys → IsSorted less (insert_sorted less x ys)
  unfolding insert_sorted
  insert_sorted-IsSorted x [] h = tt
  insert_sorted-IsSorted x (y ∷ []) h = ground (arith, asym y x)
  insert_sorted-IsSorted x (y ∷ z ∷ ys) (h, hs) =
      ground (arith, asym y x, insert_sorted-IsSorted x (z ∷ ys) hs)

  pub sort-IsSorted : (xs : List A) → IsSorted less (sort less xs)
  unfolding sort
  sort-IsSorted [] = tt
  sort-IsSorted (x ∷ xs) = insert_sorted-IsSorted x (sort less xs) (sort-IsSorted xs)

-- Distinct keys stay distinct.
module _ {ℓ κ} {A : Type ℓ} {K : Type κ} (less : A → A → Bool) (key : A → K) where
  Distinct-insert_sorted :
      (x : A) (ys : List A)
      → Fresh (key x) (map key ys)
      → Distinct (map key ys)
      → Distinct (map key (insert_sorted less x ys))
  unfolding insert_sorted
  Distinct-insert_sorted x [] f d = (tt, tt)
  Distinct-insert_sorted x (y ∷ ys) (ne, f) (g, d) = elim (Bool-cases (less y x)) [
    | inl after ↦ rw after (
      All-map _ key _ (
          All-insert_sorted less (λ z. key y ≢ key z) x ys (λ e. ne (sym e))
            (All-of_map _ key ys g)),
      Distinct-insert_sorted x ys f d,
    )
    | inr before ↦ rw before ((ne, f), (g, d))
  ]

  pub Distinct-sort : (xs : List A) → Distinct (map key xs) → Distinct (map key (sort less xs))
  unfolding sort
  Distinct-sort [] d = tt
  Distinct-sort (x ∷ xs) (f, d) =
      Distinct-insert_sorted x (sort less xs)
        (All-map _ key _ (All-sort less (λ z. key x ≢ key z) xs (All-of_map _ key xs f)))
        (Distinct-sort xs d)

-- Sums over the elements do not change.
abbrev pub sum_of {ℓ} : {A : Type ℓ} → (A → ℕ) → List A → ℕ
sum_of f [] = 0
sum_of f (x ∷ xs) = f x + sum_of f xs

module _ {ℓ} {A : Type ℓ} (less : A → A → Bool) (f : A → ℕ) where
  sum_of-insert_sorted :
      (x : A) (ys : List A) → sum_of f (insert_sorted less x ys) ≡ f x + sum_of f ys
  unfolding insert_sorted
  sum_of-insert_sorted x [] = refl
  sum_of-insert_sorted x (y ∷ ys) = ground (arith, sum_of-insert_sorted x ys)

  pub sum_of-sort : (xs : List A) → sum_of f (sort less xs) ≡ sum_of f xs
  unfolding sort
  sum_of-sort [] = refl
  sum_of-sort (x ∷ xs) = omega (arith, sum_of-insert_sorted x (sort less xs), sum_of-sort xs)

-- The value stands at some place of the list.
abbrev pub Has {ℓ} : {A : Type ℓ} → A → List A → Type ℓ
Has x xs = (i : ℕ) × (get_elem? xs i ≡ some x)

pub Has-map {ℓ κ} :
    {A : Type ℓ} {B : Type κ} (f : A → B) (x : A) (xs : List A) → Has x xs → Has (f x) (map f xs)
Has-map f x [] (i, e) = absurd (cc)
Has-map f x (y ∷ ys) (zero, e) = (0, ap (λ z. some (f z)) (some-inj e))
Has-map f x (y ∷ ys) (suc i, e) = let (j, h) = Has-map f x ys (i, e) in (suc j, h)

module _ {ℓ} {A : Type ℓ} (less : A → A → Bool) where
  Has-insert_sorted_self : (x : A) (ys : List A) → Has x (insert_sorted less x ys)
  unfolding insert_sorted
  Has-insert_sorted_self x [] = (0, refl)
  Has-insert_sorted_self x (y ∷ ys) = elim (Bool-cases (less y x)) [
    | inl after ↦ let (i, e) = Has-insert_sorted_self x ys in rw after (suc i, e)
    | inr before ↦ rw before (0, refl)
  ]

  Has-insert_sorted : (x z : A) (ys : List A) → Has z ys → Has z (insert_sorted less x ys)
  unfolding insert_sorted
  Has-insert_sorted x z [] (i, e) = absurd (cc)
  Has-insert_sorted x z (y ∷ ys) (zero, e) = elim (Bool-cases (less y x)) [
    | inl after ↦ rw after (0, e)
    | inr before ↦ rw before (1, e)
  ]
  Has-insert_sorted x z (y ∷ ys) (suc i, e) =
      let (j, h) = Has-insert_sorted x z ys (i, e) in
      elim (Bool-cases (less y x)) [
        | inl after ↦ rw after (suc j, h)
        | inr before ↦ rw before (suc (suc i), e)
      ]

  pub Has-sort : (z : A) (xs : List A) → Has z xs → Has z (sort less xs)
  unfolding sort
  Has-sort z [] (i, e) = absurd (cc)
  Has-sort z (x ∷ xs) (zero, e) =
      let same : x ≡ z = some-inj e in rw (← same) (Has-insert_sorted_self x (sort less xs))
  Has-sort z (x ∷ xs) (suc i, e) = Has-insert_sorted x z (sort less xs) (Has-sort z xs (i, e))

-- Sorting keeps the set of keys.
module _ {ℓ κ} {A : Type ℓ} {K : Type κ} ⦃e : HasEq K⦄ (less : A → A → Bool) (key : A → K) where
  contains-insert_sorted :
      (k : K) (x : A) (ys : List A)
      → contains k (map key (insert_sorted less x ys)) ≡ (key x == k || contains k (map key ys))
  unfolding insert_sorted
  contains-insert_sorted k x [] = refl
  contains-insert_sorted k x (y ∷ ys) = ground (arith, contains-insert_sorted k x ys)

  pub contains-sort :
      (k : K) (xs : List A) → contains k (map key (sort less xs)) ≡ contains k (map key xs)
  unfolding sort
  contains-sort k [] = refl
  contains-sort k (x ∷ xs) =
      contains-insert_sorted k x (sort less xs) ∙ ap (λ b. key x == k || b) (contains-sort k xs)

pub sum_of-map {ℓ κ} :
    {A : Type ℓ} {B : Type κ} (f : B → ℕ) (g : A → B) (xs : List A)
    → sum_of f (map g xs) ≡ sum_of (λ x. f (g x)) xs
sum_of-map f g [] = refl
sum_of-map f g (x ∷ xs) = ap (λ n. f (g x) + n) (sum_of-map f g xs)
