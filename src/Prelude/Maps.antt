-- ===== src/Prelude/Maps.antt =====
-- Go maps as association lists with distinct keys. A `range` over a map visits its entries in some
-- order, which is the order of the list; theorems hold for every list, so for every order.
use Prim.Native.Nat.{ℕ, zero, suc}
use mathlib.Core.Path.{◌≡◌, refl, sym, ◌∙◌}
use mathlib.Core.Logic.{◌⊎◌, inl, inr}
use mathlib.Core.Bool.{Bool, false, ◌||◌}
use mathlib.Core.Option.{Option, none, some}
use mathlib.Core.List.{List, [], ◌∷◌, map}
use native.Mathlib.Omega.{arith}
use nordicintel_storage_api.Prelude.Tests.{
  HasEq, ◌==◌, if◌then◌else◌, ==_refl, ==_of_ne, eq_of_==, Bool-cases, some-inj,
}
use nordicintel_storage_api.Prelude.Lists.{get_elem?, All, Fresh, Distinct}

module _ {ℓ κ} {K : Type ℓ} {V : Type κ} ⦃e : HasEq K⦄ where
  -- v, ok := m[k]
  abbrev pub lookup : K → List (K × V) → Option V
  lookup key [] = none
  lookup key ((other, v) ∷ rest) = if other == key then some v else lookup key rest

  -- m[k] = v
  abbrev pub insert : K → V → List (K × V) → List (K × V)
  insert key v [] = (key, v) ∷ []
  insert key v ((other, w) ∷ rest) =
      if other == key then (key, v) ∷ rest else (other, w) ∷ insert key v rest

  pub lookup-insert :
      (key sought : K) (v : V) (m : List (K × V))
      → lookup sought (insert key v m) ≡ (if key == sought then some v else lookup sought m)
  lookup-insert key sought v [] = refl
  lookup-insert key sought v ((other, w) ∷ rest) = ground (
    arith,
    e.same_iff key sought,
    e.same_iff other key,
    e.same_iff other sought,
    lookup-insert key sought v rest,
  )

-- map[string]struct{} as the list of its keys
module _ {ℓ} {K : Type ℓ} ⦃e : HasEq K⦄ where
  -- _, ok := m[k]
  abbrev pub contains : K → List K → Bool
  contains k [] = false
  contains k (j ∷ ks) = j == k || contains k ks

  -- Keys that are unseen beside `k` are unseen, and differ from `k`.
  pub unseen-cons :
      (k : K) (seen keys : List K)
      → All (λ j. contains j (k ∷ seen) ≡ false) keys
      → Fresh k keys × All (λ j. contains j seen ≡ false) keys
  unseen-cons k seen [] h = (tt, tt)
  unseen-cons k seen (j ∷ keys) (h, hs) =
      let (fresh, unseen) = unseen-cons k seen keys hs in
      ((ground (arith, e.same_iff k j), fresh), (ground arith, unseen))

-- A loop that inserts an entry for each element, in order.
module _ {ℓ κ μ} {A : Type ℓ} {K : Type κ} {V : Type μ} ⦃e : HasEq K⦄ (key : A → K)
    (val : A → V) where
  unfoldable pub insert_all : List A → List (K × V) → List (K × V)
  insert_all [] m = m
  insert_all (x ∷ xs) m = insert_all xs (insert (key x) (val x) m)

  pub insert_all-absent :
      (k : K) (xs : List A) (m : List (K × V))
      → Fresh k (map key xs)
      → lookup k (insert_all xs m) ≡ lookup k m
  unfolding insert_all
  insert_all-absent k [] m f = refl
  insert_all-absent k (x ∷ xs) m (ne, f) =
      insert_all-absent k xs (insert (key x) (val x) m) f
      ∙ lookup-insert (key x) k (val x) m
      ∙ rw (==_of_ne (key x) k (λ h. ne (sym h)))

  -- With distinct keys, every element has its entry.
  pub insert_all-present :
      (xs : List A) (m : List (K × V)) (i : ℕ) (x : A)
      → Distinct (map key xs)
      → get_elem? xs i ≡ some x
      → lookup (key x) (insert_all xs m) ≡ some (val x)
  unfolding insert_all
  insert_all-present [] m i x d h = absurd (cc)
  insert_all-present (y ∷ ys) m zero x (f, d) h =
      let same : y ≡ x = some-inj h in
      rw (← same) (
        insert_all-absent (key y) ys (insert (key y) (val y) m) f
        ∙ lookup-insert (key y) (key y) (val y) m
        ∙ rw (==_refl (key y)))
  insert_all-present (y ∷ ys) m (suc i) x (f, d) h =
      insert_all-present ys (insert (key y) (val y) m) i x d h

  -- An entry that is found comes from an element, or was there before.
  pub insert_all-found :
      (xs : List A) (m : List (K × V)) (k : K) (v : V)
      → lookup k (insert_all xs m) ≡ some v
      → ((i : ℕ) × (x : A) × (get_elem? xs i ≡ some x) × (key x ≡ k) × (val x ≡ v))
        ⊎ (lookup k m ≡ some v)
  unfolding insert_all
  insert_all-found [] m k v h = inr h
  insert_all-found (x ∷ xs) m k v h = elim (insert_all-found xs (insert (key x) (val x) m) k v h) [
    | inl (i, y, at, same_key, same_val) ↦ inl (suc i, y, at, same_key, same_val)
    | inr old ↦ elim (Bool-cases (key x == k)) [
      | inl same ↦ inl (
        0,
        x,
        refl,
        eq_of_== (key x) k same,
        some-inj (sym (rw same at (lookup-insert (key x) k (val x) m)) ∙ old),
      )
      | inr other ↦ inr (sym (rw other at (lookup-insert (key x) k (val x) m)) ∙ old)
    ]
  ]
