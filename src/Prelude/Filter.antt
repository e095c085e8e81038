-- ===== src/Prelude/Filter.antt =====
-- Lists selected by a Boolean test, and lists changed at one place.
use Prim.Native.Nat.{ℕ, zero, suc}
use mathlib.Core.Path.{◌≡◌, refl, ap, ◌∙◌}
use mathlib.Core.Logic.{◌⊎◌, inl, inr}
use mathlib.Core.Bool.{Bool, true, false}
use mathlib.Core.Option.{Option, none, some}
use mathlib.Core.List.{List, [], ◌∷◌, ◌++◌, map}
use nordicintel_storage_api.Prelude.Tests.{
  if◌then◌else◌, Bool-cases, some-inj, HasEq, ◌==◌, ==_refl,
}
use nordicintel_storage_api.Prelude.Maps.{contains, lookup, insert, lookup-insert, insert_all}
use nordicintel_storage_api.Prelude.Lists.{length}
use nordicintel_storage_api.Prelude.Sort.{Has}

module _ {ℓ} {A : Type ℓ} where
  -- The elements that pass a test, in order.
  abbrev pub filter_by : (A → Bool) → List A → List A
  filter_by p [] = []
  filter_by p (x ∷ xs) = if p x then x ∷ filter_by p xs else filter_by p xs

  -- The first element that passes a test.
  abbrev pub find_by : (A → Bool) → List A → Option A
  find_by p [] = none
  find_by p (x ∷ xs) = if p x then some x else find_by p xs

  -- The element at a place, changed; nothing out of bounds.
  abbrev pub modify_at : ℕ → (A → A) → List A → List A
  modify_at i f [] = []
  modify_at zero f (x ∷ xs) = f x ∷ xs
  modify_at (suc i) f (x ∷ xs) = x ∷ modify_at i f xs

  pub modify_at-append :
      (f : A → A) (xs ys : List A) (y : A)
      → modify_at (length xs) f (xs ++ (y ∷ ys)) ≡ xs ++ (f y ∷ ys)
  modify_at-append f [] ys y = refl
  modify_at-append f (x ∷ xs) ys y = ap (◌∷◌ x) (modify_at-append f xs ys y)

  pub filter_by-append :
      (p : A → Bool) (xs ys : List A) → filter_by p (xs ++ ys) ≡ filter_by p xs ++ filter_by p ys
  filter_by-append p [] ys = refl
  filter_by-append p (x ∷ xs) ys = elim (Bool-cases (p x)) [
    | inl passes ↦ rw passes (ap (◌∷◌ x) (filter_by-append p xs ys))
    | inr fails ↦ rw fails (filter_by-append p xs ys)
  ]

  -- A filter that drops everything.
  pub filter_by-none :
      (p : A → Bool) (xs : List A) → ((x : A) → Has x xs → p x ≡ false) → filter_by p xs ≡ []
  filter_by-none p [] h = refl
  filter_by-none p (x ∷ xs) h =
      rw (h x (0, refl)) (filter_by-none p xs (λ y (i, at). h y (suc i, at)))

  -- Dropping elements that a later filter drops anyway changes nothing.
  pub filter_by-filter_by :
      (p q : A → Bool) (xs : List A)
      → ((x : A) → Has x xs → p x ≡ true → q x ≡ true)
      → filter_by p (filter_by q xs) ≡ filter_by p xs
  filter_by-filter_by p q [] h = refl
  filter_by-filter_by p q (x ∷ xs) h =
      let ih = filter_by-filter_by p q xs (λ y (i, at). h y (suc i, at)) in
      elim (Bool-cases (p x)) [
        | inl passes ↦ rw (h x (0, refl) passes, passes) (ap (◌∷◌ x) ih)
        | inr fails ↦ elim (Bool-cases (q x)) [
          | inl kept ↦ rw (kept, fails) ih
          | inr dropped ↦ rw (dropped, fails) ih
        ]
      ]

  pub find_by-Has :
      (p : A → Bool) (xs : List A) (x : A) → find_by p xs ≡ some x → Has x xs × (p x ≡ true)
  find_by-Has p [] x e = absurd (cc)
  find_by-Has p (y ∷ xs) x e = elim (Bool-cases (p y)) [
    | inl passes ↦
        let same : y ≡ x = some-inj (rw passes at e) in ((0, ap some same), rw same at passes)
    | inr fails ↦
        let ((i, at), passes) = find_by-Has p xs x (rw fails at e) in ((suc i, at), passes)
  ]

  pub find_by-append :
      (p : A → Bool) (xs ys : List A)
      → find_by p (xs ++ ys) ≡ elim (find_by p xs) [ none ↦ find_by p ys | some x ↦ some x ]
  find_by-append p [] ys = refl
  find_by-append p (x ∷ xs) ys = elim (Bool-cases (p x)) [
    | inl passes ↦ rw passes refl
    | inr fails ↦ rw fails (find_by-append p xs ys)
  ]

  pub find_by-map :
      (p : A → Bool) (f : A → A) (xs : List A) (x : A)
      → ((y : A) → p (f y) ≡ p y)
      → find_by p xs ≡ some x
      → find_by p (map f xs) ≡ some (f x)
  find_by-map p f [] x kept e = absurd (cc)
  find_by-map p f (y ∷ xs) x kept e = elim (Bool-cases (p y)) [
    | inl passes ↦ rw (kept y, passes) (ap (λ z. some (f z)) (some-inj (rw passes at e)))
    | inr fails ↦ rw (kept y, fails) (find_by-map p f xs x kept (rw fails at e))
  ]

  pub find_by-of_Has :
      (p : A → Bool) (xs : List A) (x : A)
      → Has x xs
      → p x ≡ true
      → (y : A) × (find_by p xs ≡ some y)
  find_by-of_Has p [] x (i, e) h = absurd (cc)
  find_by-of_Has p (y ∷ xs) x (zero, e) h =
      let same : y ≡ x = some-inj e in (y, rw same (rw h refl))
  find_by-of_Has p (y ∷ xs) x (suc i, e) h = elim (Bool-cases (p y)) [
    | inl passes ↦ (y, rw passes refl)
    | inr fails ↦ rw fails (find_by-of_Has p xs x (i, e) h)
  ]

  pub find_by-none :
      (p : A → Bool) (xs : List A) → ((x : A) → Has x xs → p x ≡ false) → find_by p xs ≡ none
  find_by-none p [] h = refl
  find_by-none p (x ∷ xs) h = rw (h x (0, refl)) (find_by-none p xs (λ y (i, at). h y (suc i, at)))

  pub Has-append : (x : A) (xs ys : List A) → Has x (xs ++ ys) → Has x xs ⊎ Has x ys
  Has-append x [] ys h = inr h
  Has-append x (y ∷ xs) ys (zero, e) = inl (0, e)
  Has-append x (y ∷ xs) ys (suc i, e) = elim (Has-append x xs ys (i, e)) [
    | inl (k, at) ↦ inl (suc k, at)
    | inr h ↦ inr h
  ]

  pub Has-append_left : (x : A) (xs ys : List A) → Has x xs → Has x (xs ++ ys)
  Has-append_left x [] ys (i, e) = absurd (cc)
  Has-append_left x (y ∷ xs) ys (zero, e) = (0, e)
  Has-append_left x (y ∷ xs) ys (suc i, e) =
      let (k, at) = Has-append_left x xs ys (i, e) in (suc k, at)

  pub Has-append_right : (x : A) (xs ys : List A) → Has x ys → Has x (xs ++ ys)
  Has-append_right x [] ys h = h
  Has-append_right x (y ∷ xs) ys h = let (k, at) = Has-append_right x xs ys h in (suc k, at)

  pub Has-filter_by :
      (p : A → Bool) (x : A) (xs : List A) → Has x (filter_by p xs) → Has x xs × (p x ≡ true)
  Has-filter_by p x [] (i, e) = absurd (cc)
  Has-filter_by p x (y ∷ xs) h = elim (Bool-cases (p y)) [
    | inl passes ↦ first passes (rw passes at h) (Has-filter_by p x xs)
    | inr fails ↦
        let ((i, at), passed) = Has-filter_by p x xs (rw fails at h) in ((suc i, at), passed)
  ]
    where
      first :
          p y ≡ true
          → Has x (y ∷ filter_by p xs)
          → (Has x (filter_by p xs) → Has x xs × (p x ≡ true))
          → Has x (y ∷ xs) × (p x ≡ true)
      first passes (zero, e) ih = let same : y ≡ x = some-inj e in ((0, e), rw same at passes)
      first passes (suc i, e) ih = let ((k, at), passed) = ih (i, e) in ((suc k, at), passed)

  pub Has-filter_by_kept :
      (p : A → Bool) (x : A) (xs : List A) → Has x xs → p x ≡ true → Has x (filter_by p xs)
  Has-filter_by_kept p x [] (i, e) passes = absurd (cc)
  Has-filter_by_kept p x (y ∷ xs) (zero, e) passes =
      let same : y ≡ x = some-inj e in
      let first : p y ≡ true = rw (← same) at passes in rw first (0, e)
  Has-filter_by_kept p x (y ∷ xs) (suc i, e) passes =
      let (k, at) = Has-filter_by_kept p x xs (i, e) passes in
      elim (Bool-cases (p y)) [
        | inl first ↦ rw first (suc k, at)
        | inr dropped ↦ rw dropped (k, at)
      ]

module _ {ℓ κ} {A : Type ℓ} {B : Type κ} where
  -- Where an element of a mapped list comes from.
  pub Has-of_map :
      (f : A → B) (y : B) (xs : List A) → Has y (map f xs) → (x : A) × Has x xs × (f x ≡ y)
  Has-of_map f y [] (i, e) = absurd (cc)
  Has-of_map f y (x ∷ xs) (zero, e) = (x, (0, refl), some-inj e)
  Has-of_map f y (x ∷ xs) (suc i, e) =
      let (z, (k, at), same) = Has-of_map f y xs (i, e) in (z, (suc k, at), same)

-- A key among the keys is contained in them, and a key of a map has an entry.
module _ {ℓ} {K : Type ℓ} ⦃e : HasEq K⦄ where
  pub contains_of_Has : (k : K) (ks : List K) → Has k ks → contains k ks ≡ true
  contains_of_Has k [] (i, at) = absurd (cc)
  contains_of_Has k (j ∷ ks) (zero, at) =
      let same : j ≡ k = some-inj at in rw (same, ==_refl k) refl
  contains_of_Has k (j ∷ ks) (suc i, at) = elim (Bool-cases (j == k)) [
    | inl here ↦ rw here refl
    | inr other ↦ rw other (contains_of_Has k ks (i, at))
  ]

module _ {ℓ κ} {K : Type ℓ} {V : Type κ} ⦃e : HasEq K⦄ where
  abbrev pub IsIn : K → List (K × V) → Type κ
  IsIn k m = (v : V) × (lookup k m ≡ some v)

  pub insert-IsIn : (k j : K) (v : V) (m : List (K × V)) → IsIn k m → IsIn k (insert j v m)
  insert-IsIn k j v m (w, at) = elim (Bool-cases (j == k)) [
    | inl same ↦ (v, lookup-insert j k v m ∙ rw same refl)
    | inr other ↦ (w, lookup-insert j k v m ∙ rw other at)
  ]

module _ {ℓ κ μ} {A : Type ℓ} {K : Type κ} {V : Type μ} ⦃e : HasEq K⦄ (key : A → K)
    (val : A → V) where
  pub insert_all-IsIn :
      (k : K) (xs : List A) (m : List (K × V)) → IsIn k m → IsIn k (insert_all key val xs m)
  unfolding insert_all
  insert_all-IsIn k [] m h = h
  insert_all-IsIn k (x ∷ xs) m h =
      insert_all-IsIn k xs (insert (key x) (val x) m) (insert-IsIn k (key x) (val x) m h)

  pub insert_all-Has :
      (x : A) (xs : List A) (m : List (K × V)) → Has x xs → IsIn (key x) (insert_all key val xs m)
  unfolding insert_all
  insert_all-Has x [] m (i, at) = absurd (cc)
  insert_all-Has x (y ∷ xs) m (zero, at) =
      let same : y ≡ x = some-inj at in
      rw same (
        insert_all-IsIn (key x) xs (insert (key x) (val x) m)
          (val x, lookup-insert (key x) (key x) (val x) m ∙ rw (==_refl (key x)) refl))
  insert_all-Has x (y ∷ xs) m (suc i, at) = insert_all-Has x xs (insert (key y) (val y) m) (i, at)
