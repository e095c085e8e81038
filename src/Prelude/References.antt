-- ===== src/Prelude/References.antt =====
-- Rows that are referred to by a number.
use Prim.Native.Nat.{ℕ, zero, suc, ◌<◌, ◌≤◌}
use mathlib.Core.Path.{◌≡◌, refl, subst, ◌∙◌, ap, sym}
use mathlib.Core.Logic.{◌⊎◌, inl, inr, ◌≢◌}
use mathlib.Core.Bool.{Bool, true}
use mathlib.Core.List.{List, [], ◌∷◌, ◌++◌, map}
use native.Mathlib.Omega.{arith}
use nordicintel_storage_api.Prelude.Tests.{some-inj}
use nordicintel_storage_api.Prelude.Lists.{Fresh, Distinct, All-get_elem?}
use nordicintel_storage_api.Prelude.Sort.{Has, Has-map}
use nordicintel_storage_api.Prelude.Filter.{
  filter_by, Has-append, Has-append_left, Has-append_right, Has-filter_by_kept, Has-filter_by,
  Has-of_map,
}

module _ {ℓ} {A : Type ℓ} where
  pub Has-one : (x y : A) → Has x (y ∷ []) → y ≡ x
  Has-one x y (zero, at) = some-inj at
  Has-one x y (suc i, at) = absurd (cc)

module _ {ℓ} {A : Type ℓ} (number : A → ℕ) where
  abbrev pub Refers : ℕ → List A → Type ℓ
  Refers id rows = (x : A) × Has x rows × (number x ≡ id)

  pub Refers-append_left : (id : ℕ) (xs ys : List A) → Refers id xs → Refers id (xs ++ ys)
  Refers-append_left id xs ys (x, at, same) = (x, Has-append_left x xs ys at, same)

  pub Refers-append_one : (xs : List A) (y : A) → Refers (number y) (xs ++ (y ∷ []))
  Refers-append_one xs y = (y, Has-append_right y xs (y ∷ []) (0, refl), refl)

  pub Refers-filter_by :
      (p : A → Bool) (id : ℕ) (xs : List A)
      → ((x : A) → number x ≡ id → p x ≡ true)
      → Refers id xs
      → Refers id (filter_by p xs)
  Refers-filter_by p id xs passes (x, at, same) =
      (x, Has-filter_by_kept p x xs at (passes x same), same)

  pub Refers-map :
      (f : A → A) (id : ℕ) (xs : List A)
      → ((x : A) → number (f x) ≡ number x)
      → Refers id xs
      → Refers id (map f xs)
  Refers-map f id xs kept (x, at, same) = (f x, Has-map f x xs at, kept x ∙ same)

  -- Numbers below a counter, and one above them.
  pub number_bound :
      (xs : List A) (y : A) (n : ℕ)
      → ((x : A) → Has x xs → number x < n)
      → n ≤ number y
      → (x : A) → Has x (xs ++ (y ∷ []))
      → number x < suc (number y)
  number_bound xs y n below above x h = elim (Has-append x xs (y ∷ []) h) [
    | inl old ↦ omega (arith, below x old)
    | inr new ↦ subst (λ z. number z < suc (number y)) (Has-one x y new) (omega arith)
  ]

  -- A number names one row.
  abbrev pub Unique : List A → Type ℓ
  Unique rows = (x y : A) → Has x rows → Has y rows → number x ≡ number y → x ≡ y

  pub Unique-append_one :
      (xs : List A) (y : A) (n : ℕ)
      → ((x : A) → Has x xs → number x < n)
      → n ≤ number y
      → Unique xs
      → Unique (xs ++ (y ∷ []))
  Unique-append_one xs y n below above u a b ha hb same =
      named (Has-append a xs (y ∷ []) ha) (Has-append b xs (y ∷ []) hb)
    where
      named : Has a xs ⊎ Has a (y ∷ []) → Has b xs ⊎ Has b (y ∷ []) → a ≡ b
      named (inl old) (inl old') = u a b old old' same
      named (inl old) (inr new) =
          let is_y : number y ≡ number b = ap number (Has-one b y new) in
          absurd (omega (arith, below a old, is_y))
      named (inr new) (inl old) =
          let is_y : number y ≡ number a = ap number (Has-one a y new) in
          absurd (omega (arith, below b old, is_y))
      named (inr new) (inr new') = sym (Has-one a y new) ∙ Has-one b y new'

  pub Unique-filter_by : (p : A → Bool) (xs : List A) → Unique xs → Unique (filter_by p xs)
  Unique-filter_by p xs u a b ha hb = u a b (Has-filter_by p a xs ha).0 (Has-filter_by p b xs hb).0

  pub Unique-map :
      (f : A → A) (xs : List A)
      → ((x : A) → number (f x) ≡ number x)
      → Unique xs
      → Unique (map f xs)
  Unique-map f xs kept u a b ha hb same =
      let (x, hx, from) = Has-of_map f a xs ha in
      let (y, hy, from') = Has-of_map f b xs hb in
      sym from
      ∙ ap f (u x y hx hy (sym (kept x) ∙ ap number from ∙ same ∙ sym (ap number from') ∙ kept y))
      ∙ from'

module _ {ℓ κ} {A : Type ℓ} {K : Type κ} (key : A → K) where
  Fresh-apart :
      (z : A) (xs : List A) (w : A) → Fresh (key z) (map key xs) → Has w xs → key z ≢ key w
  Fresh-apart z xs w f h clash =
      let (k, e) = Has-map key w xs h in
      All-get_elem? (λ j. key z ≢ j) (map key xs) k (key w) f e clash

  -- Distinct keys tell the elements apart.
  pub Distinct-inj :
      (xs : List A) (x y : A) → Distinct (map key xs) → Has x xs → Has y xs → key x ≡ key y → x ≡ y
  Distinct-inj [] x y d (i, at) there same = absurd (cc)
  Distinct-inj (z ∷ xs) x y (fresh, d) (zero, at) (zero, at') same = some-inj (sym at ∙ at')
  Distinct-inj (z ∷ xs) x y (fresh, d) (zero, at) (suc j, at') same =
      absurd (Fresh-apart z xs y fresh (j, at') (ap key (some-inj at) ∙ same))
  Distinct-inj (z ∷ xs) x y (fresh, d) (suc i, at) (zero, at') same =
      absurd (Fresh-apart z xs x fresh (i, at) (ap key (some-inj at') ∙ sym same))
  Distinct-inj (z ∷ xs) x y (fresh, d) (suc i, at) (suc j, at') same =
      Distinct-inj xs x y d (i, at) (j, at') same
