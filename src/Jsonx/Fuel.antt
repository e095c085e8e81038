-- ===== src/Jsonx/Fuel.antt =====
-- The fuel of the strict decoder is enough.
use nordicintel_storage_api.Prelude.{
  ℕ, zero, suc, ◌+◌, ◌≤◌, ◌<◌, ◌≢◌, Bytes, bytes_eq, Bool, not, Bool-cases, inl, inr, Option, none,
  some, List, [], ◌∷◌, length, contains, Result, ok, err, ◌>>=◌, require, arith,
}
use nordicintel_storage_api.Jsonx.{
  Token, open_object, close_object, open_array, close_array, text, scalar, JsonError, out_of_fuel,
  not_decoded, Place, at_value, in_object, in_array, validate_value, fuel_for, check_end,
  decode_strict,
}

-- The fuel that a call needs: in the loop of an array it reads a value before it takes a token.
abbrev needed : Place → List (Option Token) → ℕ
needed at_value tokens = suc (length tokens + length tokens)
needed (in_object seen) tokens = suc (suc (length tokens + length tokens))
needed in_array tokens = suc (suc (length tokens + length tokens))

-- A result with fewer than `n` tokens left, or an error other than a lack of fuel.
abbrev IsDone : ℕ → Result JsonError (List (Option Token)) → Type 0
IsDone n (ok rest) = length rest < n
IsDone n (err e) = e ≢ out_of_fuel

IsDone->>= :
    (n k : ℕ) (m : Result JsonError (List (Option Token)))
    (next : List (Option Token) → Result JsonError (List (Option Token)))
    → IsDone n m
    → ((rest : List (Option Token)) → length rest < n → IsDone k (next rest))
    → IsDone k (m >>= next)
IsDone->>= n k (ok rest) next d h = h rest d
IsDone->>= n k (err e) next d h = d

IsDone-weaken :
    (n k : ℕ) (r : Result JsonError (List (Option Token))) → n ≤ k → IsDone n r → IsDone k r
IsDone-weaken n k (ok rest) h d = omega arith
IsDone-weaken n k (err e) h d = d

-- the loop of an array, after the test for its end
in_array-round :
    (f : ℕ) (token : Option Token) (tokens : List (Option Token))
    → ((place : Place) (ts : List (Option Token))
        → needed place ts ≤ f
        → IsDone (length ts) (validate_value f place ts))
    → needed in_array (token ∷ tokens) ≤ suc f
    → IsDone
        (length (token ∷ tokens))
        (validate_value f at_value (token ∷ tokens) >>= validate_value f in_array)
in_array-round f token tokens ih h =
    IsDone->>= (length (token ∷ tokens)) (length (token ∷ tokens))
      (validate_value f at_value (token ∷ tokens)) (validate_value f in_array)
      (ih at_value (token ∷ tokens) (omega arith))
      (λ rest shorter.
        IsDone-weaken (length rest) _ (validate_value f in_array rest) (omega arith)
          (ih in_array rest (omega arith)))

validate_value-IsDone :
    (f : ℕ) (place : Place) (tokens : List (Option Token))
    → needed place tokens ≤ f
    → IsDone (length tokens) (validate_value f place tokens)
unfolding validate_value
validate_value-IsDone zero at_value tokens h = absurd (omega arith)
validate_value-IsDone zero (in_object seen) tokens h = absurd (omega arith)
validate_value-IsDone zero in_array tokens h = absurd (omega arith)
validate_value-IsDone (suc f) place [] h = λ e. cc
validate_value-IsDone (suc f) place (none ∷ tokens) h = λ e. cc
validate_value-IsDone (suc f) at_value (some open_object ∷ tokens) h =
    IsDone-weaken (length tokens) _ (validate_value f (in_object []) tokens) (omega arith)
      (validate_value-IsDone f (in_object []) tokens (omega arith))
validate_value-IsDone (suc f) at_value (some open_array ∷ tokens) h =
    IsDone-weaken (length tokens) _ (validate_value f in_array tokens) (omega arith)
      (validate_value-IsDone f in_array tokens (omega arith))
validate_value-IsDone (suc f) at_value (some close_object ∷ tokens) h = λ e. cc
validate_value-IsDone (suc f) at_value (some close_array ∷ tokens) h = λ e. cc
validate_value-IsDone (suc f) at_value (some (text s) ∷ tokens) h = omega arith
validate_value-IsDone (suc f) at_value (some scalar ∷ tokens) h = omega arith
validate_value-IsDone (suc f) (in_object seen) (some close_object ∷ tokens) h = omega arith
validate_value-IsDone (suc f) (in_object seen) (some close_array ∷ tokens) h = λ e. cc
validate_value-IsDone (suc f) (in_object seen) (some (text key) ∷ tokens) h =
    elim (Bool-cases (contains key seen)) [
      | inl duplicate ↦ rw duplicate (λ e. cc)
      | inr new ↦ rw new (
          IsDone->>= (length tokens) _ (validate_value f at_value tokens)
            (validate_value f (in_object (key ∷ seen)))
            (validate_value-IsDone f at_value tokens (omega arith))
            (λ rest shorter.
              IsDone-weaken (length rest) _ (validate_value f (in_object (key ∷ seen)) rest)
                (omega arith)
                (validate_value-IsDone f (in_object (key ∷ seen)) rest (omega arith))))
    ]
validate_value-IsDone (suc f) (in_object seen) (some open_object ∷ tokens) h = λ e. cc
validate_value-IsDone (suc f) (in_object seen) (some open_array ∷ tokens) h = λ e. cc
validate_value-IsDone (suc f) (in_object seen) (some scalar ∷ tokens) h = λ e. cc
validate_value-IsDone (suc f) in_array (some close_array ∷ tokens) h = omega arith
validate_value-IsDone (suc f) in_array (some close_object ∷ tokens) h = λ e. cc
validate_value-IsDone (suc f) in_array (some open_object ∷ tokens) h =
    in_array-round f _ tokens (validate_value-IsDone f) h
validate_value-IsDone (suc f) in_array (some open_array ∷ tokens) h =
    in_array-round f _ tokens (validate_value-IsDone f) h
validate_value-IsDone (suc f) in_array (some (text s) ∷ tokens) h =
    in_array-round f _ tokens (validate_value-IsDone f) h
validate_value-IsDone (suc f) in_array (some scalar ∷ tokens) h =
    in_array-round f _ tokens (validate_value-IsDone f) h

-- what follows the validation does not run out of fuel
ending :
    {A : Type 0} (n : ℕ) (r : Result JsonError (List (Option Token))) (o : Option A)
    → IsDone n r
    → (r >>= λ rest. check_end rest >>= λ end. require not_decoded o) ≢ err out_of_fuel
ending n (ok []) none d = λ e. cc
ending n (ok []) (some a) d = λ e. cc
ending n (ok (token ∷ rest)) o d = λ e. cc
ending n (err e) o d = λ h. d (cc)

-- Whatever the text and whatever its tokens, `DecodeStrict` returns: the fuel does not run out.
pub decode_strict_ends :
    {A : Type 0} (valid_utf8 : Bytes → Bool) (tokens : Bytes → List (Option Token))
    (decode : Bytes → Option A) (body : Bytes)
    → decode_strict valid_utf8 tokens decode body ≢ err out_of_fuel
unfolding decode_strict
decode_strict_ends valid_utf8 tokens decode body = elim (Bool-cases (not (valid_utf8 body))) [
  | inl invalid ↦ rw invalid (λ e. cc)
  | inr valid ↦ rw valid (
      ending (length (tokens body)) _ (decode body)
        (validate_value-IsDone (fuel_for (tokens body)) at_value (tokens body) (omega arith)))
]
