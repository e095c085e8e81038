-- ===== src/Domain/Normalize.antt =====
-- internal/domain/normalize.go. Trimming, NFKC and case folding are the Unicode tables of other
-- packages: operations that the model takes as parameters, with no law.
pub mod Laws
use nordicintel_storage_api.Prelude.{
  ℕ, zero, suc, Bytes, bytes_beq, Option, none, some, List, [], Result, ok, err, if◌then◌else◌, ltb,
  length,
}
use nordicintel_storage_api.Domain.Model.{Code, max_code_bytes}

pub record Unicode : Type 0 where
  -- strings.TrimFunc(value, unicode.IsSpace)
  pub trim_space : Bytes → Bytes
  -- norm.NFKC.String(value)
  pub nfkc : Bytes → Bytes
  -- cases.Fold().String(value)
  pub fold : Bytes → Bytes

pub data CodeError : Type 0 where
  spelling_too_long : CodeError
  does_not_converge : CodeError
  empty_after_normalization : CodeError
  key_too_long : CodeError

abbrev pub max_normalization_rounds : ℕ
max_normalization_rounds = 8

module _ (u : Unicode) where
  pub normalization_round : Bytes → Bytes
  normalization_round value = u.trim_space (u.nfkc (u.fold (u.nfkc (u.trim_space value))))

  -- the loop of `NormalizeCode`: the first key that a round leaves alone, within the rounds left
  pub converge : ℕ → Bytes → Option Bytes
  converge zero key = none
  converge (suc rounds) key =
      let next = normalization_round key in
      let rest = converge rounds next in if bytes_beq next key then some key else rest

  -- what `NormalizeCode` does with the key that the loop left
  pub check_key : Bytes → Option Bytes → Result CodeError Code
  check_key spelling none = err does_not_converge
  check_key spelling (some key) =
      if bytes_beq key []
      then err empty_after_normalization
      else if ltb max_code_bytes (length key)
      then err key_too_long
      else ok (record { spelling = spelling; key = key })

  unfoldable pub normalize_code : Bytes → Result CodeError Code
  unfolding normalization_round converge check_key
  normalize_code spelling =
      if ltb max_code_bytes (length spelling)
      then err spelling_too_long
      else check_key spelling (converge max_normalization_rounds spelling)
