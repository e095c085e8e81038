-- ===== src/Server/Tokens.antt =====
-- What `authorize` of internal/httpapi/server.go accepts as a token, written out on the header.
use nordicintel_storage_api.Prelude.{
  nat_beq, ◌≡◌, ◌≢◌, ◌↔◌, refl, ap, ◌∙◌, Bytes, codes, Bool-cases, eq_of_==, ==_refl, nat_eq, inl,
  inr, Option, none, some, [], ◌∷◌, ◌++◌,
}
use nordicintel_storage_api.Server.Guards.{
  ServerFields, Request, after_prefix, check_token, bearer_token,
}

-- The header is "Bearer " and a token that has the digest, which is not empty.
pub record HasToken (c : ServerFields) (r : Request) (digest : Bytes) : Type 0 where
  pub token : Bytes
  pub header : r.authorization ≡ codes "Bearer " ++ token
  pub supplied : token ≢ []
  pub digests : c.sum256 token ≡ digest

after_prefix-append : (prefix rest : Bytes) → after_prefix prefix (prefix ++ rest) ≡ some rest
unfolding after_prefix
after_prefix-append [] rest = refl
after_prefix-append (a ∷ prefix) rest = rw (==_refl a) (after_prefix-append prefix rest)

append_of_after_prefix :
    (prefix s rest : Bytes) → after_prefix prefix s ≡ some rest → s ≡ prefix ++ rest
unfolding after_prefix
append_of_after_prefix [] s rest h = cc
append_of_after_prefix (a ∷ prefix) [] rest h = absurd (cc)
append_of_after_prefix (a ∷ prefix) (b ∷ s) rest h = elim (Bool-cases (nat_beq a b)) [
  | inl same ↦ cc (eq_of_== a b same, append_of_after_prefix prefix s rest (rw same at h))
  | inr other ↦ absurd (cc (rw other at h))
]

check_token-eq-some :
    (o : Option Bytes) (token : Bytes)
    → check_token o ≡ some token
    → (o ≡ some token) × (token ≢ [])
check_token-eq-some none token h = absurd (cc)
check_token-eq-some (some []) token h = absurd (cc)
check_token-eq-some (some (x ∷ s)) token h = (h, λ e. cc)

check_token-some : (token : Bytes) → token ≢ [] → check_token (some token) ≡ some token
check_token-some [] h = absurd (h refl)
check_token-some (x ∷ token) h = refl

pub bearer_token_iff :
    (header token : Bytes)
    → (bearer_token header ≡ some token) ↔ ((header ≡ codes "Bearer " ++ token) × (token ≢ []))
unfolding bearer_token
bearer_token_iff header token = (
  λ h.
      let (rest, supplied) = check_token-eq-some (after_prefix (codes "Bearer ") header) token h in
      (append_of_after_prefix (codes "Bearer ") header token rest, supplied),
  λ (shape, supplied).
      ap (λ s. check_token (after_prefix (codes "Bearer ") s)) shape
      ∙ ap check_token (after_prefix-append (codes "Bearer ") token)
      ∙ check_token-some token supplied,
)
