-- ===== src/Fndsa512.antt =====
-- fndsa512/fndsa512.go: the sizes that the package checks around the signature scheme. The scheme is a
-- parameter: `raw_sign` is fndsa.Sign with the random bytes of a run, `raw_verify` is fndsa.Verify.
use gomatrixcrypto.Base.{
  ℕ, Bool, true, false, ◌&&◌, List, length, ◌==◌, if◌then◌else◌, Result, ok, err, ◌>>=◌,
  invalid_private_key, invalid_public_key, invalid_signature,
}

abbrev pub public_key_size : ℕ
public_key_size = 897

abbrev pub private_key_size : ℕ
private_key_size = 1281

abbrev pub signature_size : ℕ
signature_size = 666

-- DOMAIN_NONE, or the bytes of a context.
pub data Domain : Type 0 where
  domain_none : Domain
  domain_context : List ℕ → Domain

pub record Scheme : Type 0 where
  pub raw_sign : List ℕ → Domain → ℕ → List ℕ → Result (List ℕ)
  pub raw_verify : List ℕ → Domain → ℕ → List ℕ → List ℕ → Bool

-- A key or a signature of the right size is passed on.
unfoldable pub check_private_key : List ℕ → Result (List ℕ)
check_private_key key = if length key == private_key_size then ok key else err invalid_private_key

unfoldable pub check_public_key : List ℕ → Result (List ℕ)
check_public_key key = if length key == public_key_size then ok key else err invalid_public_key

unfoldable pub check_signature : List ℕ → Result (List ℕ)
check_signature sig = if length sig == signature_size then ok sig else err invalid_signature

abbrev pub is_ok : Result (List ℕ) → Bool
is_ok (ok bytes) = true
is_ok (err e) = false

module _ (scheme : Scheme) where
  unfoldable pub sign_with : Domain → ℕ → List ℕ → List ℕ → Result (List ℕ)
  unfolding check_private_key check_signature
  sign_with domain hash_id private_key message =
      check_private_key private_key
      >>= (λ (key : List ℕ). scheme.raw_sign key domain hash_id message)
      >>= check_signature

  unfoldable pub sign : List ℕ → List ℕ → Result (List ℕ)
  unfolding sign_with
  sign private_key message = sign_with domain_none 0 private_key message

  unfoldable pub sign_prehashed : List ℕ → List ℕ → ℕ → List ℕ → Result (List ℕ)
  unfolding sign_with
  sign_prehashed private_key context hash_id digest =
      sign_with (domain_context context) hash_id private_key digest

  unfoldable pub verify_with : Domain → ℕ → List ℕ → List ℕ → List ℕ → Bool
  unfolding check_public_key check_signature
  verify_with domain hash_id public_key message signature =
      is_ok (check_public_key public_key)
      && is_ok (check_signature signature)
      && scheme.raw_verify public_key domain hash_id message signature

  unfoldable pub verify : List ℕ → List ℕ → List ℕ → Bool
  unfolding verify_with
  verify public_key message signature = verify_with domain_none 0 public_key message signature

  unfoldable pub verify_prehashed : List ℕ → List ℕ → ℕ → List ℕ → List ℕ → Bool
  unfolding verify_with
  verify_prehashed public_key context hash_id digest signature =
      verify_with (domain_context context) hash_id public_key digest signature
