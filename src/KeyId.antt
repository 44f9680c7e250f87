-- ===== src/KeyId.antt =====
-- keyid/keyid.go: identifiers of FN-DSA keys. SHA-256 and base64 are parameters.
use gomatrixcrypto.Base.{ℕ, List, ◌++◌, length, take}
use gomatrixcrypto.Base.Bytes.{codes, put_be}

abbrev pub context : List ℕ
context = codes "matrix:fn-dsa-512:key-id:v1"

module _ (sha256 : List ℕ → List ℕ) where
  unfoldable pub fingerprint : List ℕ → List ℕ
  fingerprint public_key = sha256 (put_be 2 (length context) ++ context ++ public_key)

  unfoldable pub short_id : (List ℕ → List ℕ) → List ℕ → List ℕ
  unfolding fingerprint
  short_id encode_url public_key = take 16 (encode_url (fingerprint public_key))
