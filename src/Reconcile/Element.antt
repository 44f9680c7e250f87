-- ===== src/Reconcile/Element.antt =====
-- reconcile/algebraic.go: element hashes and the digests of event IDs. A byte array or a string is
-- the list of its bytes. SHA-256 and base64 are parameters.
pub mod Bounds
use gomatrixcrypto.Base.{
  ℕ, zero, suc, Bool, true, false, ◌&&◌, not, List, [], ◌∷◌, Option, none, some, length, take, drop,
  ltb, ◌==◌, if◌then◌else◌, Result, ok, err, Error, invalid_event_id, invalid_base64,
}
use gomatrixcrypto.Base.Bytes.{get_be}

abbrev pub event_hash_encoded_len : ℕ
event_hash_encoded_len = 43

-- An `EventIDFormat` is an int: `other` stands for the values with no name.
pub data EventIdFormat : Type 0 where
  legacy v3 v4_plus other : EventIdFormat

pub record ElementHash : Type 0 where
  pub h128 : List ℕ
  pub h64 : ℕ

-- What the package takes from crypto/sha256 and encoding/base64.
pub record Encoding : Type 0 where
  pub encode : List ℕ → List ℕ
  pub decode : List ℕ → Option (List ℕ)
  pub encoded_len : ℕ → ℕ

-- The loop over the chunks that are left: the first that is not zero, and 1 if there is none.
unfoldable pub first_chunk : ℕ → List ℕ → ℕ
unfolding get_be take drop
first_chunk zero bytes = 1
first_chunk (suc chunks) bytes =
    let chunk = get_be (take 8 bytes) in
    let rest = first_chunk chunks (drop 8 bytes) in if chunk == 0 then rest else chunk

unfoldable pub from_digest32 : List ℕ → ElementHash
unfolding first_chunk
from_digest32 digest = record { h128 = take 16 digest; h64 = first_chunk 4 digest }

unfoldable pub trim_sigil : List ℕ → Option (List ℕ)
trim_sigil [] = none
trim_sigil (c ∷ cs) = if c == b'$' then some cs else none

-- The tests behind the `switch`: a digest of 32 bytes.
unfoldable pub check_digest : Option (List ℕ) → Error → Result (List ℕ)
check_digest none e = err e
check_digest (some digest) e = if length digest == 32 then ok digest else err invalid_event_id

unfoldable pub is_legacy : EventIdFormat → Bool
is_legacy EventIdFormat.legacy = true
is_legacy _ = false

module _ (sha256 : List ℕ → List ℕ) (raw_std raw_url : Encoding) where
  -- The `switch` on the format.
  unfoldable pub digest_by_format : List ℕ → List ℕ → EventIdFormat → Result (List ℕ)
  unfolding check_digest
  digest_by_format event_id encoded EventIdFormat.legacy =
      check_digest (some (sha256 event_id)) invalid_base64
  digest_by_format event_id encoded EventIdFormat.v3 =
      check_digest (raw_std.decode encoded) invalid_base64
  digest_by_format event_id encoded EventIdFormat.v4_plus =
      check_digest (raw_url.decode encoded) invalid_base64
  digest_by_format event_id encoded EventIdFormat.other = err invalid_event_id

  unfoldable pub matrix_event_digest32 : List ℕ → EventIdFormat → Result (List ℕ)
  unfolding trim_sigil digest_by_format is_legacy
  matrix_event_digest32 event_id format = elim (trim_sigil event_id) [
    | none ↦ err invalid_event_id
    | some encoded ↦
        if not (is_legacy format) && ltb event_hash_encoded_len (length encoded)
        then err invalid_base64
        else digest_by_format event_id encoded format
  ]

  unfoldable pub decode_digest32 : List ℕ → EventIdFormat → Result (List ℕ)
  unfolding matrix_event_digest32
  decode_digest32 event_id format = matrix_event_digest32 event_id format

  unfoldable pub from_matrix_event_id : List ℕ → EventIdFormat → Result ElementHash
  unfolding matrix_event_digest32 from_digest32
  from_matrix_event_id event_id format = elim (matrix_event_digest32 event_id format) [
    | ok digest ↦ ok (from_digest32 digest)
    | err e ↦ err e
  ]
