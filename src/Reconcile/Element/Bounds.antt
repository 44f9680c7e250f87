-- ===== src/Reconcile/Element/Bounds.antt =====
-- reconcile/algebraic.go: the sizes and values of element hashes.
use gomatrixcrypto.Base.{
  ℕ, zero, suc, ◌≡◌, ◌≢◌, List, Option, none, some, length, take, drop, length-take, arith,
  Bool-cases, Option-cases, Result-cases, inl, inr, ◌==◌, ok, Error, invalid_base64, ◌&&◌, not, ltb,
}
use gomatrixcrypto.Base.Bytes.{get_be}
use gomatrixcrypto.Reconcile.Element.{
  EventIdFormat, ElementHash, Encoding, first_chunk, from_digest32, check_digest, is_legacy,
  digest_by_format, matrix_event_digest32, from_matrix_event_id, trim_sigil, event_hash_encoded_len,
}

first_chunk_nonzero : (chunks : ℕ) (bytes : List ℕ) → first_chunk chunks bytes ≢ 0
unfolding first_chunk
first_chunk_nonzero zero bytes = λ e. absurd (omega arith)
first_chunk_nonzero (suc chunks) bytes = elim (Bool-cases (get_be (take 8 bytes) == 0)) [
  | inl e ↦ rw e (first_chunk_nonzero chunks (drop 8 bytes))
  | inr e ↦ rw e (λ z. absurd (ground arith))
]

from_digest32_bounds :
    (digest : List ℕ)
    → length digest ≡ 32
    → (length (from_digest32 digest).h128 ≡ 16) × ((from_digest32 digest).h64 ≢ 0)
unfolding from_digest32 first_chunk
from_digest32_bounds digest long =
    (length-take 16 digest (omega arith), first_chunk_nonzero 4 digest)

check_digest-length :
    (d : Option (List ℕ)) (e : Error) {digest : List ℕ}
    → check_digest d e ≡ ok digest
    → length digest ≡ 32
unfolding check_digest
check_digest-length none e h = absurd (ground arith)
check_digest-length (some bytes) e {digest} h = elim (Bool-cases (length bytes == 32)) [
  | inl long ↦ let same : bytes ≡ digest = ground arith in rw (← same) (ground arith)
  | inr short ↦ absurd (ground arith)
]

module _ (sha256 : List ℕ → List ℕ) (raw_std raw_url : Encoding) where
  digest_by_format-length :
      (event_id encoded : List ℕ) (format : EventIdFormat) {digest : List ℕ}
      → digest_by_format sha256 raw_std raw_url event_id encoded format ≡ ok digest
      → length digest ≡ 32
  unfolding digest_by_format
  digest_by_format-length event_id encoded EventIdFormat.legacy h =
      check_digest-length (some (sha256 event_id)) invalid_base64 h
  digest_by_format-length event_id encoded EventIdFormat.v3 h =
      check_digest-length (raw_std.decode encoded) invalid_base64 h
  digest_by_format-length event_id encoded EventIdFormat.v4_plus h =
      check_digest-length (raw_url.decode encoded) invalid_base64 h
  digest_by_format-length event_id encoded EventIdFormat.other h = absurd (ground arith)

  matrix_event_digest32-length :
      (event_id : List ℕ) (format : EventIdFormat) {digest : List ℕ}
      → matrix_event_digest32 sha256 raw_std raw_url event_id format ≡ ok digest
      → length digest ≡ 32
  unfolding matrix_event_digest32
  matrix_event_digest32-length event_id format h = elim (Option-cases (trim_sigil event_id)) [
    | inl e ↦ absurd (ground arith)
    | inr (encoded, e) ↦
        elim (Bool-cases (not (is_legacy format) && ltb event_hash_encoded_len (length encoded))) [
          | inl too_long ↦ absurd (ground arith)
          | inr fits ↦ digest_by_format-length event_id encoded format (ground arith)
        ]
  ]

  -- An element hash that is made of an event ID, in whichever format, has a wide digest of 16 bytes and
  -- a short identifier that is not zero.
  pub from_matrix_event_id_lem :
      (event_id : List ℕ) (format : EventIdFormat) {hash : ElementHash}
      → from_matrix_event_id sha256 raw_std raw_url event_id format ≡ ok hash
      → (length hash.h128 ≡ 16) × (hash.h64 ≢ 0)
  unfolding from_matrix_event_id
  from_matrix_event_id_lem event_id format {hash} h =
      elim (Result-cases (matrix_event_digest32 sha256 raw_std raw_url event_id format)) [
        | inr (e, failed) ↦ absurd (ground arith)
        | inl (digest, found) ↦
            let long = matrix_event_digest32-length event_id format found in
            let same : from_digest32 digest ≡ hash = ground arith in
            rw (← same) (from_digest32_bounds digest long)
      ]
