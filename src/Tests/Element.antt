-- ===== src/Tests/Element.antt =====
-- A run of the element hashes, with a stand-in for SHA-256 that writes 32 bytes.
use gomatrixcrypto.Base.{ℕ, ◌≡◌, ◌≢◌, refl, List, [], ◌∷◌, length, replicate, some, ok}
use gomatrixcrypto.Reconcile.Element.{
  EventIdFormat, ElementHash, Encoding, from_digest32, from_matrix_event_id, trim_sigil,
  check_digest, is_legacy, digest_by_format, matrix_event_digest32,
}
use gomatrixcrypto.Reconcile.Element.Bounds.{from_matrix_event_id_lem}

abbrev toy_sha256 : List ℕ → List ℕ
toy_sha256 m = replicate 32 9

abbrev no_encoding : Encoding
no_encoding = record { encode = λ bytes. bytes; decode = λ bytes. some bytes; encoded_len = λ n. n }

abbrev event_id : List ℕ
event_id = b'$' ∷ b'a' ∷ []

abbrev event_hash : ElementHash
event_hash = from_digest32 (replicate 32 9)

legacy_run :
    from_matrix_event_id toy_sha256 no_encoding no_encoding event_id EventIdFormat.legacy
    ≡ ok event_hash
unfolding from_matrix_event_id matrix_event_digest32 trim_sigil digest_by_format check_digest
    is_legacy replicate
legacy_run = refl

from_matrix_event_id_lem_example : (length event_hash.h128 ≡ 16) × (event_hash.h64 ≢ 0)
from_matrix_event_id_lem_example =
    from_matrix_event_id_lem toy_sha256 no_encoding no_encoding event_id EventIdFormat.legacy
      legacy_run
