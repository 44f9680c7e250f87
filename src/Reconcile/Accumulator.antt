-- ===== src/Reconcile/Accumulator.antt =====
-- reconcile/algebraic.go: the level-0 room accumulator. A method that changes its receiver returns
-- the new receiver and the error, `none` for nil.
pub mod Laws
pub mod Etag
use gomatrixcrypto.Base.{
  ℕ, zero, suc, ◌+◌, ◌-◌, ◌^◌, ◌≡◌, refl, Bool, true, false, List, [], ◌∷◌, ◌++◌, Option, none,
  some, length, take, replicate, list_eq, ◌==◌, if◌then◌else◌, Result, ok, err, Error,
  count_overflow, count_underflow, invalid_digest_length, invalid_base64,
}
use gomatrixcrypto.Base.Words.{xor_words, fold_words}
use gomatrixcrypto.Reconcile.Element.{ElementHash, Encoding}

abbrev pub max_u64 : ℕ
max_u64 = 2 ^ 64 - 1

pub record RoomAccumulator : Type 0 where
  pub digest : List ℕ
  pub count : ℕ

unfoldable pub new_room_accumulator : RoomAccumulator
unfolding replicate
new_room_accumulator = record { digest = replicate 16 0; count = 0 }

unfoldable pub insert : RoomAccumulator → ElementHash → RoomAccumulator × Option Error
unfolding xor_words
insert r hash =
    if r.count == max_u64
    then (r, some count_overflow)
    else (record { digest = xor_words r.digest hash.h128; count = r.count + 1 }, none)

unfoldable pub remove : RoomAccumulator → ElementHash → RoomAccumulator × Option Error
unfolding xor_words
remove r hash =
    if r.count == 0
    then (r, some count_underflow)
    else (record { digest = xor_words r.digest hash.h128; count = r.count - 1 }, none)

unfoldable pub residual : RoomAccumulator → RoomAccumulator → List ℕ
unfolding xor_words
residual r other = xor_words r.digest other.digest

-- The outer loop of `VerifyResidual`.
unfoldable pub fold_residual : List ℕ → List ElementHash → List ℕ
unfolding xor_words
fold_residual acc [] = acc
fold_residual acc (hash ∷ hashes) = fold_residual (xor_words acc hash.h128) hashes

unfoldable pub verify_residual : List ℕ → List ElementHash → Bool
unfolding fold_residual list_eq replicate
verify_residual expected hashes = list_eq (fold_residual (replicate 16 0) hashes) expected

module _ (raw_url : Encoding) where
  unfoldable pub encode_digest : RoomAccumulator → List ℕ
  encode_digest r = raw_url.encode r.digest

  -- The digest behind a successful decoding.
  unfoldable pub check_length16 : Option (List ℕ) → Result (List ℕ)
  check_length16 none = err invalid_base64
  check_length16 (some bytes) = if length bytes == 16 then ok bytes else err invalid_digest_length

  unfoldable pub decode_digest : List ℕ → Result (List ℕ)
  unfolding check_length16
  decode_digest encoded =
      if length encoded == raw_url.encoded_len 16
      then check_length16 (raw_url.decode encoded)
      else err invalid_digest_length

-- `VerifyGlobalResidual` of reconcile/client.go, over 16-byte arrays.
unfoldable pub verify_global_residual : List ℕ → List (List ℕ) → List (List ℕ) → Bool
unfolding fold_words list_eq replicate
verify_global_residual expected local_roots remote_roots =
    list_eq (fold_words (fold_words (replicate 16 0) local_roots) remote_roots) expected
