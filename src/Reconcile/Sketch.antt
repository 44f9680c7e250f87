-- ===== src/Reconcile/Sketch.antt =====
-- reconcile/algebraic.go: sketches of odd power sums over the field. An `int` that may be negative
-- is an integer; a method that changes its receiver returns the new receiver and the error.
pub mod Laws
use gomatrixcrypto.Base.{
  ℕ, zero, suc, ◌+◌, ◌*◌, ◌≡◌, refl, Bool, true, false, ◌||◌, List, [], ◌∷◌, Option, none, some,
  length, replicate, list_eq, leb, ltb, ◌==◌, if◌then◌else◌, Result, ok, err, Error,
  zero_short_identifier, invalid_sketch_capacity, invalid_sketch_length, invalid_base64,
}
use gomatrixcrypto.Base.Int.{ℤ, pos, negsuc, ltb_int, leb_int}
use gomatrixcrypto.Base.Xor.{◌⊕◌}
use gomatrixcrypto.Base.Words.{xor_words}
use gomatrixcrypto.Base.Bytes.{put_words, get_words}
use gomatrixcrypto.Reconcile.Field.{mul}
use gomatrixcrypto.Reconcile.Element.{Encoding}

abbrev pub max_sketch_capacity : ℕ
max_sketch_capacity = 32

pub record SyndromeSketch : Type 0 where
  pub coordinates : List ℕ

-- A negative capacity is refused like zero.
unfoldable pub new_syndrome_sketch : ℤ → Result SyndromeSketch
unfolding replicate
new_syndrome_sketch (negsuc n) = err invalid_sketch_capacity
new_syndrome_sketch (pos n) =
    if n == 0 || ltb max_sketch_capacity n
    then err invalid_sketch_capacity
    else ok (record { coordinates = replicate n 0 })

unfoldable pub new_syndrome_sketch_from_coordinates : List ℕ → Result SyndromeSketch
new_syndrome_sketch_from_coordinates coordinates =
    if length coordinates == 0 || ltb max_sketch_capacity (length coordinates)
    then err invalid_sketch_capacity
    else ok (record { coordinates = coordinates })

abbrev pub capacity : SyndromeSketch → ℕ
capacity s = length s.coordinates

-- The loop of `Toggle` over the coordinates that are left.
unfoldable pub toggle_loop : ℕ → ℕ → List ℕ → List ℕ
toggle_loop squared odd_power [] = []
toggle_loop squared odd_power (c ∷ cs) =
    (c ⊕ odd_power) ∷ toggle_loop squared (mul odd_power squared) cs

unfoldable pub toggle : SyndromeSketch → ℕ → SyndromeSketch × Option Error
toggle s value =
    if value == 0
    then (s, some zero_short_identifier)
    else (record { coordinates = toggle_loop (mul value value) value s.coordinates }, none)

unfoldable pub xor : SyndromeSketch → SyndromeSketch → SyndromeSketch × Option Error
xor s other =
    if capacity s == capacity other
    then (record { coordinates = xor_words s.coordinates other.coordinates }, none)
    else (s, some invalid_sketch_length)

unfoldable pub subtract : SyndromeSketch → SyndromeSketch → Result SyndromeSketch
subtract s other =
    if capacity s == capacity other
    then ok (record { coordinates = xor_words s.coordinates other.coordinates })
    else err invalid_sketch_length

unfoldable pub equal_sketch : SyndromeSketch → SyndromeSketch → Bool
unfolding list_eq
equal_sketch left right = list_eq left.coordinates right.coordinates

unfoldable pub contains_zero : List ℕ → Bool
contains_zero [] = false
contains_zero (value ∷ values) = value == 0 || contains_zero values

unfoldable pub new_sketch_from_encoded_bytes : ℕ → List ℕ → Result SyndromeSketch
new_sketch_from_encoded_bytes n bytes =
    if length bytes == n * 8
    then ok (record { coordinates = get_words 8 n bytes })
    else err invalid_sketch_length

module _ (raw_url : Encoding) where
  unfoldable pub encode : SyndromeSketch → List ℕ
  encode s = raw_url.encode (put_words 8 s.coordinates)

  -- The tests of `DecodeSyndromeSketch` behind the one on the capacity.
  unfoldable pub decode_with_capacity : ℕ → List ℕ → Result SyndromeSketch
  decode_with_capacity n encoded =
      if length encoded == raw_url.encoded_len (n * 8)
      then elim (raw_url.decode encoded) [
        | none ↦ err invalid_base64
        | some bytes ↦ new_sketch_from_encoded_bytes n bytes
      ]
      else err invalid_sketch_length

  unfoldable pub decode_syndrome_sketch : ℤ → List ℕ → Result SyndromeSketch
  decode_syndrome_sketch (negsuc n) encoded = err invalid_sketch_capacity
  decode_syndrome_sketch (pos n) encoded =
      if n == 0 || ltb max_sketch_capacity n
      then err invalid_sketch_capacity
      else decode_with_capacity n encoded
