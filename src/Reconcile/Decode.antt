-- ===== src/Reconcile/Decode.antt =====
-- reconcile/algebraic.go: decoding a sketch into identifiers, checked against the sketch itself.
pub mod Sound
use gomatrixcrypto.Base.{
  ℕ, ◌≡◌, Bool, true, false, ◌||◌, List, [], ◌∷◌, Option, none, some, length, take, leb, ltb, ◌==◌,
  if◌then◌else◌, Result, ok, err, Error, decode_failure, invalid_sketch_capacity,
}
use gomatrixcrypto.Base.Int.{ℤ, pos, negsuc}
use gomatrixcrypto.Reconcile.Sketch.{
  SyndromeSketch, new_syndrome_sketch, toggle, capacity, equal_sketch, contains_zero,
  max_sketch_capacity,
}
use gomatrixcrypto.Reconcile.PinSketch.Factor.{decode_pin_sketch}

abbrev pub max_local_sketch_decode_capacity : ℕ
max_local_sketch_decode_capacity = max_sketch_capacity

-- `for … { if err := sketch.Toggle(v); err != nil { return nil, err } }`
unfoldable pub toggle_each : SyndromeSketch → List ℕ → Result SyndromeSketch
toggle_each s [] = ok s
toggle_each s (value ∷ values) =
    let (s', e) = toggle s value in elim e [ some error ↦ err error | none ↦ toggle_each s' values ]

-- The tests of `decodeAndVerifySketch` behind the decoder.
unfoldable pub verify_decoded : SyndromeSketch → Result (List ℕ) → Result (List ℕ)
verify_decoded s (err e) = err e
verify_decoded s (ok decoded) =
    if contains_zero decoded
    then err decode_failure
    else elim (new_syndrome_sketch (pos (capacity s))) [
      | err e ↦ err e
      | ok empty ↦ elim (toggle_each empty decoded) [
        | err e ↦ err e
        | ok check ↦ if equal_sketch check s then ok decoded else err decode_failure
      ]
    ]

unfoldable pub decode_and_verify_sketch : SyndromeSketch → ℕ → Option ℤ → Result (List ℕ) × Option ℤ
decode_and_verify_sketch s max_elements work =
    let (decoded, left) = decode_pin_sketch (take max_elements s.coordinates) max_elements work in
    (verify_decoded s decoded, left)

unfoldable pub decode_elements : SyndromeSketch → ℤ → Result (List ℕ)
decode_elements s (negsuc n) = err invalid_sketch_capacity
decode_elements s (pos n) =
    if n == 0 || (ltb (capacity s) n || ltb max_local_sketch_decode_capacity n)
    then err invalid_sketch_capacity
    else (decode_and_verify_sketch s n none).0
