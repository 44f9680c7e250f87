-- ===== src/ServerKey/Numbers.antt =====
-- serverkey/serverkey.go: unsigned integers from interface values.
use gomatrixcrypto.Base.{
  ℕ, ◌+◌, ◌-◌, ◌*◌, ◌/◌, ◌%◌, ◌^◌, ◌&&◌, ◌||◌, List, [], ◌∷◌, Option, none, some, leb, ltb, ◌==◌,
  if◌then◌else◌, Result, ok, err, ◌>>=◌, invalid_key_object,
}
use gomatrixcrypto.Base.Int.{ℤ, pos, negsuc}
use gomatrixcrypto.MatrixJson.{Value, Items, Width, int, uint, float, uint32s, array, nil, item}

-- The number of a float64 by its bit pattern, where it is a whole number that is not negative; -0 is 0.
unfoldable pub whole_number : ℕ → Option ℕ
whole_number bits =
    let exponent = (bits / 2 ^ 52) % 2 ^ 11 in
    let fraction = bits % 2 ^ 52 in
    let negative = leb (2 ^ 63) bits in
    if exponent == 0
    then if fraction == 0 then some 0 else none
    else if negative || (exponent == 2 ^ 11 - 1)
    then none
    else if leb 1075 exponent
    then some ((2 ^ 52 + fraction) * 2 ^ (exponent - 1075))
    else if (2 ^ 52 + fraction) % 2 ^ (1075 - exponent) == 0
    then some ((2 ^ 52 + fraction) / 2 ^ (1075 - exponent))
    else none

-- `convert` is Go's conversion to uint64 of a float64 out of the range of uint64, which is left to the
-- implementation. Only 2^64 is the float64 of a uint64 then, of those from 2^64 - 2^10 up.
module _ (convert : ℕ → ℕ) where
  unfoldable pub uint64_of_float : ℕ → Result ℕ
  unfolding whole_number
  uint64_of_float bits = elim (whole_number bits) [
    | none ↦ err invalid_key_object
    | some n ↦
        if ltb n (2 ^ 64)
        then ok n
        else if (n == 2 ^ 64) && leb (2 ^ 64 - 2 ^ 10) (convert bits)
        then ok (convert bits)
        else err invalid_key_object
  ]

  abbrev pub uint64_of_int : ℤ → Result ℕ
  uint64_of_int (pos n) = ok n
  uint64_of_int (negsuc n) = err invalid_key_object

  unfoldable pub uint64_from_any : Value → Result ℕ
  unfolding uint64_of_float
  uint64_from_any (uint Width.w8 n) = ok n
  uint64_from_any (uint Width.w16 n) = ok n
  uint64_from_any (uint Width.w32 n) = ok n
  uint64_from_any (uint Width.w64 n) = ok n
  uint64_from_any (uint Width.native n) = ok n
  uint64_from_any (int Width.native n) = uint64_of_int n
  uint64_from_any (int Width.w64 n) = uint64_of_int n
  uint64_from_any (float bits) = uint64_of_float bits
  uint64_from_any _ = err invalid_key_object

  abbrev pub at_most_uint32 : ℕ → Result ℕ
  at_most_uint32 n = if ltb (2 ^ 32 - 1) n then err invalid_key_object else ok n

  -- Every error is ErrInvalidKeyObject.
  unfoldable pub uint32_from_any : Value → Result ℕ
  unfolding uint64_from_any
  uint32_from_any v = uint64_from_any v >>= at_most_uint32

  unfoldable pub uint32s_of_items : Items → Result (List ℕ)
  unfolding uint64_from_any
  uint32s_of_items nil = ok []
  uint32s_of_items (item raw raws) = uint64_from_any raw >>= at_most_uint32 >>= λ (n : ℕ).
      uint32s_of_items raws >>= λ (ns : List ℕ). ok (n ∷ ns)

  unfoldable pub uint32s_from_any : Value → Result (List ℕ)
  unfolding uint32s_of_items
  uint32s_from_any (uint32s ns) = ok ns
  uint32s_from_any (array raws) = uint32s_of_items raws
  uint32s_from_any _ = err invalid_key_object

unfoldable pub uint32s_to_any : List ℕ → Items
uint32s_to_any [] = nil
uint32s_to_any (n ∷ ns) = item (uint Width.w32 n) (uint32s_to_any ns)
