-- ===== src/Reconcile/PinSketch.antt =====
-- reconcile/pinsketch.go: the algebra behind the decoding of sketches. A polynomial is the list of
-- its coefficients, lowest degree first. An index that the source keeps in range reads 0 beyond it.
pub mod Quadratic
pub mod Factor
pub mod Budget
pub mod Division
pub mod Locator
use gomatrixcrypto.Base.{
  ℕ, zero, suc, ◌+◌, ◌-◌, ◌*◌, ◌/◌, ◌%◌, ◌^◌, bit_and, ◌≡◌, refl, Bool, true, false, ◌&&◌, ◌||◌,
  not, List, [], ◌∷◌, ◌++◌, map, Option, none, some, length, replicate, get_or, set, drop_last,
  last_or, leb, ltb, ◌==◌, if◌then◌else◌,
}
use gomatrixcrypto.Base.Xor.{◌⊕◌}
use gomatrixcrypto.Base.Words.{xor_words}
use gomatrixcrypto.Reconcile.Field.{mul}

abbrev pub Polynomial : Type 0
Polynomial = List ℕ

abbrev pub trace_squares : ℕ
trace_squares = 63

-- `x & (1 << bit) != 0`
abbrev pub test_bit : ℕ → ℕ → Bool
test_bit x bit = not (bit_and x (2 ^ bit) == 0)

-- Square and multiply by the bits of 2^64 - 2, from the highest; `bits` of them are left.
unfoldable pub inv_loop : ℕ → ℕ → ℕ → ℕ
inv_loop value zero result = result
inv_loop value (suc bit) result =
    let squared = mul result result in
    inv_loop value bit (if test_bit (2 ^ 64 - 2) bit then mul squared value else squared)

unfoldable pub gf64_inv : ℕ → Option ℕ
gf64_inv value = if value == 0 then none else some (inv_loop value 64 1)

-- Zeros at the end are dropped.
unfoldable pub trim : Polynomial → Polynomial
trim [] = []
trim (c ∷ cs) = elim (trim cs) [ [] ↦ if c == 0 then [] else c ∷ [] | d ∷ ds ↦ c ∷ d ∷ ds ]

unfoldable pub make_monic : Polynomial → Option Polynomial
make_monic [] = none
make_monic (c ∷ cs) =
    let leading = last_or (c ∷ cs) 0 in
    if leading == 1 then some (c ∷ cs) else elim (gf64_inv leading) [
      | none ↦ none
      | some inverse ↦ some (map (λ a. mul a inverse) (c ∷ cs))
    ]

-- `value[offset+index] ^= terms[index]` for each index.
unfoldable pub xor_at : ℕ → List ℕ → List ℕ → List ℕ
xor_at zero values terms = xor_words values terms
xor_at (suc offset) [] terms = []
xor_at (suc offset) (v ∷ values) terms = v ∷ xor_at offset values terms

-- One round of the reduction: the last coefficient is taken off and subtracted out.
unfoldable pub reduce_last : Polynomial → Polynomial → Polynomial
reduce_last modulus value =
    let term = last_or value 0 in
    let rest = drop_last value in
    if term == 0
    then rest
    else xor_at (length rest - (length modulus - 1)) rest
        (map (λ c. mul term c) (drop_last modulus))

-- The loop of `polyMod`; each round takes one coefficient, so the length of the value is fuel enough.
unfoldable pub mod_loop : ℕ → Polynomial → Polynomial → Polynomial
mod_loop zero modulus value = value
mod_loop (suc fuel) modulus value =
    let rest = mod_loop fuel modulus (reduce_last modulus value) in
    if leb (length modulus) (length value) then rest else value

-- `len(modulus) == 0 || modulus[len(modulus)-1] != 1`
unfoldable pub is_not_monic : Polynomial → Bool
is_not_monic modulus = length modulus == 0 || not (last_or modulus 0 == 1)

unfoldable pub poly_mod : Polynomial → Polynomial → Option Polynomial
poly_mod modulus value =
    if is_not_monic modulus then none else some (trim (mod_loop (length value) modulus value))

-- The loop of `polyDiv`, over (dividend, quotient).
unfoldable pub div_loop : ℕ → Polynomial → Polynomial → Polynomial → Polynomial
div_loop zero divisor dividend quotient = quotient
div_loop (suc fuel) divisor dividend quotient =
    let position = length dividend - 1 - (length divisor - 1) in
    let rest =
      div_loop fuel divisor (reduce_last divisor dividend)
        (set quotient position (last_or dividend 0)) in
    if leb (length divisor) (length dividend) then rest else quotient

unfoldable pub poly_div : Polynomial → Polynomial → Option Polynomial
poly_div dividend divisor =
    if is_not_monic divisor || ltb (length dividend) (length divisor)
    then none
    else some (
        trim (
          div_loop (length dividend) divisor dividend
            (replicate (length dividend - length divisor + 1) 0)))

-- The loop of `polyGCD`. The outer `none` is fuel that has run out, the inner one is a failure.
unfoldable pub gcd_loop : ℕ → Polynomial → Polynomial → Option (Option Polynomial)
gcd_loop fuel left [] = some (make_monic left)
gcd_loop zero left (c ∷ cs) = none
gcd_loop (suc fuel) left (c ∷ cs) = elim (make_monic (c ∷ cs)) [
  | none ↦ some none
  | some right ↦ elim (poly_mod right left) [
    | none ↦ some none
    | some remainder ↦ gcd_loop fuel right remainder
  ]
]

unfoldable pub poly_gcd_within : ℕ → Polynomial → Polynomial → Option (Option Polynomial)
poly_gcd_within fuel left right =
    if ltb (length left) (length right) then gcd_loop fuel right left else gcd_loop fuel left right

-- What the loop returns; `none` stands for no run.
abbrev pub gcd_result : Option (Option Polynomial) → Option Polynomial
gcd_result none = none
gcd_result (some result) = result

-- The remainder is shorter than the divisor, so the length of `right` is fuel enough.
unfoldable pub poly_gcd : Polynomial → Polynomial → Option Polynomial
unfolding poly_gcd_within
poly_gcd left right = gcd_result (poly_gcd_within (length right) left right)

-- The squared coefficients, with zeros between them.
unfoldable pub poly_square : Polynomial → Polynomial
poly_square [] = []
poly_square (c ∷ []) = mul c c ∷ []
poly_square (c ∷ d ∷ cs) = mul c c ∷ 0 ∷ poly_square (d ∷ cs)

-- `trace` padded to two coefficients, and its second one set.
unfoldable pub set_linear : Polynomial → ℕ → Polynomial
set_linear [] parameter = 0 ∷ parameter ∷ []
set_linear (c ∷ []) parameter = c ∷ parameter ∷ []
set_linear (c ∷ d ∷ cs) parameter = c ∷ parameter ∷ cs

unfoldable pub trace_loop : ℕ → Polynomial → ℕ → Polynomial → Option Polynomial
trace_loop zero modulus parameter trace = some trace
trace_loop (suc rounds) modulus parameter trace =
    elim (poly_mod modulus (set_linear (poly_square trace) parameter)) [
      | none ↦ none
      | some reduced ↦ trace_loop rounds modulus parameter reduced
    ]

unfoldable pub trace_mod : Polynomial → ℕ → Option Polynomial
trace_mod modulus parameter = trace_loop trace_squares modulus parameter (0 ∷ parameter ∷ [])
