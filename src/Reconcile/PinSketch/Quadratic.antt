-- ===== src/Reconcile/PinSketch/Quadratic.antt =====
-- reconcile/pinsketch.go: the bounds on factoring, and the solution of z ^ 2 + z = c by elimination.
use gomatrixcrypto.Base.{
  ℕ, zero, suc, ◌+◌, ◌-◌, ◌*◌, ◌/◌, ◌%◌, ◌^◌, bit_or, Bool, true, false, ◌&&◌, ◌||◌, not, List, [],
  ◌∷◌, Option, none, some, replicate, get_or, set, take, leb, ltb, ◌==◌, if◌then◌else◌,
}
use gomatrixcrypto.Base.Xor.{◌⊕◌}
use mathlib.Core.Bool.{xor}
use gomatrixcrypto.Reconcile.Field.{mul}
use gomatrixcrypto.Reconcile.PinSketch.{test_bit, trace_squares}

abbrev pub field_bits : ℕ
field_bits = 64

abbrev pub mixed_factor_trials : ℕ
mixed_factor_trials = 8

abbrev pub factor_trials : ℕ
factor_trials = mixed_factor_trials + field_bits

abbrev pub factor_parameter_seed : ℕ
factor_parameter_seed = 0x9e37_79b9_7f4a_7c15

abbrev pub max_factor_work : ℕ
max_factor_work = 8_000_000

abbrev pub max_int : ℕ
max_int = 2 ^ 63 - 1

unfoldable pub next_factor_parameter : ℕ → ℕ
next_factor_parameter state =
    let a = state ⊕ state * 2 ^ 13 % 2 ^ 64 in let b = a ⊕ a / 2 ^ 7 in b ⊕ b * 2 ^ 17 % 2 ^ 64

pub record Row : Type 0 where
  pub coefficients : ℕ
  pub rhs : Bool

-- One column of the matrix of x^2 + x: bit r of the image goes to row r.
unfoldable pub set_column : ℕ → ℕ → ℕ → List Row → List Row
set_column column image r [] = []
set_column column image r (row ∷ rows) =
    (if test_bit image r
      then record row { coefficients = bit_or row.coefficients (2 ^ column) }
      else row)
    ∷ set_column column image (r + 1) rows

-- The columns from `column` on; `count` of them are left.
unfoldable pub build_columns : ℕ → ℕ → List Row → List Row
build_columns zero column rows = rows
build_columns (suc count) column rows =
    let basis = 2 ^ column in
    build_columns count (column + 1) (set_column column (mul basis basis ⊕ basis) 0 rows)

unfoldable pub set_rhs : ℕ → ℕ → List Row → List Row
set_rhs target r [] = []
set_rhs target r (row ∷ rows) =
    (if test_bit target r then record row { rhs = true } else row) ∷ set_rhs target (r + 1) rows

-- The first row from `rank` on that has the column; `index` is the number of the list's first row.
unfoldable pub find_pivot : ℕ → ℕ → ℕ → List Row → Option ℕ
find_pivot column rank index [] = none
find_pivot column rank index (row ∷ rows) =
    if leb rank index && test_bit row.coefficients column
    then some index
    else find_pivot column rank (index + 1) rows

abbrev pub no_row : Row
no_row = record { coefficients = 0; rhs = false }

unfoldable pub eliminate : ℕ → ℕ → Row → ℕ → List Row → List Row
eliminate column rank pivot_row index [] = []
eliminate column rank pivot_row index (row ∷ rows) =
    (if not (index == rank) && test_bit row.coefficients column
      then record {
        coefficients = row.coefficients ⊕ pivot_row.coefficients;
        rhs = xor row.rhs pivot_row.rhs;
      }
      else row)
    ∷ eliminate column rank pivot_row (index + 1) rows

-- The columns that are left, over (rank, rows).
unfoldable pub eliminate_columns : ℕ → ℕ → ℕ → List Row → ℕ × List Row
eliminate_columns zero column rank rows = (rank, rows)
eliminate_columns (suc count) column rank rows = elim (find_pivot column rank 0 rows) [
  | none ↦ eliminate_columns count (column + 1) rank rows
  | some pivot ↦
      let pivot_row = get_or rows pivot no_row in
      let swapped = set (set rows pivot (get_or rows rank no_row)) rank pivot_row in
      eliminate_columns count (column + 1) (rank + 1) (eliminate column rank pivot_row 0 swapped)
]

-- A row that says 0 = 1.
unfoldable pub is_inconsistent : List Row → Bool
is_inconsistent [] = false
is_inconsistent (row ∷ rows) = row.coefficients == 0 && row.rhs || is_inconsistent rows

-- `bits.TrailingZeros64`: 64 on zero, by counting at most `n` bits.
unfoldable pub trailing_zeros : ℕ → ℕ → ℕ
trailing_zeros zero v = 0
trailing_zeros (suc n) v = let rest = trailing_zeros n (v / 2) in if v % 2 == 1 then 0 else rest + 1

-- The loop over the pivot rows.
unfoldable pub solution_of_rows : List Row → ℕ → Option ℕ
solution_of_rows [] solution = some solution
solution_of_rows (row ∷ rows) solution =
    let rest =
      solution_of_rows rows
        (if row.rhs then bit_or solution (2 ^ trailing_zeros 64 row.coefficients) else solution) in
    if row.coefficients == 0 then none else rest

unfoldable pub solve_quadratic_form : ℕ → Option ℕ
solve_quadratic_form target =
    let rows = set_rhs target 0 (build_columns 64 0 (replicate 64 no_row)) in
    let (rank, reduced) = eliminate_columns 64 0 0 rows in
    if is_inconsistent reduced then none else elim (solution_of_rows (take rank reduced) 0) [
      | none ↦ none
      | some solution ↦ if mul solution solution ⊕ solution == target then some solution else none
    ]

-- The quotients of the overflow tests, for a degree that is not negative.
unfoldable pub factor_trial_cost : ℕ → Option ℕ
factor_trial_cost zero = some 0
factor_trial_cost (suc n) =
    if ltb (max_int / suc n) (suc n)
    then none
    else if ltb (max_int / trace_squares) (suc n * suc n)
    then none
    else some (suc n * suc n * trace_squares)
