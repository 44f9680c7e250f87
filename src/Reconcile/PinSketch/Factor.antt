-- ===== src/Reconcile/PinSketch/Factor.antt =====
-- reconcile/pinsketch.go: splitting a locator into its roots, and the decoder over it.
use gomatrixcrypto.Base.{
  ℕ, zero, suc, ◌+◌, ◌-◌, ◌^◌, ◌&&◌, ◌||◌, not, List, [], ◌∷◌, ◌++◌, Option, none, some, length,
  leb, ltb, ◌==◌, if◌then◌else◌, Result, ok, err, decode_failure, budget_exhausted,
}
use gomatrixcrypto.Base.Int.{ℤ, pos, pos_part, sub_int, is_negative}
use gomatrixcrypto.Base.Xor.{◌⊕◌}
use gomatrixcrypto.Base.Sort.{sort}
use mathlib.Core.List.{reverse}
use gomatrixcrypto.Reconcile.Field.{mul}
use gomatrixcrypto.Reconcile.Sketch.{contains_zero}
use gomatrixcrypto.Reconcile.PinSketch.{Polynomial, gf64_inv, poly_div, poly_gcd, trace_mod}
use gomatrixcrypto.Reconcile.PinSketch.Locator.{reconstruct_syndromes, berlekamp_massey}
use gomatrixcrypto.Reconcile.PinSketch.Quadratic.{
  mixed_factor_trials, factor_trials, factor_parameter_seed, max_factor_work, next_factor_parameter,
  solve_quadratic_form, factor_trial_cost,
}

-- The two roots of a quadratic.
unfoldable pub quadratic_roots : ℕ → ℕ → Option (List ℕ)
quadratic_roots constant linear = if linear == 0 then none else elim (gf64_inv linear) [
  | none ↦ none
  | some inverse ↦ elim (solve_quadratic_form (mul constant (mul inverse inverse))) [
    | none ↦ none
    | some quadratic ↦ let root = mul quadratic linear in some (root ∷ (root ⊕ linear) ∷ [])
  ]
]

-- A try at splitting the polynomial by one parameter: nothing, or (quotient, factor).
unfoldable pub split_by : Polynomial → ℕ → Result (Option (Polynomial × Polynomial))
split_by poly parameter = elim (trace_mod poly parameter) [
  | none ↦ err decode_failure
  | some trace ↦ elim (poly_gcd poly trace) [
    | none ↦ err decode_failure
    | some factor ↦
        if ltb 1 (length factor) && ltb (length factor) (length poly)
        then elim (poly_div poly factor) [
          | none ↦ err decode_failure
          | some quotient ↦ ok (some (quotient, factor))
        ]
        else ok none
  ]
]

-- The trials that are left, over the parameter and the work budget. No split is a failure.
unfoldable pub trial_loop : ℕ → ℕ → ℕ → Polynomial → ℤ → Result (Polynomial × Polynomial) × ℤ
trial_loop zero trial parameter poly work = (err decode_failure, work)
trial_loop (suc count) trial parameter poly work =
    let chosen =
      if leb mixed_factor_trials trial then 2 ^ (trial - mixed_factor_trials) else parameter in
    elim (factor_trial_cost (length poly - 1)) [
      | none ↦ (err decode_failure, work)
      | some cost ↦
          let left = sub_int work cost in
          if is_negative left then (err budget_exhausted, left) else elim (split_by poly chosen) [
            | err e ↦ (err e, left)
            | ok (some split) ↦ (ok split, left)
            | ok none ↦
                trial_loop count (trial + 1)
                  (if ltb trial mixed_factor_trials then next_factor_parameter chosen else chosen)
                  poly left
          ]
    ]

-- The loop over the stack of pending polynomials, its top first. The outer `none` is fuel that has run
-- out, which is kept apart from the failures.
unfoldable pub roots_loop : ℕ → List Polynomial → List ℕ → ℤ → Option (Result (List ℕ) × ℤ)
roots_loop fuel [] roots work = some (ok roots, work)
roots_loop zero (poly ∷ pending) roots work = none
roots_loop (suc fuel) ([] ∷ pending) roots work = some (err decode_failure, work)
roots_loop (suc fuel) ((a ∷ []) ∷ pending) roots work = roots_loop fuel pending roots work
roots_loop (suc fuel) ((a ∷ b ∷ []) ∷ pending) roots work =
    roots_loop fuel pending (roots ++ (a ∷ [])) work
roots_loop (suc fuel) ((a ∷ b ∷ c ∷ []) ∷ pending) roots work = elim (quadratic_roots a b) [
  | none ↦ some (err decode_failure, work)
  | some pair ↦ roots_loop fuel pending (roots ++ pair) work
]
roots_loop (suc fuel) ((a ∷ b ∷ c ∷ d ∷ cs) ∷ pending) roots work =
    let (result, left) =
      trial_loop factor_trials 0 factor_parameter_seed (a ∷ b ∷ c ∷ d ∷ cs) work in
    elim result [
      | err e ↦ some (err e, left)
      | ok (quotient, factor) ↦ roots_loop fuel (factor ∷ quotient ∷ pending) roots left
    ]

unfoldable pub find_roots_within : ℕ → Polynomial → ℤ → Option (Result (List ℕ) × ℤ)
find_roots_within fuel poly work = roots_loop fuel (poly ∷ []) [] work

-- What the loop returns; the first equation stands for no run.
abbrev pub roots_result : ℤ → Option (Result (List ℕ) × ℤ) → Result (List ℕ) × ℤ
roots_result work none = (err decode_failure, work)
roots_result work (some result) = result

-- A round that pushes spends work, so the work and the one polynomial bound the rounds.
unfoldable pub find_roots_with_budget : Polynomial → ℤ → Result (List ℕ) × ℤ
unfolding find_roots_within
find_roots_with_budget poly work =
    roots_result work (find_roots_within (suc (pos_part work)) poly work)

-- An exhausted budget is reported as a failure.
unfoldable pub find_roots : Polynomial → Result (List ℕ)
find_roots poly = elim ((find_roots_with_budget poly (pos max_factor_work)).0) [
  | ok roots ↦ ok roots
  | err budget_exhausted ↦ err decode_failure
  | err e ↦ err e
]

-- The tests behind the roots.
unfoldable pub check_roots : ℕ → List ℕ → Result (List ℕ)
check_roots expected roots =
    if not (length roots == expected) || contains_zero roots
    then err decode_failure
    else ok (sort roots)

unfoldable pub check_result : ℕ → Result (List ℕ) → Result (List ℕ)
check_result expected (err e) = err e
check_result expected (ok roots) = check_roots expected roots

-- The roots of the reversed locator. `none` is the nil work pointer; the work that is left is
-- returned.
unfoldable pub decode_located : Polynomial → Option ℤ → Result (List ℕ) × Option ℤ
decode_located locator none =
    (check_result (length locator - 1) (find_roots (reverse locator)), none)
decode_located locator (some budget) =
    let (result, left) = find_roots_with_budget (reverse locator) budget in
    (check_result (length locator - 1) result, some left)

-- A locator of degree 0 has no roots.
unfoldable pub decode_locator : Option Polynomial → Option ℤ → Result (List ℕ) × Option ℤ
decode_locator none work = (err decode_failure, work)
decode_locator (some locator) work =
    if length locator == 1 then (ok [], work) else decode_located locator work

unfoldable pub decode_pin_sketch : List ℕ → ℕ → Option ℤ → Result (List ℕ) × Option ℤ
decode_pin_sketch odd_syndromes max_elements work =
    decode_locator (berlekamp_massey (reconstruct_syndromes odd_syndromes) max_elements) work
