-- ===== src/Reconcile/PinSketch/Budget.antt =====
-- reconcile/pinsketch.go: the work budget and the fuel of the factoring loop.
use gomatrixcrypto.Base.{
  ℕ, zero, suc, ◌+◌, ◌-◌, ◌*◌, ◌≤◌, ◌≡◌, refl, false, List, [], ◌∷◌, ◌++◌, none, some, length,
  Result, ok, err, decode_failure, ◌<◌, arith, Bool-cases, Option-cases, Result-cases, inl, inr,
  leb, ltb, if◌then◌else◌, ◌^◌,
}
use native.Mathlib.Nat.{suc-mul}
use gomatrixcrypto.Base.Int.{ℤ, pos, negsuc, pos_part, sub_int, is_negative}
use gomatrixcrypto.Reconcile.PinSketch.{Polynomial}
use gomatrixcrypto.Reconcile.PinSketch.Quadratic.{
  factor_trial_cost, mixed_factor_trials, next_factor_parameter, factor_trials,
  factor_parameter_seed,
}
use gomatrixcrypto.Reconcile.PinSketch.Factor.{
  split_by, trial_loop, roots_loop, quadratic_roots, find_roots_within, find_roots_with_budget,
}

factor_trial_cost_bound : (n : ℕ) {cost : ℕ} → factor_trial_cost (suc n) ≡ some cost → 2 ≤ cost
unfolding factor_trial_cost
factor_trial_cost_bound n {cost} e =
    let square : suc n * suc n ≡ n * suc n + suc n = suc-mul n (suc n) in
    let value : cost ≡ suc n * suc n * 63 = ground arith in omega arith

trial_cost_bound :
    (poly : Polynomial) {cost : ℕ}
    → 2 ≤ length poly
    → factor_trial_cost (length poly - 1) ≡ some cost
    → 2 ≤ cost
trial_cost_bound [] long e = absurd (omega arith)
trial_cost_bound (c ∷ []) long e = absurd (omega arith)
trial_cost_bound (c ∷ d ∷ cs) long e =
    let same : length (c ∷ d ∷ cs) - 1 ≡ suc (length cs) = omega arith in
    factor_trial_cost_bound (length cs) (rw same at e)

spent :
    (work : ℤ) (cost : ℕ)
    → is_negative (sub_int work cost) ≡ false
    → pos_part (sub_int work cost) + cost ≤ pos_part work
unfolding is_negative sub_int pos_part
spent (pos a) cost h = ground arith
spent (negsuc a) cost h = absurd (ground arith)

-- A split costs at least 2 of the budget.
trial_loop_spends :
    (count trial parameter : ℕ) (poly : Polynomial) (work : ℤ) {split : Polynomial × Polynomial}
    → 2 ≤ length poly
    → (trial_loop count trial parameter poly work).0 ≡ ok split
    → pos_part (trial_loop count trial parameter poly work).1 + 2 ≤ pos_part work
unfolding trial_loop
trial_loop_spends zero trial parameter poly work long = λ e. absurd (ground arith)
trial_loop_spends (suc count) trial parameter poly work long =
    let chosen =
      if leb mixed_factor_trials trial then 2 ^ (trial - mixed_factor_trials) else parameter in
    elim (Option-cases (factor_trial_cost (length poly - 1))) [
      | inl no_cost ↦ rw (no_cost, trial_loop) (λ e. absurd (ground arith))
      | inr (cost, cost_eq) ↦
          let bound : 2 ≤ cost = trial_cost_bound poly long cost_eq in
          elim (Bool-cases (is_negative (sub_int work cost))) [
            | inl over ↦ rw (cost_eq, trial_loop, over) (λ e. absurd (ground arith))
            | inr within ↦
                let less = spent work cost within in
                elim (Result-cases (split_by poly chosen)) [
                  | inr (error, failed) ↦
                      rw (cost_eq, trial_loop, within, failed) (λ e. absurd (ground arith))
                  | inl (some pair, found) ↦
                      rw (cost_eq, trial_loop, within, found) (λ e. omega arith)
                  | inl (none, found) ↦
                      rw (cost_eq, trial_loop, within, found)
                        (λ e.
                          let rest =
                            trial_loop_spends count (trial + 1)
                              (if ltb trial mixed_factor_trials
                                then next_factor_parameter chosen
                                else chosen)
                              poly (sub_int work cost) long e in
                          omega arith)
                ]
          ]
    ]

-- Fuel that covers the stack and the work does not run out.
roots_loop_ends :
    (f g : ℕ) (pending : List Polynomial) (roots : List ℕ) (work : ℤ)
    → length pending + pos_part work ≤ f
    → length pending + pos_part work ≤ g
    → (result : Result (List ℕ) × ℤ) × (roots_loop f pending roots work ≡ some result)
      × (roots_loop g pending roots work ≡ some result)
unfolding roots_loop
roots_loop_ends f g [] roots work p q = ((ok roots, work), refl, refl)
roots_loop_ends zero g (poly ∷ pending) roots work p q = absurd (omega arith)
roots_loop_ends (suc f) zero (poly ∷ pending) roots work p q = absurd (omega arith)
roots_loop_ends (suc f) (suc g) ([] ∷ pending) roots work p q =
    ((err decode_failure, work), refl, refl)
roots_loop_ends (suc f) (suc g) ((a ∷ []) ∷ pending) roots work p q =
    roots_loop_ends f g pending roots work (omega arith) (omega arith)
roots_loop_ends (suc f) (suc g) ((a ∷ b ∷ []) ∷ pending) roots work p q =
    roots_loop_ends f g pending (roots ++ (a ∷ [])) work (omega arith) (omega arith)
roots_loop_ends (suc f) (suc g) ((a ∷ b ∷ c ∷ []) ∷ pending) roots work p q =
    elim (Option-cases (quadratic_roots a b)) [
      | inl e ↦ ((err decode_failure, work), rw (e, roots_loop) refl, rw (e, roots_loop) refl)
      | inr (pair, e) ↦
          let (result, ends, also) =
            roots_loop_ends f g pending (roots ++ pair) work (omega arith) (omega arith) in
          (result, rw (e, roots_loop) ends, rw (e, roots_loop) also)
    ]
roots_loop_ends (suc f) (suc g) ((a ∷ b ∷ c ∷ d ∷ cs) ∷ pending) roots work p q =
    let trial = trial_loop factor_trials 0 factor_parameter_seed (a ∷ b ∷ c ∷ d ∷ cs) work in
    elim (Result-cases trial.0) [
      | inr (error, e) ↦ ((err error, trial.1), rw (e, roots_loop) refl, rw (e, roots_loop) refl)
      | inl ((quotient, factor), e) ↦
          let spends =
            trial_loop_spends factor_trials 0 factor_parameter_seed (a ∷ b ∷ c ∷ d ∷ cs) work
              (omega arith) e in
          let (result, ends, also) =
            roots_loop_ends f g (factor ∷ quotient ∷ pending) roots trial.1 (omega arith)
              (omega arith) in
          (result, rw (e, roots_loop) ends, rw (e, roots_loop) also)
    ]

-- The factoring loop ends by its own conditions, for any polynomial and any work budget: with fuel
-- for one round and one more for each unit of work, or more, it does not run out of fuel and returns
-- what findRootsWithBudget returns, errors and the work that is left included.
pub find_roots_with_budget_lem :
    (fuel : ℕ) (poly : Polynomial) (work : ℤ)
    → pos_part work < fuel
    → find_roots_within fuel poly work ≡ some (find_roots_with_budget poly work)
unfolding find_roots_with_budget find_roots_within
find_roots_with_budget_lem fuel poly work p =
    let (result, ends, also) =
      roots_loop_ends fuel (suc (pos_part work)) (poly ∷ []) [] work (omega arith) (omega arith) in
    rw (ends, also) refl
