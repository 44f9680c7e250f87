-- ===== src/Tests/PinSketch.antt =====
-- Runs of the polynomial arithmetic behind the decoder.
use gomatrixcrypto.Base.{ℕ, ◌≡◌, refl, List, [], ◌∷◌, ok, some, arith}
use gomatrixcrypto.Base.Int.{pos}
use gomatrixcrypto.Reconcile.PinSketch.{Polynomial, poly_gcd_within, poly_gcd}
use gomatrixcrypto.Reconcile.PinSketch.Factor.{find_roots_within, find_roots_with_budget}
use gomatrixcrypto.Reconcile.Triage.{estimate_delta}
use gomatrixcrypto.Reconcile.Triage.Estimate.{estimate_delta_equal}
use gomatrixcrypto.Reconcile.PinSketch.Budget.{find_roots_with_budget_lem}
use gomatrixcrypto.Reconcile.PinSketch.Division.{poly_gcd_lem}

-- (x + 1) (x + 2) (x + 3)
abbrev cubic : Polynomial
cubic = 6 ∷ 7 ∷ 0 ∷ 1 ∷ []

abbrev linear : Polynomial
linear = 1 ∷ 1 ∷ []

find_roots_with_budget_lem_example :
    find_roots_within 200000 cubic (pos 100000) ≡ some (find_roots_with_budget cubic (pos 100000))
find_roots_with_budget_lem_example =
    find_roots_with_budget_lem 200000 cubic (pos 100000) (omega arith)

poly_gcd_lem_example : poly_gcd_within 7 cubic linear ≡ some (poly_gcd cubic linear)
poly_gcd_lem_example = poly_gcd_lem 7 cubic linear (omega arith)

abbrev stratum : List ℕ
stratum = 1 ∷ 2 ∷ 3 ∷ 4 ∷ 5 ∷ 6 ∷ 7 ∷ 8 ∷ []

abbrev strata : List (List ℕ)
strata =
    stratum ∷ stratum ∷ stratum ∷ stratum ∷ stratum ∷ stratum ∷ stratum ∷ stratum ∷ stratum
    ∷ stratum ∷ stratum ∷ stratum ∷ stratum ∷ stratum ∷ stratum ∷ stratum ∷ stratum ∷ stratum
    ∷ stratum ∷ stratum ∷ stratum ∷ stratum ∷ stratum ∷ stratum ∷ stratum ∷ stratum ∷ stratum
    ∷ stratum ∷ stratum ∷ stratum ∷ stratum ∷ stratum ∷ []

estimate_delta_equal_example : estimate_delta strata strata ≡ ok (some 0)
estimate_delta_equal_example = estimate_delta_equal strata refl (
  refl,
  (
    refl,
    (
      refl,
      (
        refl,
        (
          refl,
          (
            refl,
            (
              refl,
              (
                refl,
                (
                  refl,
                  (
                    refl,
                    (
                      refl,
                      (
                        refl,
                        (
                          refl,
                          (
                            refl,
                            (
                              refl,
                              (
                                refl,
                                (
                                  refl,
                                  (
                                    refl,
                                    (
                                      refl,
                                      (
                                        refl,
                                        (
                                          refl,
                                          (
                                            refl,
                                            (
                                              refl,
                                              (
                                                refl,
                                                (
                                                  refl,
                                                  (
                                                    refl,
                                                    (
                                                      refl,
                                                      (refl, (refl, (refl, (refl, (refl, tt))))),
                                                    ),
                                                  ),
                                                ),
                                              ),
                                            ),
                                          ),
                                        ),
                                      ),
                                    ),
                                  ),
                                ),
                              ),
                            ),
                          ),
                        ),
                      ),
                    ),
                  ),
                ),
              ),
            ),
          ),
        ),
      ),
    ),
  ),
)
