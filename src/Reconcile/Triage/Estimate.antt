-- ===== src/Reconcile/Triage/Estimate.antt =====
-- reconcile/triage.go: EstimateDelta on equal strata.
use gomatrixcrypto.Base.{
  ℕ, zero, suc, ◌<◌, ◌≤◌, ◌≡◌, refl, ap, ◌∙◌, List, [], ◌∷◌, Option, some, length, replicate,
  get_or, set, last_or, All, arith, ok,
}
use gomatrixcrypto.Base.Int.{ℤ, pos}
use gomatrixcrypto.Base.Words.{xor_words, xor_words_self}
use gomatrixcrypto.Base.Xor.{◌⊕◌}
use gomatrixcrypto.Reconcile.Field.{mul}
use gomatrixcrypto.Reconcile.PinSketch.Locator.{
  reconstruct_loop, reconstruct_syndromes, discrepancy_loop, massey_loop, berlekamp_massey,
}
use gomatrixcrypto.Reconcile.PinSketch.Quadratic.{max_factor_work}
use gomatrixcrypto.Reconcile.PinSketch.Factor.{decode_locator, decode_pin_sketch}
use gomatrixcrypto.Reconcile.Resident.{stratum_capacity}
use gomatrixcrypto.Reconcile.Triage.{estimate_loop, estimate_delta}

-- A sketch without elements decodes to none, and costs no work.
decode_zeros : (work : Option ℤ) → decode_pin_sketch (replicate 8 0) 8 work ≡ (ok [], work)
unfolding decode_pin_sketch decode_locator berlekamp_massey massey_loop discrepancy_loop
    reconstruct_syndromes reconstruct_loop mul replicate set get_or last_or ◌⊕◌
decode_zeros work = refl

get_or-length :
    (strata : List (List ℕ)) (i : ℕ)
    → All (λ (s : List ℕ). length s ≡ 8) strata
    → i < length strata
    → length (get_or strata i []) ≡ 8
unfolding get_or
get_or-length [] i h lt = absurd (omega arith)
get_or-length (s ∷ strata) zero h lt = h.0
get_or-length (s ∷ strata) (suc i) h lt = get_or-length strata i h.1 (omega arith)

estimate_loop_equal :
    (n : ℕ) (strata : List (List ℕ)) (work : Option ℤ)
    → All (λ (s : List ℕ). length s ≡ 8) strata
    → n ≤ length strata
    → estimate_loop n strata strata work ≡ ok (some 0)
unfolding estimate_loop
estimate_loop_equal zero strata work h lt = refl
estimate_loop_equal (suc n) strata work h lt =
    let s = get_or strata n [] in
    let residual : xor_words s s ≡ replicate 8 0 =
      xor_words_self s ∙ ap (λ (k : ℕ). replicate k 0) (get_or-length strata n h (omega arith)) in
    let decoded : decode_pin_sketch (xor_words s s) 8 work ≡ (ok [], work) =
      ap (λ (r : List ℕ). decode_pin_sketch r 8 work) residual ∙ decode_zeros work in
    rw (decoded, estimate_loop) (estimate_loop_equal n strata _ h (omega arith))

-- Where the two sides have the same 32 strata of 8 words, the estimate of their difference is zero, and
-- the work budget is not exhausted.
pub estimate_delta_equal :
    (strata : List (List ℕ))
    → length strata ≡ 32
    → All (λ (s : List ℕ). length s ≡ stratum_capacity) strata
    → estimate_delta strata strata ≡ ok (some 0)
unfolding estimate_delta
estimate_delta_equal strata n h =
    estimate_loop_equal 32 strata (some (pos max_factor_work)) h (omega arith)
