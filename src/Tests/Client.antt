-- ===== src/Tests/Client.antt =====
-- Runs of the decoder, the triage and the client.
use gomatrixcrypto.Base.{
  ℕ, ◌+◌, ◌^◌, ◌≤◌, ◌≡◌, refl, true, false, none, List, [], ◌∷◌, arith, ok, ◌↔◌, length, take, drop,
  replicate, get_or, set, drop_last, last_or, list_eq,
}
use mathlib.Core.Bool
use gomatrixcrypto.Base.Int.{pos, pos_part, leb_int}
use gomatrixcrypto.Base.Sort.{IsSorted, sort, insert_sorted}
use gomatrixcrypto.Reconcile.Triage.{
  is_bad_capacity, start, end, validate_loop, validate_bucket_requests, estimate_loop,
  estimate_delta, safe_mul, safe_add, add_success, add_failure, decode_bucket, bucket_end,
  decode_loop, decode_bucket_sketches,
}
use gomatrixcrypto.Reconcile.Client.{
  abs_diff_u64, max_u64_of, ceil_div, provision_base, fit_int, add_headroom, provision_capacity,
  clamp_capacity, provision_bucket_capacity, bucket_loop, enumerate, requests_for, refine_estimate,
  exceeds_gate, target_capacity, select_action,
}
use gomatrixcrypto.Reconcile.Client.Transition.{
  collect_roots, find_previous, unaccounted, grow_bucket, split_bucket, replace_bucket,
  transition_loop, aggregate_limit, next_action, transition_bucket_batch,
}
use gomatrixcrypto.Reconcile.Decode.{
  toggle_each, verify_decoded, decode_and_verify_sketch, decode_elements,
}
use gomatrixcrypto.Reconcile.Sketch.{
  new_syndrome_sketch, toggle_loop, toggle, xor, equal_sketch, contains_zero,
  new_sketch_from_encoded_bytes,
}
use gomatrixcrypto.Reconcile.PinSketch.{
  inv_loop, gf64_inv, trim, make_monic, xor_at, reduce_last, mod_loop, is_not_monic, poly_mod,
  div_loop, poly_div, gcd_loop, poly_gcd, poly_square, set_linear, trace_loop, trace_mod,
}
use gomatrixcrypto.Reconcile.PinSketch.Locator.{
  reconstruct_loop, reconstruct_syndromes, discrepancy_loop, update_recurrence, massey_loop,
  berlekamp_massey,
}
use gomatrixcrypto.Reconcile.PinSketch.Quadratic.{
  next_factor_parameter, set_column, build_columns, set_rhs, find_pivot, eliminate,
  eliminate_columns, is_inconsistent, trailing_zeros, solution_of_rows, solve_quadratic_form,
  factor_trial_cost,
}
use gomatrixcrypto.Reconcile.PinSketch.Factor.{
  quadratic_roots, split_by, trial_loop, roots_loop, find_roots_with_budget, find_roots,
  check_roots, check_result, decode_located, decode_locator, decode_pin_sketch,
}
use gomatrixcrypto.Reconcile.Field.{mul_rounds, mul_bitwise, mul}
use gomatrixcrypto.Base.Words.{xor_words}
use gomatrixcrypto.Base.Bytes.{get_le, get_words}
use gomatrixcrypto.Reconcile.Sketch.{SyndromeSketch, capacity}
use gomatrixcrypto.Reconcile.Triage.{BucketRequest, BucketDecodeBatch}
use gomatrixcrypto.Reconcile.Triage.Requests.{
  AreRequests, validate_bucket_requests_iff, total_capacity,
}
use gomatrixcrypto.Reconcile.Triage.Batch.{FailedAmong, decode_bucket_sketches_accounts}
use gomatrixcrypto.Reconcile.Resident.{new_resident_kernel}
use gomatrixcrypto.Reconcile.Accumulator.{new_room_accumulator}
use gomatrixcrypto.Reconcile.Client.{
  ReconciliationClient, RemoteDigest, ClientAction, bucket_sketches,
}
use gomatrixcrypto.Reconcile.Client.Select.{Tiles, select_action-validate}
use gomatrixcrypto.Reconcile.Client.Refine.{transition_bucket_batch-validate}
use gomatrixcrypto.Reconcile.Sketch.Laws.{AreShort, toggle_all, empty}
use gomatrixcrypto.Reconcile.Decode.Sound.{decode_elements_sound}

abbrev one_request : List BucketRequest
one_request = record { depth = 0; prefix = 0; capacity = pos 2 } ∷ []

abbrev sketch_bytes : List ℕ
sketch_bytes = 0 ∷ 0 ∷ 0 ∷ 0 ∷ 0 ∷ 0 ∷ 0 ∷ 0 ∷ 1 ∷ 0 ∷ 0 ∷ 0 ∷ 0 ∷ 0 ∷ 0 ∷ 0 ∷ []

abbrev failed_batch : BucketDecodeBatch
failed_batch = record {
  successful_buckets = [];
  failed_buckets = record { depth = 0; prefix = 0 } ∷ [];
}

failed_run : decode_bucket_sketches sketch_bytes one_request ≡ ok failed_batch
unfolding decode_bucket_sketches validate_bucket_requests validate_loop start is_bad_capacity end
    decode_loop take drop bucket_end safe_add safe_mul decode_bucket add_failure
    new_sketch_from_encoded_bytes get_words get_le decode_and_verify_sketch decode_pin_sketch
    reconstruct_syndromes reconstruct_loop set mul mul_bitwise mul_rounds get_or replicate
    berlekamp_massey last_or massey_loop discrepancy_loop update_recurrence xor_at xor_words
    gf64_inv inv_loop decode_locator decode_located find_roots_with_budget roots_loop trial_loop
    split_by poly_gcd gcd_loop poly_mod mod_loop reduce_last drop_last trim is_not_monic make_monic
    trace_mod trace_loop poly_square set_linear poly_div div_loop next_factor_parameter
    factor_trial_cost quadratic_roots solve_quadratic_form is_inconsistent set_rhs build_columns
    set_column eliminate_columns eliminate xor find_pivot solution_of_rows trailing_zeros
    check_result check_roots sort insert_sorted contains_zero find_roots verify_decoded
    new_syndrome_sketch toggle_each toggle toggle_loop equal_sketch list_eq add_success Bool.xor
failed_run = refl

decode_bucket_sketches_accounts_example :
    (validate_bucket_requests one_request ≡ none)
    × FailedAmong failed_batch.failed_buckets one_request
    × (length failed_batch.successful_buckets + length failed_batch.failed_buckets
        ≡ length one_request)
decode_bucket_sketches_accounts_example =
    decode_bucket_sketches_accounts sketch_bytes one_request failed_batch failed_run

validate_bucket_requests_iff_example :
    (validate_bucket_requests one_request ≡ none) ↔ AreRequests one_request
validate_bucket_requests_iff_example = validate_bucket_requests_iff one_request (omega arith, tt)

abbrev client : ReconciliationClient
client = record { max_sketch_capacity = pos 64; max_rounds = pos 20; gate_threshold = none }

abbrev retried : ClientAction
retried = transition_bucket_batch client failed_batch one_request [] none (pos 0) (pos 4096)

retry_run : retried.action_type ≡ bucket_sketches
unfolding transition_bucket_batch next_action aggregate_limit unaccounted transition_loop
    replace_bucket split_bucket max_u64_of provision_bucket_capacity provision_base clamp_capacity
    find_previous grow_bucket collect_roots
retry_run = refl

transition_bucket_batch-validate_example :
    (validate_bucket_requests retried.requests ≡ none)
    × (total_capacity retried.requests ≤ pos_part (pos 4096))
    × (leb_int client.max_rounds (pos 0) ≡ false)
transition_bucket_batch-validate_example =
    transition_bucket_batch-validate client sketch_bytes one_request failed_batch [] none (pos 0)
      (pos 4096) (omega arith, tt) failed_run retry_run

abbrev remote : RemoteDigest
remote = record {
  digest = replicate 16 1;
  known_event_count = 40;
  strata = replicate 32 (replicate 8 0);
  frame_matches = true;
  has_unknown_extremity = false;
}

abbrev selected : ClientAction
selected = select_action client new_resident_kernel remote (pos 0)

select_run : selected.action_type ≡ bucket_sketches
unfolding select_action provision_capacity add_headroom fit_int provision_base target_capacity
    list_eq abs_diff_u64 requests_for ceil_div bucket_loop enumerate refine_estimate estimate_delta
    estimate_loop xor_words get_or decode_pin_sketch reconstruct_syndromes reconstruct_loop set mul
    mul_bitwise mul_rounds replicate berlekamp_massey last_or massey_loop discrepancy_loop
    update_recurrence xor_at gf64_inv inv_loop decode_locator decode_located find_roots_with_budget
    roots_loop trial_loop split_by poly_gcd gcd_loop poly_mod mod_loop reduce_last drop_last trim
    is_not_monic make_monic trace_mod trace_loop poly_square set_linear poly_div div_loop
    next_factor_parameter factor_trial_cost quadratic_roots solve_quadratic_form is_inconsistent
    set_rhs build_columns set_column take eliminate_columns eliminate xor find_pivot
    solution_of_rows trailing_zeros check_result check_roots sort insert_sorted contains_zero
    find_roots exceeds_gate Bool.xor new_resident_kernel new_room_accumulator
select_run = refl

select_action-validate_example :
    (validate_bucket_requests selected.requests ≡ none) × Tiles 0 (2 ^ 32) selected.requests
select_action-validate_example =
    select_action-validate client new_resident_kernel remote (pos 0) select_run

abbrev two_elements : SyndromeSketch
two_elements = record { coordinates = 6 ∷ 90 ∷ [] }

decoded_run : decode_elements two_elements (pos 2) ≡ ok (3 ∷ 5 ∷ [])
unfolding decode_elements decode_and_verify_sketch take decode_pin_sketch reconstruct_syndromes
    reconstruct_loop set mul mul_bitwise mul_rounds get_or replicate berlekamp_massey last_or
    massey_loop discrepancy_loop update_recurrence xor_at xor_words gf64_inv inv_loop decode_locator
    decode_located find_roots_with_budget roots_loop trial_loop split_by poly_gcd gcd_loop poly_mod
    mod_loop reduce_last drop_last trim is_not_monic make_monic trace_mod trace_loop poly_square
    set_linear poly_div div_loop next_factor_parameter factor_trial_cost quadratic_roots
    solve_quadratic_form is_inconsistent set_rhs build_columns set_column eliminate_columns
    eliminate xor find_pivot solution_of_rows trailing_zeros check_result check_roots sort
    insert_sorted contains_zero find_roots verify_decoded new_syndrome_sketch toggle_each toggle
    toggle_loop equal_sketch list_eq Bool.xor
decoded_run = refl

decode_elements_sound_example :
    AreShort (3 ∷ 5 ∷ [])
    × (toggle_all (empty (capacity two_elements)) (3 ∷ 5 ∷ []) ≡ two_elements)
    × IsSorted (3 ∷ 5 ∷ [])
decode_elements_sound_example = decode_elements_sound two_elements (pos 2) decoded_run
