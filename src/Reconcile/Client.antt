-- ===== src/Reconcile/Client.antt =====
-- reconcile/client.go: the requester's policy, one decision for each step of the exchange. An `int`
-- that may be negative is an integer.
pub mod Select
pub mod Transition
pub mod Inside
pub mod Failed
pub mod Refine
use gomatrixcrypto.Base.{
  ℕ, zero, suc, ◌+◌, ◌-◌, ◌*◌, ◌/◌, ◌%◌, ◌^◌, ◌≡◌, Bool, true, false, ◌&&◌, ◌||◌, not, List, [],
  ◌∷◌, ◌++◌, Option, none, some, length, list_eq, leb, ltb, ◌==◌, if◌then◌else◌, Result, ok, err,
  Error, invalid_sketch_capacity, map,
}
use gomatrixcrypto.Base.Int.{ℤ, pos, negsuc, pos_part, ltb_int, leb_int, suc_int, to_u64}
use gomatrixcrypto.Reconcile.Element.{ElementHash}
use gomatrixcrypto.Reconcile.Accumulator.{max_u64}
use gomatrixcrypto.Reconcile.PinSketch.Quadratic.{max_int}
use gomatrixcrypto.Reconcile.Sketch.{SyndromeSketch, new_syndrome_sketch}
use gomatrixcrypto.Reconcile.Decode.{toggle_each, max_local_sketch_decode_capacity}
use gomatrixcrypto.Reconcile.Resident.{ResidentKernel}
use gomatrixcrypto.Reconcile.Triage.{
  BucketRequest, BucketDecodeSuccess, FailedBucket, BucketDecodeBatch, estimate_delta,
  max_bucketed_sketch_capacity, max_bucket_sketch_capacity,
}

abbrev pub max_reconciliation_rounds : ℕ
max_reconciliation_rounds = 20

-- No gate is a nil threshold. The source shares the threshold by pointer; here it is the value.
pub record ReconciliationClient : Type 0 where
  pub max_sketch_capacity : ℤ
  pub max_rounds : ℤ
  pub gate_threshold : Option ℕ

unfoldable pub gate_threshold_for_rounds : ℤ → ℕ
gate_threshold_for_rounds (negsuc n) = 0
gate_threshold_for_rounds (pos rounds) =
    if rounds == 0
    then 0
    else if ltb (max_u64 / max_bucketed_sketch_capacity) rounds
    then max_u64
    else rounds * max_bucketed_sketch_capacity

unfoldable pub new_reconciliation_client : ℤ → Result ReconciliationClient
new_reconciliation_client capacity =
    if leb_int capacity (pos 0) || ltb_int (pos max_local_sketch_decode_capacity) capacity
    then err invalid_sketch_capacity
    else ok (record {
      max_sketch_capacity = capacity;
      max_rounds = pos max_reconciliation_rounds;
      gate_threshold = some (gate_threshold_for_rounds (pos max_reconciliation_rounds));
    })

unfoldable pub with_max_rounds : ReconciliationClient → ℤ → ReconciliationClient
with_max_rounds c max_rounds = record c {
  max_rounds = max_rounds;
  gate_threshold = some (gate_threshold_for_rounds max_rounds);
}

unfoldable pub with_gate_threshold : ReconciliationClient → Option ℕ → ReconciliationClient
with_gate_threshold c threshold = record c { gate_threshold = threshold }

unfoldable pub allow_unlimited_delta : ReconciliationClient → ReconciliationClient
allow_unlimited_delta c = record c { gate_threshold = none }

pub record RemoteDigest : Type 0 where
  pub digest : List ℕ
  pub known_event_count : ℕ
  pub strata : List (List ℕ)
  pub frame_matches : Bool
  pub has_unknown_extremity : Bool

pub data ClientActionType : Type 0 where
  synchronized extremity_diff bucket_sketches resolve_roots : ClientActionType

pub record ClientAction : Type 0 where
  pub action_type : ClientActionType
  pub requests : List BucketRequest
  pub accumulated_roots : List ℕ
  pub roots : List ℕ

-- An action with nothing but its type.
abbrev pub plain : ClientActionType → ClientAction
plain t = record { action_type = t; requests = []; accumulated_roots = []; roots = [] }

unfoldable pub abs_diff_u64 : ℕ → ℕ → ℕ
abs_diff_u64 a b = if leb b a then a - b else b - a

unfoldable pub max_u64_of : ℕ → ℕ → ℕ
max_u64_of a b = if ltb b a then a else b

-- For numbers that are not negative.
unfoldable pub ceil_div : ℕ → ℕ → ℕ
ceil_div n d = if d == 0 then 0 else if n == 0 then 0 else if n % d == 0 then n / d else n / d + 1

-- `value > ^uint64(0) - x`: the sum does not fit.
abbrev pub overflows : ℕ → ℕ → Bool
overflows value x = ltb (max_u64 - x) value

-- One and a half times the estimate, rounded up, and 4; `none` where a sum does not fit.
unfoldable pub provision_base : ℕ → Option ℕ
provision_base estimate =
    let half = estimate / 2 in
    let value = estimate + half in
    let remainder = estimate % 2 in
    if overflows estimate half
    then none
    else if overflows value remainder
    then none
    else if overflows (value + remainder) 4
    then none
    else some (value + remainder + 4)

-- The conversion to an int at the end.
unfoldable pub fit_int : ℕ → ℤ
fit_int value = if ltb max_int value then negsuc 0 else pos value

unfoldable pub add_headroom : ℕ → ℤ → ℤ
add_headroom value (negsuc n) = fit_int value
add_headroom value (pos headroom) =
    if headroom == 0
    then fit_int value
    else if overflows value headroom
    then negsuc 0
    else fit_int (value + headroom)

unfoldable pub provision_capacity : ℕ → ℤ → ℤ
provision_capacity estimated_delta headroom = elim (provision_base estimated_delta) [
  | none ↦ negsuc 0
  | some value ↦ add_headroom value headroom
]

-- The capacity of one bucket, between the floor and the bucket's limit.
unfoldable pub clamp_capacity : ℕ → ℤ → ℕ
clamp_capacity value floor =
    let raised = if ltb_int (pos value) floor then pos_part floor else value in
    if ltb max_bucket_sketch_capacity raised then max_bucket_sketch_capacity else raised

unfoldable pub provision_bucket_capacity : ℕ → ℤ → Option ℕ
provision_bucket_capacity target floor = elim (provision_base target) [
  | none ↦ none
  | some value ↦ if ltb max_int value then none else some (clamp_capacity value floor)
]

-- `for buckets*32 < targetCapacity && depth < 6`; six rounds are all there can be.
unfoldable pub bucket_loop : ℕ → ℕ → ℕ → ℕ → ℕ × ℕ
bucket_loop zero depth buckets target = (depth, buckets)
bucket_loop (suc fuel) depth buckets target =
    let rest = bucket_loop fuel (depth + 1) (buckets * 2) target in
    if ltb (buckets * 32) target && ltb depth 6 then rest else (depth, buckets)

-- The requests for the prefixes from `prefix` on; `count` of them are left.
unfoldable pub enumerate : ℕ → ℕ → ℕ → ℕ → List BucketRequest
enumerate zero prefix depth capacity = []
enumerate (suc count) prefix depth capacity =
    record { depth = depth; prefix = prefix; capacity = pos capacity }
    ∷ enumerate count (prefix + 1) depth capacity

unfoldable pub requests_for : ℕ → List BucketRequest
requests_for target =
    let (depth, buckets) = bucket_loop 6 0 1 target in
    let per_bucket = ceil_div target buckets in
    let raised = if ltb per_bucket 4 then 4 else per_bucket in
    let capacity =
      if ltb max_bucket_sketch_capacity raised then max_bucket_sketch_capacity else raised in
    enumerate buckets 0 depth capacity

-- The larger of the count difference and what the strata say, where they say something.
unfoldable pub refine_estimate : ℕ → Result (Option ℕ) → ℕ
refine_estimate delta (err e) = delta
refine_estimate delta (ok none) = delta
refine_estimate delta (ok (some value)) = if ltb delta value then value else delta

unfoldable pub exceeds_gate : Option ℕ → ℕ → Bool
exceeds_gate none delta = false
exceeds_gate (some threshold) delta = ltb threshold delta

-- `targetCapacity < 0` becomes the largest int.
unfoldable pub target_capacity : ℤ → ℕ
target_capacity (pos n) = n
target_capacity (negsuc n) = max_int

unfoldable pub select_action :
    ReconciliationClient → ResidentKernel → RemoteDigest → ℤ → ClientAction
select_action c local remote concurrency_headroom =
    let count_delta = abs_diff_u64 local.accumulator.count remote.known_event_count in
    let estimated_delta = refine_estimate count_delta (estimate_delta local.strata remote.strata) in
    let target = target_capacity (provision_capacity estimated_delta concurrency_headroom) in
    if not remote.frame_matches || remote.has_unknown_extremity
    then plain extremity_diff
    else if list_eq local.accumulator.digest remote.digest
        && local.accumulator.count == remote.known_event_count
    then plain synchronized
    else if exceeds_gate c.gate_threshold estimated_delta
    then plain extremity_diff
    else record (plain bucket_sketches) { requests = requests_for target }

unfoldable pub build_sketch : ReconciliationClient → ℤ → List ElementHash → Result SyndromeSketch
build_sketch c capacity hashes =
    if leb_int capacity (pos 0) || ltb_int c.max_sketch_capacity capacity
    then err invalid_sketch_capacity
    else elim (new_syndrome_sketch capacity) [
      | err e ↦ err e
      | ok sketch ↦ toggle_each sketch (map (λ (h : ElementHash). h.h64) hashes)
    ]
