-- ===== src/Reconcile/Triage.antt =====
-- reconcile/triage.go: bucket requests, the estimate of the difference and the decoding of a batch.
-- A uint8 or uint32 field is a number below 2 ^ 8 or 2 ^ 32.
pub mod Requests
pub mod Batch
pub mod Estimate
use gomatrixcrypto.Base.{
  ℕ, zero, suc, ◌+◌, ◌-◌, ◌*◌, ◌/◌, ◌%◌, ◌^◌, ◌≡◌, Bool, true, false, ◌&&◌, ◌||◌, List, [], ◌∷◌,
  ◌++◌, Option, none, some, length, take, drop, get_or, leb, ltb, ◌==◌, if◌then◌else◌, Result, ok,
  err, Error, decode_failure, budget_exhausted, invalid_sketch_capacity, invalid_sketch_length,
  invalid_bucket_index,
}
use gomatrixcrypto.Base.Int.{ℤ, pos, negsuc, pos_part}
use gomatrixcrypto.Base.Words.{xor_words}
use gomatrixcrypto.Reconcile.PinSketch.Factor.{decode_pin_sketch}
use gomatrixcrypto.Reconcile.PinSketch.Quadratic.{max_factor_work, max_int}
use gomatrixcrypto.Reconcile.Sketch.{new_sketch_from_encoded_bytes}
use gomatrixcrypto.Reconcile.Decode.{decode_and_verify_sketch}
use gomatrixcrypto.Reconcile.Resident.{stratum_capacity}

abbrev pub max_bucketed_sketch_capacity : ℕ
max_bucketed_sketch_capacity = 4096

abbrev pub max_bucket_sketch_capacity : ℕ
max_bucket_sketch_capacity = 32

pub record BucketRequest : Type 0 where
  pub depth : ℕ
  pub prefix : ℕ
  pub capacity : ℤ

pub record BucketDecodeSuccess : Type 0 where
  pub depth : ℕ
  pub prefix : ℕ
  pub roots : List ℕ

pub record FailedBucket : Type 0 where
  pub depth : ℕ
  pub prefix : ℕ

pub record BucketDecodeBatch : Type 0 where
  pub successful_buckets : List BucketDecodeSuccess
  pub failed_buckets : List FailedBucket

-- `req.Capacity <= 0 || req.Capacity > MaxBucketSketchCapacity`
unfoldable pub is_bad_capacity : ℤ → Bool
is_bad_capacity (negsuc n) = true
is_bad_capacity (pos n) = n == 0 || ltb max_bucket_sketch_capacity n

-- `x << k` on a uint64.
abbrev pub shl64 : ℕ → ℕ → ℕ
shl64 x k = x * 2 ^ k % 2 ^ 64

-- The first value of the bucket, and the first behind it.
unfoldable pub start : BucketRequest → ℕ
start req = shl64 req.prefix (32 - req.depth)

unfoldable pub end : BucketRequest → ℕ
end req = (start req + shl64 1 (32 - req.depth)) % 2 ^ 64

-- The loop over the requests that are left, over (totalCapacity, previousEnd); `none` is a nil error.
unfoldable pub validate_loop : ℕ → ℕ → List BucketRequest → Option Error
validate_loop total_capacity previous_end [] = none
validate_loop total_capacity previous_end (req ∷ rest) =
    let total = total_capacity + pos_part req.capacity in
    let next = validate_loop total (end req) rest in
    if is_bad_capacity req.capacity
    then some invalid_sketch_capacity
    else if ltb 32 req.depth
    then some invalid_bucket_index
    else if ltb req.depth 32 && leb (2 ^ req.depth) req.prefix
    then some invalid_bucket_index
    else if ltb max_bucketed_sketch_capacity total
    then some invalid_sketch_capacity
    else if ltb (start req) previous_end
    then some invalid_bucket_index
    else next

unfoldable pub validate_bucket_requests : List BucketRequest → Option Error
validate_bucket_requests requests = validate_loop 0 0 requests

abbrev pub fallback_estimate : ℕ
fallback_estimate = 8 * 2 ^ 31

-- The strata below `stratum`, from the highest. The outer option is Go's error, the inner one its
-- flag: `some none` is an exhausted budget.
unfoldable pub estimate_loop : ℕ → List (List ℕ) → List (List ℕ) → Option ℤ → Result (Option ℕ)
estimate_loop zero local remote work = ok (some 0)
estimate_loop (suc stratum) local remote work =
    let residual = xor_words (get_or local stratum []) (get_or remote stratum []) in
    let (decoded, left) = decode_pin_sketch residual stratum_capacity work in
    elim decoded [
      | err budget_exhausted ↦ ok none
      | err decode_failure ↦ ok (some fallback_estimate)
      | err e ↦ err e
      | ok [] ↦ estimate_loop stratum local remote left
      | ok (root ∷ roots) ↦
          let cardinality = length (root ∷ roots) in
          let shift = if stratum == 31 then 31 else stratum + 1 in
          if ltb ((2 ^ 64 - 1) / 2 ^ shift) cardinality
          then ok (some fallback_estimate)
          else ok (some (shl64 cardinality shift))
    ]

unfoldable pub estimate_delta : List (List ℕ) → List (List ℕ) → Result (Option ℕ)
estimate_delta local remote = estimate_loop 32 local remote (some (pos max_factor_work))

-- For factors that are not negative.
unfoldable pub safe_mul : ℕ → ℕ → Option ℕ
safe_mul a b =
    if a == 0 || b == 0 then some 0 else if ltb (max_int / b) a then none else some (a * b)

unfoldable pub safe_add : ℕ → ℕ → Option ℕ
safe_add a b = if ltb (max_int - a) b then none else some (a + b)

unfoldable pub add_success : BucketRequest → List ℕ → BucketDecodeBatch → BucketDecodeBatch
add_success request roots batch = record batch {
  successful_buckets =
      batch.successful_buckets
      ++ (record { depth = request.depth; prefix = request.prefix; roots = roots } ∷ []);
}

unfoldable pub add_failure : BucketRequest → BucketDecodeBatch → BucketDecodeBatch
add_failure request batch = record batch {
  failed_buckets =
      batch.failed_buckets ++ (record { depth = request.depth; prefix = request.prefix } ∷ []);
}

-- One bucket of n coordinates: the batch with it, and the work that is left.
unfoldable pub decode_bucket :
    BucketRequest
    → ℕ
    → List ℕ
    → Option ℤ
    → BucketDecodeBatch
    → Result (BucketDecodeBatch × Option ℤ)
decode_bucket request n bytes work batch = elim (new_sketch_from_encoded_bytes n bytes) [
  | err e ↦ err e
  | ok sketch ↦
      let (decoded, left) = decode_and_verify_sketch sketch n work in
      elim decoded [
        | ok roots ↦ ok (add_success request roots batch, left)
        | err decode_failure ↦ ok (add_failure request batch, left)
        | err budget_exhausted ↦ ok (add_failure request batch, left)
        | err e ↦ err e
      ]
]

-- `end, ok := safeAdd(offset, byteLen)` and its tests; a validated capacity is not negative.
unfoldable pub bucket_end : ℕ → ℕ → List ℕ → Option ℕ
bucket_end n offset encoded = elim (safe_mul n 8) [
  | none ↦ none
  | some byte_len ↦ elim (safe_add offset byte_len) [
    | none ↦ none
    | some stop ↦ if ltb (length encoded) stop then none else some stop
  ]
]

unfoldable pub decode_loop :
    List ℕ → List BucketRequest → ℕ → Option ℤ → BucketDecodeBatch → Result BucketDecodeBatch
decode_loop encoded [] offset work batch =
    if offset == length encoded then ok batch else err invalid_sketch_length
decode_loop encoded (request ∷ requests) offset work batch =
    let n = pos_part request.capacity in
    elim (bucket_end n offset encoded) [
      | none ↦ err invalid_sketch_length
      | some stop ↦
          elim (decode_bucket request n (take (stop - offset) (drop offset encoded)) work batch) [
            | err e ↦ err e
            | ok (batch', left) ↦ decode_loop encoded requests stop left batch'
          ]
    ]

unfoldable pub decode_bucket_sketches : List ℕ → List BucketRequest → Result BucketDecodeBatch
decode_bucket_sketches encoded requests = elim (validate_bucket_requests requests) [
  | some e ↦ err e
  | none ↦
      decode_loop encoded requests 0 (some (pos max_factor_work))
        (record { successful_buckets = []; failed_buckets = [] })
]
