-- ===== src/Reconcile/Client/Transition.antt =====
-- reconcile/client.go: the step from one decoded batch to the next requests.
use gomatrixcrypto.Base.{
  ℕ, ◌+◌, ◌-◌, ◌*◌, ◌/◌, ◌%◌, ◌^◌, ◌&&◌, List, [], ◌∷◌, ◌++◌, Option, none, some, length, leb, ltb,
  ◌==◌, if◌then◌else◌,
}
use gomatrixcrypto.Base.Int.{ℤ, pos, ltb_int, leb_int, suc_int, to_u64}
use gomatrixcrypto.Reconcile.Triage.{
  BucketRequest, BucketDecodeSuccess, FailedBucket, BucketDecodeBatch, max_bucketed_sketch_capacity,
  max_bucket_sketch_capacity,
}
use gomatrixcrypto.Reconcile.Client.{
  ReconciliationClient, ClientAction, plain, extremity_diff, bucket_sketches, resolve_roots,
  max_u64_of, provision_bucket_capacity,
}

-- `for _, success := range …`
unfoldable pub collect_roots : List ℕ → List BucketDecodeSuccess → List ℕ
collect_roots accumulated [] = accumulated
collect_roots accumulated (success ∷ rest) = collect_roots (accumulated ++ success.roots) rest

-- The first previous request of the failed bucket.
unfoldable pub find_previous : FailedBucket → List BucketRequest → Option BucketRequest
find_previous failed [] = none
find_previous failed (request ∷ requests) =
    if request.prefix == failed.prefix && request.depth == failed.depth
    then some request
    else find_previous failed requests

-- What is still to be found, by the estimate.
unfoldable pub unaccounted : Option ℕ → ℕ → ℕ
unaccounted none resolved = 0
unaccounted (some estimate) resolved = if ltb resolved estimate then estimate - resolved else 0

-- A bucket with room gets one larger request.
unfoldable pub grow_bucket : ℕ → FailedBucket → BucketRequest → Option (List BucketRequest × ℕ)
grow_bucket share failed previous =
    let floor = suc_int previous.capacity in
    elim (provision_bucket_capacity (max_u64_of share (to_u64 floor)) floor) [
      | none ↦ none
      | some capacity ↦ some (
        record { depth = previous.depth; prefix = failed.prefix; capacity = pos capacity } ∷ [],
        capacity,
      )
    ]

-- A full bucket is split into its two halves; the low bit of a doubled prefix is free.
unfoldable pub split_bucket : ℕ → BucketRequest → Option (List BucketRequest × ℕ)
split_bucket share previous =
    let prefix = previous.prefix * 2 % 2 ^ 32 in
    let depth = previous.depth + 1 in
    if leb 32 previous.depth
    then none
    else elim (provision_bucket_capacity (max_u64_of (share / 2) 4) (pos 4)) [
      | none ↦ none
      | some capacity ↦ some (
        record { depth = depth; prefix = prefix; capacity = pos capacity }
            ∷ record { depth = depth; prefix = prefix + 1; capacity = pos capacity }
            ∷ [],
        capacity * 2,
      )
    ]

-- The requests that replace one failed bucket, and their capacity together.
unfoldable pub replace_bucket :
    ℕ → FailedBucket → List BucketRequest → Option (List BucketRequest × ℕ)
replace_bucket share failed previous_requests = elim (find_previous failed previous_requests) [
  | none ↦ none
  | some previous ↦
      if ltb_int previous.capacity (pos max_bucket_sketch_capacity)
      then grow_bucket share failed previous
      else split_bucket share previous
]

-- The loop over the failed buckets that are left, over (total, requests); `none` is the fallback. The
-- total only grows, so one test for the two halves of a bucket is the test after each.
unfoldable pub transition_loop :
    ℕ
    → ℤ
    → List BucketRequest
    → List FailedBucket
    → ℕ
    → List BucketRequest
    → Option (List BucketRequest)
transition_loop share limit previous_requests [] total requests = some requests
transition_loop share limit previous_requests (failed ∷ rest) total requests =
    elim (replace_bucket share failed previous_requests) [
      | none ↦ none
      | some (more, capacity) ↦
          if ltb_int limit (pos (total + capacity))
          then none
          else transition_loop share limit previous_requests rest (total + capacity)
              (requests ++ more)
    ]

-- `aggregateCap`, at most the limit of one batch.
unfoldable pub aggregate_limit : ℤ → ℤ
aggregate_limit cap =
    if ltb_int (pos max_bucketed_sketch_capacity) cap then pos max_bucketed_sketch_capacity else cap

-- The action behind the loop.
unfoldable pub next_action : List ℕ → Option (List BucketRequest) → ClientAction
next_action accumulated none = plain extremity_diff
next_action accumulated (some requests) = record {
  action_type = bucket_sketches;
  requests = requests;
  accumulated_roots = accumulated;
  roots = [];
}

unfoldable pub transition_bucket_batch :
    ReconciliationClient
    → BucketDecodeBatch
    → List BucketRequest
    → List ℕ
    → Option ℕ
    → ℤ
    → ℤ
    → ClientAction
transition_bucket_batch c batch previous_requests accumulated global_estimate round aggregate_cap =
    let collected = collect_roots accumulated batch.successful_buckets in
    let failed_count = length batch.failed_buckets in
    let share = unaccounted global_estimate (length collected) / failed_count in
    let next =
      transition_loop share (aggregate_limit aggregate_cap) previous_requests batch.failed_buckets 0
        [] in
    if failed_count == 0
    then record (plain resolve_roots) { roots = collected }
    else if leb_int c.max_rounds round
    then plain extremity_diff
    else next_action collected next
