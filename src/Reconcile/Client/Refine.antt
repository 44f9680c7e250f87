-- ===== src/Reconcile/Client/Refine.antt =====
-- reconcile/client.go: the requests that TransitionBucketBatch asks for.
use gomatrixcrypto.Base.{
  ℕ, ◌/◌, ◌≤◌, ◌≡◌, false, List, [], ◌∷◌, Option, none, some, All, arith, length, Option-cases, inl,
  inr, ok,
}
use gomatrixcrypto.Base.Int.{ℤ, pos, negsuc, pos_part, leb_int}
use gomatrixcrypto.Reconcile.Triage.{
  BucketRequest, FailedBucket, BucketDecodeBatch, decode_bucket_sketches, validate_bucket_requests,
}
use gomatrixcrypto.Reconcile.Triage.Requests.{
  low, AreRequests, AreWords, total_capacity, validate_bucket_requests_iff,
}
use gomatrixcrypto.Reconcile.Triage.Batch.{decode_bucket_sketches_accounts}
use gomatrixcrypto.Reconcile.Client.{ReconciliationClient, bucket_sketches}
use gomatrixcrypto.Reconcile.Client.Select.{AreRequests-AreWords}
use gomatrixcrypto.Reconcile.Client.Transition.{
  transition_loop, aggregate_limit, next_action, transition_bucket_batch, collect_roots,
  unaccounted,
}
use gomatrixcrypto.Reconcile.Client.Inside.{request_of}
use gomatrixcrypto.Reconcile.Client.Failed.{among-Ascending, transition_loop-Added}

aggregate_limit_bound : (cap : ℤ) → pos_part (aggregate_limit cap) ≤ 4096
unfolding aggregate_limit
aggregate_limit_bound (pos n) = ground arith
aggregate_limit_bound (negsuc n) = omega arith

aggregate_limit-le : (cap : ℤ) → pos_part (aggregate_limit cap) ≤ pos_part cap
unfolding aggregate_limit
aggregate_limit-le (pos n) = ground arith
aggregate_limit-le (negsuc n) = omega arith

All-zero : (fs : List FailedBucket) → All (λ f. 0 ≤ low (request_of f)) fs
All-zero [] = tt
All-zero (f ∷ fs) = (omega arith, All-zero fs)

-- An action that asks for sketches comes from a loop that ended.
transition-loop :
    (c : ReconciliationClient) (batch : BucketDecodeBatch) (previous : List BucketRequest)
    (accumulated : List ℕ) (estimate : Option ℕ) (round cap : ℤ)
    → (transition_bucket_batch c batch previous accumulated estimate round cap).action_type
      ≡ bucket_sketches
    → (share : ℕ) × (out : List BucketRequest) × (transition_loop share
          (aggregate_limit cap)
          previous
          batch.failed_buckets
          0
          []
        ≡ some out)
      × ((transition_bucket_batch c batch previous accumulated estimate round cap).requests ≡ out)
      × (leb_int c.max_rounds round ≡ false)
unfolding transition_bucket_batch next_action
transition-loop c batch previous accumulated estimate round cap h =
    let collected : List ℕ = collect_roots accumulated batch.successful_buckets in
    let share : ℕ = unaccounted estimate (length collected) / length batch.failed_buckets in
    elim (Option-cases
      (transition_loop share (aggregate_limit cap) previous batch.failed_buckets 0 [])) [
        | inl e ↦ absurd (ground arith)
        | inr (out, e) ↦ (share, out, e, ground arith, ground arith)
      ]

-- One round of the exchange, end to end: where the responder's sketches for the previous requests,
-- whose prefixes are uint32, are decoded to a batch and the client asks again, the new requests pass
-- the validation, their capacities add up to no more than the aggregate cap, and the round is below
-- the round limit.
pub transition_bucket_batch-validate :
    (c : ReconciliationClient) (encoded : List ℕ) (previous : List BucketRequest)
    (batch : BucketDecodeBatch) (accumulated : List ℕ) (estimate : Option ℕ) (round cap : ℤ)
    → AreWords previous
    → decode_bucket_sketches encoded previous ≡ ok batch
    → (transition_bucket_batch c batch previous accumulated estimate round cap).action_type
      ≡ bucket_sketches
    → let next = transition_bucket_batch c batch previous accumulated estimate round cap in
      (validate_bucket_requests next.requests ≡ none)
      × (total_capacity next.requests ≤ pos_part cap)
      × (leb_int c.max_rounds round ≡ false)
transition_bucket_batch-validate c encoded previous batch accumulated estimate round cap w d h =
    let (ok_previous, among, counted) = decode_bucket_sketches_accounts encoded previous batch d in
    let (valid, within, chain) = (validate_bucket_requests_iff previous w).0 ok_previous in
    let (share, out, run, is, early) =
      transition-loop c batch previous accumulated estimate round cap h in
    let added =
      transition_loop-Added share (aggregate_limit cap) previous batch.failed_buckets 0 [] out 0
        valid (All-zero batch.failed_buckets) (among-Ascending among chain) (omega arith) run in
    let next : AreRequests out =
      rw added.appended
        (added.valid, omega (arith, added.within, aggregate_limit_bound cap), added.chain) in
    let sum : total_capacity out ≤ pos_part cap =
      rw added.appended (omega (arith, added.within, aggregate_limit-le cap)) in
    rw is ((validate_bucket_requests_iff out (AreRequests-AreWords out next.0)).1 next, sum, early)
