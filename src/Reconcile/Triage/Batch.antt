-- ===== src/Reconcile/Triage/Batch.antt =====
-- reconcile/triage.go: the requests and what DecodeBucketSketches returns for them.
use gomatrixcrypto.Base.{
  ℕ, ◌+◌, ◌-◌, ◌≡◌, sym, ap, ◌∙◌, List, [], ◌∷◌, ◌++◌, Option, none, some, arith, length,
  length-append, ok, Result-cases, Option-cases, inl, inr, take, drop,
}
use mathlib.Core.List.{append_assoc, append-nil}
use mathlib.Core.Path.{subst}
use gomatrixcrypto.Reconcile.PinSketch.Quadratic.{max_factor_work}
use gomatrixcrypto.Base.Int.{ℤ, pos, pos_part}
use gomatrixcrypto.Reconcile.Sketch.{new_sketch_from_encoded_bytes}
use gomatrixcrypto.Reconcile.Decode.{decode_and_verify_sketch}
use gomatrixcrypto.Reconcile.Triage.{
  BucketRequest, FailedBucket, BucketDecodeBatch, decode_bucket, decode_loop,
  decode_bucket_sketches, bucket_end, add_failure, add_success, validate_bucket_requests,
}

abbrev pub failed_of : BucketRequest → FailedBucket
failed_of r = record { depth = r.depth; prefix = r.prefix }

-- The failed buckets are some of the requests, in their order.
pub data FailedAmong : List FailedBucket → List BucketRequest → Type 0 where
  nil : FailedAmong [] []
  skip :
      {fs : List FailedBucket} {rs : List BucketRequest} (r : BucketRequest)
      → FailedAmong fs rs
      → FailedAmong fs (r ∷ rs)
  keep :
      {fs : List FailedBucket} {rs : List BucketRequest} (r : BucketRequest)
      → FailedAmong fs rs
      → FailedAmong (failed_of r ∷ fs) (r ∷ rs)

-- One bucket adds one entry: a success or a failure.
pub data Entered (request : BucketRequest) (batch after : BucketDecodeBatch) : Type 0 where
  succeeded :
      (roots : List ℕ) → after ≡ add_success request roots batch → Entered request batch after
  failed : after ≡ add_failure request batch → Entered request batch after

decode_bucket-Entered :
    (request : BucketRequest) (n : ℕ) (bytes : List ℕ) (work : Option ℤ)
    (batch after : BucketDecodeBatch) (left : Option ℤ)
    → decode_bucket request n bytes work batch ≡ ok (after, left)
    → Entered request batch after
unfolding decode_bucket
decode_bucket-Entered request n bytes work batch after left h =
    elim (Result-cases (new_sketch_from_encoded_bytes n bytes)) [
      | inr (e, p) ↦ absurd (ground arith)
      | inl (sketch, p) ↦ elim (Result-cases ((decode_and_verify_sketch sketch n work).0)) [
        | inl (roots, q) ↦ succeeded roots (ground arith)
        | inr (e, q) ↦ failed (ground arith)
      ]
    ]

-- What a batch holds after the requests, beside what it held before.
record Decoded (rs : List BucketRequest) (batch out : BucketDecodeBatch) : Type 0 where
  failures : List FailedBucket
  appended : out.failed_buckets ≡ batch.failed_buckets ++ failures
  among : FailedAmong failures rs
  counted :
      length out.successful_buckets + length out.failed_buckets
      ≡ length batch.successful_buckets + length batch.failed_buckets + length rs

Decoded-cons :
    {r : BucketRequest} {rs : List BucketRequest} {batch after out : BucketDecodeBatch}
    → Entered r batch after
    → Decoded rs after out
    → Decoded (r ∷ rs) batch out
unfolding add_success add_failure
Decoded-cons {r} {rs} {batch} {after} {out} (succeeded roots e) d =
    let f : after.failed_buckets ≡ batch.failed_buckets =
      ap (λ (b : BucketDecodeBatch). b.failed_buckets) e in
    let s : length after.successful_buckets ≡ length batch.successful_buckets + 1 =
      ap (λ (b : BucketDecodeBatch). length b.successful_buckets) e
      ∙ length-append batch.successful_buckets _
      ∙ omega arith in
    record {
      failures = d.failures;
      appended = d.appended ∙ ap (λ (l : List FailedBucket). l ++ d.failures) f;
      among = skip r d.among;
      counted = omega (arith, d.counted, s, ap (λ (l : List FailedBucket). length l) f);
    }
Decoded-cons {r} {rs} {batch} {after} {out} (failed e) d =
    let f : after.failed_buckets ≡ batch.failed_buckets ++ (failed_of r ∷ []) =
      ap (λ (b : BucketDecodeBatch). b.failed_buckets) e in
    let n : length after.failed_buckets ≡ length batch.failed_buckets + 1 =
      ap (λ (l : List FailedBucket). length l) f
      ∙ length-append batch.failed_buckets _
      ∙ omega arith in
    let s : length after.successful_buckets ≡ length batch.successful_buckets =
      ap (λ (b : BucketDecodeBatch). length b.successful_buckets) e in
    record {
      failures = failed_of r ∷ d.failures;
      appended =
          d.appended
          ∙ ap (λ (l : List FailedBucket). l ++ d.failures) f
          ∙ append_assoc batch.failed_buckets (failed_of r ∷ []) d.failures;
      among = keep r d.among;
      counted = omega (arith, d.counted, s, n);
    }

decode_loop-Decoded :
    (encoded : List ℕ) (rs : List BucketRequest) (offset : ℕ) (work : Option ℤ)
    (batch out : BucketDecodeBatch)
    → decode_loop encoded rs offset work batch ≡ ok out
    → Decoded rs batch out
unfolding decode_loop
decode_loop-Decoded encoded [] offset work batch out h =
    let e : batch ≡ out = ground arith in
    rw (← e) (record {
      failures = [];
      appended = sym (append-nil batch.failed_buckets);
      among = nil;
      counted = omega arith;
    })
decode_loop-Decoded encoded (r ∷ rs) offset work batch out h =
    elim (Option-cases (bucket_end (pos_part r.capacity) offset encoded)) [
      | inl p ↦ absurd (ground arith)
      | inr (stop, p) ↦
          let bytes : List ℕ = take (stop - offset) (drop offset encoded) in
          elim (Result-cases (decode_bucket r (pos_part r.capacity) bytes work batch)) [
            | inr (e, q) ↦ absurd (ground arith)
            | inl (entry, q) ↦
                Decoded-cons
                  (decode_bucket-Entered r (pos_part r.capacity) bytes work batch entry.0 entry.1 q)
                  (decode_loop-Decoded encoded rs stop entry.1 entry.0 out (ground arith))
          ]
    ]

-- A decoding that returns a batch had requests that are valid, and accounts for every one of them:
-- the failed buckets are some of the requests in their order, and with the decoded ones they are as
-- many as the requests.
pub decode_bucket_sketches_accounts :
    (encoded : List ℕ) (rs : List BucketRequest) (out : BucketDecodeBatch)
    → decode_bucket_sketches encoded rs ≡ ok out
    → (validate_bucket_requests rs ≡ none)
      × FailedAmong out.failed_buckets rs
      × (length out.successful_buckets + length out.failed_buckets ≡ length rs)
unfolding decode_bucket_sketches
decode_bucket_sketches_accounts encoded rs out h =
    elim (Option-cases (validate_bucket_requests rs)) [
      | inr (e, p) ↦ absurd (ground arith)
      | inl p ↦
          let empty : BucketDecodeBatch = record { successful_buckets = []; failed_buckets = [] } in
          let d =
            decode_loop-Decoded encoded rs 0 (some (pos max_factor_work)) empty out
              (ground arith) in
          (
            p,
            subst (λ (fs : List FailedBucket). FailedAmong fs rs) (sym d.appended) d.among,
            omega (arith, d.counted),
          )
    ]
