-- ===== src/Reconcile/Client/Inside.antt =====
-- reconcile/client.go: a grown bucket and the halves of a split one, as intervals of indices.
use gomatrixcrypto.Base.{
  ℕ, suc, ◌+◌, ◌-◌, ◌*◌, ◌/◌, ◌%◌, ◌^◌, ◌≤◌, ◌<◌, ◌≡◌, refl, ap, ◌&&◌, List, [], ◌∷◌, some, All,
  arith, leb, ◌==◌, Option-cases, Bool-cases, inl, inr,
}
use mathlib.Core.Path.{subst}
use native.Mathlib.Nat.{pow-suc, pow-le-pow_right}
use gomatrixcrypto.Base.Int.{ℤ, pos, suc_int, to_u64}
use gomatrixcrypto.Reconcile.Triage.{BucketRequest, FailedBucket}
use gomatrixcrypto.Reconcile.Triage.Requests.{
  width, low, high, IsRequest, IsAntichain, total_capacity,
}
use gomatrixcrypto.Reconcile.Triage.Batch.{failed_of}
use gomatrixcrypto.Reconcile.Client.{
  provision_bucket_capacity, provision_base, clamp_capacity, max_u64_of,
}
use gomatrixcrypto.Reconcile.Client.Transition.{find_previous, grow_bucket, split_bucket}

provision_base_bound : (target : ℕ) {value : ℕ} → provision_base target ≡ some value → 4 ≤ value
unfolding provision_base
provision_base_bound target h = ground arith

-- A provisioned bucket has a capacity from 4 to 32.
provision_bounds :
    (target : ℕ) (floor : ℤ) {capacity : ℕ}
    → provision_bucket_capacity target floor ≡ some capacity
    → (4 ≤ capacity) × (capacity ≤ 32)
unfolding provision_bucket_capacity clamp_capacity
provision_bounds target floor h = elim (Option-cases (provision_base target)) [
  | inl e ↦ absurd (ground arith)
  | inr (value, e) ↦ let four = provision_base_bound target e in (ground arith, ground arith)
]

pub find_previous_lem :
    (failed : FailedBucket) (rs : List BucketRequest) {r : BucketRequest}
    → All IsRequest rs
    → find_previous failed rs ≡ some r
    → IsRequest r × (failed ≡ failed_of r)
unfolding find_previous
find_previous_lem failed [] v h = absurd (ground arith)
find_previous_lem failed (q ∷ rs) {r} v h =
    elim (Bool-cases (q.prefix == failed.prefix && q.depth == failed.depth)) [
      | inl e ↦
          let same : q ≡ r = ground arith in (subst IsRequest same v.0, rw (← same) (ground arith))
      | inr e ↦ find_previous_lem failed rs v.1 (ground arith)
    ]

-- The values that a failed bucket covers, through a request of any capacity.
abbrev pub request_of : FailedBucket → BucketRequest
request_of f = record { depth = f.depth; prefix = f.prefix; capacity = pos 1 }

-- Requests that stay inside one bucket.
pub record Inside (a b : ℕ) (rs : List BucketRequest) (capacity : ℕ) : Type 0 where
  pub requests : All IsRequest rs
  pub total : total_capacity rs ≡ capacity
  pub above : All (λ q. a ≤ low q) rs
  pub below : All (λ q. high q ≤ b) rs
  pub chain : IsAntichain rs

pub grow-Inside :
    (share : ℕ) (r : BucketRequest) {more : List BucketRequest} {capacity : ℕ}
    → IsRequest r
    → grow_bucket share (failed_of r) r ≡ some (more, capacity)
    → Inside (low r) (high r) more capacity
unfolding grow_bucket
grow-Inside share r {more} {capacity} v h =
    let floor = suc_int r.capacity in
    let target = max_u64_of share (to_u64 floor) in
    elim (Option-cases (provision_bucket_capacity target floor)) [
      | inl e ↦ absurd (ground arith)
      | inr (c, e) ↦
          let (lo, hi) = provision_bounds target floor e in
          let q : BucketRequest = record { depth = r.depth; prefix = r.prefix; capacity = pos c } in
          let is : (q ∷ [] ≡ more) × (c ≡ capacity) = ground arith in
          rw (← is.0, ← is.1)
            (record {
              requests = (
                record {
                  shallow = v.shallow;
                  fits = v.fits;
                  some_capacity = omega arith;
                  small_capacity = hi;
                },
                tt,
              );
              total = omega arith;
              above = (unfold low width in omega arith, tt);
              below = (unfold high low width in omega arith, tt);
              chain = (tt, tt);
            })
    ]

-- A half of a bucket.
abbrev half : BucketRequest → ℕ → ℕ → BucketRequest
half r c bit = record {
  depth = r.depth + 1;
  prefix = r.prefix * 2 % 2 ^ 32 + bit;
  capacity = pos c;
}

-- The halves of a bucket that is not of full depth.
module _ (r : BucketRequest) (v : IsRequest r) (deep : r.depth < 32) (c : ℕ) (lo : 4 ≤ c)
    (hi : c ≤ 32) where
  prefix_bound : r.prefix * 2 + 2 ≤ 2 ^ (r.depth + 1)
  prefix_bound =
      let e : r.depth + 1 ≡ suc r.depth = omega arith in
      rw e (omega (arith, pow-suc 2 r.depth, v.fits))

  no_wrap : r.prefix * 2 % 2 ^ 32 ≡ r.prefix * 2
  no_wrap =
      let le : 2 ^ (r.depth + 1) ≤ 2 ^ 32 = pow-le-pow_right (omega arith) {j = 32} (omega arith) in
      omega (arith, prefix_bound)

  width-half : width r ≡ width (half r c 0) * 2
  unfolding width
  width-half = let e : 32 - r.depth ≡ suc (32 - (r.depth + 1)) = omega arith in rw e (pow-suc 2 _)

  half-IsRequest : (bit : ℕ) → bit ≤ 1 → IsRequest (half r c bit)
  half-IsRequest bit h = record {
    shallow = omega arith;
    fits = omega (arith, no_wrap, prefix_bound);
    some_capacity = omega arith;
    small_capacity = hi;
  }

  half_bounds :
      (low r ≤ low (half r c 0))
      × (high (half r c 0) ≤ low (half r c 1))
      × (high (half r c 1) ≤ high r)
  unfolding low high
  half_bounds =
      let w : ℕ = width (half r c 0) in
      let even : width (half r c 1) ≡ w = unfold width in refl in
      let doubled : r.prefix * 2 % 2 ^ 32 * w ≡ r.prefix * 2 * w = ap (λ (t : ℕ). t * w) no_wrap in
      let whole : r.prefix * width r ≡ r.prefix * (w * 2) =
        ap (λ (t : ℕ). r.prefix * t) width-half in
      let second : (r.prefix * 2 % 2 ^ 32 + 1) * width (half r c 1)
          ≡ (r.prefix * 2 % 2 ^ 32 + 1) * w =
        ap (λ (t : ℕ). (r.prefix * 2 % 2 ^ 32 + 1) * t) even in
      (omega arith, omega (arith, width-half), omega (arith, width-half))

pub low-le-high : (r : BucketRequest) → low r ≤ high r
unfolding high
low-le-high r = omega arith

pub split-Inside :
    (share : ℕ) (r : BucketRequest) {more : List BucketRequest} {capacity : ℕ}
    → IsRequest r
    → split_bucket share r ≡ some (more, capacity)
    → Inside (low r) (high r) more capacity
unfolding split_bucket
split-Inside share r {more} {capacity} v h = elim (Bool-cases (leb 32 r.depth)) [
  | inl e ↦ absurd (ground arith)
  | inr e ↦
      let target = max_u64_of (share / 2) 4 in
      let deep : r.depth < 32 = ground arith in
      elim (Option-cases (provision_bucket_capacity target (pos 4))) [
        | inl p ↦ absurd (ground arith)
        | inr (c, p) ↦
            let (lo, hi) = provision_bounds target (pos 4) p in
            let (b0, b1, b2) = half_bounds r v deep c lo hi in
            let is : (half r c 0 ∷ half r c 1 ∷ [] ≡ more) × (c * 2 ≡ capacity) = ground arith in
            rw (← is.0, ← is.1)
              (record {
                requests = (
                  half-IsRequest r v deep c lo hi 0 (omega arith),
                  (half-IsRequest r v deep c lo hi 1 (omega arith), tt),
                );
                total = omega arith;
                above = (b0, (omega (arith, low-le-high (half r c 0)), tt));
                below = (omega (arith, low-le-high (half r c 1)), (b2, tt));
                chain = ((b1, tt), (tt, tt));
              })
      ]
]
