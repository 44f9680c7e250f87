-- ===== src/Reconcile/Client/Select.antt =====
-- reconcile/client.go: the requests that SelectAction asks for.
use gomatrixcrypto.Base.{
  ℕ, zero, suc, ◌+◌, ◌-◌, ◌*◌, ◌^◌, ◌≤◌, ◌<◌, ◌≡◌, refl, sym, ap, ◌∙◌, List, [], ◌∷◌, none, All,
  arith, ltb, if◌then◌else◌,
}
use mathlib.Core.Path.{subst, subst₂}
use native.Mathlib.Nat.{pow-suc, pow-le-pow_right, mul-le-mul}
use gomatrixcrypto.Base.Int.{ℤ, pos}
use gomatrixcrypto.Reconcile.Resident.{ResidentKernel}
use gomatrixcrypto.Reconcile.Triage.{
  BucketRequest, estimate_delta, validate_bucket_requests, max_bucket_sketch_capacity,
}
use gomatrixcrypto.Reconcile.Triage.Requests.{
  width, low, high, IsRequest, AreRequests, IsAntichain, AreWords, total_capacity, pow-add,
  validate_bucket_requests_iff,
}
use gomatrixcrypto.Reconcile.Client.{
  ReconciliationClient, RemoteDigest, bucket_loop, enumerate, requests_for, ceil_div, select_action,
  bucket_sketches, target_capacity, provision_capacity, refine_estimate, abs_diff_u64,
}

-- The buckets of a list lie end to end, from a up to b.
abbrev pub Tiles : ℕ → ℕ → List BucketRequest → Type 0
Tiles a b [] = a ≡ b
Tiles a b (r ∷ rs) = (low r ≡ a) × Tiles (high r) b rs

low-le-high : (r : BucketRequest) → low r ≤ high r
unfolding high
low-le-high r = omega arith

-- Buckets that lie end to end start behind what is before them, and form an antichain.
Tiles-IsAntichain :
    (a b m : ℕ) (rs : List BucketRequest)
    → m ≤ a
    → Tiles a b rs
    → All (λ q. m ≤ low q) rs × IsAntichain rs
Tiles-IsAntichain a b m [] h t = (tt, tt)
Tiles-IsAntichain a b m (r ∷ rs) h t =
    let (beyond, chain) = Tiles-IsAntichain (high r) b (high r) rs (omega arith) t.1 in
    let before : m ≤ high r = omega (arith, low-le-high r, t.0) in
    ((omega (arith, t.0), (Tiles-IsAntichain (high r) b m rs before t.1).0), (beyond, chain))

-- The loop doubles the buckets with each level.
bucket_loop_lem :
    (fuel depth buckets target : ℕ)
    → depth + fuel ≡ 6
    → buckets ≡ 2 ^ depth
    → let r = bucket_loop fuel depth buckets target in (r.0 ≤ 6) × (r.1 ≡ 2 ^ r.0)
unfolding bucket_loop
bucket_loop_lem zero depth buckets target e p = (omega arith, p)
bucket_loop_lem (suc fuel) depth buckets target e p =
    let q : buckets * 2 ≡ 2 ^ (depth + 1) =
      let d : depth + 1 ≡ suc depth = omega arith in rw d (omega (arith, pow-suc 2 depth)) in
    ground (arith, bucket_loop_lem fuel (depth + 1) (buckets * 2) target (omega arith) q)

module _ (depth capacity : ℕ) (shallow : depth ≤ 6) (lo : 0 < capacity) (hi : capacity ≤ 32) where
  abbrev bucket : ℕ → BucketRequest
  bucket p = record { depth = depth; prefix = p; capacity = pos capacity }

  bucket-IsRequest : (p : ℕ) → p < 2 ^ depth → IsRequest (bucket p)
  bucket-IsRequest p h = record {
    shallow = omega arith;
    fits = h;
    some_capacity = lo;
    small_capacity = hi;
  }

  enumerate-All :
      (count p : ℕ) → p + count ≡ 2 ^ depth → All IsRequest (enumerate count p depth capacity)
  unfolding enumerate
  enumerate-All zero p e = tt
  enumerate-All (suc count) p e =
      (bucket-IsRequest p (omega arith), enumerate-All count (p + 1) (omega arith))

  enumerate-total :
      (count p : ℕ) → total_capacity (enumerate count p depth capacity) ≡ count * capacity
  unfolding enumerate
  enumerate-total zero p = omega arith
  enumerate-total (suc count) p = omega (arith, enumerate-total count (p + 1))

  abbrev step : ℕ
  step = 2 ^ (32 - depth)

  enumerate-Tiles :
      (count p : ℕ)
      → p + count ≡ 2 ^ depth
      → Tiles (p * step) (2 ^ depth * step) (enumerate count p depth capacity)
  unfolding enumerate
  enumerate-Tiles zero p e = let e' : p ≡ 2 ^ depth = omega arith in ap (λ (n : ℕ). n * step) e'
  enumerate-Tiles (suc count) p e =
      let n : high (bucket p) ≡ (p + 1) * step = unfold high low width in omega arith in
      (unfold low width in refl, rw n (enumerate-Tiles count (p + 1) (omega arith)))

clamped : ℕ → ℕ → ℕ
clamped target buckets =
    let per_bucket = ceil_div target buckets in
    let raised = if ltb per_bucket 4 then 4 else per_bucket in
    if ltb max_bucket_sketch_capacity raised then max_bucket_sketch_capacity else raised

clamped_bounds : (target buckets : ℕ) → (4 ≤ clamped target buckets) × (clamped target buckets ≤ 32)
unfolding clamped
clamped_bounds target buckets = ground arith

requests_for_lem :
    (target : ℕ)
    → let r = bucket_loop 6 0 1 target in
      requests_for target ≡ enumerate r.1 0 r.0 (clamped target r.1)
unfolding requests_for clamped
requests_for_lem target = refl

-- Whatever capacity is wanted, the requests are within the limits, and their buckets tile the space
-- of 32-bit prefixes from 0 to 2 ^ 32.
requests_for-AreRequests :
    (target : ℕ) → AreRequests (requests_for target) × Tiles 0 (2 ^ 32) (requests_for target)
requests_for-AreRequests target =
    let r = bucket_loop 6 0 1 target in
    let (shallow, count) = bucket_loop_lem 6 0 1 target (omega arith) refl in
    let capacity : ℕ = clamped target r.1 in
    let (lo, hi) = clamped_bounds target r.1 in
    let all : All IsRequest (enumerate r.1 0 r.0 capacity) =
      enumerate-All r.0 capacity shallow (omega arith) hi r.1 0 (omega arith) in
    let split : 2 ^ r.0 * 2 ^ (32 - r.0) ≡ 2 ^ 32 =
      pow-add r.0 (32 - r.0)
      ∙ ap (λ (n : ℕ). 2 ^ n) (let e : r.0 + (32 - r.0) ≡ 32 = omega arith in e) in
    let tiles : Tiles 0 (2 ^ 32) (enumerate r.1 0 r.0 capacity) =
      let from : 0 * 2 ^ (32 - r.0) ≡ 0 = omega arith in
      subst₂ (λ (a b : ℕ). Tiles a b (enumerate r.1 0 r.0 capacity)) from split
        (enumerate-Tiles r.0 capacity shallow (omega arith) hi r.1 0 (omega arith)) in
    let few : 2 ^ r.0 ≤ 2 ^ 6 = pow-le-pow_right (omega arith) shallow in
    let total : total_capacity (enumerate r.1 0 r.0 capacity) ≤ 4096 = omega (
      arith,
      enumerate-total r.0 capacity shallow (omega arith) hi r.1 0,
      mul-le-mul few hi,
      ap (λ (n : ℕ). n * capacity) count,
    ) in
    subst (λ (rs : List BucketRequest). AreRequests rs × Tiles 0 (2 ^ 32) rs)
      (sym (requests_for_lem target))
      ((all, total, (Tiles-IsAntichain 0 (2 ^ 32) 0 _ (omega arith) tiles).1), tiles)

pub AreRequests-AreWords : (rs : List BucketRequest) → All IsRequest rs → AreWords rs
AreRequests-AreWords [] h = tt
AreRequests-AreWords (r ∷ rs) h =
    let fits : r.prefix < 2 ^ r.depth = (h.0).fits in
    let deep : 2 ^ r.depth ≤ 2 ^ 32 = pow-le-pow_right (omega arith) (h.0).shallow in
    (omega arith, AreRequests-AreWords rs h.1)

select_action-requests_for :
    (c : ReconciliationClient) (local : ResidentKernel) (remote : RemoteDigest) (headroom : ℤ)
    → (select_action c local remote headroom).action_type ≡ bucket_sketches
    → (target : ℕ) × ((select_action c local remote headroom).requests ≡ requests_for target)
unfolding select_action
select_action-requests_for c local remote headroom h = (
  target_capacity (
      provision_capacity
        (refine_estimate (abs_diff_u64 local.accumulator.count remote.known_event_count)
          (estimate_delta local.strata remote.strata))
        headroom),
  ground arith,
)

-- When the first action asks for sketches, the peer's validation accepts the requests, and their
-- buckets cover the whole space without a gap or an overlap.
pub select_action-validate :
    (c : ReconciliationClient) (local : ResidentKernel) (remote : RemoteDigest) (headroom : ℤ)
    → (select_action c local remote headroom).action_type ≡ bucket_sketches
    → (validate_bucket_requests (select_action c local remote headroom).requests ≡ none)
      × Tiles 0 (2 ^ 32) (select_action c local remote headroom).requests
select_action-validate c local remote headroom h =
    let (target, e) = select_action-requests_for c local remote headroom h in
    let (valid, tiles) = requests_for-AreRequests target in
    rw e ((validate_bucket_requests_iff _ (AreRequests-AreWords _ valid.0)).1 valid, tiles)
