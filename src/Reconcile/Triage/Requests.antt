-- ===== src/Reconcile/Triage/Requests.antt =====
-- reconcile/triage.go: ValidateBucketRequests and the lists of requests within the limits.
use gomatrixcrypto.Base.{
  ℕ, zero, suc, ◌+◌, ◌-◌, ◌*◌, ◌^◌, ◌≤◌, ◌<◌, ◌≡◌, ◌↔◌, refl, ap, ◌∙◌, List, [], ◌∷◌, none, All,
  arith,
}
use native.Mathlib.Nat.{pow-suc, mul-le-mul_right}
use mathlib.Core.Path.{subst}
use native.Mathlib.Decide.{dec_lt}
use gomatrixcrypto.Base.Int.{pos_part}
use gomatrixcrypto.Reconcile.Triage.{
  BucketRequest, is_bad_capacity, start, end, validate_loop, validate_bucket_requests,
  max_bucketed_sketch_capacity, max_bucket_sketch_capacity,
}

pub pow-add : (a b : ℕ) → 2 ^ a * 2 ^ b ≡ 2 ^ (a + b)
pow-add zero b = let e : 0 + b ≡ b = omega arith in rw e (omega arith)
pow-add (suc a) b =
    let e : suc a + b ≡ suc (a + b) = omega arith in
    rw e (omega (arith, pow-suc 2 (a + b), pow-add a b, ap (λ (t : ℕ). t * 2 ^ b) (pow-suc 2 a)))

-- The width of a bucket, and the values that it covers: from `low` up to `high`, without it.
unfoldable pub width : BucketRequest → ℕ
width r = 2 ^ (32 - r.depth)

unfoldable pub low : BucketRequest → ℕ
low r = r.prefix * width r

unfoldable pub high : BucketRequest → ℕ
high r = low r + width r

-- A request within the limits: a prefix of as many bits as its depth, and a capacity from 1 to 32.
pub record IsRequest (r : BucketRequest) : Type 0 where
  pub shallow : r.depth ≤ 32
  pub fits : r.prefix < 2 ^ r.depth
  pub some_capacity : 0 < pos_part r.capacity
  pub small_capacity : pos_part r.capacity ≤ max_bucket_sketch_capacity

-- The capacities together.
abbrev pub total_capacity : List BucketRequest → ℕ
total_capacity [] = 0
total_capacity (r ∷ rs) = pos_part r.capacity + total_capacity rs

-- Each bucket ends before every later one starts.
abbrev pub IsAntichain : List BucketRequest → Type 0
IsAntichain [] = Unit
IsAntichain (r ∷ rs) = All (λ q. high r ≤ low q) rs × IsAntichain rs

abbrev pub AreRequests : List BucketRequest → Type 0
AreRequests rs =
    All IsRequest rs × (total_capacity rs ≤ max_bucketed_sketch_capacity) × IsAntichain rs

-- A uint32 prefix.
abbrev pub AreWords : List BucketRequest → Type 0
AreWords rs = All (λ (r : BucketRequest). r.prefix < 2 ^ 32) rs

width_lem : (r : BucketRequest) → IsRequest r → 2 ^ r.depth * width r ≡ 2 ^ 32
unfolding width
width_lem r v =
    let e : r.depth + (32 - r.depth) ≡ 32 = omega (arith, v.shallow) in
    pow-add r.depth (32 - r.depth) ∙ ap (λ (n : ℕ). 2 ^ n) e

-- The buckets lie below 2 ^ 32, so the shifts do not wrap.
pub high-le : (r : BucketRequest) → IsRequest r → high r ≤ 2 ^ 32
unfolding high low
high-le r v = omega (arith, mul-le-mul_right (width r) v.fits, width_lem r v)

start_lem : (r : BucketRequest) → IsRequest r → (start r ≡ low r) × (end r ≡ high r)
unfolding start end
start_lem r v = let h : high r ≤ 2 ^ 32 = high-le r v in unfold high low width in omega arith

-- The tests on one request, and the rest of the loop.
module _ (total previous : ℕ) (r : BucketRequest) (rs : List BucketRequest)
    (word : r.prefix < 2 ^ 32) where
  head_of :
      validate_loop total previous (r ∷ rs) ≡ none
      → IsRequest r
        × (total + pos_part r.capacity ≤ max_bucketed_sketch_capacity)
        × (previous ≤ start r)
        × (validate_loop (total + pos_part r.capacity) (end r) rs ≡ none)
  unfolding validate_loop is_bad_capacity
  head_of h =
      let shallow : r.depth ≤ 32 = ground arith in
      let fits : r.prefix < 2 ^ r.depth = elim (dec_lt r.depth 32) [
        | yes p ↦ ground arith
        | no p ↦
            let full : 32 ≡ r.depth = omega arith in subst (λ (d : ℕ). r.prefix < 2 ^ d) full word
      ] in
      (
        record {
          shallow = shallow;
          fits = fits;
          some_capacity = ground arith;
          small_capacity = ground arith;
        },
        ground arith,
        ground arith,
        ground arith,
      )

  of_head :
      IsRequest r
      → total + pos_part r.capacity ≤ max_bucketed_sketch_capacity
      → previous ≤ start r
      → validate_loop (total + pos_part r.capacity) (end r) rs ≡ none
      → validate_loop total previous (r ∷ rs) ≡ none
  unfolding validate_loop is_bad_capacity
  of_head v t p h = ground arith

All-le_trans :
    (m n : ℕ) (rs : List BucketRequest) → m ≤ n → All (λ q. n ≤ low q) rs → All (λ q. m ≤ low q) rs
All-le_trans m n [] h g = tt
All-le_trans m n (r ∷ rs) h g = (omega arith, All-le_trans m n rs h g.1)

loop→AreRequests :
    (total previous : ℕ) (rs : List BucketRequest)
    → AreWords rs
    → total ≤ max_bucketed_sketch_capacity
    → validate_loop total previous rs ≡ none
    → All IsRequest rs
      × (total + total_capacity rs ≤ max_bucketed_sketch_capacity)
      × All (λ q. previous ≤ low q) rs
      × IsAntichain rs
loop→AreRequests total previous [] w t h = (tt, omega arith, tt, tt)
loop→AreRequests total previous (r ∷ rs) w t h =
    let (v, fits, after, rest) = head_of total previous r rs w.0 h in
    let (all, sum, beyond, chain) =
      loop→AreRequests (total + pos_part r.capacity) (end r) rs w.1 fits rest in
    let s = start_lem r v in
    let beyond' : All (λ q. high r ≤ low q) rs = rw s.1 at beyond in
    let after' : previous ≤ low r = omega (arith, s.0) in
    (
      (v, all),
      omega arith,
      (after', All-le_trans previous (high r) rs (unfold high in omega arith) beyond'),
      (beyond', chain),
    )

AreRequests→loop :
    (total previous : ℕ) (rs : List BucketRequest)
    → AreWords rs
    → All IsRequest rs
    → total + total_capacity rs ≤ max_bucketed_sketch_capacity
    → All (λ q. previous ≤ low q) rs
    → IsAntichain rs
    → validate_loop total previous rs ≡ none
AreRequests→loop total previous [] w all sum beyond chain = unfold validate_loop in refl
AreRequests→loop total previous (r ∷ rs) w all sum beyond chain =
    let s = start_lem r all.0 in
    let beyond' : All (λ q. end r ≤ low q) rs = rw s.1 chain.0 in
    of_head total previous r rs w.0 all.0 (omega arith) (omega (arith, s.0, beyond.0)) (
      AreRequests→loop (total + pos_part r.capacity) (end r) rs w.1 all.1 (omega arith) beyond'
        chain.1)

zero-le_low : (rs : List BucketRequest) → All (λ q. 0 ≤ low q) rs
zero-le_low [] = tt
zero-le_low (r ∷ rs) = (omega arith, zero-le_low rs)

-- Requests with uint32 prefixes are accepted exactly when each is within the limits, their capacities add up to 4096 at
-- most, and each bucket ends before every later one starts.
pub validate_bucket_requests_iff :
    (rs : List BucketRequest) → AreWords rs → (validate_bucket_requests rs ≡ none) ↔ AreRequests rs
unfolding validate_bucket_requests
validate_bucket_requests_iff rs w = (
  λ h.
      let (all, sum, beyond, chain) = loop→AreRequests 0 0 rs w (omega arith) h in
      (all, omega arith, chain),
  λ v. AreRequests→loop 0 0 rs w v.0 (omega arith) (zero-le_low rs) v.2,
)
