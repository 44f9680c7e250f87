-- ===== src/Reconcile/Client/Failed.antt =====
-- reconcile/client.go: the loop of TransitionBucketBatch over the failed buckets.
use gomatrixcrypto.Base.{
  ℕ, ◌+◌, ◌≤◌, ◌≡◌, refl, sym, ap, ◌∙◌, List, [], ◌∷◌, ◌++◌, some, All, All-append, arith,
  Option-cases, Bool-cases, inl, inr,
}
use mathlib.Core.List.{append_assoc, append-nil}
use gomatrixcrypto.Base.Int.{ℤ, pos, pos_part, ltb_int}
use gomatrixcrypto.Reconcile.Triage.{BucketRequest, FailedBucket, max_bucket_sketch_capacity}
use gomatrixcrypto.Reconcile.Triage.Requests.{
  width, low, high, IsRequest, IsAntichain, total_capacity,
}
use gomatrixcrypto.Reconcile.Triage.Batch.{FailedAmong, nil, skip, keep}
use gomatrixcrypto.Reconcile.Client.Transition.{
  find_previous, grow_bucket, replace_bucket, transition_loop,
}
use gomatrixcrypto.Reconcile.Client.Inside.{
  find_previous_lem, request_of, Inside, grow-Inside, low-le-high, split-Inside,
}

replace-Inside :
    (share : ℕ) (f : FailedBucket) (previous : List BucketRequest) {more : List BucketRequest}
    {capacity : ℕ}
    → All IsRequest previous
    → replace_bucket share f previous ≡ some (more, capacity)
    → Inside (low (request_of f)) (high (request_of f)) more capacity
unfolding replace_bucket
replace-Inside share f previous {more} {capacity} v h =
    elim (Option-cases (find_previous f previous)) [
      | inl e ↦ absurd (ground arith)
      | inr (r, e) ↦
          let (is, same) = find_previous_lem f previous v e in
          let at : low (request_of f) ≡ low r =
            ap (λ (g : FailedBucket). low (request_of g)) same ∙ (unfold low width in refl) in
          let to : high (request_of f) ≡ high r =
            ap (λ (g : FailedBucket). high (request_of g)) same ∙ (unfold high low width in refl) in
          rw (at, to)
            (elim (Bool-cases (ltb_int r.capacity (pos max_bucket_sketch_capacity))) [
              | inl t ↦ grow-Inside share r is (
                  let q : grow_bucket share f r ≡ some (more, capacity) = ground arith in
                  rw same at q)
              | inr t ↦ split-Inside share r is (ground arith)
            ])
    ]

-- Failed buckets in ascending order, none inside another.
abbrev Ascending : List FailedBucket → Type 0
Ascending [] = Unit
Ascending (f ∷ fs) = All (λ g. high (request_of f) ≤ low (request_of g)) fs × Ascending fs

All-among :
    (m : ℕ) {fs : List FailedBucket} {rs : List BucketRequest}
    → FailedAmong fs rs
    → All (λ q. m ≤ low q) rs
    → All (λ g. m ≤ low (request_of g)) fs
All-among m nil h = tt
All-among m (skip r a) h = All-among m a h.1
All-among m (keep r a) h = (unfold low width in h.0, All-among m a h.1)

pub among-Ascending :
    {fs : List FailedBucket} {rs : List BucketRequest}
    → FailedAmong fs rs
    → IsAntichain rs
    → Ascending fs
among-Ascending nil h = tt
among-Ascending (skip r a) h = among-Ascending a h.1
among-Ascending (keep r a) h = (All-among _ a (unfold high low width in h.0), among-Ascending a h.1)

All-low_trans :
    (m n : ℕ) (rs : List BucketRequest) → m ≤ n → All (λ q. n ≤ low q) rs → All (λ q. m ≤ low q) rs
All-low_trans m n [] h g = tt
All-low_trans m n (r ∷ rs) h g = (omega arith, All-low_trans m n rs h g.1)

-- An antichain before b and one from b on make one.
IsAntichain-append :
    (b : ℕ) (xs ys : List BucketRequest)
    → IsAntichain xs
    → All (λ q. high q ≤ b) xs
    → IsAntichain ys
    → All (λ q. b ≤ low q) ys
    → IsAntichain (xs ++ ys)
IsAntichain-append b [] ys cx hx cy hy = cy
IsAntichain-append b (x ∷ xs) ys cx hx cy hy = (
  All-append _ xs ys cx.0 (All-low_trans (high x) b ys hx.0 hy),
  IsAntichain-append b xs ys cx.1 hx.1 cy hy,
)

total_capacity-append :
    (xs ys : List BucketRequest) → total_capacity (xs ++ ys) ≡ total_capacity xs + total_capacity ys
total_capacity-append [] ys = omega arith
total_capacity-append (x ∷ xs) ys = omega (arith, total_capacity-append xs ys)

-- The requests that the loop adds, all from m on.
pub record Added (m total limit : ℕ) (requests out : List BucketRequest) : Type 0 where
  pub more : List BucketRequest
  pub appended : out ≡ requests ++ more
  pub valid : All IsRequest more
  pub within : total + total_capacity more ≤ limit
  pub above : All (λ q. m ≤ low q) more
  pub chain : IsAntichain more

Added-cons :
    {m a b total limit : ℕ} {requests first out : List BucketRequest} {capacity : ℕ}
    → m ≤ a
    → a ≤ b
    → Inside a b first capacity
    → Added b (total + capacity) limit (requests ++ first) out
    → Added m total limit requests out
Added-cons {m} {a} {b} {total} {limit} {requests} {first} le up inside rest = record {
  more = first ++ rest.more;
  appended = rest.appended ∙ append_assoc requests first rest.more;
  valid = All-append _ first rest.more inside.requests rest.valid;
  within = omega (arith, inside.total, rest.within, total_capacity-append first rest.more);
  above =
      All-append _ first rest.more (All-low_trans m a first le inside.above)
        (All-low_trans m b rest.more (omega arith) rest.above);
  chain = IsAntichain-append b first rest.more inside.chain inside.below rest.chain rest.above;
}

pub transition_loop-Added :
    (share : ℕ) (limit : ℤ) (previous : List BucketRequest) (fs : List FailedBucket) (total : ℕ)
    (requests out : List BucketRequest) (m : ℕ)
    → All IsRequest previous
    → All (λ f. m ≤ low (request_of f)) fs
    → Ascending fs
    → total ≤ pos_part limit
    → transition_loop share limit previous fs total requests ≡ some out
    → Added m total (pos_part limit) requests out
unfolding transition_loop
transition_loop-Added share limit previous [] total requests out m v above up fits h =
    let e : requests ≡ out = ground arith in
    record {
      more = [];
      appended = sym e ∙ sym (append-nil requests);
      valid = tt;
      within = omega arith;
      above = tt;
      chain = tt;
    }
transition_loop-Added share limit previous (f ∷ fs) total requests out m v above up fits h =
    elim (Option-cases (replace_bucket share f previous)) [
      | inl e ↦ absurd (ground arith)
      | inr (entry, e) ↦
          let next : transition_loop share limit previous fs (total + entry.1) (requests ++ entry.0)
              ≡ some out =
            ground arith in
          let room : total + entry.1 ≤ pos_part limit = ground arith in
          Added-cons above.0 (low-le-high (request_of f)) (replace-Inside share f previous v e) (
            transition_loop-Added share limit previous fs (total + entry.1) (requests ++ entry.0)
              out (high (request_of f)) v up.0 up.1 room next)
    ]
