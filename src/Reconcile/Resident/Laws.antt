-- ===== src/Reconcile/Resident/Laws.antt =====
-- reconcile/resident.go: lemmas on the updates of the resident state.
use gomatrixcrypto.Base.{
  ℕ, zero, suc, ◌+◌, ◌<◌, ◌≡◌, ◌≢◌, refl, ap, List, [], ◌∷◌, none, some, arith, Error,
}
use gomatrixcrypto.Base.Words.{xor_words_right_comm}
use gomatrixcrypto.Reconcile.Element.{ElementHash}
use gomatrixcrypto.Reconcile.Accumulator
use gomatrixcrypto.Reconcile.Accumulator.{RoomAccumulator, max_u64}
use gomatrixcrypto.Reconcile.Accumulator.Laws as AccumulatorLaws
use gomatrixcrypto.Reconcile.Field.{mul}
use gomatrixcrypto.Reconcile.Sketch.Laws.{toggle_loop-toggle_loop, toggle_loop_comm}
use gomatrixcrypto.Reconcile.Resident.{
  ResidentKernel, insert, remove, update_strata, toggle_stratum, toggle_at, stratum_of,
}

toggle_at-toggle_at :
    (i value : ℕ) (strata : List (List ℕ)) → toggle_at i value (toggle_at i value strata) ≡ strata
unfolding toggle_at
toggle_at-toggle_at i value [] = refl
toggle_at-toggle_at zero value (s ∷ ss) =
    ap (λ (l : List ℕ). l ∷ ss) (toggle_loop-toggle_loop (mul value value) value s)
toggle_at-toggle_at (suc i) value (s ∷ ss) =
    ap (λ (l : List (List ℕ)). s ∷ l) (toggle_at-toggle_at i value ss)

toggle_at_comm :
    (i j v w : ℕ) (strata : List (List ℕ))
    → toggle_at i v (toggle_at j w strata) ≡ toggle_at j w (toggle_at i v strata)
unfolding toggle_at
toggle_at_comm i j v w [] = refl
toggle_at_comm zero zero v w (s ∷ ss) =
    ap (λ (l : List ℕ). l ∷ ss) (toggle_loop_comm (mul v v) v (mul w w) w s)
toggle_at_comm zero (suc j) v w (s ∷ ss) = refl
toggle_at_comm (suc i) zero v w (s ∷ ss) = refl
toggle_at_comm (suc i) (suc j) v w (s ∷ ss) =
    ap (λ (l : List (List ℕ)). s ∷ l) (toggle_at_comm i j v w ss)

-- Removing an element that was just inserted restores the accumulator and every stratum, where the
-- identifier is not zero and the count has room; neither call fails.
pub remove-insert_kernel :
    (r : ResidentKernel) (hash : ElementHash)
    → hash.h64 ≢ 0
    → r.accumulator.count < max_u64
    → ((insert r hash).1 ≡ none) × (remove (insert r hash).0 hash ≡ (r, none))
unfolding insert remove update_strata toggle_stratum
remove-insert_kernel r hash nz room = ground (
  arith,
  AccumulatorLaws.remove-insert_accumulator r.accumulator hash room,
  toggle_at-toggle_at (stratum_of hash.h64) hash.h64 r.strata,
)

-- An insertion that reports an error, of the identifier or of the count, leaves the whole state as it
-- was, the accumulator that it called included.
pub insert_error :
    (r : ResidentKernel) (hash : ElementHash) {e : Error}
    → (insert r hash).1 ≡ some e
    → (insert r hash).0 ≡ r
unfolding insert update_strata Accumulator.insert
insert_error r hash h = ground arith

pub remove_error :
    (r : ResidentKernel) (hash : ElementHash) {e : Error}
    → (remove r hash).1 ≡ some e
    → (remove r hash).0 ≡ r
unfolding remove update_strata Accumulator.remove
remove_error r hash h = ground arith

-- Two insertions commute, where the identifiers are not zero and the count has room for both.
pub insert_comm :
    (r : ResidentKernel) (a b : ElementHash)
    → a.h64 ≢ 0
    → b.h64 ≢ 0
    → r.accumulator.count + 1 < max_u64
    → insert (insert r a).0 b ≡ insert (insert r b).0 a
unfolding insert update_strata toggle_stratum Accumulator.insert
insert_comm r a b na nb room = ground (
  arith,
  xor_words_right_comm r.accumulator.digest a.h128 b.h128,
  toggle_at_comm (stratum_of a.h64) (stratum_of b.h64) a.h64 b.h64 r.strata,
)
