-- ===== src/Merkle/Tree/Power.antt =====
-- merkle/merkle.go: the split point of a tree.
use gomatrixcrypto.Base.{
  ℕ, zero, suc, ◌+◌, ◌*◌, ◌^◌, ◌≤◌, ◌<◌, ◌≡◌, refl, Bool-cases, inl, inr, ltb, arith,
}
use native.Mathlib.Nat.{pow-suc, one-le-pow}
use gomatrixcrypto.Merkle.Tree.{power_loop, largest_power_of_two_less_than}

power_loop_lem :
    (fuel k n j : ℕ)
    → k ≡ 2 ^ j
    → k < n
    → n < k + fuel + 1
    → (i : ℕ) × (power_loop fuel k n ≡ 2 ^ i)
      × (power_loop fuel k n < n)
      × (n ≤ 2 * power_loop fuel k n)
unfolding power_loop
power_loop_lem zero k n j e lt room = absurd (omega arith)
power_loop_lem (suc fuel) k n j e lt room = elim (Bool-cases (ltb (k * 2) n)) [
  | inl t ↦ rw t (
      power_loop_lem fuel (k * 2) n (suc j) (omega (arith, pow-suc 2 j)) (ground arith)
        (ground (arith, one-le-pow j 2)))
  | inr t ↦ rw t (j, e, lt, ground arith)
]

-- For two leaves or more the split point is a power of two, below the number of leaves and at least
-- half of it: the largest power of two below.
pub largest_power_of_two_less_than_lem :
    (n : ℕ)
    → 2 ≤ n
    → (i : ℕ) × (largest_power_of_two_less_than n ≡ 2 ^ i)
      × (largest_power_of_two_less_than n < n)
      × (n ≤ 2 * largest_power_of_two_less_than n)
unfolding largest_power_of_two_less_than
largest_power_of_two_less_than_lem n h = power_loop_lem n 1 n 0 refl (omega arith) (omega arith)
