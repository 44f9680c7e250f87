-- ===== src/Tests/Merkle.antt =====
-- Runs of the Merkle trees, with a stand-in for SHA3-256 that writes 32 bytes.
use gomatrixcrypto.Base.{
  ℕ, ◌+◌, ◌*◌, ◌%◌, ◌<◌, ◌≤◌, ◌≡◌, refl, true, false, not, List, [], ◌∷◌, length, replicate,
  length-replicate, list_eq_refl, ◌⊎◌, arith, ◌^◌,
}
use mathlib.Core.List.{flatten}
use gomatrixcrypto.Base.Int.{pos}
use gomatrixcrypto.Merkle.Tree.{
  Hash, ProofStep, right, hash, merkle_root, merkle_root_and_path, verify_leaf_path, inner_hash,
  largest_power_of_two_less_than, combine, climb,
}
use gomatrixcrypto.Merkle.Tree.Power.{largest_power_of_two_less_than_lem}
use gomatrixcrypto.Merkle.Tree.Path.{verify_leaf_path-merkle_root_and_path}
use gomatrixcrypto.Merkle.Tree.Binding.{Collision, verify_leaf_path_binding}
use gomatrixcrypto.Merkle.Causal.{
  CausalSet, contains, inclusion_proof, non_inclusion_proof, root, verify_causal_inclusion,
  verify_causal_non_inclusion,
}
use gomatrixcrypto.Merkle.Causal.Bits.{IsDigest}
use gomatrixcrypto.Merkle.Causal.Proofs.{inclusion_proof_lem, non_inclusion_proof_lem}

abbrev byte_sum : List ℕ → ℕ
byte_sum [] = 7
byte_sum (b ∷ bs) = (b + 3 * byte_sum bs) % 256

abbrev toy_sha3 : List ℕ → Hash
toy_sha3 m = replicate 32 (byte_sum m)

toy_sha3-length : (m : List ℕ) → length (toy_sha3 m) ≡ 32
toy_sha3-length m = length-replicate 32 (byte_sum m)

abbrev three_leaves : List Hash
three_leaves = replicate 32 1 ∷ replicate 32 2 ∷ replicate 32 3 ∷ []

verify_leaf_path-merkle_root_and_path_example :
    ((merkle_root_and_path toy_sha3 three_leaves 2).0 ≡ merkle_root toy_sha3 three_leaves)
    × (verify_leaf_path toy_sha3
          (replicate 32 3)
          (merkle_root_and_path toy_sha3 three_leaves 2).1
          (merkle_root toy_sha3 three_leaves)
        ≡ true)
verify_leaf_path-merkle_root_and_path_example =
    verify_leaf_path-merkle_root_and_path toy_sha3 three_leaves 2 (replicate 32 3) refl

largest_power_of_two_less_than_lem_example :
    (i : ℕ) × (largest_power_of_two_less_than 5 ≡ 2 ^ i)
    × (largest_power_of_two_less_than 5 < 5)
    × (5 ≤ 2 * largest_power_of_two_less_than 5)
largest_power_of_two_less_than_lem_example = largest_power_of_two_less_than_lem 5 (omega arith)

abbrev leaf_one : Hash
leaf_one = replicate 32 1

abbrev leaf_two : Hash
leaf_two = replicate 32 2

abbrev sibling_step : ProofStep
sibling_step = record { side = right; sibling = leaf_two }

-- The path of one sibling is accepted.
one_sibling :
    verify_leaf_path toy_sha3 leaf_one (sibling_step ∷ []) (inner_hash toy_sha3 leaf_one leaf_two)
    ≡ true
unfolding verify_leaf_path climb combine
one_sibling = list_eq_refl (inner_hash toy_sha3 leaf_one leaf_two)

-- Another leaf, whose message with the same sibling has the same digest here.
abbrev other_leaf : Hash
other_leaf = 4 ∷ 0 ∷ replicate 30 1

other_leaf_accepted :
    verify_leaf_path toy_sha3 other_leaf (sibling_step ∷ []) (inner_hash toy_sha3 leaf_one leaf_two)
    ≡ true
unfolding verify_leaf_path climb combine replicate inner_hash hash flatten
other_leaf_accepted = list_eq_refl (inner_hash toy_sha3 leaf_one leaf_two)

other_leaf-length : length other_leaf ≡ 32
unfolding replicate
other_leaf-length = refl

verify_leaf_path_binding_example :
    (leaf_one ≡ other_leaf)
    ⊎ Collision toy_sha3 leaf_one (sibling_step ∷ []) other_leaf (sibling_step ∷ [])
verify_leaf_path_binding_example =
    verify_leaf_path_binding toy_sha3 toy_sha3-length leaf_one other_leaf
      (inner_hash toy_sha3 leaf_one leaf_two) (sibling_step ∷ []) (sibling_step ∷ [])
      (length-replicate 32 2, tt) (length-replicate 32 2, tt) refl (length-replicate 32 1)
      other_leaf-length one_sibling other_leaf_accepted

abbrev key_one : Hash
key_one =
    1 ∷ 2 ∷ 3 ∷ 4 ∷ 5 ∷ 6 ∷ 7 ∷ 8 ∷ 1 ∷ 2 ∷ 3 ∷ 4 ∷ 5 ∷ 6 ∷ 7 ∷ 8 ∷ 1 ∷ 2 ∷ 3 ∷ 4 ∷ 5 ∷ 6 ∷ 7 ∷ 8
    ∷ 1 ∷ 2 ∷ 3 ∷ 4 ∷ 5 ∷ 6 ∷ 7 ∷ 8 ∷ []

abbrev key_two : Hash
key_two =
    9 ∷ 2 ∷ 3 ∷ 4 ∷ 5 ∷ 6 ∷ 7 ∷ 8 ∷ 1 ∷ 2 ∷ 3 ∷ 4 ∷ 5 ∷ 6 ∷ 7 ∷ 8 ∷ 1 ∷ 2 ∷ 3 ∷ 4 ∷ 5 ∷ 6 ∷ 7 ∷ 8
    ∷ 1 ∷ 2 ∷ 3 ∷ 4 ∷ 5 ∷ 6 ∷ 7 ∷ 8 ∷ []

key_one-IsDigest : IsDigest key_one
key_one-IsDigest = (refl, omega arith)

key_two-IsDigest : IsDigest key_two
key_two-IsDigest = (refl, omega arith)

abbrev one_key : CausalSet
one_key = record { keys = key_one ∷ [] }

inclusion_proof_lem_example :
    ((inclusion_proof toy_sha3 one_key key_one).found ≡ contains one_key key_one)
    × ((inclusion_proof toy_sha3 one_key key_one).root ≡ root toy_sha3 one_key)
    × (contains one_key key_one ≡ true
        → verify_causal_inclusion toy_sha3 key_one
            (inclusion_proof toy_sha3 one_key key_one).path
            (root toy_sha3 one_key)
            (inclusion_proof toy_sha3 one_key key_one).count
          ≡ true)
inclusion_proof_lem_example =
    inclusion_proof_lem toy_sha3 one_key key_one (key_one-IsDigest, tt) key_one-IsDigest

non_inclusion_proof_lem_example :
    ((non_inclusion_proof toy_sha3 one_key key_two).found ≡ not (contains one_key key_two))
    × ((non_inclusion_proof toy_sha3 one_key key_two).root ≡ root toy_sha3 one_key)
    × (contains one_key key_two ≡ false
        → verify_causal_non_inclusion toy_sha3
            (pos (non_inclusion_proof toy_sha3 one_key key_two).terminal_depth)
            (non_inclusion_proof toy_sha3 one_key key_two).path
            (root toy_sha3 one_key)
            (non_inclusion_proof toy_sha3 one_key key_two).count
          ≡ true)
non_inclusion_proof_lem_example =
    non_inclusion_proof_lem toy_sha3 one_key key_two (key_one-IsDigest, tt) key_two-IsDigest
