-- ===== src/Merkle/Tree.antt =====
-- merkle/merkle.go and merkle/proof.go: the tree over leaf hashes and its inclusion paths. A digest is
-- the list of its bytes; SHA3-256 is a parameter.
pub mod Power
pub mod Path
pub mod Binding
use mathlib.Core.List.{flatten}
use gomatrixcrypto.Base.{
  ℕ, zero, suc, ◌+◌, ◌-◌, ◌*◌, ◌/◌, ◌%◌, ◌^◌, ◌≡◌, Bool, true, false, List, [], ◌∷◌, ◌++◌, length,
  take, drop, replicate, get_or, list_eq, leb, ltb, ◌==◌, if◌then◌else◌, Option, none, some,
}
use gomatrixcrypto.Base.Bytes.{codes}

abbrev pub hash_size : ℕ
hash_size = 32

abbrev pub Hash : Type 0
Hash = List ℕ

abbrev pub zero_hash : Hash
zero_hash = replicate hash_size 0

abbrev pub leaf_dst : List ℕ
leaf_dst = codes "msc4511:leaf:v1"

abbrev pub node_dst : List ℕ
node_dst = codes "msc4511:node:v1"

abbrev pub root_dst : List ℕ
root_dst = codes "msc4511:root:v1"

-- `for k<<1 < n { k <<= 1 }`; each round doubles k, so n rounds are enough.
unfoldable pub power_loop : ℕ → ℕ → ℕ → ℕ
power_loop zero k n = k
power_loop (suc fuel) k n =
    let rest = power_loop fuel (k * 2) n in if ltb (k * 2) n then rest else k

unfoldable pub largest_power_of_two_less_than : ℕ → ℕ
largest_power_of_two_less_than n = power_loop n 1 n

-- Which side the sibling is on; `other` stands for the strings that are neither.
pub data Side : Type 0 where
  left right other : Side

pub record ProofStep : Type 0 where
  pub side : Side
  pub sibling : Hash

module _ (sha3 : List ℕ → Hash) where
  -- The digest of the concatenated parts.
  unfoldable pub hash : List (List ℕ) → Hash
  hash parts = sha3 (flatten parts)

  unfoldable pub inner_hash : Hash → Hash → Hash
  inner_hash l r = hash (node_dst ∷ l ∷ r ∷ [])

  unfoldable pub event_root : Hash → Hash → Hash → Hash → Hash → Hash
  unfolding hash
  event_root prev_events auth_events header content other_signed =
      hash (root_dst ∷ prev_events ∷ auth_events ∷ header ∷ content ∷ other_signed ∷ [])

  unfoldable pub content_hash : Hash → Hash → Hash
  content_hash redacted ephemeral = inner_hash redacted ephemeral

  -- Each call is on a shorter slice, so the length is fuel enough.
  unfoldable pub root_loop : ℕ → List Hash → Hash
  root_loop zero hashes = zero_hash
  root_loop (suc fuel) [] = zero_hash
  root_loop (suc fuel) (a ∷ []) = a
  root_loop (suc fuel) (a ∷ b ∷ []) = inner_hash a b
  root_loop (suc fuel) (a ∷ b ∷ c ∷ hs) =
      let k = largest_power_of_two_less_than (length (a ∷ b ∷ c ∷ hs)) in
      inner_hash (root_loop fuel (take k (a ∷ b ∷ c ∷ hs)))
        (root_loop fuel (drop k (a ∷ b ∷ c ∷ hs)))

  unfoldable pub merkle_root : List Hash → Hash
  merkle_root hashes = root_loop (length hashes) hashes

  -- The root, and the siblings of the target from the leaf to the root. No slice is empty.
  unfoldable pub path_loop : ℕ → List Hash → ℕ → Hash × List ProofStep
  path_loop zero hashes target = (zero_hash, [])
  path_loop (suc fuel) [] target = (zero_hash, [])
  path_loop (suc fuel) (a ∷ []) target = (a, [])
  path_loop (suc fuel) (a ∷ b ∷ []) target =
      if target == 0
      then (inner_hash a b, record { side = right; sibling = b } ∷ [])
      else (inner_hash a b, record { side = left; sibling = a } ∷ [])
  path_loop (suc fuel) (a ∷ b ∷ c ∷ hs) target =
      let k = largest_power_of_two_less_than (length (a ∷ b ∷ c ∷ hs)) in
      let front = take k (a ∷ b ∷ c ∷ hs) in
      let back = drop k (a ∷ b ∷ c ∷ hs) in
      let in_front = path_loop fuel front target in
      let in_back = path_loop fuel back (target - k) in
      if ltb target k
      then (
        inner_hash in_front.0 (merkle_root back),
        in_front.1 ++ (record { side = right; sibling = merkle_root back } ∷ []),
      )
      else (
        inner_hash (merkle_root front) in_back.0,
        in_back.1 ++ (record { side = left; sibling = merkle_root front } ∷ []),
      )

  unfoldable pub merkle_root_and_path : List Hash → ℕ → Hash × List ProofStep
  merkle_root_and_path hashes target = path_loop (length hashes) hashes target

  -- One step of the verifier; `none` at a side that is neither.
  unfoldable pub combine : Side → Hash → Hash → Option Hash
  combine left sibling cur = some (inner_hash sibling cur)
  combine right sibling cur = some (inner_hash cur sibling)
  combine other sibling cur = none

  -- The running hash after the steps.
  unfoldable pub climb : Hash → List ProofStep → Option Hash
  climb cur [] = some cur
  climb cur (step ∷ path) = elim (combine step.side step.sibling cur) [
    | none ↦ none
    | some next ↦ climb next path
  ]

  unfoldable pub verify_leaf_path : Hash → List ProofStep → Hash → Bool
  verify_leaf_path leaf_hash path root = elim (climb leaf_hash path) [
    | none ↦ false
    | some cur ↦ list_eq cur root
  ]
