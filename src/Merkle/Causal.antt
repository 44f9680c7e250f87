-- ===== src/Merkle/Causal.antt =====
-- merkle/causal.go and merkle/causal_proof.go: the sparse Merkle sum trie of 256 levels over a set of
-- event-ID digests, with its inclusion and non-inclusion proofs. The map's iteration order is the
-- order of the list of keys. A recursion on the depth up to 256 is one on the height 256 - depth.
pub mod Bits
pub mod Agree
pub mod Descent
pub mod Proofs
use gomatrixcrypto.Base.{
  ℕ, zero, suc, ◌+◌, ◌-◌, ◌*◌, ◌/◌, ◌%◌, ◌^◌, ◌≡◌, Bool, true, false, ◌&&◌, List, [], ◌∷◌, ◌++◌,
  length, get_or, list_eq, ◌==◌, leb, if◌then◌else◌, Option, none, some,
}
use gomatrixcrypto.Base.Int.{ℤ, pos, negsuc}
use gomatrixcrypto.Base.Bytes.{codes, put_be}
use gomatrixcrypto.Merkle.Tree.{Hash, hash, Side, left, right, other}

abbrev pub causal_depth : ℕ
causal_depth = 256

abbrev pub causal_leaf_dst : List ℕ
causal_leaf_dst = codes "msc4511:causal-leaf:v1"

abbrev pub causal_node_dst : List ℕ
causal_node_dst = codes "msc4511:causal-node:v1"

abbrev pub causal_empty_leaf_dst : List ℕ
causal_empty_leaf_dst = codes "msc4511:causal-empty-leaf:v1"

-- Bit d of the key, 0 for the most significant one of byte 0.
unfoldable pub causal_bit : Hash → ℕ → ℕ
causal_bit key d = (get_or key (d / 8) 0 / 2 ^ (7 - d % 8)) % 2

-- The keys whose bit is 0, and the others.
unfoldable pub lefts : ℕ → List Hash → List Hash
lefts d [] = []
lefts d (k ∷ keys) = if causal_bit k d == 0 then k ∷ lefts d keys else lefts d keys

unfoldable pub rights : ℕ → List Hash → List Hash
rights d [] = []
rights d (k ∷ keys) = if causal_bit k d == 0 then rights d keys else k ∷ rights d keys

pub record CausalSet : Type 0 where
  pub keys : List Hash

abbrev pub empty_causal_set : CausalSet
empty_causal_set = record { keys = [] }

unfoldable pub has_key : List Hash → Hash → Bool
has_key [] key = false
has_key (k ∷ keys) key = if list_eq k key then true else has_key keys key

unfoldable pub contains : CausalSet → Hash → Bool
contains s key = has_key s.keys key

unfoldable pub add_key : List Hash → Hash → List Hash
add_key keys key = if has_key keys key then keys else key ∷ keys

unfoldable pub insert : CausalSet → Hash → CausalSet
insert s key = record { keys = add_key s.keys key }

unfoldable pub add_keys : List Hash → List Hash → List Hash
add_keys keys [] = keys
add_keys keys (k ∷ more) = add_keys (add_key keys k) more

unfoldable pub union : CausalSet → CausalSet → CausalSet
union s t = record { keys = add_keys s.keys t.keys }

unfoldable pub count : CausalSet → ℕ
count s = length s.keys % 2 ^ 64

pub record CausalProofStep : Type 0 where
  pub side : Side
  pub sibling : Hash
  pub amount : ℕ

pub data Kind : Type 0 where
  leaf empty : Kind

-- What a descent returns: the subtree's hash and count, the path, and where it ended.
pub record Descended : Type 0 where
  pub node_hash : Hash
  pub node_count : ℕ
  pub path : List CausalProofStep
  pub terminal_kind : Kind
  pub terminal_depth : ℕ

pub record Proof : Type 0 where
  pub path : List CausalProofStep
  pub terminal_depth : ℕ
  pub root : Hash
  pub count : ℕ
  pub found : Bool

module _ (sha3 : List ℕ → Hash) where
  unfoldable pub causal_leaf : Hash → Hash
  causal_leaf key = hash sha3 (causal_leaf_dst ∷ key ∷ [])

  unfoldable pub causal_node : ℕ → Hash → ℕ → Hash → ℕ → Hash
  causal_node depth left_hash left_count right_hash right_count = hash sha3 (
      causal_node_dst
      ∷ put_be 2 depth
      ∷ left_hash
      ∷ put_be 8 left_count
      ∷ right_hash
      ∷ put_be 8 right_count
      ∷ [])

  -- The empty subtree of a height.
  unfoldable pub empty_loop : ℕ → Hash
  empty_loop zero = hash sha3 (causal_empty_leaf_dst ∷ [])
  empty_loop (suc height) =
      let child = empty_loop height in causal_node (causal_depth - suc height) child 0 child 0

  unfoldable pub causal_empty : ℕ → Hash
  causal_empty depth = empty_loop (causal_depth - depth)

  -- The hash and the count of the subtree of a height over the keys.
  unfoldable pub subtree_root_count : ℕ → List Hash → Hash × ℕ
  subtree_root_count height [] = (causal_empty (causal_depth - height), 0)
  subtree_root_count zero (k ∷ keys) = (causal_leaf k, 1)
  subtree_root_count (suc height) (k ∷ keys) =
      let depth = causal_depth - suc height in
      let in_left = subtree_root_count height (lefts depth (k ∷ keys)) in
      let in_right = subtree_root_count height (rights depth (k ∷ keys)) in
      (
        causal_node depth in_left.0 in_left.1 in_right.0 in_right.1,
        (in_left.1 + in_right.1) % 2 ^ 64,
      )

  unfoldable pub root : CausalSet → Hash
  root s = (subtree_root_count causal_depth s.keys).0

  -- The descent along the target's bits.
  unfoldable pub causal_descend : ℕ → List Hash → Hash → Descended
  causal_descend height [] target = record {
    node_hash = causal_empty (causal_depth - height);
    node_count = 0;
    path = [];
    terminal_kind = empty;
    terminal_depth = causal_depth - height;
  }
  causal_descend zero (k ∷ keys) target = record {
    node_hash = causal_leaf k;
    node_count = 1;
    path = [];
    terminal_kind = leaf;
    terminal_depth = causal_depth;
  }
  causal_descend (suc height) (k ∷ keys) target =
      let depth = causal_depth - suc height in
      let ls = lefts depth (k ∷ keys) in
      let rs = rights depth (k ∷ keys) in
      let l = causal_descend height ls target in
      let r = causal_descend height rs target in
      let l_root = subtree_root_count height ls in
      let r_root = subtree_root_count height rs in
      if causal_bit target depth == 0
      then record {
        node_hash = causal_node depth l.node_hash l.node_count r_root.0 r_root.1;
        node_count = (l.node_count + r_root.1) % 2 ^ 64;
        path = l.path ++ (record { side = right; sibling = r_root.0; amount = r_root.1 } ∷ []);
        terminal_kind = l.terminal_kind;
        terminal_depth = l.terminal_depth;
      }
      else record {
        node_hash = causal_node depth l_root.0 l_root.1 r.node_hash r.node_count;
        node_count = (l_root.1 + r.node_count) % 2 ^ 64;
        path = r.path ++ (record { side = left; sibling = l_root.0; amount = l_root.1 } ∷ []);
        terminal_kind = r.terminal_kind;
        terminal_depth = r.terminal_depth;
      }

  unfoldable pub inclusion_of : Descended → Proof
  inclusion_of d = elim d.terminal_kind [
    | leaf ↦ record {
      path = d.path;
      terminal_depth = 0;
      root = d.node_hash;
      count = d.node_count;
      found = true;
    }
    | empty ↦ record {
      path = [];
      terminal_depth = 0;
      root = d.node_hash;
      count = d.node_count;
      found = false;
    }
  ]

  unfoldable pub inclusion_proof : CausalSet → Hash → Proof
  inclusion_proof s key = inclusion_of (causal_descend causal_depth s.keys key)

  unfoldable pub non_inclusion_of : Descended → Proof
  non_inclusion_of d = elim d.terminal_kind [
    | empty ↦ record {
      path = d.path;
      terminal_depth = d.terminal_depth;
      root = d.node_hash;
      count = d.node_count;
      found = true;
    }
    | leaf ↦ record {
      path = [];
      terminal_depth = 0;
      root = d.node_hash;
      count = d.node_count;
      found = false;
    }
  ]

  unfoldable pub non_inclusion_proof : CausalSet → Hash → Proof
  non_inclusion_proof s key = non_inclusion_of (causal_descend causal_depth s.keys key)

  -- One step of the verifier at a depth.
  unfoldable pub causal_step : ℕ → Hash × ℕ → CausalProofStep → Option (Hash × ℕ)
  causal_step depth (cur, n) step = elim step.side [
    | left ↦ some (causal_node depth step.sibling step.amount cur n, (n + step.amount) % 2 ^ 64)
    | right ↦ some (causal_node depth cur n step.sibling step.amount, (n + step.amount) % 2 ^ 64)
    | other ↦ none
  ]

  unfoldable pub causal_climb : ℕ → Hash × ℕ → List CausalProofStep → Option (Hash × ℕ)
  causal_climb depth cur [] = some cur
  causal_climb depth cur (step ∷ path) = elim (causal_step depth cur step) [
    | none ↦ none
    | some next ↦ causal_climb (depth - 1) next path
  ]

  unfoldable pub verify_causal_path : Hash → ℕ → ℕ → List CausalProofStep → Hash → ℕ → Bool
  verify_causal_path terminal_hash terminal_count terminal_depth path expected n =
      if length path == terminal_depth
      then elim (causal_climb (terminal_depth - 1) (terminal_hash, terminal_count) path) [
        | none ↦ false
        | some cur ↦ list_eq cur.0 expected && (cur.1 == n)
      ]
      else false

  unfoldable pub verify_causal_inclusion : Hash → List CausalProofStep → Hash → ℕ → Bool
  verify_causal_inclusion key path expected n =
      verify_causal_path (causal_leaf key) 1 causal_depth path expected n

  -- A depth below 0 is refused.
  unfoldable pub verify_causal_non_inclusion : ℤ → List CausalProofStep → Hash → ℕ → Bool
  verify_causal_non_inclusion (negsuc n) path expected amount = false
  verify_causal_non_inclusion (pos terminal_depth) path expected amount =
      if leb terminal_depth causal_depth
      then verify_causal_path (causal_empty terminal_depth) 0 terminal_depth path expected amount
      else false
