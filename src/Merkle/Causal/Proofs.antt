-- ===== src/Merkle/Causal/Proofs.antt =====
-- merkle/causal_proof.go: the proofs of the causal trie and their verifiers.
use gomatrixcrypto.Base.{
  ℕ, ◌-◌, ◌≡◌, refl, ap, true, false, not, List, length, All, some, ◌==◌, ==_refl, list_eq_of_eq,
  leb, arith,
}
use gomatrixcrypto.Merkle.Tree.{Hash}
use gomatrixcrypto.Base.Int.{pos}
use gomatrixcrypto.Merkle.Causal.{
  CausalSet, contains, has_key, CausalProofStep, Kind, leaf, empty, causal_leaf, causal_empty,
  subtree_root_count, root, causal_descend, inclusion_of, inclusion_proof, non_inclusion_of,
  non_inclusion_proof, causal_climb, verify_causal_path, verify_causal_inclusion,
  verify_causal_non_inclusion,
}
use gomatrixcrypto.Merkle.Causal.Bits.{IsDigest}
use gomatrixcrypto.Merkle.Causal.Descent.{Leads, causal_descend_lem, start-Agrees}

module _ (sha3 : List ℕ → Hash) where
  verify_causal_path_lem :
      (cur : Hash × ℕ) (depth : ℕ) (path : List CausalProofStep) (node expected : Hash) (n : ℕ)
      → length path ≡ depth
      → causal_climb sha3 (depth - 1) cur path ≡ some (node, n)
      → node ≡ expected
      → verify_causal_path sha3 cur.0 cur.1 depth path expected n ≡ true
  unfolding verify_causal_path
  verify_causal_path_lem cur depth path node expected n e c same =
      let test : (length path == depth) ≡ true = rw e (==_refl depth) in
      rw (test, c, list_eq_of_eq same, ==_refl n) refl

  inclusion_of_lem :
      (keys : List Hash) (key node : Hash) (n : ℕ) (path : List CausalProofStep) (kind : Kind)
      (depth : ℕ)
      → Leads sha3 256 keys key (record {
        node_hash = node;
        node_count = n;
        path = path;
        terminal_kind = kind;
        terminal_depth = depth;
      })
      → let p = inclusion_of sha3 (record {
        node_hash = node;
        node_count = n;
        path = path;
        terminal_kind = kind;
        terminal_depth = depth;
      }) in
        (p.found ≡ has_key keys key)
        × (p.root ≡ (subtree_root_count sha3 256 keys).0)
        × (has_key keys key ≡ true
            → verify_causal_inclusion sha3 key p.path (subtree_root_count sha3 256 keys).0 p.count
              ≡ true)
  unfolding inclusion_of verify_causal_inclusion
  inclusion_of_lem keys key node n path leaf depth (e, m, b, l, f, c) =
      let full : depth ≡ 256 = l refl in
      let root_eq = ap (λ (x : Hash × ℕ). x.0) e in
      (
        f,
        root_eq,
        λ h.
            verify_causal_path_lem (causal_leaf sha3 key, 1) 256 path node _ n (omega arith)
              (rw full at c) root_eq,
      )
  inclusion_of_lem keys key node n path empty depth (e, m, b, l, f, c) =
      (f, ap (λ (x : Hash × ℕ). x.0) e, λ h. absurd (cc (f, h)))

  non_inclusion_of_lem :
      (keys : List Hash) (key node : Hash) (n : ℕ) (path : List CausalProofStep) (kind : Kind)
      (depth : ℕ)
      → Leads sha3 256 keys key (record {
        node_hash = node;
        node_count = n;
        path = path;
        terminal_kind = kind;
        terminal_depth = depth;
      })
      → let p = non_inclusion_of sha3 (record {
        node_hash = node;
        node_count = n;
        path = path;
        terminal_kind = kind;
        terminal_depth = depth;
      }) in
        (p.found ≡ not (has_key keys key))
        × (p.root ≡ (subtree_root_count sha3 256 keys).0)
        × (has_key keys key ≡ false
            → verify_causal_non_inclusion sha3
                (pos p.terminal_depth)
                p.path
                (subtree_root_count sha3 256 keys).0
                p.count
              ≡ true)
  unfolding non_inclusion_of verify_causal_non_inclusion
  non_inclusion_of_lem keys key node n path leaf depth (e, m, b, l, f, c) =
      (ap not f, ap (λ (x : Hash × ℕ). x.0) e, λ h. absurd (cc (f, h)))
  non_inclusion_of_lem keys key node n path empty depth (e, m, b, l, f, c) =
      let root_eq = ap (λ (x : Hash × ℕ). x.0) e in
      let bound : leb depth 256 ≡ true = ground arith in
      (
        ap not f,
        root_eq,
        λ h. rw bound (
            verify_causal_path_lem (causal_empty sha3 depth, 0) depth path node _ n (omega arith) c
              root_eq),
      )

  -- For a key that the set contains, the inclusion proof is found, carries the set's root, and the
  -- verifier accepts it; for another key none is found. The keys are digests of 32 bytes.
  pub inclusion_proof_lem :
      (s : CausalSet) (key : Hash)
      → All IsDigest s.keys
      → IsDigest key
      → ((inclusion_proof sha3 s key).found ≡ contains s key)
        × ((inclusion_proof sha3 s key).root ≡ root sha3 s)
        × (contains s key ≡ true
            → verify_causal_inclusion sha3 key
                (inclusion_proof sha3 s key).path
                (root sha3 s)
                (inclusion_proof sha3 s key).count
              ≡ true)
  unfolding inclusion_proof contains root
  inclusion_proof_lem s key h t =
      let d = causal_descend sha3 256 s.keys key in
      inclusion_of_lem s.keys key d.node_hash d.node_count d.path d.terminal_kind d.terminal_depth
        (causal_descend_lem sha3 256 s.keys key (omega arith) t (start-Agrees sha3 s.keys key h))

  -- For a key that the set does not contain, the non-inclusion proof is found, carries the set's root,
  -- and the verifier accepts it; for a member none is found. The keys are digests of 32 bytes.
  pub non_inclusion_proof_lem :
      (s : CausalSet) (key : Hash)
      → All IsDigest s.keys
      → IsDigest key
      → ((non_inclusion_proof sha3 s key).found ≡ not (contains s key))
        × ((non_inclusion_proof sha3 s key).root ≡ root sha3 s)
        × (contains s key ≡ false
            → verify_causal_non_inclusion sha3
                (pos (non_inclusion_proof sha3 s key).terminal_depth)
                (non_inclusion_proof sha3 s key).path
                (root sha3 s)
                (non_inclusion_proof sha3 s key).count
              ≡ true)
  unfolding non_inclusion_proof contains root
  non_inclusion_proof_lem s key h t =
      let d = causal_descend sha3 256 s.keys key in
      non_inclusion_of_lem s.keys key d.node_hash d.node_count d.path d.terminal_kind
        d.terminal_depth
        (causal_descend_lem sha3 256 s.keys key (omega arith) t (start-Agrees sha3 s.keys key h))
