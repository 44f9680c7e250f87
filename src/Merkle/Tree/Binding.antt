-- ===== src/Merkle/Tree/Binding.antt =====
-- merkle/proof.go: two paths under one root.
use gomatrixcrypto.Base.{
  ℕ, ◌≡◌, ◌≢◌, refl, sym, ap, ◌∙◌, true, false, ◌⊎◌, inl, inr, List, [], ◌∷◌, ◌++◌, some, All,
  length, map, list_eq, list_eq→eq, list_eq_of_eq, arith, Option-cases, Bool-cases,
}
use mathlib.Core.List.{flatten, append-nil}
use gomatrixcrypto.Merkle.Tree.{
  Hash, Side, left, right, other, ProofStep, hash, inner_hash, combine, climb, verify_leaf_path,
  node_dst,
}

module _ (sha3 : List ℕ → Hash) where
  -- The message that the verifier hashes at a step: the prefix, and the sibling and the running hash
  -- in the order of the side.
  unfoldable pub message : Side → Hash → Hash → List ℕ
  message left sibling cur = flatten (node_dst ∷ sibling ∷ cur ∷ [])
  message right sibling cur = flatten (node_dst ∷ cur ∷ sibling ∷ [])
  message other sibling cur = []

  -- At one step of two proofs, from two running hashes on, the messages that the verifier hashes
  -- differ and have one digest.
  unfoldable pub Collision : Hash → List ProofStep → Hash → List ProofStep → Type 0
  Collision cur [] cur' path' = ⊥
  Collision cur (s ∷ path) cur' [] = ⊥
  Collision cur (s ∷ path) cur' (s' ∷ path') =
      let here = message s.side s.sibling cur in
      let here' = message s'.side s'.sibling cur' in
      ((here ≢ here') × (sha3 here ≡ sha3 here')) ⊎ Collision (sha3 here) path (sha3 here') path'

  append_injective :
      (xs xs' ys ys' : List ℕ)
      → length xs ≡ length xs'
      → xs ++ ys ≡ xs' ++ ys'
      → (xs ≡ xs') × (ys ≡ ys')
  append_injective [] [] ys ys' h e = (refl, e)
  append_injective [] (x ∷ xs') ys ys' h e = absurd (omega arith)
  append_injective (x ∷ xs) [] ys ys' h e = absurd (omega arith)
  append_injective (x ∷ xs) (x' ∷ xs') ys ys' h e =
      let tails : xs ++ ys ≡ xs' ++ ys' = cc in
      let heads : x ≡ x' = cc in
      let (p, q) = append_injective xs xs' ys ys' (omega arith) tails in (cc, q)

  ne_of_list_eq : {xs ys : List ℕ} → list_eq xs ys ≡ false → xs ≢ ys
  ne_of_list_eq {xs} {ys} h e = absurd (cc (h, list_eq_of_eq e))

  message_injective :
      (side : Side) (s s' cur cur' : Hash)
      → length s ≡ length s'
      → length cur ≡ length cur'
      → side ≢ other
      → message side s cur ≡ message side s' cur'
      → cur ≡ cur'
  unfolding message flatten
  message_injective left s s' cur cur' h k known e =
      let (_, rest) = append_injective node_dst node_dst _ _ refl e in
      let (_, q) = append_injective s s' (cur ++ []) (cur' ++ []) h rest in
      sym (append-nil cur) ∙ q ∙ append-nil cur'
  message_injective right s s' cur cur' h k known e =
      let (_, rest) = append_injective node_dst node_dst _ _ refl e in
      let (p, _) = append_injective cur cur' (s ++ []) (s' ++ []) k rest in p
  message_injective other s s' cur cur' h k known e = absurd (known refl)

  -- A step of the verifier hashes its message, on a side that it knows.
  combine_message :
      (side : Side) (s cur : Hash) {next : Hash}
      → combine sha3 side s cur ≡ some next
      → (side ≢ other) × (sha3 (message side s cur) ≡ next)
  unfolding combine inner_hash hash message
  combine_message left s cur e = (λ same. absurd (cc), cc)
  combine_message right s cur e = (λ same. absurd (cc), cc)
  combine_message other s cur e = absurd (ground arith)

  abbrev pub sides : List ProofStep → List Side
  sides path = map (λ (s : ProofStep). s.side) path

  -- Siblings of the digest's size.
  abbrev pub AreDigests : List ProofStep → Type 0
  AreDigests path = All (λ (s : ProofStep). length s.sibling ≡ 32) path

  -- What the verifier accepts leads to the root.
  verified :
      (l : Hash) (path : List ProofStep) (root : Hash)
      → verify_leaf_path sha3 l path root ≡ true
      → climb sha3 l path ≡ some root
  unfolding verify_leaf_path
  verified l path root v = elim (Option-cases (climb sha3 l path)) [
    | inl e ↦ absurd (ground arith)
    | inr (cur, e) ↦ e ∙ ap some (list_eq→eq cur root (ground arith))
  ]

  module _ (digest_size : (m : List ℕ) → length (sha3 m) ≡ 32) where
    climb_cases :
        (path path' : List ProofStep) (cur cur' : Hash) {root : Hash}
        → AreDigests path
        → AreDigests path'
        → sides path ≡ sides path'
        → length cur ≡ 32
        → length cur' ≡ 32
        → climb sha3 cur path ≡ some root
        → climb sha3 cur' path' ≡ some root
        → (cur ≡ cur') ⊎ Collision cur path cur' path'
    unfolding climb Collision
    climb_cases [] [] cur cur' d d' e h h' u u' = inl (cc)
    climb_cases [] (s' ∷ path') cur cur' d d' e h h' u u' = absurd (cc)
    climb_cases (s ∷ path) [] cur cur' d d' e h h' u u' = absurd (cc)
    climb_cases (s ∷ path) (s' ∷ path') cur cur' {root} d d' e h h' u u' =
        let same : s.side ≡ s'.side = cc in
        let rest : sides path ≡ sides path' = cc in
        elim (Option-cases (combine sha3 s.side s.sibling cur)) [
          | inl p ↦ absurd (ground arith)
          | inr (next, p) ↦ elim (Option-cases (combine sha3 s'.side s'.sibling cur')) [
            | inl q ↦ absurd (ground arith)
            | inr (next', q) ↦
                let (known, here) = combine_message s.side s.sibling cur p in
                let (_, here') = combine_message s'.side s'.sibling cur' q in
                rw (here, here')
                  (elim (climb_cases path path' next next' {root = root} d.1 d'.1 rest
                    (rw (← here) (digest_size _)) (rw (← here') (digest_size _)) (ground arith)
                    (ground arith)) [
                      | inr c ↦ inr (inr c)
                      | inl one ↦
                          elim (Bool-cases (
                            list_eq (message s.side s.sibling cur)
                              (message s'.side s'.sibling cur'))) [
                                | inl same_message ↦ inl (
                                    message_injective s.side s.sibling s'.sibling cur cur'
                                      (d.0 ∙ sym d'.0) (h ∙ sym h') known
                                      (list_eq→eq _ _ same_message
                                        ∙ ap (λ (side : Side). message side s'.sibling cur')
                                            (sym same)))
                                | inr differ ↦ inr (inl (ne_of_list_eq differ, one))
                              ]
                    ])
          ]
        ]

    -- The verifier binds the leaf: if it accepts two leaf digests against one root, on paths with the
    -- same sides and digests of 32 bytes, the leaves are the same, or at one step of the two proofs
    -- the messages that it hashes differ and have the same SHA3-256 digest.
    pub verify_leaf_path_binding :
        (l l' root : Hash) (path path' : List ProofStep)
        → AreDigests path
        → AreDigests path'
        → sides path ≡ sides path'
        → length l ≡ 32
        → length l' ≡ 32
        → verify_leaf_path sha3 l path root ≡ true
        → verify_leaf_path sha3 l' path' root ≡ true
        → (l ≡ l') ⊎ Collision l path l' path'
    verify_leaf_path_binding l l' root path path' d d' e h h' v v' =
        climb_cases path path' l l' d d' e h h' (verified l path root v) (verified l' path' root v')
