-- ===== src/Merkle/Tree/Path.antt =====
-- merkle/proof.go: the prover of inclusion paths and their verifier.
use gomatrixcrypto.Base.{
  ℕ, zero, suc, ◌-◌, ◌≤◌, ◌<◌, ◌≡◌, refl, sym, ap, ap₂, ◌∙◌, true, Bool-cases, inl, inr, ltb, List,
  [], ◌∷◌, ◌++◌, some, get_elem?, get_elem?-take, get_elem?-drop, take, drop, length, length-take,
  length-drop, list_eq_refl, arith, Option-cases, ltb→lt,
}
use gomatrixcrypto.Merkle.Tree.{
  Hash, ProofStep, largest_power_of_two_less_than, inner_hash, root_loop, merkle_root, path_loop,
  merkle_root_and_path, climb, combine, verify_leaf_path,
}
use gomatrixcrypto.Merkle.Tree.Power.{largest_power_of_two_less_than_lem}

-- The split of three hashes or more.
module _ (a b c : Hash) (hs : List Hash) where
  abbrev pub whole : List Hash
  whole = a ∷ b ∷ c ∷ hs

  abbrev pub split : ℕ
  split = largest_power_of_two_less_than (length whole)

  split_bounds : (0 < split) × (split < length whole)
  split_bounds =
      let (i, e, lt, half) = largest_power_of_two_less_than_lem (length whole) (omega arith) in
      (omega arith, lt)

  pub length-front : length (take split whole) ≡ split
  length-front = length-take split whole (omega (arith, split_bounds))

  pub front_shorter : length (take split whole) < length whole
  front_shorter = omega (arith, length-front, split_bounds)

  pub back_shorter : length (drop split whole) < length whole
  back_shorter = omega (arith, length-drop split whole, split_bounds)

module _ (sha3 : List ℕ → Hash) where
  -- Fuel beyond the length makes no difference.
  root_loop_fuel :
      (f g : ℕ) (hs : List Hash)
      → length hs ≤ f
      → length hs ≤ g
      → root_loop sha3 f hs ≡ root_loop sha3 g hs
  unfolding root_loop
  root_loop_fuel zero zero hs p q = refl
  root_loop_fuel zero (suc g) [] p q = refl
  root_loop_fuel zero (suc g) (a ∷ hs) p q = absurd (omega arith)
  root_loop_fuel (suc f) zero [] p q = refl
  root_loop_fuel (suc f) zero (a ∷ hs) p q = absurd (omega arith)
  root_loop_fuel (suc f) (suc g) [] p q = refl
  root_loop_fuel (suc f) (suc g) (a ∷ []) p q = refl
  root_loop_fuel (suc f) (suc g) (a ∷ b ∷ []) p q = refl
  root_loop_fuel (suc f) (suc g) (a ∷ b ∷ c ∷ hs) p q =
      let s = front_shorter a b c hs in
      let t = back_shorter a b c hs in
      ap₂ (inner_hash sha3)
        (root_loop_fuel f g (take (split a b c hs) (a ∷ b ∷ c ∷ hs)) (omega arith) (omega arith))
        (root_loop_fuel f g (drop (split a b c hs) (a ∷ b ∷ c ∷ hs)) (omega arith) (omega arith))

  climb-append :
      (cur : Hash) (path : List ProofStep) (step : ProofStep) {mid : Hash}
      → climb sha3 cur path ≡ some mid
      → climb sha3 cur (path ++ (step ∷ [])) ≡ climb sha3 mid (step ∷ [])
  climb-append cur [] step {mid} h =
      let same : cur ≡ mid = unfold climb in cc in ap (λ (x : Hash). climb sha3 x (step ∷ [])) same
  climb-append cur (s ∷ path) step {mid} h =
      elim (Option-cases (combine sha3 s.side s.sibling cur)) [
        | inl e ↦ absurd (unfold climb in ground arith)
        | inr (next, e) ↦
            let rest : climb sha3 next path ≡ some mid = unfold climb in ground arith in
            let front : climb sha3 cur ((s ∷ path) ++ (step ∷ []))
                ≡ climb sha3 next (path ++ (step ∷ [])) =
              unfold climb in ground arith in
            front ∙ climb-append next path step rest
      ]

  -- The prover's root is the root, and the path leads from the target to it.
  path_loop_lem :
      (f : ℕ) (hs : List Hash) (target : ℕ) (h : Hash)
      → length hs ≤ f
      → get_elem? hs target ≡ some h
      → ((path_loop sha3 f hs target).0 ≡ root_loop sha3 f hs)
        × (climb sha3 h (path_loop sha3 f hs target).1 ≡ some (root_loop sha3 f hs))
  unfolding path_loop root_loop
  path_loop_lem zero [] target h p e = absurd (ground arith)
  path_loop_lem zero (a ∷ hs) target h p e = absurd (omega arith)
  path_loop_lem (suc f) [] target h p e = absurd (ground arith)
  path_loop_lem (suc f) (a ∷ []) zero h p e = (refl, unfold climb in sym e)
  path_loop_lem (suc f) (a ∷ []) (suc t) h p e = absurd (ground arith)
  path_loop_lem (suc f) (a ∷ b ∷ []) zero h p e =
      let same : h ≡ a = cc in
      (refl, unfold climb combine in ap (λ (x : Hash). some (inner_hash sha3 x b)) same)
  path_loop_lem (suc f) (a ∷ b ∷ []) (suc zero) h p e =
      let same : h ≡ b = cc in
      (refl, unfold climb combine in ap (λ (x : Hash). some (inner_hash sha3 a x)) same)
  path_loop_lem (suc f) (a ∷ b ∷ []) (suc (suc t)) h p e = absurd (ground arith)
  path_loop_lem (suc f) (a ∷ b ∷ c ∷ hs) target h p e =
      let k : ℕ = split a b c hs in
      let front : List Hash = take k (whole a b c hs) in
      let back : List Hash = drop k (whole a b c hs) in
      let s : length front ≤ f = omega (arith, front_shorter a b c hs) in
      let t : length back ≤ f = omega (arith, back_shorter a b c hs) in
      let root_front : merkle_root sha3 front ≡ root_loop sha3 f front =
        unfold merkle_root in root_loop_fuel (length front) f front (omega arith) s in
      let root_back : merkle_root sha3 back ≡ root_loop sha3 f back =
        unfold merkle_root in root_loop_fuel (length back) f back (omega arith) t in
      elim (Bool-cases (ltb target k)) [
        | inl lt ↦
            let (same, leads) =
              path_loop_lem f front target h s
                (get_elem?-take k target (whole a b c hs) (ltb→lt target k lt) ∙ e) in
            rw lt (
              ap₂ (inner_hash sha3) same root_back,
              climb-append h _ _ leads
                  ∙ (unfold climb combine in
                      ap (λ (x : Hash). some (inner_hash sha3 (root_loop sha3 f front) x))
                        root_back),
            )
        | inr ge ↦
            let (same, leads) =
              path_loop_lem f back (target - k) h t
                (get_elem?-drop k target (whole a b c hs) (ground arith) ∙ e) in
            rw ge (
              ap₂ (inner_hash sha3) root_front same,
              climb-append h _ _ leads
                  ∙ (unfold climb combine in
                      ap (λ (x : Hash). some (inner_hash sha3 x (root_loop sha3 f back)))
                        root_front),
            )
      ]

  -- For every leaf of a tree, the path that the prover returns leads from the leaf to the root of the
  -- whole tree, and the verifier accepts it against that root.
  pub verify_leaf_path-merkle_root_and_path :
      (hashes : List Hash) (target : ℕ) (h : Hash)
      → get_elem? hashes target ≡ some h
      → ((merkle_root_and_path sha3 hashes target).0 ≡ merkle_root sha3 hashes)
        × (verify_leaf_path sha3 h
              (merkle_root_and_path sha3 hashes target).1
              (merkle_root sha3 hashes)
            ≡ true)
  unfolding merkle_root_and_path merkle_root verify_leaf_path
  verify_leaf_path-merkle_root_and_path hashes target h e =
      let (same, leads) = path_loop_lem (length hashes) hashes target h (omega arith) e in
      (same, rw (leads, verify_leaf_path) (list_eq_refl (root_loop sha3 (length hashes) hashes)))
