-- ===== src/Merkle/Causal/Descent.antt =====
-- merkle/causal_proof.go: lemmas on causalDescend and the steps of the verifier.
use gomatrixcrypto.Base.{
  ℕ, zero, suc, ◌+◌, ◌-◌, ◌%◌, ◌^◌, ◌≤◌, ◌≡◌, ◌≢◌, refl, ap, ◌∙◌, Bool, true, false, List, [], ◌∷◌,
  ◌++◌, length, length-append, All, some, Bool-cases, Option-cases, inl, inr, ◌==◌, list_eq_of_eq,
  arith,
}
use gomatrixcrypto.Merkle.Tree.{Hash}
use gomatrixcrypto.Merkle.Causal.{
  has_key, lefts, rights, causal_bit, CausalProofStep, Kind, leaf, empty, Descended, causal_leaf,
  causal_empty, causal_node, subtree_root_count, causal_descend, causal_step, causal_climb,
}
use gomatrixcrypto.Merkle.Causal.Bits.{IsDigest, bits_ext}
use gomatrixcrypto.Merkle.Causal.Agree.{
  Agrees, lefts-Agrees, rights-Agrees, has_key-lefts, has_key-rights,
}

module _ (sha3 : List ℕ → Hash) where
  -- The verifier's result on a path that grows at the root.
  causal_climb-append :
      (depth : ℕ) (cur : Hash × ℕ) (path : List CausalProofStep) (step : CausalProofStep)
      {mid : Hash × ℕ}
      → causal_climb sha3 depth cur path ≡ some mid
      → causal_climb sha3 depth cur (path ++ (step ∷ []))
        ≡ causal_climb sha3 (depth - length path) mid (step ∷ [])
  causal_climb-append depth cur [] step {mid} h =
      let same : cur ≡ mid = unfold causal_climb in cc in
      let z : depth - 0 ≡ depth = omega arith in
      rw z (ap (λ (x : Hash × ℕ). causal_climb sha3 depth x (step ∷ [])) same)
  causal_climb-append depth cur (s ∷ path) step {mid} h =
      elim (Option-cases (causal_step sha3 depth cur s)) [
        | inl e ↦ absurd (unfold causal_climb in ground arith)
        | inr (next, e) ↦
            let rest : causal_climb sha3 (depth - 1) next path ≡ some mid =
              unfold causal_climb in ground arith in
            let front : causal_climb sha3 depth cur ((s ∷ path) ++ (step ∷ []))
                ≡ causal_climb sha3 (depth - 1) next (path ++ (step ∷ [])) =
              unfold causal_climb in ground arith in
            let z : depth - length (s ∷ path) ≡ depth - 1 - length path = omega arith in
            rw z (front ∙ causal_climb-append (depth - 1) next path step rest)
      ]

  -- Where a descent ends: at the target, or at an empty subtree.
  abbrev start : Hash → Descended → Hash × ℕ
  start target d = elim d.terminal_kind [
    | leaf ↦ (causal_leaf sha3 target, 1)
    | empty ↦ (causal_empty sha3 d.terminal_depth, 0)
  ]

  abbrev pub found : Kind → Bool
  found leaf = true
  found empty = false

  abbrev pub Leads : ℕ → List Hash → Hash → Descended → Type 0
  Leads height keys target d =
      ((d.node_hash, d.node_count) ≡ subtree_root_count sha3 height keys)
      × (length d.path + (256 - height) ≡ d.terminal_depth)
      × (d.terminal_depth ≤ 256)
      × (d.terminal_kind ≡ leaf → d.terminal_depth ≡ 256)
      × (found d.terminal_kind ≡ has_key keys target)
      × (causal_climb sha3 (d.terminal_depth - 1) (start target d) d.path
          ≡ some (d.node_hash, d.node_count))

  -- The last step of a path, at the depth above its height.
  last_step :
      (height terminal_depth : ℕ) (cur : Hash × ℕ) (path : List CausalProofStep)
      (step : CausalProofStep) {mid : Hash × ℕ}
      → suc height ≤ 256
      → length path + (256 - height) ≡ terminal_depth
      → causal_climb sha3 (terminal_depth - 1) cur path ≡ some mid
      → causal_climb sha3 (terminal_depth - 1) cur (path ++ (step ∷ []))
        ≡ causal_climb sha3 (256 - suc height) mid (step ∷ [])
  last_step height terminal_depth cur path step {mid} p n e =
      let depth : terminal_depth - 1 - length path ≡ 256 - suc height = omega arith in
      rw (← depth) (causal_climb-append (terminal_depth - 1) cur path step e)

  longer :
      (height terminal_depth : ℕ) (path : List CausalProofStep) (step : CausalProofStep)
      → suc height ≤ 256
      → length path + (256 - height) ≡ terminal_depth
      → length (path ++ (step ∷ [])) + (256 - suc height) ≡ terminal_depth
  longer height terminal_depth path step p n = omega (arith, length-append path (step ∷ []))

  pub causal_descend_lem :
      (height : ℕ) (keys : List Hash) (target : Hash)
      → height ≤ 256
      → IsDigest target
      → All (Agrees target (256 - height)) keys
      → Leads height keys target (causal_descend sha3 height keys target)
  unfolding causal_descend subtree_root_count
  causal_descend_lem zero [] target p t h =
      (refl, refl, omega arith, (λ e. refl), unfold has_key in refl, unfold causal_climb in refl)
  causal_descend_lem (suc height) [] target p t h = (
    refl,
    omega arith,
    omega arith,
    (λ e. absurd (ground arith)),
    unfold has_key in refl,
    unfold causal_climb in refl,
  )
  causal_descend_lem zero (k ∷ keys) target p t h =
      let same : k ≡ target = bits_ext k target h.0.0 t (λ d lt. h.0.1 d lt) in
      (
        refl,
        refl,
        omega arith,
        (λ e. refl),
        unfold has_key in rw (list_eq_of_eq same) refl,
        unfold causal_climb in rw same refl,
      )
  causal_descend_lem (suc height) (k ∷ keys) target p t h =
      let depth : ℕ = 256 - suc height in
      let next : suc depth ≡ 256 - height = omega arith in
      elim (Bool-cases (causal_bit target depth == 0)) [
        | inl zero_bit ↦
            let z : causal_bit target depth ≡ 0 = ground arith in
            let ih =
              causal_descend_lem height (lefts depth (k ∷ keys)) target (omega arith) t
                (rw next at (lefts-Agrees target depth (k ∷ keys) z h)) in
            let (e, n, m, l, f, c) = ih in
            let r = subtree_root_count sha3 height (rights depth (k ∷ keys)) in
            rw zero_bit (
              ap (λ (x : Hash × ℕ). (causal_node sha3 depth x.0 x.1 r.0 r.1, (x.1 + r.1) % 2 ^ 64))
                  e,
              longer height _ _ _ p n,
              m,
              l,
              f ∙ has_key-lefts target depth (k ∷ keys) z,
              last_step height _ _ _ _ p n c ∙ (unfold causal_climb causal_step in refl),
            )
        | inr one_bit ↦
            let z : causal_bit target depth ≢ 0 = λ same. absurd (ground arith) in
            let ih =
              causal_descend_lem height (rights depth (k ∷ keys)) target (omega arith) t
                (rw next at (rights-Agrees target depth (k ∷ keys) z h)) in
            let (e, n, m, l, f, c) = ih in
            let r = subtree_root_count sha3 height (lefts depth (k ∷ keys)) in
            let d = causal_descend sha3 height (rights depth (k ∷ keys)) target in
            let swap : (d.node_count + r.1) % 2 ^ 64 ≡ (r.1 + d.node_count) % 2 ^ 64 =
              omega arith in
            rw one_bit (
              ap (λ (x : Hash × ℕ). (causal_node sha3 depth r.0 r.1 x.0 x.1, (r.1 + x.1) % 2 ^ 64))
                  e,
              longer height _ _ _ p n,
              m,
              l,
              f ∙ has_key-rights target depth (k ∷ keys) z,
              last_step height _ _ _ _ p n c
                  ∙ (unfold causal_climb causal_step in
                      ap
                        (λ (x : ℕ).
                          some (causal_node sha3 depth r.0 r.1 d.node_hash d.node_count, x))
                        swap),
            )
      ]

  pub start-Agrees :
      (keys : List Hash) (target : Hash) → All IsDigest keys → All (Agrees target 0) keys
  start-Agrees [] target h = tt
  start-Agrees (k ∷ keys) target h =
      ((h.0, λ d lt. absurd (omega arith)), start-Agrees keys target h.1)
