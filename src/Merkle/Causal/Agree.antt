-- ===== src/Merkle/Causal/Agree.antt =====
-- merkle/causal_proof.go: the keys below a node of the causal trie and the bits of the target.
use gomatrixcrypto.Base.{
  ℕ, suc, ◌<◌, ◌≡◌, ◌≢◌, refl, ap, false, List, [], ◌∷◌, All, Bool-cases, inl, inr, ◌==◌, list_eq,
  list_eq→eq, arith,
}
use gomatrixcrypto.Merkle.Tree.{Hash}
use gomatrixcrypto.Merkle.Causal.{has_key, lefts, rights, causal_bit}
use gomatrixcrypto.Merkle.Causal.Bits.{IsDigest}

-- The keys are digests whose first bits are the target's.
abbrev pub Agrees : Hash → ℕ → Hash → Type 0
Agrees target depth k = IsDigest k × ((d : ℕ) → d < depth → causal_bit k d ≡ causal_bit target d)

causal_bit_bound : (k : Hash) (d : ℕ) → causal_bit k d < 2
unfolding causal_bit
causal_bit_bound k d = omega arith

module _ (target : Hash) (depth : ℕ) where
  Agrees-suc :
      (k : Hash)
      → Agrees target depth k
      → causal_bit k depth ≡ causal_bit target depth
      → Agrees target (suc depth) k
  Agrees-suc k (digest, before) e = (
    digest,
    λ d lt. elim (Bool-cases (d == depth)) [
      | inl last ↦ let same : d ≡ depth = ground arith in rw same e
      | inr earlier ↦ before d (ground arith)
    ],
  )

  pub lefts-Agrees :
      (keys : List Hash)
      → causal_bit target depth ≡ 0
      → All (Agrees target depth) keys
      → All (Agrees target (suc depth)) (lefts depth keys)
  unfolding lefts
  lefts-Agrees [] z h = tt
  lefts-Agrees (k ∷ keys) z h = elim (Bool-cases (causal_bit k depth == 0)) [
    | inl e ↦ rw e (Agrees-suc k h.0 (ground arith), lefts-Agrees keys z h.1)
    | inr e ↦ rw e (lefts-Agrees keys z h.1)
  ]

  pub rights-Agrees :
      (keys : List Hash)
      → causal_bit target depth ≢ 0
      → All (Agrees target depth) keys
      → All (Agrees target (suc depth)) (rights depth keys)
  unfolding rights
  rights-Agrees [] z h = tt
  rights-Agrees (k ∷ keys) z h = elim (Bool-cases (causal_bit k depth == 0)) [
    | inl e ↦ rw e (rights-Agrees keys z h.1)
    | inr e ↦
        let b = causal_bit_bound k depth in
        let c = causal_bit_bound target depth in
        rw e (Agrees-suc k h.0 (ground arith), rights-Agrees keys z h.1)
  ]

  pub has_key-lefts :
      (keys : List Hash)
      → causal_bit target depth ≡ 0
      → has_key (lefts depth keys) target ≡ has_key keys target
  unfolding lefts has_key
  has_key-lefts [] z = refl
  has_key-lefts (k ∷ keys) z = elim (Bool-cases (causal_bit k depth == 0)) [
    | inl e ↦ rw (e, has_key-lefts keys z) refl
    | inr e ↦
        let differ : list_eq k target ≡ false = elim (Bool-cases (list_eq k target)) [
          | inr no_match ↦ no_match
          | inl same ↦
              let eq : k ≡ target = list_eq→eq k target same in
              absurd (ground (arith, ap (λ (x : Hash). causal_bit x depth) eq))
        ] in
        rw (e, differ) (has_key-lefts keys z)
  ]

  pub has_key-rights :
      (keys : List Hash)
      → causal_bit target depth ≢ 0
      → has_key (rights depth keys) target ≡ has_key keys target
  unfolding rights has_key
  has_key-rights [] z = refl
  has_key-rights (k ∷ keys) z = elim (Bool-cases (causal_bit k depth == 0)) [
    | inr e ↦ rw (e, has_key-rights keys z) refl
    | inl e ↦
        let differ : list_eq k target ≡ false = elim (Bool-cases (list_eq k target)) [
          | inr no_match ↦ no_match
          | inl same ↦
              let eq : k ≡ target = list_eq→eq k target same in
              absurd (ground (arith, ap (λ (x : Hash). causal_bit x depth) eq))
        ] in
        rw (e, differ) (has_key-rights keys z)
  ]
