-- ===== src/Cuckoo/Verify.antt =====
-- cuckoo/cuckoo.go: what Verify accepts, against a description of proofs by the graph alone.
use gomatrixcrypto.Base.{
  ℕ, ◌+◌, ◌*◌, ◌/◌, ◌%◌, ◌^◌, ◌≤◌, ◌<◌, ◌≡◌, ◌≢◌, refl, Bool, true, false, List, [], ◌∷◌, Option,
  none, some, length, ltb, Bool-cases, Result-cases, ok, err, inl, inr, arith, Error, All,
}
use gomatrixcrypto.Base.Int.{ℤ, pos, negsuc}
use gomatrixcrypto.Cuckoo.{
  Config, normalize, filled_size, is_bad_size, edge_mask, SipState, edge_of, seed_words,
  edge_for_nonce, is_sorted, is_sorted_from, is_repeated, endpoints_loop, has_size, verify,
}
use gomatrixcrypto.Cuckoo.Cycle.{
  verify_cycle, verify_cycle_within, walk_loop, round, advance, partner_loop, xor_all, result_of,
}
use gomatrixcrypto.Cuckoo.Cycle.Sound.{IsCycle, verify_cycle-IsCycle}

-- Each number is above the one before it.
abbrev pub AscendsFrom : ℕ → List ℕ → Type 0
AscendsFrom p [] = Unit
AscendsFrom p (n ∷ ns) = (p < n) × AscendsFrom n ns

abbrev pub Ascends : List ℕ → Type 0
Ascends [] = Unit
Ascends (n ∷ ns) = AscendsFrom n ns

-- The endpoints of the edges, the sides of the graph told apart by the low bit.
abbrev pub endpoints : SipState → ℕ → List ℕ → List ℕ
endpoints words mask [] = []
endpoints words mask (n ∷ ns) =
    ((edge_of words mask n).u * 2 % 2 ^ 64)
    ∷ ((edge_of words mask n).v * 2 % 2 ^ 64 + 1)
    ∷ endpoints words mask ns

-- A proof: as many edges of the graph of the seed as the configuration asks for, in ascending order,
-- which make one cycle.
pub record IsProof (c : Config) (seed nonces : List ℕ) : Type 0 where
  pub normal : Config
  pub normalized : normalize c ≡ ok normal
  pub size : pos (length nonces) ≡ normal.proof_size
  pub ascends : Ascends nonces
  pub in_graph : All (λ n. n ≤ edge_mask normal) nonces
  pub words : SipState
  pub seeded : seed_words seed ≡ ok words
  pub order : ℕ → ℕ
  pub cycle : IsCycle (endpoints words (edge_mask normal) nonces) order

normalize_idem :
    (c : Config) {normal : Config} → normalize c ≡ ok normal → normalize normal ≡ ok normal
unfolding normalize filled_size is_bad_size
normalize_idem c {normal} e = ground arith

length-endpoints :
    (words : SipState) (mask : ℕ) (ns : List ℕ) → length (endpoints words mask ns) / 2 ≡ length ns
length-endpoints words mask [] = omega arith
length-endpoints words mask (n ∷ ns) = omega (arith, length-endpoints words mask ns)

abbrev Behind : Option ℕ → List ℕ → Type 0
Behind none ns = Ascends ns
Behind (some p) ns = AscendsFrom p ns

abbrev is_sorted_behind : Option ℕ → List ℕ → Bool
is_sorted_behind none ns = is_sorted ns
is_sorted_behind (some p) ns = is_sorted_from p ns

head_ascends :
    (previous : Option ℕ) (n : ℕ) (ns : List ℕ)
    → is_sorted_behind previous (n ∷ ns) ≡ true
    → is_repeated previous n ≡ false
    → (AscendsFrom n ns → Behind previous (n ∷ ns)) × (is_sorted_from n ns ≡ true)
unfolding is_sorted is_sorted_from is_repeated
head_ascends none n ns sorted fresh = ((λ h. h), sorted)
head_ascends (some p) n ns sorted fresh = ((λ h. (ground arith, h)), ground arith)

module _ (normal : Config) (seed : List ℕ) (words : SipState) (n_ok : normalize normal ≡ ok normal)
    (s_ok : seed_words seed ≡ ok words) where
  edge_for_nonce_lem :
      (n : ℕ)
      → n ≤ edge_mask normal
      → edge_for_nonce normal seed n ≡ ok (edge_of words (edge_mask normal) n)
  unfolding edge_for_nonce
  edge_for_nonce_lem n le =
      let inside : ltb (edge_mask normal) n ≡ false = ground arith in
      rw (n_ok, edge_for_nonce, inside, s_ok) refl

  endpoints_loop_lem :
      (previous : Option ℕ) (ns : List ℕ) {uvs : List ℕ}
      → is_sorted_behind previous ns ≡ true
      → endpoints_loop normal seed previous ns ≡ ok uvs
      → Behind previous ns
        × All (λ n. n ≤ edge_mask normal) ns
        × (uvs ≡ endpoints words (edge_mask normal) ns)
  unfolding endpoints_loop
  endpoints_loop_lem none [] sorted e = (tt, tt, ground arith)
  endpoints_loop_lem (some p) [] sorted e = (tt, tt, ground arith)
  endpoints_loop_lem previous (n ∷ ns) sorted e = elim (Bool-cases (is_repeated previous n)) [
    | inl again ↦ absurd (ground arith)
    | inr fresh ↦ elim (Bool-cases (ltb (edge_mask normal) n)) [
      | inl outside ↦ absurd (ground arith)
      | inr inside ↦
          let edge = edge_for_nonce_lem n (ground arith) in
          elim (Result-cases (endpoints_loop normal seed (some n) ns)) [
            | inr (bad, rest) ↦ absurd (ground arith)
            | inl (more, rest) ↦
                let (order, tail_sorted) = head_ascends previous n ns sorted fresh in
                let (ascends, in_graph, same) = endpoints_loop_lem (some n) ns tail_sorted rest in
                (order ascends, (ground arith, in_graph), ground arith)
          ]
    ]
  ]

no_seed :
    (normal : Config) (seed : List ℕ) (previous : Option ℕ) (ns : List ℕ) {uvs : List ℕ}
    {bad : Error}
    → seed_words seed ≡ err bad
    → endpoints_loop normal seed previous ns ≡ ok uvs
    → uvs ≡ []
unfolding endpoints_loop edge_for_nonce
no_seed normal seed previous [] fails e = ground arith
no_seed normal seed previous (n ∷ ns) fails e = absurd (ground arith)

verify_cycle_nil : verify_cycle [] ≢ none
unfolding verify_cycle verify_cycle_within walk_loop round advance partner_loop xor_all result_of
verify_cycle_nil e = absurd (ground arith)

has_size_lem :
    (nonces : List ℕ) (size : ℤ) → has_size nonces size ≡ true → pos (length nonces) ≡ size
unfolding has_size
has_size_lem nonces (pos n) h = ground arith
has_size_lem nonces (negsuc n) h = absurd (ground arith)

-- Verify accepts nothing but proofs: the nonces are in ascending order, edges of the graph of the seed,
-- as many as the configuration asks for, and the edges make one cycle.
pub verify-IsProof :
    (c : Config) (seed nonces : List ℕ) → verify c seed nonces ≡ none → IsProof c seed nonces
unfolding verify
verify-IsProof c seed nonces e = elim (Result-cases (normalize c)) [
  | inr (bad, n_ok) ↦ absurd (ground arith)
  | inl (normal, n_ok) ↦ elim (Bool-cases (has_size nonces normal.proof_size)) [
    | inr wrong ↦ absurd (ground arith)
    | inl sized ↦ elim (Bool-cases (is_sorted nonces)) [
      | inr unsorted ↦ absurd (ground arith)
      | inl sorted ↦ elim (Result-cases (endpoints_loop normal seed none nonces)) [
        | inr (bad, run) ↦ absurd (ground arith)
        | inl (uvs, run) ↦
            let accepted : verify_cycle uvs ≡ none = ground arith in
            elim (Result-cases (seed_words seed)) [
              | inr (bad, s_ok) ↦
                  absurd
                    (verify_cycle_nil (rw (no_seed normal seed none nonces s_ok run) at accepted))
              | inl (words, s_ok) ↦
                  let (ascends, in_graph, same) =
                    endpoints_loop_lem normal seed words (normalize_idem c n_ok) s_ok none nonces
                      sorted run in
                  let (order, cycle) = verify_cycle-IsCycle uvs accepted in
                  record {
                    normal = normal;
                    normalized = n_ok;
                    size = has_size_lem nonces normal.proof_size sized;
                    ascends = ascends;
                    in_graph = in_graph;
                    words = words;
                    seeded = s_ok;
                    order = order;
                    cycle = rw same at cycle;
                  }
            ]
      ]
    ]
  ]
]
