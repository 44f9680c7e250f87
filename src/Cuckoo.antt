-- ===== src/Cuckoo.antt =====
-- cuckoo/cuckoo.go: the parameters of a proof of work, its graph and the verifier. A uint64 is a number
-- below 2 ^ 64; SHA-256 is a parameter. A nil error is `none`.
pub mod Cycle
pub mod Verify
use gomatrixcrypto.Base.{
  ℕ, zero, suc, ◌+◌, ◌-◌, ◌*◌, ◌/◌, ◌%◌, ◌^◌, bit_and, ◌≡◌, Bool, true, false, ◌||◌, ◌&&◌, List, [],
  ◌∷◌, ◌++◌, Option, none, some, length, leb, ltb, ◌==◌, if◌then◌else◌, Result, ok, err, Error,
  invalid_edge_bits, invalid_proof, invalid_seed,
}
use gomatrixcrypto.Base.Int.{ℤ, pos, negsuc}
use gomatrixcrypto.Base.Xor.{◌⊕◌}
use gomatrixcrypto.Base.Bytes.{get_words, put_le}
use gomatrixcrypto.Cuckoo.Cycle.{verify_cycle}

abbrev pub proof_size_default : ℕ
proof_size_default = 42

pub record Config : Type 0 where
  pub edge_bits : ℕ
  pub proof_size : ℤ

-- The default fills in a size of 0.
unfoldable pub filled_size : ℤ → ℤ
filled_size (pos n) = if n == 0 then pos proof_size_default else pos n
filled_size (negsuc n) = negsuc n

unfoldable pub is_bad_size : ℤ → Bool
is_bad_size (pos n) = ltb n 2 || ltb 255 n
is_bad_size (negsuc n) = true

unfoldable pub normalize : Config → Result Config
normalize c =
    if ltb c.edge_bits 2 || ltb 31 c.edge_bits
    then err invalid_edge_bits
    else if is_bad_size (filled_size c.proof_size)
    then err invalid_proof
    else ok (record { edge_bits = c.edge_bits; proof_size = filled_size c.proof_size })

unfoldable pub validate : Config → Option Error
validate c = elim (normalize c) [ ok normal ↦ none | err e ↦ some e ]

-- `(1 << EdgeBits) - 1`, which is also the mask of the nodes.
unfoldable pub edge_mask : Config → ℕ
edge_mask c = 2 ^ c.edge_bits - 1

pub record Edge : Type 0 where
  pub u : ℕ
  pub v : ℕ

pub record SipState : Type 0 where
  pub v0 : ℕ
  pub v1 : ℕ
  pub v2 : ℕ
  pub v3 : ℕ

abbrev pub add64 : ℕ → ℕ → ℕ
add64 a b = (a + b) % 2 ^ 64

-- `bits.RotateLeft64`.
abbrev pub rotate_left64 : ℕ → ℕ → ℕ
rotate_left64 x k = x * 2 ^ k % 2 ^ 64 + x / 2 ^ (64 - k)

unfoldable pub sip_round : SipState → SipState
sip_round s =
    let a0 = add64 s.v0 s.v1 in
    let a1 = rotate_left64 s.v1 13 ⊕ a0 in
    let b0 = rotate_left64 a0 32 in
    let a2 = add64 s.v2 s.v3 in
    let a3 = rotate_left64 s.v3 16 ⊕ a2 in
    let c0 = add64 b0 a3 in
    let b3 = rotate_left64 a3 21 ⊕ c0 in
    let b2 = add64 a2 a1 in
    let b1 = rotate_left64 a1 17 ⊕ b2 in
    record { v0 = c0; v1 = b1; v2 = rotate_left64 b2 32; v3 = b3 }

unfoldable pub siphash24 : SipState → ℕ → ℕ
siphash24 seed msg =
    let absorbed = sip_round (sip_round (record seed { v3 = seed.v3 ⊕ msg })) in
    let marked = record absorbed { v0 = absorbed.v0 ⊕ msg; v2 = absorbed.v2 ⊕ 0xff } in
    let s = sip_round (sip_round (sip_round (sip_round marked))) in s.v0 ⊕ s.v1 ⊕ s.v2 ⊕ s.v3

-- The four words of a seed.
unfoldable pub state_of_words : List ℕ → SipState
state_of_words (w0 ∷ w1 ∷ w2 ∷ w3 ∷ ws) = record { v0 = w0; v1 = w1; v2 = w2; v3 = w3 }
state_of_words ws = record { v0 = 0; v1 = 0; v2 = 0; v3 = 0 }

unfoldable pub seed_words : List ℕ → Result SipState
seed_words seed =
    if length seed == 32 then ok (state_of_words (get_words 8 4 seed)) else err invalid_seed

unfoldable pub graph_seed : (List ℕ → List ℕ) → List ℕ → ℕ → List ℕ
graph_seed sha256 challenge nonce = sha256 (challenge ++ put_le 8 nonce)

-- The endpoints of an edge, under a mask.
unfoldable pub edge_of : SipState → ℕ → ℕ → Edge
edge_of words mask index = record {
  u = bit_and (siphash24 words (index * 2 % 2 ^ 64)) mask;
  v = bit_and (siphash24 words (index * 2 % 2 ^ 64 + 1)) mask;
}

unfoldable pub edge_for_nonce : Config → List ℕ → ℕ → Result Edge
edge_for_nonce c seed index = elim (normalize c) [
  | err e ↦ err e
  | ok normal ↦ if ltb (edge_mask normal) index then err invalid_proof else elim (seed_words seed) [
    | err e ↦ err e
    | ok words ↦ ok (edge_of words (edge_mask normal) index)
  ]
]

-- `slices.IsSorted`, behind a first element.
unfoldable pub is_sorted_from : ℕ → List ℕ → Bool
is_sorted_from previous [] = true
is_sorted_from previous (nonce ∷ nonces) =
    if ltb nonce previous then false else is_sorted_from nonce nonces

unfoldable pub is_sorted : List ℕ → Bool
is_sorted [] = true
is_sorted (nonce ∷ nonces) = is_sorted_from nonce nonces

-- `i > 0 && nonce == nonces[i-1]`
unfoldable pub is_repeated : Option ℕ → ℕ → Bool
is_repeated none nonce = false
is_repeated (some previous) nonce = nonce == previous

-- The tagged endpoints of the nonces that are left, behind the previous one.
unfoldable pub endpoints_loop : Config → List ℕ → Option ℕ → List ℕ → Result (List ℕ)
endpoints_loop c seed previous [] = ok []
endpoints_loop c seed previous (nonce ∷ nonces) =
    let rest = endpoints_loop c seed (some nonce) nonces in
    if is_repeated previous nonce
    then err invalid_proof
    else if ltb (edge_mask c) nonce
    then err invalid_proof
    else elim (edge_for_nonce c seed nonce) [
      | err e ↦ err e
      | ok edge ↦ elim rest [
        | err e ↦ err e
        | ok uvs ↦ ok ((edge.u * 2 % 2 ^ 64) ∷ (edge.v * 2 % 2 ^ 64 + 1) ∷ uvs)
      ]
    ]

unfoldable pub has_size : List ℕ → ℤ → Bool
has_size nonces (pos n) = length nonces == n
has_size nonces (negsuc n) = false

unfoldable pub verify : Config → List ℕ → List ℕ → Option Error
verify c seed nonces = elim (normalize c) [
  | err e ↦ some e
  | ok normal ↦
      if has_size nonces normal.proof_size
      then if is_sorted nonces
        then elim (endpoints_loop normal seed none nonces) [
          | err e ↦ some e
          | ok uvs ↦ verify_cycle uvs
        ]
        else some invalid_proof
      else some invalid_proof
]
