-- ===== src/Merkle/Causal/Bits.antt =====
-- merkle/causal.go: lemmas on causalBit.
use gomatrixcrypto.Base.{
  ℕ, zero, suc, ◌+◌, ◌-◌, ◌*◌, ◌/◌, ◌%◌, ◌^◌, ◌<◌, ◌≡◌, refl, ap₂, List, [], ◌∷◌, length, get_or,
  All, arith,
}
use gomatrixcrypto.Merkle.Tree.{Hash}
use gomatrixcrypto.Merkle.Causal.{causal_bit}

-- 32 bytes.
abbrev pub IsDigest : Hash → Type 0
IsDigest key = (length key ≡ 32) × All (λ b. b < 256) key

byte_ext :
    (x y : ℕ)
    → x < 256
    → y < 256
    → ((j : ℕ) → j < 8 → (x / 2 ^ (7 - j)) % 2 ≡ (y / 2 ^ (7 - j)) % 2)
    → x ≡ y
byte_ext x y p q e =
    let b0 : (x / 128) % 2 ≡ (y / 128) % 2 = e 0 (omega arith) in
    let b1 : (x / 64) % 2 ≡ (y / 64) % 2 = e 1 (omega arith) in
    let b2 : (x / 32) % 2 ≡ (y / 32) % 2 = e 2 (omega arith) in
    let b3 : (x / 16) % 2 ≡ (y / 16) % 2 = e 3 (omega arith) in
    let b4 : (x / 8) % 2 ≡ (y / 8) % 2 = e 4 (omega arith) in
    let b5 : (x / 4) % 2 ≡ (y / 4) % 2 = e 5 (omega arith) in
    let b6 : (x / 2) % 2 ≡ (y / 2) % 2 = e 6 (omega arith) in
    let b7 : (x / 1) % 2 ≡ (y / 1) % 2 = e 7 (omega arith) in omega arith

list_ext :
    (xs ys : List ℕ)
    → length xs ≡ length ys
    → ((i : ℕ) → i < length xs → get_or xs i 0 ≡ get_or ys i 0)
    → xs ≡ ys
unfolding get_or
list_ext [] [] h e = refl
list_ext [] (y ∷ ys) h e = absurd (omega arith)
list_ext (x ∷ xs) [] h e = absurd (omega arith)
list_ext (x ∷ xs) (y ∷ ys) h e =
    ap₂ (λ (a : ℕ) (l : List ℕ). a ∷ l) (e 0 (omega arith))
      (list_ext xs ys (omega arith) (λ i lt. e (suc i) (omega arith)))

get_or-byte : (xs : List ℕ) (i : ℕ) → All (λ b. b < 256) xs → get_or xs i 0 < 256
unfolding get_or
get_or-byte [] i h = omega arith
get_or-byte (x ∷ xs) zero h = h.0
get_or-byte (x ∷ xs) (suc i) h = get_or-byte xs i h.1

pub bits_ext :
    (k t : Hash)
    → IsDigest k
    → IsDigest t
    → ((d : ℕ) → d < 256 → causal_bit k d ≡ causal_bit t d)
    → k ≡ t
unfolding causal_bit
bits_ext k t (n, p) (m, q) e = list_ext k t (omega arith) (λ i lt.
    byte_ext (get_or k i 0) (get_or t i 0) (get_or-byte k i p) (get_or-byte t i q) (λ j small.
      let quotient : (8 * i + j) / 8 ≡ i = omega arith in
      let rest : (8 * i + j) % 8 ≡ j = omega arith in
      rw (quotient, rest) at (e (8 * i + j) (omega arith))))
