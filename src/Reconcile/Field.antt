-- ===== src/Reconcile/Field.antt =====
-- reconcile/gf64.go: multiplication in GF(2)[x] / (x^64 + x^4 + x^3 + x + 1). A uint64 is a number
-- below 2 ^ 64; the wrap-around of `0 - x` and of the left shift is written out.
use gomatrixcrypto.Base.{ℕ, zero, suc, ◌-◌, ◌*◌, ◌/◌, ◌%◌, ◌^◌, bit_and, ◌≡◌, refl}
use gomatrixcrypto.Base.Xor.{◌⊕◌}

abbrev pub reduction : ℕ
reduction = 0x1b

-- `0 - x` on a uint64.
abbrev pub neg64 : ℕ → ℕ
neg64 x = (2 ^ 64 - x) % 2 ^ 64

-- The rounds of the loop that are left, over (product, left, right).
unfoldable pub mul_rounds : ℕ → ℕ → ℕ → ℕ → ℕ
mul_rounds zero product left right = product
mul_rounds (suc rounds) product left right =
    let carry = left / 2 ^ 63 in
    mul_rounds rounds (product ⊕ bit_and left (neg64 (bit_and right 1)))
      (left * 2 % 2 ^ 64 ⊕ bit_and reduction (neg64 carry)) (right / 2)

unfoldable pub mul_bitwise : ℕ → ℕ → ℕ
unfolding mul_rounds
mul_bitwise left right = mul_rounds 64 0 left right

unfoldable pub mul : ℕ → ℕ → ℕ
unfolding mul_bitwise
mul left right = mul_bitwise left right

-- x^63 * x wraps to the reduction polynomial.
mul_wraps : mul (2 ^ 63) 2 ≡ 0x1b
unfolding mul
mul_wraps = refl
