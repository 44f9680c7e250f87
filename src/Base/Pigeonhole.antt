-- ===== src/Base/Pigeonhole.antt =====
-- Numbers that differ and lie below a bound are no more than the bound.
use gomatrixcrypto.Base.Tests.{◌==◌, if◌then◌else◌}
use Prim.Native.Nat.{ℕ, zero, suc, ◌≤◌, ◌<◌}
use mathlib.Core.Logic.{◌≢◌}
use native.Mathlib.Omega.{arith}

abbrev Injective : ℕ → (ℕ → ℕ) → Type 0
Injective n f = (k l : ℕ) → k < l → l < n → f k ≢ f l

-- The value m is replaced by the last one.
abbrev fold_in : ℕ → ℕ → (ℕ → ℕ) → ℕ → ℕ
fold_in m last f k = if f k == m then last else f k

pub pigeonhole : (m n : ℕ) (f : ℕ → ℕ) → ((k : ℕ) → k < n → f k < m) → Injective n f → n ≤ m
pigeonhole m zero f below apart = omega arith
pigeonhole zero (suc n) f below apart = absurd (omega (arith, below n (omega arith)))
pigeonhole (suc m) (suc n) f below apart = omega (
  arith,
  pigeonhole m n (fold_in m (f n) f)
      (λ k lt.
        let a = below k (omega arith) in
        let b = below n (omega arith) in let c = apart k n lt (omega arith) in ground arith)
      (λ k l lt le.
        let c = apart k l lt (omega arith) in
        let d = apart k n (omega arith) (omega arith) in
        let e = apart l n le (omega arith) in λ same. absurd (ground arith)),
)
