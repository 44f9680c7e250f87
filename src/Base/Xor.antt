-- ===== src/Base/Xor.antt =====
-- The laws of exclusive or, from the digits of its arguments.
use Prim.Native.Nat.{
  ℕ, zero, suc, ◌+◌, ◌*◌, ◌/◌, ◌%◌, ◌^◌, ◌≤◌, ◌<◌, bit_xor, digits, differ, bit_xor-bitwise,
}
use mathlib.Core.Path.{◌≡◌, refl, sym, ap, ◌∙◌}
use native.Mathlib.Omega.{arith}
use native.Mathlib.Nat.{pow-suc}

infixl 60 ◌⊕◌
abbrev pub ◌⊕◌ : ℕ → ℕ → ℕ
◌⊕◌ = bit_xor

-- The native operation means a recursion on binary digits with fuel; here the fuel is dropped.
xor_digits_fuel :
    (n m a b : ℕ) → a ≤ n → a ≤ m → digits (λ y. y) differ n a b ≡ digits (λ y. y) differ m a b
xor_digits_fuel zero zero a b p q = refl
xor_digits_fuel zero (suc m) zero b p q = refl
xor_digits_fuel zero (suc m) (suc a) b p q = absurd (omega arith)
xor_digits_fuel (suc n) zero zero b p q = refl
xor_digits_fuel (suc n) zero (suc a) b p q = absurd (omega arith)
xor_digits_fuel (suc n) (suc m) zero b p q = refl
xor_digits_fuel (suc n) (suc m) (suc a) b p q =
    rw (xor_digits_fuel n m (suc a / 2) (b / 2) (omega arith) (omega arith))

differ_digits : (x y : ℕ) → x < 2 → y < 2 → differ x y ≡ (x + y) % 2
differ_digits zero y h k = omega arith
differ_digits (suc zero) zero h k = refl
differ_digits (suc zero) (suc zero) h k = refl
differ_digits (suc zero) (suc (suc y)) h k = absurd (omega arith)
differ_digits (suc (suc x)) y h k = absurd (omega arith)

differ_lem : (a b : ℕ) → differ (a % 2) (b % 2) ≡ (a + b) % 2
differ_lem a b = omega (arith, differ_digits (a % 2) (b % 2) (omega arith) (omega arith))

pub xor_step : (a b : ℕ) → a ⊕ b ≡ (a / 2 ⊕ b / 2) * 2 + (a + b) % 2
xor_step zero b = omega (arith, bit_xor-bitwise 0 b, bit_xor-bitwise 0 (b / 2))
xor_step (suc a) b = omega (
  arith,
  bit_xor-bitwise (suc a) b,
  bit_xor-bitwise (suc a / 2) (b / 2),
  differ_lem (suc a) b,
  xor_digits_fuel a (suc a / 2) (suc a / 2) (b / 2) (omega arith) (omega arith),
)

pub xor_half : (a b : ℕ) → (a ⊕ b) / 2 ≡ a / 2 ⊕ b / 2
xor_half a b = omega (arith, xor_step a b)

xor_parity : (a b : ℕ) → (a ⊕ b) % 2 ≡ (a + b) % 2
xor_parity a b = omega (arith, xor_step a b)

pub zero-xor : (b : ℕ) → 0 ⊕ b ≡ b
zero-xor b = bit_xor-bitwise 0 b

-- Each law by halving all its arguments, on fuel that bounds them.
xor_comm_fuel : (n a b : ℕ) → a ≤ n → b ≤ n → a ⊕ b ≡ b ⊕ a
xor_comm_fuel zero zero zero p q = refl
xor_comm_fuel zero zero (suc b) p q = absurd (omega arith)
xor_comm_fuel zero (suc a) b p q = absurd (omega arith)
xor_comm_fuel (suc n) a b p q =
    omega (arith, xor_step a b, xor_step b a, xor_comm_fuel n (a / 2) (b / 2))

xor_self_fuel : (n a : ℕ) → a ≤ n → a ⊕ a ≡ 0
xor_self_fuel zero zero p = refl
xor_self_fuel zero (suc a) p = absurd (omega arith)
xor_self_fuel (suc n) a p = omega (arith, xor_step a a, xor_self_fuel n (a / 2))

xor_assoc_fuel : (n a b c : ℕ) → a ≤ n → b ≤ n → c ≤ n → (a ⊕ b) ⊕ c ≡ a ⊕ (b ⊕ c)
xor_assoc_fuel zero zero b c p q r = ap (λ (x : ℕ). x ⊕ c) (zero-xor b) ∙ sym (zero-xor (b ⊕ c))
xor_assoc_fuel zero (suc a) b c p q r = absurd (omega arith)
xor_assoc_fuel (suc n) a b c p q r = omega (
  arith,
  xor_step (a ⊕ b) c,
  xor_step a (b ⊕ c),
  ap (λ (x : ℕ). x ⊕ c / 2) (xor_half a b),
  ap (λ (x : ℕ). a / 2 ⊕ x) (xor_half b c),
  xor_parity a b,
  xor_parity b c,
  xor_assoc_fuel n (a / 2) (b / 2) (c / 2),
)

pub xor_comm : (a b : ℕ) → a ⊕ b ≡ b ⊕ a
xor_comm a b = xor_comm_fuel (a + b) a b (omega arith) (omega arith)

pub xor_self : (a : ℕ) → a ⊕ a ≡ 0
xor_self a = xor_self_fuel a a (omega arith)

pub xor_assoc : (a b c : ℕ) → (a ⊕ b) ⊕ c ≡ a ⊕ (b ⊕ c)
xor_assoc a b c = xor_assoc_fuel (a + b + c) a b c (omega arith) (omega arith) (omega arith)

pub xor-zero : (a : ℕ) → a ⊕ 0 ≡ a
xor-zero a = rw xor_comm (zero-xor a)

pub xor_cancel_right : (a b : ℕ) → (a ⊕ b) ⊕ b ≡ a
xor_cancel_right a b = rw (xor_assoc, xor_self, xor-zero)

pub xor_right_comm : (a b c : ℕ) → (a ⊕ b) ⊕ c ≡ (a ⊕ c) ⊕ b
xor_right_comm a b c =
    xor_assoc a b c ∙ ap (λ (x : ℕ). a ⊕ x) (xor_comm b c) ∙ sym (xor_assoc a c b)

pub xor_interchange : (a b c d : ℕ) → (a ⊕ b) ⊕ (c ⊕ d) ≡ (a ⊕ c) ⊕ (b ⊕ d)
xor_interchange a b c d =
    sym (xor_assoc (a ⊕ b) c d)
    ∙ ap (λ (x : ℕ). x ⊕ d) (xor_right_comm a b c)
    ∙ xor_assoc (a ⊕ c) b d

-- Equal words are those whose exclusive or is zero.
pub eq_of_xor-zero : (a b : ℕ) → a ⊕ b ≡ 0 → a ≡ b
eq_of_xor-zero a b h = sym (xor_cancel_right a b) ∙ ap (λ (x : ℕ). x ⊕ b) h ∙ zero-xor b

-- A word stays a word, at every width.
pub xor-lt : (k a b : ℕ) → a < 2 ^ k → b < 2 ^ k → a ⊕ b < 2 ^ k
xor-lt zero a b p q =
    let ea : a ≡ 0 = omega arith in let eb : b ≡ 0 = omega arith in rw (ea, eb) (omega arith)
xor-lt (suc k) a b p q = omega (
  arith,
  xor_step a b,
  pow-suc 2 k,
  xor-lt k (a / 2) (b / 2) (omega (arith, pow-suc 2 k)) (omega (arith, pow-suc 2 k)),
)

-- Shifts and masks distribute.
pub xor-double : (a b : ℕ) → (a * 2) ⊕ (b * 2) ≡ (a ⊕ b) * 2
xor-double a b =
    let ea : a * 2 / 2 ≡ a = omega arith in
    let eb : b * 2 / 2 ≡ b = omega arith in xor_step (a * 2) (b * 2) ∙ rw (ea, eb) (omega arith)
