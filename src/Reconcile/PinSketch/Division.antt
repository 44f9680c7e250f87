-- ===== src/Reconcile/PinSketch/Division.antt =====
-- reconcile/pinsketch.go: the lengths of remainders and the fuel of the Euclidean loop.
use gomatrixcrypto.Base.{
  ℕ, zero, suc, ◌-◌, ◌≤◌, ◌<◌, ◌≡◌, refl, sym, ap, ◌∙◌, List, [], ◌∷◌, Option, none, some, length,
  map, drop_last, length-drop_last, last_or, arith, Bool-cases, Option-cases, inl, inr, leb, ltb,
  ◌==◌, if◌then◌else◌,
}
use gomatrixcrypto.Base.Words.{length-xor_words}
use gomatrixcrypto.Reconcile.Field.{mul}
use gomatrixcrypto.Reconcile.PinSketch.{
  Polynomial, trim, make_monic, xor_at, reduce_last, mod_loop, is_not_monic, poly_mod, gcd_loop,
  poly_gcd, poly_gcd_within, gf64_inv,
}

length-xor_at :
    (offset : ℕ) (values terms : List ℕ) → length (xor_at offset values terms) ≡ length values
unfolding xor_at
length-xor_at zero values terms = length-xor_words values terms
length-xor_at (suc offset) [] terms = refl
length-xor_at (suc offset) (v ∷ values) terms = ap suc (length-xor_at offset values terms)

length-reduce_last :
    (modulus value : Polynomial) → length (reduce_last modulus value) ≡ length value - 1
unfolding reduce_last
length-reduce_last modulus value = elim (Bool-cases (last_or value 0 == 0)) [
  | inl e ↦ rw e (length-drop_last value)
  | inr e ↦ rw e (length-xor_at _ (drop_last value) _ ∙ length-drop_last value)
]

trim_step :
    (c : ℕ) (cs trimmed : Polynomial)
    → length trimmed ≤ length cs
    → length (elim trimmed [ [] ↦ if c == 0 then [] else c ∷ [] | d ∷ ds ↦ c ∷ d ∷ ds ])
      ≤ suc (length cs)
trim_step c cs [] h = elim (Bool-cases (c == 0)) [
  | inl e ↦ rw e (omega arith)
  | inr e ↦ rw e (omega arith)
]
trim_step c cs (d ∷ ds) h = omega arith

length-trim : (value : Polynomial) → length (trim value) ≤ length value
unfolding trim
length-trim [] = omega arith
length-trim (c ∷ cs) = trim_step c cs (trim cs) (length-trim cs)

mod_loop_shorter :
    (fuel : ℕ) (modulus value : Polynomial)
    → 0 < length modulus
    → length value ≤ fuel
    → length (mod_loop fuel modulus value) < length modulus
unfolding mod_loop
mod_loop_shorter zero modulus value m p = omega arith
mod_loop_shorter (suc fuel) modulus value m p =
    elim (Bool-cases (leb (length modulus) (length value))) [
      | inl e ↦
          let shorter = length-reduce_last modulus value in
          rw e (mod_loop_shorter fuel modulus (reduce_last modulus value) m (ground arith))
      | inr e ↦ rw e (ground arith)
    ]

poly_mod_shorter :
    (modulus value : Polynomial) {remainder : Polynomial}
    → poly_mod modulus value ≡ some remainder
    → length remainder < length modulus
unfolding poly_mod
poly_mod_shorter modulus value {remainder} e = elim (Bool-cases (is_not_monic modulus)) [
  | inl bad ↦ absurd (ground arith)
  | inr monic ↦
      let some_modulus : 0 < length modulus = unfold is_not_monic in ground arith in
      let short = mod_loop_shorter (length value) modulus value some_modulus (omega arith) in
      let trimmed = length-trim (mod_loop (length value) modulus value) in
      let same : trim (mod_loop (length value) modulus value) ≡ remainder = ground arith in
      rw (← same) (omega arith)
]

length-map-mul : (a : ℕ) (p : Polynomial) → length (map (λ c. mul c a) p) ≡ length p
length-map-mul a [] = refl
length-map-mul a (c ∷ p) = ap suc (length-map-mul a p)

make_monic-length : (p : Polynomial) {q : Polynomial} → make_monic p ≡ some q → length q ≡ length p
unfolding make_monic
make_monic-length [] e = absurd (ground arith)
make_monic-length (c ∷ cs) {q} e = elim (Bool-cases (last_or (c ∷ cs) 0 == 1)) [
  | inl one ↦ let same : c ∷ cs ≡ q = ground arith in ap length (sym same)
  | inr more ↦ elim (Option-cases (gf64_inv (last_or (c ∷ cs) 0))) [
    | inl zero_leading ↦ absurd (ground arith)
    | inr (inverse, found) ↦
        let same : map (λ a. mul a inverse) (c ∷ cs) ≡ q = ground arith in
        ap length (sym same) ∙ length-map-mul inverse (c ∷ cs)
  ]
]

-- Each remainder is shorter than its divisor, so fuel for the divisor does not run out.
gcd_loop_ends :
    (f g : ℕ) (left right : Polynomial)
    → length right ≤ f
    → length right ≤ g
    → (result : Option Polynomial) × (gcd_loop f left right ≡ some result)
      × (gcd_loop g left right ≡ some result)
unfolding gcd_loop
gcd_loop_ends f g left [] p q = (make_monic left, refl, refl)
gcd_loop_ends zero g left (c ∷ cs) p q = absurd (omega arith)
gcd_loop_ends (suc f) zero left (c ∷ cs) p q = absurd (omega arith)
gcd_loop_ends (suc f) (suc g) left (c ∷ cs) p q = elim (Option-cases (make_monic (c ∷ cs))) [
  | inl e ↦ (none, rw (e, gcd_loop) refl, rw (e, gcd_loop) refl)
  | inr (right, e) ↦ elim (Option-cases (poly_mod right left)) [
    | inl e' ↦ (none, rw (e, gcd_loop, e') refl, rw (e, gcd_loop, e') refl)
    | inr (remainder, e') ↦
        let same = make_monic-length (c ∷ cs) e in
        let shorter = poly_mod_shorter right left e' in
        let (result, ends, also) = gcd_loop_ends f g right remainder (omega arith) (omega arith) in
        (result, rw (e, gcd_loop, e') ends, rw (e, gcd_loop, e') also)
  ]
]

-- The Euclidean loop ends by its own tests, for any two polynomials: with fuel for the length of the
-- right one, or more, it does not run out of fuel and returns what polyGCD returns, a failure
-- included.
pub poly_gcd_lem :
    (fuel : ℕ) (left right : Polynomial)
    → length right ≤ fuel
    → poly_gcd_within fuel left right ≡ some (poly_gcd left right)
unfolding poly_gcd poly_gcd_within
poly_gcd_lem fuel left right p = elim (Bool-cases (ltb (length left) (length right))) [
  | inl swap ↦
      let shorter : length left ≤ length right = ground arith in
      let (result, ends, also) =
        gcd_loop_ends fuel (length right) right left (omega arith) shorter in
      rw (swap, ends, also) refl
  | inr keep ↦
      let (result, ends, also) = gcd_loop_ends fuel (length right) left right p (omega arith) in
      rw (keep, ends, also) refl
]
