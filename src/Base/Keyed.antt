-- ===== src/Base/Keyed.antt =====
-- Strings in the order of their bytes, and entries in the order of their keys.
use Prim.Native.Nat.{ℕ}
use mathlib.Core.Path.{◌≡◌, refl}
use mathlib.Core.Bool.{Bool, true, false}
use mathlib.Core.Logic.{◌≢◌, ◌⊎◌, inl, inr}
use mathlib.Core.List.{List, [], ◌∷◌}
use native.Mathlib.Omega.{arith}
use gomatrixcrypto.Base.Tests.{ltb, ◌==◌, if◌then◌else◌, Bool-cases}

-- `a <= b` on strings.
unfoldable pub text_leb : List ℕ → List ℕ → Bool
text_leb [] ys = true
text_leb (x ∷ xs) [] = false
text_leb (x ∷ xs) (y ∷ ys) = if ltb x y then true else if x == y then text_leb xs ys else false

pub text_leb_refl : (xs : List ℕ) → text_leb xs xs ≡ true
unfolding text_leb
text_leb_refl [] = refl
text_leb_refl (x ∷ xs) = ground (arith, text_leb_refl xs)

pub text_leb_total : (xs ys : List ℕ) → text_leb xs ys ≡ false → text_leb ys xs ≡ true
unfolding text_leb
text_leb_total [] ys e = absurd (ground arith)
text_leb_total (x ∷ xs) [] e = refl
text_leb_total (x ∷ xs) (y ∷ ys) e = ground (arith, text_leb_total xs ys)

pub text_leb_antisym : (xs ys : List ℕ) → text_leb xs ys ≡ true → text_leb ys xs ≡ true → xs ≡ ys
unfolding text_leb
text_leb_antisym [] [] e f = refl
text_leb_antisym [] (y ∷ ys) e f = absurd (ground arith)
text_leb_antisym (x ∷ xs) [] e f = absurd (ground arith)
text_leb_antisym (x ∷ xs) (y ∷ ys) e f = ground (arith, text_leb_antisym xs ys)

pub text_leb_trans :
    (xs ys zs : List ℕ) → text_leb xs ys ≡ true → text_leb ys zs ≡ true → text_leb xs zs ≡ true
unfolding text_leb
text_leb_trans [] ys zs e f = refl
text_leb_trans (x ∷ xs) [] zs e f = absurd (ground arith)
text_leb_trans (x ∷ xs) (y ∷ ys) [] e f = absurd (ground arith)
text_leb_trans (x ∷ xs) (y ∷ ys) (z ∷ zs) e f = ground (arith, text_leb_trans xs ys zs)

pub order_cases :
    (xs ys : List ℕ)
    → xs ≢ ys
    → ((text_leb xs ys ≡ true) × (text_leb ys xs ≡ false))
      ⊎ ((text_leb xs ys ≡ false) × (text_leb ys xs ≡ true))
order_cases xs ys ne = elim (Bool-cases (text_leb xs ys)) [
  | inr after ↦ inr (after, text_leb_total xs ys after)
  | inl before ↦ elim (Bool-cases (text_leb ys xs)) [
    | inl same ↦ absurd (ne (text_leb_antisym xs ys before same))
    | inr less ↦ inl (before, less)
  ]
]

module _ {ℓ} {A : Type ℓ} where
  unfoldable pub insert_by_key : List ℕ × A → List (List ℕ × A) → List (List ℕ × A)
  insert_by_key a [] = a ∷ []
  insert_by_key a (b ∷ bs) = if text_leb a.0 b.0 then a ∷ b ∷ bs else b ∷ insert_by_key a bs

  -- `sort.Strings` on keys, or `sort.Slice` by a name, as insertion sort.
  unfoldable pub sort_by_key : List (List ℕ × A) → List (List ℕ × A)
  sort_by_key [] = []
  sort_by_key (a ∷ as_) = insert_by_key a (sort_by_key as_)

  pub insert_by_key_comm :
      (a b : List ℕ × A) (cs : List (List ℕ × A))
      → a.0 ≢ b.0
      → insert_by_key a (insert_by_key b cs) ≡ insert_by_key b (insert_by_key a cs)
  unfolding insert_by_key
  insert_by_key_comm a b [] ne = let o = order_cases a.0 b.0 ne in ground arith
  insert_by_key_comm a b (c ∷ cs) ne =
      let o = order_cases a.0 b.0 ne in
      ground (
        arith,
        text_leb_trans a.0 b.0 c.0,
        text_leb_trans b.0 a.0 c.0,
        text_leb_total a.0 c.0,
        text_leb_total b.0 c.0,
        text_leb_trans c.0 a.0 b.0,
        text_leb_trans a.0 c.0 b.0,
        text_leb_trans b.0 c.0 a.0,
        insert_by_key_comm a b cs ne,
      )
