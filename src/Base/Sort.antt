-- ===== src/Base/Sort.antt =====
-- `slices.Sort` and `sort.Slice`, as insertion sort.
use Prim.Native.Nat.{ℕ, ◌≤◌}
use mathlib.Core.Path.{refl}
use mathlib.Core.List.{List, [], ◌∷◌, Perm, Permᴰ}
use mathlib.Core.List.Permᴰ as PermD
use mathlib.Core.Logic.{inl, inr}
use native.Mathlib.Omega.{arith}
use gomatrixcrypto.Base.Tests.{leb, if◌then◌else◌, Bool-cases}
use gomatrixcrypto.Base.Lists.{All}

unfoldable pub insert_sorted : ℕ → List ℕ → List ℕ
insert_sorted x [] = x ∷ []
insert_sorted x (y ∷ ys) = if leb x y then x ∷ y ∷ ys else y ∷ insert_sorted x ys

unfoldable pub sort : List ℕ → List ℕ
unfolding insert_sorted
sort [] = []
sort (x ∷ xs) = insert_sorted x (sort xs)

-- Each element is at most all that follow it.
abbrev pub IsSorted : List ℕ → Type 0
IsSorted [] = Unit
IsSorted (x ∷ xs) = All (λ y. x ≤ y) xs × IsSorted xs

All-insert_sorted :
    {m : ℕ} (x : ℕ) (ys : List ℕ)
    → m ≤ x
    → All (λ y. m ≤ y) ys
    → All (λ y. m ≤ y) (insert_sorted x ys)
unfolding insert_sorted
All-insert_sorted x [] h g = (h, tt)
All-insert_sorted x (y ∷ ys) h g = ground (arith, All-insert_sorted x ys h g.1)

All-le_trans : (m n : ℕ) (ys : List ℕ) → m ≤ n → All (λ y. n ≤ y) ys → All (λ y. m ≤ y) ys
All-le_trans m n [] h g = tt
All-le_trans m n (y ∷ ys) h g = (omega arith, All-le_trans m n ys h g.1)

insert_sorted-IsSorted : (x : ℕ) (ys : List ℕ) → IsSorted ys → IsSorted (insert_sorted x ys)
unfolding insert_sorted
insert_sorted-IsSorted x [] s = (tt, tt)
insert_sorted-IsSorted x (y ∷ ys) s =
    ground
      (arith, insert_sorted-IsSorted x ys s.1, All-le_trans x y ys, All-insert_sorted {m = y} x ys)

pub sort-IsSorted : (xs : List ℕ) → IsSorted (sort xs)
unfolding sort
sort-IsSorted [] = tt
sort-IsSorted (x ∷ xs) = insert_sorted-IsSorted x (sort xs) (sort-IsSorted xs)

insert_sorted-permᴰ : (x : ℕ) (ys : List ℕ) → Permᴰ (insert_sorted x ys) (x ∷ ys)
unfolding insert_sorted
insert_sorted-permᴰ x [] = Permᴰ.cons refl Permᴰ.nil
insert_sorted-permᴰ x (y ∷ ys) = elim (Bool-cases (leb x y)) [
  | inl e ↦ rw e (PermD.refl (x ∷ y ∷ ys))
  | inr e ↦ rw e (Permᴰ.trans (Permᴰ.cons refl (insert_sorted-permᴰ x ys)) (Permᴰ.swap refl refl))
]

sort-permᴰ : (xs : List ℕ) → Permᴰ (sort xs) xs
unfolding sort
sort-permᴰ [] = Permᴰ.nil
sort-permᴰ (x ∷ xs) =
    Permᴰ.trans (insert_sorted-permᴰ x (sort xs)) (Permᴰ.cons refl (sort-permᴰ xs))

pub sort-perm : (xs : List ℕ) → Perm (sort xs) xs
sort-perm xs = ∣ sort-permᴰ xs ∣₁
