-- ===== src/Base/Words.antt =====
-- Arrays of words combined element by element with exclusive or.
use Prim.Native.Nat.{ℕ, suc, ◌^◌, ◌<◌}
use mathlib.Core.Path.{◌≡◌, refl, sym, ap, ap₂, ◌∙◌}
use mathlib.Core.List.{List, [], ◌∷◌, ◌++◌, Perm, Permᴰ}
use mathlib.Core.Logic.{∥∥₁_elim}
use native.Mathlib.Omega.{arith}
use gomatrixcrypto.Base.Lists.{length, length-replicate, replicate, All}
use gomatrixcrypto.Base.Xor.{
  ◌⊕◌, xor_cancel_right, xor_right_comm, xor_self, zero-xor, xor-lt, xor_comm, xor_assoc,
  xor_interchange,
}

-- `for i := range xs { xs[i] ^= ys[i] }`; the arrays have one length.
unfoldable pub xor_words : List ℕ → List ℕ → List ℕ
xor_words [] ys = []
xor_words (x ∷ xs) [] = x ∷ xs
xor_words (x ∷ xs) (y ∷ ys) = (x ⊕ y) ∷ xor_words xs ys

pub length-xor_words : (xs ys : List ℕ) → length (xor_words xs ys) ≡ length xs
unfolding xor_words
length-xor_words [] ys = refl
length-xor_words (x ∷ xs) [] = refl
length-xor_words (x ∷ xs) (y ∷ ys) = ap suc (length-xor_words xs ys)

pub xor_words_cancel_right : (xs ys : List ℕ) → xor_words (xor_words xs ys) ys ≡ xs
unfolding xor_words
xor_words_cancel_right [] ys = refl
xor_words_cancel_right (x ∷ xs) [] = refl
xor_words_cancel_right (x ∷ xs) (y ∷ ys) =
    ap₂ (λ (a : ℕ) (l : List ℕ). a ∷ l) (xor_cancel_right x y) (xor_words_cancel_right xs ys)

pub xor_words_right_comm :
    (xs ys zs : List ℕ) → xor_words (xor_words xs ys) zs ≡ xor_words (xor_words xs zs) ys
unfolding xor_words
xor_words_right_comm [] ys zs = refl
xor_words_right_comm (x ∷ xs) [] [] = refl
xor_words_right_comm (x ∷ xs) [] (z ∷ zs) = refl
xor_words_right_comm (x ∷ xs) (y ∷ ys) [] = refl
xor_words_right_comm (x ∷ xs) (y ∷ ys) (z ∷ zs) =
    ap₂ (λ (a : ℕ) (l : List ℕ). a ∷ l) (xor_right_comm x y z) (xor_words_right_comm xs ys zs)

pub xor_words_comm : (xs ys : List ℕ) → length xs ≡ length ys → xor_words xs ys ≡ xor_words ys xs
unfolding xor_words
xor_words_comm [] [] h = refl
xor_words_comm [] (y ∷ ys) h = absurd (omega arith)
xor_words_comm (x ∷ xs) [] h = absurd (omega arith)
xor_words_comm (x ∷ xs) (y ∷ ys) h =
    ap₂ (λ (a : ℕ) (l : List ℕ). a ∷ l) (xor_comm x y) (xor_words_comm xs ys (omega arith))

pub xor_words_assoc :
    (xs ys zs : List ℕ)
    → length ys ≡ length xs
    → length zs ≡ length xs
    → xor_words (xor_words xs ys) zs ≡ xor_words xs (xor_words ys zs)
unfolding xor_words
xor_words_assoc [] ys zs h k = refl
xor_words_assoc (x ∷ xs) [] zs h k = absurd (omega arith)
xor_words_assoc (x ∷ xs) (y ∷ ys) [] h k = absurd (omega arith)
xor_words_assoc (x ∷ xs) (y ∷ ys) (z ∷ zs) h k =
    ap₂ (λ (a : ℕ) (l : List ℕ). a ∷ l) (xor_assoc x y z)
      (xor_words_assoc xs ys zs (omega arith) (omega arith))

pub xor_words-zeros : (xs : List ℕ) → xor_words (replicate (length xs) 0) xs ≡ xs
unfolding xor_words replicate
xor_words-zeros [] = refl
xor_words-zeros (x ∷ xs) = ap₂ (λ (a : ℕ) (l : List ℕ). a ∷ l) (zero-xor x) (xor_words-zeros xs)

pub xor_words_self : (xs : List ℕ) → xor_words xs xs ≡ replicate (length xs) 0
unfolding xor_words replicate
xor_words_self [] = refl
xor_words_self (x ∷ xs) = ap₂ (λ (a : ℕ) (l : List ℕ). a ∷ l) (xor_self x) (xor_words_self xs)

pub All-xor_words :
    (k : ℕ) (xs ys : List ℕ)
    → All (λ x. x < 2 ^ k) xs
    → All (λ x. x < 2 ^ k) ys
    → All (λ x. x < 2 ^ k) (xor_words xs ys)
unfolding xor_words
All-xor_words k [] ys h g = tt
All-xor_words k (x ∷ xs) [] h g = h
All-xor_words k (x ∷ xs) (y ∷ ys) h g = (xor-lt k x y h.0 g.0, All-xor_words k xs ys h.1 g.1)

xor_shared : (c x y : ℕ) → (c ⊕ x) ⊕ (c ⊕ y) ≡ x ⊕ y
xor_shared c x y = rw (xor_interchange, xor_self, zero-xor)

-- What two arrays share drops out of their difference.
pub xor_words_shared :
    (cs xs ys : List ℕ)
    → length xs ≡ length cs
    → length ys ≡ length cs
    → xor_words (xor_words cs xs) (xor_words cs ys) ≡ xor_words xs ys
unfolding xor_words
xor_words_shared [] [] [] h k = refl
xor_words_shared [] [] (y ∷ ys) h k = refl
xor_words_shared [] (x ∷ xs) ys h k = absurd (omega arith)
xor_words_shared (c ∷ cs) [] ys h k = absurd (omega arith)
xor_words_shared (c ∷ cs) (x ∷ xs) [] h k = absurd (omega arith)
xor_words_shared (c ∷ cs) (x ∷ xs) (y ∷ ys) h k =
    ap₂ (λ (a : ℕ) (l : List ℕ). a ∷ l) (xor_shared c x y)
      (xor_words_shared cs xs ys (omega arith) (omega arith))

-- `acc ^= w` for each array of a list.
unfoldable pub fold_words : List ℕ → List (List ℕ) → List ℕ
unfolding xor_words
fold_words acc [] = acc
fold_words acc (w ∷ ws) = fold_words (xor_words acc w) ws

pub length-fold_words :
    (acc : List ℕ) (ws : List (List ℕ)) → length (fold_words acc ws) ≡ length acc
unfolding fold_words
length-fold_words acc [] = refl
length-fold_words acc (w ∷ ws) = length-fold_words (xor_words acc w) ws ∙ length-xor_words acc w

pub fold_words-append :
    (acc : List ℕ) (vs ws : List (List ℕ))
    → fold_words acc (vs ++ ws) ≡ fold_words (fold_words acc vs) ws
unfolding fold_words
fold_words-append acc [] ws = refl
fold_words-append acc (v ∷ vs) ws = fold_words-append (xor_words acc v) vs ws

-- The order of the arrays does not matter.
fold_words-permᴰ :
    (acc : List ℕ) {vs ws : List (List ℕ)} → Permᴰ vs ws → fold_words acc vs ≡ fold_words acc ws
unfolding fold_words
fold_words-permᴰ acc Permᴰ.nil = refl
fold_words-permᴰ acc (Permᴰ.cons {a = v} {b = w} {l₁ = vs} {l₂ = ws} e p) =
    ap (λ (x : List ℕ). fold_words (xor_words acc x) vs) e ∙ fold_words-permᴰ (xor_words acc w) p
fold_words-permᴰ acc (Permᴰ.swap {a} {b} {a'} {b'} {l} e f) =
    rw (e, f) (ap (λ (x : List ℕ). fold_words x l) (xor_words_right_comm acc b' a'))
fold_words-permᴰ acc (Permᴰ.trans p q) = fold_words-permᴰ acc p ∙ fold_words-permᴰ acc q

words_set : IsSet (List ℕ)
words_set = hlevel

pub fold_words-perm :
    (acc : List ℕ) {vs ws : List (List ℕ)} → Perm vs ws → fold_words acc vs ≡ fold_words acc ws
fold_words-perm acc p = ∥∥₁_elim p (words_set _ _) (fold_words-permᴰ acc)

module _ (n : ℕ) where
  abbrev pub zeros : List ℕ
  zeros = replicate n 0

  -- Folding from `acc` adds the fold from zero.
  pub fold_words_shift :
      (acc : List ℕ) (ws : List (List ℕ))
      → length acc ≡ n
      → All (λ w. length w ≡ n) ws
      → fold_words acc ws ≡ xor_words acc (fold_words zeros ws)
  unfolding fold_words
  fold_words_shift acc [] h g = rw (← h) (
      sym (
        xor_words_comm acc (replicate (length acc) 0) (sym (length-replicate (length acc) 0))
        ∙ xor_words-zeros acc))
  fold_words_shift acc (w ∷ ws) h g =
      let z : length zeros ≡ n = length-replicate n 0 in
      let zw : xor_words zeros w ≡ w = rw (← g.0) (xor_words-zeros w) in
      let lw : length (fold_words zeros ws) ≡ n = length-fold_words zeros ws ∙ z in
      fold_words_shift (xor_words acc w) ws (length-xor_words acc w ∙ h) g.1
      ∙ xor_words_assoc acc w (fold_words zeros ws) (g.0 ∙ sym h) (lw ∙ sym h)
      ∙ ap (xor_words acc) (
          ap (λ (x : List ℕ). xor_words x (fold_words zeros ws)) (sym zw)
          ∙ sym (fold_words_shift (xor_words zeros w) ws (length-xor_words zeros w ∙ z) g.1))

  -- The difference of two populations with a common part is the fold of what is not common.
  pub fold_words_difference :
      (cs xs ys : List (List ℕ))
      → All (λ w. length w ≡ n) xs
      → All (λ w. length w ≡ n) ys
      → xor_words (fold_words zeros (cs ++ xs)) (fold_words zeros (cs ++ ys))
        ≡ fold_words zeros (xs ++ ys)
  fold_words_difference cs xs ys hx hy =
      let z : (ws : List (List ℕ)) → length (fold_words zeros ws) ≡ n =
        λ ws. length-fold_words zeros ws ∙ length-replicate n 0 in
      ap₂ xor_words
        (fold_words-append zeros cs xs ∙ fold_words_shift (fold_words zeros cs) xs (z cs) hx)
        (fold_words-append zeros cs ys ∙ fold_words_shift (fold_words zeros cs) ys (z cs) hy)
      ∙ xor_words_shared (fold_words zeros cs) (fold_words zeros xs) (fold_words zeros ys)
          (z xs ∙ sym (z cs)) (z ys ∙ sym (z cs))
      ∙ sym (fold_words-append zeros xs ys ∙ fold_words_shift (fold_words zeros xs) ys (z xs) hy)
