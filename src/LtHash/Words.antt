-- ===== src/LtHash/Words.antt =====
-- Addition and subtraction of uint16 arrays, word by word and modulo 2 ^ 16.
use gomatrixcrypto.Base.{
  ℕ, suc, ◌+◌, ◌-◌, ◌%◌, ◌<◌, ◌≡◌, refl, ap, ap₂, ◌∙◌, List, [], ◌∷◌, length, All, arith,
}
use mathlib.Core.List.{Perm, Permᴰ}
use mathlib.Core.Logic.{∥∥₁_elim}

-- `h[i] += seed[i]` for each index; the arrays have one length.
unfoldable pub add_words : List ℕ → List ℕ → List ℕ
add_words [] ys = []
add_words (x ∷ xs) [] = x ∷ xs
add_words (x ∷ xs) (y ∷ ys) = ((x + y) % 65536) ∷ add_words xs ys

-- `h[i] -= seed[i]` for each index.
unfoldable pub sub_words : List ℕ → List ℕ → List ℕ
sub_words [] ys = []
sub_words (x ∷ xs) [] = x ∷ xs
sub_words (x ∷ xs) (y ∷ ys) = ((x + 65536 - y) % 65536) ∷ sub_words xs ys

abbrev pub AreU16 : List ℕ → Type 0
AreU16 xs = All (λ x. x < 65536) xs

pub add_words-AreU16 : (xs ys : List ℕ) → AreU16 xs → AreU16 (add_words xs ys)
unfolding add_words
add_words-AreU16 [] ys h = tt
add_words-AreU16 (x ∷ xs) [] h = h
add_words-AreU16 (x ∷ xs) (y ∷ ys) h = (omega arith, add_words-AreU16 xs ys h.1)

pub length-add_words : (xs ys : List ℕ) → length (add_words xs ys) ≡ length xs
unfolding add_words
length-add_words [] ys = refl
length-add_words (x ∷ xs) [] = refl
length-add_words (x ∷ xs) (y ∷ ys) = ap suc (length-add_words xs ys)

pub sub_words-add_words :
    (xs ys : List ℕ) → AreU16 xs → AreU16 ys → sub_words (add_words xs ys) ys ≡ xs
unfolding add_words sub_words
sub_words-add_words [] ys h g = refl
sub_words-add_words (x ∷ xs) [] h g = refl
sub_words-add_words (x ∷ xs) (y ∷ ys) h g =
    ap₂ (λ (a : ℕ) (l : List ℕ). a ∷ l) (omega arith) (sub_words-add_words xs ys h.1 g.1)

pub add_words_right_comm :
    (xs ys zs : List ℕ) → add_words (add_words xs ys) zs ≡ add_words (add_words xs zs) ys
unfolding add_words
add_words_right_comm [] ys zs = refl
add_words_right_comm (x ∷ xs) [] [] = refl
add_words_right_comm (x ∷ xs) [] (z ∷ zs) = refl
add_words_right_comm (x ∷ xs) (y ∷ ys) [] = refl
add_words_right_comm (x ∷ xs) (y ∷ ys) (z ∷ zs) =
    ap₂ (λ (a : ℕ) (l : List ℕ). a ∷ l) (omega arith) (add_words_right_comm xs ys zs)

-- `acc += w` for each array of a list.
unfoldable pub sum_words : List ℕ → List (List ℕ) → List ℕ
sum_words acc [] = acc
sum_words acc (w ∷ ws) = sum_words (add_words acc w) ws

sum_words-permᴰ :
    (acc : List ℕ) {vs ws : List (List ℕ)} → Permᴰ vs ws → sum_words acc vs ≡ sum_words acc ws
unfolding sum_words
sum_words-permᴰ acc Permᴰ.nil = refl
sum_words-permᴰ acc (Permᴰ.cons {a = v} {b = w} {l₁ = vs} {l₂ = ws} e p) =
    ap (λ (x : List ℕ). sum_words (add_words acc x) vs) e ∙ sum_words-permᴰ (add_words acc w) p
sum_words-permᴰ acc (Permᴰ.swap {a} {b} {a'} {b'} {l} e f) =
    rw (e, f) (ap (λ (x : List ℕ). sum_words x l) (add_words_right_comm acc b' a'))
sum_words-permᴰ acc (Permᴰ.trans p q) = sum_words-permᴰ acc p ∙ sum_words-permᴰ acc q

u16s_set : IsSet (List ℕ)
u16s_set = hlevel

pub sum_words-perm :
    (acc : List ℕ) {vs ws : List (List ℕ)} → Perm vs ws → sum_words acc vs ≡ sum_words acc ws
sum_words-perm acc p = ∥∥₁_elim p (u16s_set _ _) (sum_words-permᴰ acc)

pub sum_words-AreU16 : (acc : List ℕ) (ws : List (List ℕ)) → AreU16 acc → AreU16 (sum_words acc ws)
unfolding sum_words
sum_words-AreU16 acc [] h = h
sum_words-AreU16 acc (w ∷ ws) h = sum_words-AreU16 (add_words acc w) ws (add_words-AreU16 acc w h)

-- A word array added first can be added last.
pub sum_words_last :
    (acc z : List ℕ) (ws : List (List ℕ))
    → sum_words (add_words acc z) ws ≡ add_words (sum_words acc ws) z
unfolding sum_words
sum_words_last acc z [] = refl
sum_words_last acc z (w ∷ ws) =
    ap (λ (x : List ℕ). sum_words x ws) (add_words_right_comm acc z w)
    ∙ sum_words_last (add_words acc w) z ws
