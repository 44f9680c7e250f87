-- ===== src/Base/Bytes.antt =====
-- Little-endian and big-endian words as bytes, as `encoding/binary` lays them out.
use Prim.Native.Nat.{ℕ, zero, suc, ◌+◌, ◌*◌, ◌/◌, ◌%◌, ◌^◌, ◌<◌}
use Prim.Native.Char.{code}
use Prim.Native.String.{String}
use mathlib.Core.Path.{◌≡◌, refl, ap, ap₂, ◌∙◌}
use mathlib.Core.List.{List, [], ◌∷◌, ◌++◌, reverse}
use native.Mathlib.Omega.{arith}
use native.Mathlib.Nat.{pow-suc, one-le-pow}
use gomatrixcrypto.Base.Lists.{
  length, All, take, drop, length-append, take-length-append, drop-length-append,
}

-- The bytes of a text of ASCII characters.
abbrev pub codes : String → List ℕ
codes String.[] = []
codes (String.◌∷◌ c s) = code c ∷ codes s

-- The `n` bytes of a word, lowest first: `LittleEndian.PutUint16`, `PutUint64`.
unfoldable pub put_le : ℕ → ℕ → List ℕ
put_le zero v = []
put_le (suc n) v = (v % 256) ∷ put_le n (v / 256)

-- `LittleEndian.Uint16`, `Uint64` on a slice of that many bytes.
unfoldable pub get_le : List ℕ → ℕ
get_le [] = 0
get_le (b ∷ bs) = b + 256 * get_le bs

-- `BigEndian.PutUint16`, `PutUint64`.
unfoldable pub put_be : ℕ → ℕ → List ℕ
put_be n v = reverse (put_le n v)

-- `BigEndian.Uint64`.
unfoldable pub get_be : List ℕ → ℕ
get_be bs = get_le (reverse bs)

pub length-put_le : (n v : ℕ) → length (put_le n v) ≡ n
unfolding put_le
length-put_le zero v = refl
length-put_le (suc n) v = ap suc (length-put_le n (v / 256))

pub get_le-put_le : (n v : ℕ) → v < 256 ^ n → get_le (put_le n v) ≡ v
unfolding put_le get_le
get_le-put_le zero v h = omega arith
get_le-put_le (suc n) v h = omega (arith, get_le-put_le n (v / 256) (omega (arith, pow-suc 256 n)))

pub put_le-get_le : (bs : List ℕ) → All (λ b. b < 256) bs → put_le (length bs) (get_le bs) ≡ bs
unfolding put_le get_le
put_le-get_le [] h = refl
put_le-get_le (b ∷ bs) h =
    let e : (b + 256 * get_le bs) / 256 ≡ get_le bs = omega arith in
    ap₂ (λ (a : ℕ) (l : List ℕ). a ∷ l) (omega arith) (rw e (put_le-get_le bs h.1))

-- The words of an array as bytes, `n` bytes to a word, and back.
unfoldable pub put_words : ℕ → List ℕ → List ℕ
put_words n [] = []
put_words n (v ∷ vs) = put_le n v ++ put_words n vs

-- `count` words of `n` bytes, read at `bytes[i*n:]` for each i below `count`.
unfoldable pub get_words : ℕ → ℕ → List ℕ → List ℕ
get_words n zero bs = []
get_words n (suc count) bs = get_le (take n bs) ∷ get_words n count (drop n bs)

pub length-put_words : (n : ℕ) (vs : List ℕ) → length (put_words n vs) ≡ length vs * n
unfolding put_words
length-put_words n [] = omega arith
length-put_words n (v ∷ vs) =
    omega
      (arith, length-append (put_le n v) (put_words n vs), length-put_le n v, length-put_words n vs)

pub length-get_words : (n count : ℕ) (bs : List ℕ) → length (get_words n count bs) ≡ count
unfolding get_words
length-get_words n zero bs = refl
length-get_words n (suc count) bs = ap suc (length-get_words n count (drop n bs))

take-put_le : (n v : ℕ) (rest : List ℕ) → take n (put_le n v ++ rest) ≡ put_le n v
take-put_le n v rest = rw (length-put_le n v) at (take-length-append (put_le n v) rest)

drop-put_le : (n v : ℕ) (rest : List ℕ) → drop n (put_le n v ++ rest) ≡ rest
drop-put_le n v rest = rw (length-put_le n v) at (drop-length-append (put_le n v) rest)

pub get_words-put_words :
    (n : ℕ) (vs : List ℕ)
    → All (λ v. v < 256 ^ n) vs
    → get_words n (length vs) (put_words n vs) ≡ vs
unfolding get_words put_words
get_words-put_words n [] h = refl
get_words-put_words n (v ∷ vs) h =
    ap₂ (λ (a : ℕ) (l : List ℕ). a ∷ l)
      (ap get_le (take-put_le n v (put_words n vs)) ∙ get_le-put_le n v h.0)
      (ap (get_words n (length vs)) (drop-put_le n v (put_words n vs))
        ∙ get_words-put_words n vs h.1)

All-drop : (n : ℕ) (bs : List ℕ) → All (λ b. b < 256) bs → All (λ b. b < 256) (drop n bs)
unfolding drop
All-drop zero bs h = h
All-drop (suc n) [] h = tt
All-drop (suc n) (b ∷ bs) h = All-drop n bs h.1

-- Bytes make a word of their width.
get_le-take-lt : (n : ℕ) (bs : List ℕ) → All (λ b. b < 256) bs → get_le (take n bs) < 256 ^ n
unfolding take get_le
get_le-take-lt zero bs h = omega arith
get_le-take-lt (suc n) [] h = omega (arith, one-le-pow (suc n) 256)
get_le-take-lt (suc n) (b ∷ bs) h = omega (arith, get_le-take-lt n bs h.1, pow-suc 256 n)

pub get_words-lt :
    (n count : ℕ) (bs : List ℕ)
    → All (λ b. b < 256) bs
    → All (λ v. v < 256 ^ n) (get_words n count bs)
unfolding get_words
get_words-lt n zero bs h = tt
get_words-lt n (suc count) bs h =
    (get_le-take-lt n bs h, get_words-lt n count (drop n bs) (All-drop n bs h))
