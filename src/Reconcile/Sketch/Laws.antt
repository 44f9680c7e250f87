-- ===== src/Reconcile/Sketch/Laws.antt =====
-- reconcile/algebraic.go: lemmas on toggles, differences and the wire form of sketches.
use gomatrixcrypto.Base.{
  ℕ, zero, suc, ◌*◌, ◌^◌, ◌≤◌, ◌<◌, ◌≡◌, ◌≢◌, refl, sym, ap, ap₂, ◌∙◌, List, [], ◌∷◌, ◌++◌, Option,
  none, some, length, All, replicate, arith, map, ok, Error, false, ne→==, length-replicate,
  All-append, ==_refl, ◌||◌, ◌==◌, ltb,
}
use gomatrixcrypto.Base.Int.{pos}
use gomatrixcrypto.Base.Xor.{◌⊕◌, xor_cancel_right, xor_right_comm}
use gomatrixcrypto.Base.Words.{
  xor_words, xor_words_cancel_right, length-xor_words, fold_words, fold_words-perm,
  fold_words_difference, length-fold_words,
}
use gomatrixcrypto.Base.Bytes.{put_words, length-put_words, get_words-put_words}
use mathlib.Core.List.{Perm, map-append}
use mathlib.Core.List.Perm
use gomatrixcrypto.Reconcile.Field.{mul}
use gomatrixcrypto.Reconcile.Element.{Encoding}
use gomatrixcrypto.Reconcile.Sketch.{
  SyndromeSketch, toggle_loop, toggle, subtract, capacity, encode, decode_syndrome_sketch,
  decode_with_capacity, new_sketch_from_encoded_bytes, max_sketch_capacity,
}

-- The odd powers of a value: what a toggle adds to the coordinates.
unfoldable pub odd_powers_from : ℕ → ℕ → ℕ → List ℕ
odd_powers_from squared odd_power zero = []
odd_powers_from squared odd_power (suc n) =
    odd_power ∷ odd_powers_from squared (mul odd_power squared) n

abbrev pub odd_powers : ℕ → ℕ → List ℕ
odd_powers n value = odd_powers_from (mul value value) value n

length-odd_powers_from : (squared odd n : ℕ) → length (odd_powers_from squared odd n) ≡ n
unfolding odd_powers_from
length-odd_powers_from squared odd zero = refl
length-odd_powers_from squared odd (suc n) =
    ap suc (length-odd_powers_from squared (mul odd squared) n)

toggle_loop_lem :
    (squared odd : ℕ) (cs : List ℕ)
    → toggle_loop squared odd cs ≡ xor_words cs (odd_powers_from squared odd (length cs))
unfolding toggle_loop odd_powers_from xor_words
toggle_loop_lem squared odd [] = refl
toggle_loop_lem squared odd (c ∷ cs) =
    ap (λ (l : List ℕ). (c ⊕ odd) ∷ l) (toggle_loop_lem squared (mul odd squared) cs)

pub toggle_loop-toggle_loop :
    (squared odd : ℕ) (cs : List ℕ) → toggle_loop squared odd (toggle_loop squared odd cs) ≡ cs
unfolding toggle_loop
toggle_loop-toggle_loop squared odd [] = refl
toggle_loop-toggle_loop squared odd (c ∷ cs) =
    ap₂ (λ (x : ℕ) (l : List ℕ). x ∷ l) (xor_cancel_right c odd)
      (toggle_loop-toggle_loop squared (mul odd squared) cs)

pub toggle_loop_comm :
    (s o s' o' : ℕ) (cs : List ℕ)
    → toggle_loop s o (toggle_loop s' o' cs) ≡ toggle_loop s' o' (toggle_loop s o cs)
unfolding toggle_loop
toggle_loop_comm s o s' o' [] = refl
toggle_loop_comm s o s' o' (c ∷ cs) =
    ap₂ (λ (x : ℕ) (l : List ℕ). x ∷ l) (xor_right_comm c o' o)
      (toggle_loop_comm s (mul o s) s' (mul o' s') cs)

-- A toggle by a value that is not zero adds the value's odd powers, and keeps the capacity.
pub toggle_lem :
    (s : SyndromeSketch) (value : ℕ)
    → value ≢ 0
    → toggle s value
      ≡ (record { coordinates = xor_words s.coordinates (odd_powers (capacity s) value) }, none)
unfolding toggle
toggle_lem s value h = rw (ne→== value 0 h) (
    ap
      (λ (cs : List ℕ).
        let t : SyndromeSketch × Option Error = (record { coordinates = cs }, none) in t)
      (toggle_loop_lem (mul value value) value s.coordinates))

-- Toggling a value that is not zero twice restores the sketch, and neither toggle fails.
toggle-toggle :
    (s : SyndromeSketch) (value : ℕ) → value ≢ 0 → toggle (toggle s value).0 value ≡ (s, none)
toggle-toggle s value h =
    let p : List ℕ = odd_powers (capacity s) value in
    let t : SyndromeSketch = record { coordinates = xor_words s.coordinates p } in
    ap (λ (r : SyndromeSketch × Option Error). toggle r.0 value) (toggle_lem s value h)
    ∙ toggle_lem t value h
    ∙ ap
        (λ (cs : List ℕ).
          let r : SyndromeSketch × Option Error = (record { coordinates = cs }, none) in r)
        (ap (λ (n : ℕ). xor_words (xor_words s.coordinates p) (odd_powers n value))
            (length-xor_words s.coordinates p)
          ∙ xor_words_cancel_right s.coordinates p)

-- Toggling the values of a list in order; an error leaves the sketch as it is.
unfoldable pub toggle_all : SyndromeSketch → List ℕ → SyndromeSketch
toggle_all s [] = s
toggle_all s (value ∷ values) = toggle_all (toggle s value).0 values

abbrev pub AreShort : List ℕ → Type 0
AreShort values = All (λ v. v ≢ 0) values

abbrev pub power_sums : ℕ → List ℕ → List (List ℕ)
power_sums n values = map (odd_powers n) values

abbrev pub empty : ℕ → SyndromeSketch
empty n = record { coordinates = replicate n 0 }

-- A sketch after toggles is the fold of the odd powers of the values.
pub toggle_all_lem :
    (n : ℕ) (cs values : List ℕ)
    → length cs ≡ n
    → AreShort values
    → toggle_all (record { coordinates = cs }) values
      ≡ record { coordinates = fold_words cs (power_sums n values) }
unfolding toggle_all fold_words
toggle_all_lem n cs [] e h = refl
toggle_all_lem n cs (value ∷ values) e (hv, hvs) =
    let s : SyndromeSketch = record { coordinates = cs } in
    let c : capacity s ≡ n = e in
    ap (λ (r : SyndromeSketch × Option Error). toggle_all r.0 values) (toggle_lem s value hv)
    ∙ ap
        (λ (k : ℕ).
          let t : SyndromeSketch = record { coordinates = xor_words cs (odd_powers k value) } in
          toggle_all t values)
        c
    ∙ toggle_all_lem n (xor_words cs (odd_powers n value)) values (length-xor_words cs _ ∙ e) hvs

power_sums-length :
    (n : ℕ) (values : List ℕ) → All (λ (w : List ℕ). length w ≡ n) (power_sums n values)
power_sums-length n [] = tt
power_sums-length n (v ∷ vs) = (length-odd_powers_from (mul v v) v n, power_sums-length n vs)

-- The sketch of a population of identifiers that are not zero does not depend on the order of the
-- toggles.
pub toggle_all-perm :
    (n : ℕ) (xs ys : List ℕ)
    → Perm xs ys
    → AreShort xs
    → AreShort ys
    → toggle_all (empty n) xs ≡ toggle_all (empty n) ys
toggle_all-perm n xs ys p hx hy =
    toggle_all_lem n (replicate n 0) xs (length-replicate n 0) hx
    ∙ ap (λ (cs : List ℕ). let s : SyndromeSketch = record { coordinates = cs } in s)
        (fold_words-perm (replicate n 0) (Perm.map (odd_powers n) p))
    ∙ sym (toggle_all_lem n (replicate n 0) ys (length-replicate n 0) hy)

abbrev sketch_of : List ℕ → SyndromeSketch
sketch_of cs = record { coordinates = cs }

subtract_lem :
    (cs ds : List ℕ)
    → length cs ≡ length ds
    → subtract (sketch_of cs) (sketch_of ds) ≡ ok (sketch_of (xor_words cs ds))
unfolding subtract
subtract_lem cs ds e = rw (e, ==_refl (length ds))

-- The difference of the sketches of two populations that share `common`, their identifiers not zero,
-- is the sketch of what they do not share.
pub subtract-toggle_all :
    (n : ℕ) (common xs ys : List ℕ)
    → AreShort common
    → AreShort xs
    → AreShort ys
    → subtract (toggle_all (empty n) (common ++ xs)) (toggle_all (empty n) (common ++ ys))
      ≡ ok (toggle_all (empty n) (xs ++ ys))
subtract-toggle_all n common xs ys hc hx hy =
    let z : List ℕ = replicate n 0 in
    let e : length z ≡ n = length-replicate n 0 in
    ap₂ subtract
      (toggle_all_lem n z (common ++ xs) e (All-append _ common xs hc hx)
        ∙ ap sketch_of (ap (fold_words z) (map-append (odd_powers n) common xs)))
      (toggle_all_lem n z (common ++ ys) e (All-append _ common ys hc hy)
        ∙ ap sketch_of (ap (fold_words z) (map-append (odd_powers n) common ys)))
    ∙ subtract_lem (fold_words z (power_sums n common ++ power_sums n xs))
        (fold_words z (power_sums n common ++ power_sums n ys))
        (length-fold_words z _ ∙ sym (length-fold_words z _))
    ∙ ap (λ (cs : List ℕ). ok (sketch_of cs))
        (fold_words_difference n (power_sums n common) (power_sums n xs) (power_sums n ys)
            (power_sums-length n xs) (power_sums-length n ys)
          ∙ ap (fold_words z) (sym (map-append (odd_powers n) xs ys)))
    ∙ ap ok (sym (toggle_all_lem n z (xs ++ ys) e (All-append _ xs ys hx hy)))

capacity_ok :
    (n : ℕ) → 0 < n → n ≤ max_sketch_capacity → (n == 0 || ltb max_sketch_capacity n) ≡ false
capacity_ok n lo hi = ground arith

-- The coordinates behind the bytes that were written.
new_sketch-put_words :
    (cs : List ℕ)
    → All (λ c. c < 2 ^ 64) cs
    → new_sketch_from_encoded_bytes (length cs) (put_words 8 cs) ≡ ok (sketch_of cs)
unfolding new_sketch_from_encoded_bytes
new_sketch-put_words cs words =
    rw (length-put_words 8 cs, ==_refl (length cs * 8), get_words-put_words 8 cs words)

-- Decoding an encoded sketch at its own capacity returns the sketch, where base64 reads back what it
-- writes, at the length that it announces, the capacity is from 1 to 32 and the coordinates are below
-- 2 ^ 64.
pub decode_syndrome_sketch-encode :
    (raw_url : Encoding)
    → ((bytes : List ℕ) → raw_url.decode (raw_url.encode bytes) ≡ some bytes)
    → ((bytes : List ℕ) → length (raw_url.encode bytes) ≡ raw_url.encoded_len (length bytes))
    → (s : SyndromeSketch) → 0 < capacity s
    → capacity s ≤ max_sketch_capacity
    → All (λ c. c < 2 ^ 64) s.coordinates
    → decode_syndrome_sketch raw_url (pos (capacity s)) (encode raw_url s) ≡ ok s
unfolding decode_syndrome_sketch decode_with_capacity encode
decode_syndrome_sketch-encode raw_url reads announces s lo hi words =
    let bytes : List ℕ = put_words 8 s.coordinates in
    rw
      (
        capacity_ok (capacity s) lo hi,
        announces bytes,
        length-put_words 8 s.coordinates,
        ==_refl (raw_url.encoded_len (capacity s * 8)),
        reads bytes,
      )
      (new_sketch-put_words s.coordinates words)
