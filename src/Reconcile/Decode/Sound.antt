-- ===== src/Reconcile/Decode/Sound.antt =====
-- reconcile/algebraic.go: lemmas on DecodeElements.
use gomatrixcrypto.Base.{
  ℕ, ◌≡◌, ◌≢◌, ap, ◌∙◌, true, false, List, [], ◌∷◌, Option, none, some, length, take, ◌==◌, Result,
  ok, err, arith, list_eq→eq, Bool-cases, inl, inr, Result-cases,
}
use gomatrixcrypto.Base.Int.{ℤ, pos, negsuc}
use gomatrixcrypto.Base.Sort.{sort, sort-IsSorted, IsSorted}
use gomatrixcrypto.Reconcile.PinSketch.{Polynomial}
use gomatrixcrypto.Reconcile.PinSketch.Factor.{
  check_result, check_roots, decode_located, decode_locator, decode_pin_sketch,
}
use gomatrixcrypto.Reconcile.Sketch.{
  SyndromeSketch, new_syndrome_sketch, toggle, capacity, equal_sketch, contains_zero,
}
use gomatrixcrypto.Reconcile.Sketch.Laws.{toggle_all, AreShort, empty}
use gomatrixcrypto.Reconcile.Decode.{
  toggle_each, verify_decoded, decode_and_verify_sketch, decode_elements,
}

-- A toggle that succeeds had a value to toggle.
toggle_each_step :
    (s : SyndromeSketch) (value : ℕ) (values : List ℕ) {r : SyndromeSketch}
    → toggle_each s (value ∷ values) ≡ ok r
    → (value ≢ 0) × (toggle_each (toggle s value).0 values ≡ ok r)
unfolding toggle_each toggle
toggle_each_step s value values h = (ground arith, ground arith)

pub toggle_each-toggle_all :
    (s : SyndromeSketch) (values : List ℕ) {r : SyndromeSketch}
    → toggle_each s values ≡ ok r
    → AreShort values × (toggle_all s values ≡ r)
unfolding toggle_each toggle_all
toggle_each-toggle_all s [] h = (tt, cc)
toggle_each-toggle_all s (value ∷ values) h =
    let (nz, rest) = toggle_each_step s value values h in
    let (short, e) = toggle_each-toggle_all (toggle s value).0 values rest in ((nz, short), e)

contains_zero-AreShort : (values : List ℕ) → contains_zero values ≡ false → AreShort values
unfolding contains_zero
contains_zero-AreShort [] h = tt
contains_zero-AreShort (v ∷ vs) h = ground (arith, contains_zero-AreShort vs)

new_sketch-empty : (n : ℕ) {s : SyndromeSketch} → new_syndrome_sketch (pos n) ≡ ok s → empty n ≡ s
unfolding new_syndrome_sketch
new_sketch-empty n h = ground arith

equal_sketch→eq : (a b : SyndromeSketch) → equal_sketch a b ≡ true → a ≡ b
unfolding equal_sketch
equal_sketch→eq a b h = ground (arith, list_eq→eq a.coordinates b.coordinates)

verify_decoded_sound :
    (s : SyndromeSketch) (decoded : Result (List ℕ)) {roots : List ℕ}
    → verify_decoded s decoded ≡ ok roots
    → AreShort roots × (toggle_all (empty (capacity s)) roots ≡ s) × (decoded ≡ ok roots)
unfolding verify_decoded
verify_decoded_sound s (err e) h = cc
verify_decoded_sound s (ok decoded) {roots} h =
    elim (Result-cases (new_syndrome_sketch (pos (capacity s)))) [
      | inr (e, p) ↦ absurd (ground arith)
      | inl (blank, p) ↦ elim (Result-cases (toggle_each blank decoded)) [
        | inr (e, q) ↦ absurd (ground arith)
        | inl (check, q) ↦
            let same : decoded ≡ roots = ground arith in
            let (short, made) = toggle_each-toggle_all blank decoded q in
            (
              rw (← same) short,
              rw (← same, new_sketch-empty (capacity s) p)
                  (made ∙ equal_sketch→eq check s (ground arith)),
              ap ok same,
            )
      ]
    ]

check_result-IsSorted :
    (expected : ℕ) (r : Result (List ℕ)) {roots : List ℕ}
    → check_result expected r ≡ ok roots
    → IsSorted roots
unfolding check_result check_roots
check_result-IsSorted expected (err e) h = absurd (ground arith)
check_result-IsSorted expected (ok found) {roots} h =
    let e : sort found ≡ roots = ground arith in rw (← e) (sort-IsSorted found)

decode_located-IsSorted :
    (locator : Polynomial) (work : Option ℤ) {roots : List ℕ}
    → (decode_located locator work).0 ≡ ok roots
    → IsSorted roots
unfolding decode_located
decode_located-IsSorted locator none h = check_result-IsSorted _ _ h
decode_located-IsSorted locator (some budget) h = check_result-IsSorted _ _ h

decode_locator-IsSorted :
    (locator : Option Polynomial) (work : Option ℤ) {roots : List ℕ}
    → (decode_locator locator work).0 ≡ ok roots
    → IsSorted roots
unfolding decode_locator
decode_locator-IsSorted none work h = absurd (ground arith)
decode_locator-IsSorted (some locator) work {roots} h = elim (Bool-cases (length locator == 1)) [
  | inl e ↦ let nothing : [] ≡ roots = ground arith in rw (← nothing) tt
  | inr e ↦ decode_located-IsSorted locator work (ground arith)
]

decode_pin_sketch-IsSorted :
    (odd : List ℕ) (n : ℕ) (work : Option ℤ) {roots : List ℕ}
    → (decode_pin_sketch odd n work).0 ≡ ok roots
    → IsSorted roots
unfolding decode_pin_sketch
decode_pin_sketch-IsSorted odd n work h = decode_locator-IsSorted _ work h

-- A successful decoding of a sketch is sound whatever the factoring does: the identifiers are not
-- zero, toggling them into an empty sketch of the same capacity gives the sketch that was decoded,
-- and they are in ascending order.
pub decode_elements_sound :
    (s : SyndromeSketch) (max_elements : ℤ) {roots : List ℕ}
    → decode_elements s max_elements ≡ ok roots
    → AreShort roots × (toggle_all (empty (capacity s)) roots ≡ s) × IsSorted roots
unfolding decode_elements
decode_elements_sound s (negsuc n) h = cc
decode_elements_sound s (pos n) {roots} h =
    let decoder : Result (List ℕ) × Option ℤ = decode_pin_sketch (take n s.coordinates) n none in
    let run : verify_decoded s decoder.0 ≡ ok roots =
      unfold decode_and_verify_sketch in ground arith in
    let (short, made, from) = verify_decoded_sound s decoder.0 run in
    (short, made, decode_pin_sketch-IsSorted (take n s.coordinates) n none from)
