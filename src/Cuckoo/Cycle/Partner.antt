-- ===== src/Cuckoo/Cycle/Partner.antt =====
-- cuckoo/cuckoo.go: what one half of a round of the walk finds.
use gomatrixcrypto.Base.{
  ℕ, zero, suc, ◌+◌, ◌*◌, ◌/◌, ◌%◌, ◌<◌, ◌≡◌, ◌≢◌, refl, sym, ap, ◌∙◌, true, false, ◌&&◌, not, List,
  some, length, get_or, ◌==◌, ==→eq, ==_refl, ne→==, Bool-cases, Option-cases, ◌⊎◌, inl, inr, arith,
}
use gomatrixcrypto.Cuckoo.Cycle.{partner_loop, advance, flip}

-- The index p holds the same endpoint as i, and no other index of its parity does.
pub record Partner (uvs : List ℕ) (parity i p : ℕ) : Type 0 where
  pub on_side : p % 2 ≡ parity
  pub within : p < length uvs / 2 * 2
  pub differs : p ≢ i
  pub same : get_or uvs p 0 ≡ get_or uvs i 0
  pub unique :
      (q : ℕ)
      → q % 2 ≡ parity
      → q < length uvs / 2 * 2
      → q ≢ i
      → get_or uvs q 0 ≡ get_or uvs i 0
      → q ≡ p

pub eq_cases : (a b : ℕ) → (a ≡ b) ⊎ (a ≢ b)
eq_cases a b = elim (Bool-cases (a == b)) [
  | inl e ↦ inl (==→eq a b e)
  | inr e ↦ inr (λ same. absurd (ground arith))
]

pub Partner-sym :
    {uvs : List ℕ} {parity i p : ℕ}
    → i % 2 ≡ parity
    → i < length uvs / 2 * 2
    → Partner uvs parity i p
    → Partner uvs parity p i
Partner-sym {uvs} {parity} {i} {p} side bound h = record {
  on_side = side;
  within = bound;
  differs = λ e. h.differs (sym e);
  same = sym h.same;
  unique = λ q on small ne eq. elim (eq_cases q i) [
    | inl e ↦ e
    | inr other ↦ absurd (ne (h.unique q on small other (eq ∙ h.same)))
  ];
}

pub Partner-functional :
    {uvs : List ℕ} {parity i p p' : ℕ} → Partner uvs parity i p → Partner uvs parity i p' → p ≡ p'
Partner-functional {p} h g = g.unique p h.on_side h.within h.differs h.same

module _ (uvs : List ℕ) (i : ℕ) where
  -- A second edge end with the endpoint at i.
  abbrev Match : ℕ → Type 0
  Match k = (k ≢ i) × (get_or uvs k 0 ≡ get_or uvs i 0)

  -- No match among k, k + 2, …
  abbrev NoMatch : ℕ → ℕ → Type 0
  NoMatch rounds k = (r : ℕ) → r < rounds → Match (k + r * 2) → ⊥

  test_true : (k : ℕ) → (not (k == i) && (get_or uvs k 0 == get_or uvs i 0)) ≡ true → Match k
  test_true k e = (λ same. absurd (ground arith), ground arith)

  test_false : (k : ℕ) → (not (k == i) && (get_or uvs k 0 == get_or uvs i 0)) ≡ false → Match k → ⊥
  test_false k e (ne, same) = elim (eq_cases k i) [
    | inl eq ↦ absurd (ne eq)
    | inr other ↦ absurd (ground arith)
  ]

  NoMatch-suc : (rounds k : ℕ) → (Match k → ⊥) → NoMatch rounds (k + 2) → NoMatch (suc rounds) k
  NoMatch-suc rounds k h g zero lt m = let e : k + 0 * 2 ≡ k = omega arith in h (rw e at m)
  NoMatch-suc rounds k h g (suc r) lt m =
      let e : k + suc r * 2 ≡ k + 2 + r * 2 = omega arith in g r (omega arith) (rw e at m)

  only_first :
      (rounds k : ℕ) → NoMatch rounds (k + 2) → (q : ℕ) → q < suc rounds → Match (k + q * 2) → q ≡ 0
  only_first rounds k others zero lt m = refl
  only_first rounds k others (suc q) lt m =
      let e : k + suc q * 2 ≡ k + 2 + q * 2 = omega arith in
      absurd (others q (omega arith) (rw e at m))

  only_later :
      (rounds k : ℕ)
      → (Match k → ⊥)
      → (r : ℕ) → ((q : ℕ) → q < rounds → Match (k + 2 + q * 2) → q ≡ r)
      → (q : ℕ) → q < suc rounds
      → Match (k + q * 2)
      → q ≡ suc r
  only_later rounds k h r only zero lt m =
      let e : k + 0 * 2 ≡ k = omega arith in absurd (h (rw e at m))
  only_later rounds k h r only (suc q) lt m =
      let e : k + suc q * 2 ≡ k + 2 + q * 2 = omega arith in
      ap suc (only q (omega arith) (rw e at m))

  -- Behind a match there is no other.
  partner_loop_found :
      (rounds k j : ℕ) {p : ℕ}
      → j ≢ i
      → partner_loop uvs i rounds k j ≡ some p
      → (p ≡ j) × NoMatch rounds k
  unfolding partner_loop
  partner_loop_found zero k j ne e = (cc, λ r lt. absurd (omega arith))
  partner_loop_found (suc rounds) k j ne e =
      elim (Bool-cases (not (k == i) && (get_or uvs k 0 == get_or uvs i 0))) [
        | inl t ↦ absurd (ground (arith, ne→== j i ne))
        | inr f ↦
            let (same, others) =
              partner_loop_found rounds (k + 2) j ne (rw (f, partner_loop) at e) in
            (same, NoMatch-suc rounds k (test_false k f) others)
      ]

  -- A single match, at p.
  abbrev Single : ℕ → ℕ → ℕ → Type 0
  Single rounds k p =
      (r : ℕ) × (r < rounds)
      × (p ≡ k + r * 2)
      × Match p
      × ((q : ℕ) → q < rounds → Match (k + q * 2) → q ≡ r)

  partner_loop_search :
      (rounds k : ℕ) {p : ℕ} → partner_loop uvs i rounds k i ≡ some p → (p ≡ i) ⊎ Single rounds k p
  unfolding partner_loop
  partner_loop_search zero k e = inl (cc)
  partner_loop_search (suc rounds) k {p} e =
      elim (Bool-cases (not (k == i) && (get_or uvs k 0 == get_or uvs i 0))) [
        | inl t ↦
            let m = test_true k t in
            let (same, others) =
              partner_loop_found rounds (k + 2) k m.0 (rw (t, partner_loop, ==_refl i) at e) in
            let here : p ≡ k + 0 * 2 = omega arith in
            inr
              (0, omega arith, here, rw same m, λ q lt other. only_first rounds k others q lt other)
        | inr f ↦ elim (partner_loop_search rounds (k + 2) (rw (f, partner_loop) at e)) [
          | inl none_found ↦ inl none_found
          | inr (r, lt, eq, m, only) ↦ inr (
            suc r,
            omega arith,
            omega arith,
            m,
            λ q small other. only_later rounds k (test_false k f) r only q small other,
          )
        ]
      ]

only-Match :
    (uvs : List ℕ) (i parity r : ℕ)
    → parity < 2
    → r < length uvs / 2
    → ((q : ℕ) → q < length uvs / 2 → Match uvs i (parity + q * 2) → q ≡ r)
    → (q : ℕ) → q % 2 ≡ parity
    → q < length uvs / 2 * 2
    → Match uvs i q
    → q ≡ parity + r * 2
only-Match uvs i parity r small lt only q on below m =
    let e : q ≡ parity + q / 2 * 2 = omega arith in
    let half : q / 2 ≡ r = only (q / 2) (omega arith) (rw e at m) in omega arith

-- A half round that succeeds has found the partner.
pub advance_lem :
    (uvs : List ℕ) (parity i : ℕ) {next : ℕ}
    → parity < 2
    → advance uvs parity i ≡ some next
    → (p : ℕ) × Partner uvs parity i p × (next ≡ flip p)
unfolding advance
advance_lem uvs parity i small e =
    elim (Option-cases (partner_loop uvs i (length uvs / 2) parity i)) [
      | inl fails ↦ absurd (cc (rw (fails, advance) at e))
      | inr (p, found) ↦ elim (eq_cases p i) [
        | inl self ↦ absurd (ground (arith))
        | inr other ↦ elim (partner_loop_search uvs i (length uvs / 2) parity found) [
          | inl self ↦ absurd (other self)
          | inr (r, lt, eq, m, only) ↦ (
            p,
            record {
              on_side = omega arith;
              within = omega arith;
              differs = other;
              same = m.1;
              unique = λ q on below ne same.
                  only-Match uvs i parity r small lt only q on below (ne, same) ∙ sym eq;
            },
            ground arith,
          )
        ]
      ]
    ]
