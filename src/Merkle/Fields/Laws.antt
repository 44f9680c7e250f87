-- ===== src/Merkle/Fields/Laws.antt =====
-- merkle/merkle.go: the leaves of a list of fields, sorted by name.
use mathlib.Core.List.{Permᴰ}
use gomatrixcrypto.Base.{
  ℕ, ◌≡◌, refl, sym, ap, ap₂, ◌∙◌, true, false, List, [], ◌∷◌, list_eq→eq, list_eq_refl, ◌≢◌, ok,
  Result-cases, inl, inr, arith,
}
use gomatrixcrypto.Base.Keyed.{sort_by_key, insert_by_key, insert_by_key_comm, text_leb_refl}
use gomatrixcrypto.Merkle.Tree.{Hash}
use gomatrixcrypto.Merkle.Fields.{
  Field, Leaf, collect, field_leaf, has_duplicate, reject_duplicates, leaves, root,
  root_from_leaves,
}

-- An insertion keeps two neighbours of one name.
has_duplicate-insert_by_key :
    (a : Leaf) (ls : List Leaf)
    → has_duplicate (insert_by_key a ls) ≡ false
    → has_duplicate ls ≡ false
unfolding has_duplicate insert_by_key
has_duplicate-insert_by_key a [] e = refl
has_duplicate-insert_by_key a (b ∷ []) e = refl
has_duplicate-insert_by_key a (b ∷ c ∷ ls) e =
    ground (arith, has_duplicate-insert_by_key a (c ∷ ls), list_eq→eq b.0 c.0)

-- Two insertions of one name leave two neighbours of one name.
has_duplicate-insert_twice :
    (a b : Leaf) (ls : List Leaf)
    → a.0 ≡ b.0
    → has_duplicate (insert_by_key a (insert_by_key b ls)) ≡ true
unfolding has_duplicate insert_by_key
has_duplicate-insert_twice a b [] same = ground (arith, text_leb_refl a.0, list_eq_refl a.0)
has_duplicate-insert_twice a b (c ∷ []) same = ground (arith, text_leb_refl a.0, list_eq_refl a.0)
has_duplicate-insert_twice a b (c ∷ d ∷ ls) same =
    ground
      (arith, text_leb_refl a.0, list_eq_refl a.0, has_duplicate-insert_twice a b (d ∷ ls) same)

sort_by_key-permᴰ :
    {ls ms : List Leaf}
    → Permᴰ ls ms
    → has_duplicate (sort_by_key ls) ≡ false
    → sort_by_key ls ≡ sort_by_key ms
unfolding sort_by_key
sort_by_key-permᴰ Permᴰ.nil fresh = refl
sort_by_key-permᴰ (Permᴰ.cons {a = a} {b = b} {l₁ = ls} e p) fresh =
    let rest = sort_by_key-permᴰ p (has_duplicate-insert_by_key a (sort_by_key ls) fresh) in
    ap (λ (l : Leaf). insert_by_key l (sort_by_key ls)) e ∙ ap (insert_by_key b) rest
sort_by_key-permᴰ (Permᴰ.swap {a = a} {b = b} {a' = d} {b' = c} {l = ls} e f) fresh =
    let differ : a.0 ≢ b.0 =
      λ (same : a.0 ≡ b.0). ground (arith, has_duplicate-insert_twice a b (sort_by_key ls) same) in
    insert_by_key_comm a b (sort_by_key ls) differ
    ∙ ap₂ (λ (l m : Leaf). insert_by_key l (insert_by_key m (sort_by_key ls))) f e
sort_by_key-permᴰ (Permᴰ.trans p q) fresh =
    let first = sort_by_key-permᴰ p fresh in
    first ∙ sort_by_key-permᴰ q (ap has_duplicate (sym first) ∙ fresh)

module _ (sha3 : List ℕ → Hash) where
  pub collect_cons :
      (f : Field) (fs : List Field) {ls : List Leaf}
      → collect sha3 (f ∷ fs) ≡ ok ls
      → (l : Leaf) × (ms : List Leaf) × (field_leaf sha3 f ≡ ok l)
        × (collect sha3 fs ≡ ok ms)
        × (ls ≡ l ∷ ms)
  collect_cons f fs {ls} e = elim (Result-cases (field_leaf sha3 f)) [
    | inr (x, g) ↦ absurd (unfold collect in ground arith)
    | inl (l, g) ↦ elim (Result-cases (collect sha3 fs)) [
      | inr (x, h) ↦ absurd (unfold collect in ground arith)
      | inl (ms, h) ↦ (l, ms, g, h, unfold collect in ground arith)
    ]
  ]

  cons_collect :
      (f : Field) (fs : List Field) {l : Leaf} {ms : List Leaf}
      → field_leaf sha3 f ≡ ok l
      → collect sha3 fs ≡ ok ms
      → collect sha3 (f ∷ fs) ≡ ok (l ∷ ms)
  unfolding collect
  cons_collect f fs g h = rw (g, h) refl

  collect-permᴰ :
      {fs gs : List Field} {ls : List Leaf}
      → Permᴰ fs gs
      → collect sha3 fs ≡ ok ls
      → (ms : List Leaf) × (collect sha3 gs ≡ ok ms) × Permᴰ ls ms
  collect-permᴰ {ls = ls} Permᴰ.nil e =
      let none_left : ls ≡ [] = unfold collect in ground arith in
      ([], unfold collect in refl, rw none_left Permᴰ.nil)
  collect-permᴰ {ls = ls} (Permᴰ.cons {a = a} {b = b} {l₁ = fs} {l₂ = gs} same p) e =
      let (l, ks, g, h, split) = collect_cons a fs e in
      let (ms, i, r) = collect-permᴰ p h in
      (l ∷ ms, rw (sym same) (cons_collect a gs g i), rw split (Permᴰ.cons refl r))
  collect-permᴰ {ls = ls} (Permᴰ.swap {a = a} {b = b} {a' = d} {b' = c} {l = fs} same also) e =
      let (l, ks, g, h, split) = collect_cons a (b ∷ fs) e in
      let (m, ns, i, j, again) = collect_cons b fs h in
      (
        m ∷ l ∷ ns,
        rw (sym same, sym also) (cons_collect b (a ∷ fs) i (cons_collect a fs g j)),
        rw (split, again) (Permᴰ.swap refl refl),
      )
  collect-permᴰ (Permᴰ.trans p q) e =
      let (ms, f, r) = collect-permᴰ p e in
      let (ns, g, s) = collect-permᴰ q f in (ns, g, Permᴰ.trans r s)

  pub leaves-collect :
      (fs : List Field) {ls : List Leaf}
      → leaves sha3 fs ≡ ok ls
      → (ms : List Leaf) × (collect sha3 fs ≡ ok ms)
        × (has_duplicate (sort_by_key ms) ≡ false)
        × (ls ≡ sort_by_key ms)
  leaves-collect fs {ls} e = elim (Result-cases (collect sha3 fs)) [
    | inr (x, h) ↦ absurd (unfold leaves in ground arith)
    | inl (ms, h) ↦
        let tested : reject_duplicates sha3 (sort_by_key ms) ≡ ok ls =
          unfold leaves in ground arith in
        (ms, h, unfold reject_duplicates in ground arith, unfold reject_duplicates in ground arith)
  ]

  leaves-permᴰ :
      {fs gs : List Field} {ls : List Leaf}
      → Permᴰ fs gs
      → leaves sha3 fs ≡ ok ls
      → leaves sha3 gs ≡ ok ls
  leaves-permᴰ {fs} {gs} {ls} p e =
      let (ms, h, fresh, sorted) = leaves-collect fs e in
      let (ns, g, r) = collect-permᴰ p h in
      let same : sort_by_key ms ≡ sort_by_key ns = sort_by_key-permᴰ r fresh in
      unfold leaves reject_duplicates in rw (g, sym same, fresh, sorted) refl

  -- The root over some fields, where there is one, does not depend on their order.
  pub root-perm :
      (fs gs : List Field) (h : Hash) → Permᴰ fs gs → root sha3 fs ≡ ok h → root sha3 gs ≡ ok h
  root-perm fs gs h p e = elim (Result-cases (leaves sha3 fs)) [
    | inr (x, f) ↦ absurd (unfold root in ground arith)
    | inl (ls, f) ↦
        let from : root_from_leaves sha3 ls ≡ ok h = unfold root in ground arith in
        unfold root in rw (leaves-permᴰ p f) from
  ]
