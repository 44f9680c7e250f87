-- ===== src/Merkle/Fields/Proofs.antt =====
-- merkle/proof.go: a field's inclusion path from the list of fields.
use gomatrixcrypto.Base.{
  ℕ, zero, suc, ◌≡◌, refl, sym, ap, ap₂, ◌∙◌, true, List, [], ◌∷◌, some, list_eq, list_eq→eq,
  Result, ok, ◌>>=◌, Result-cases, Option-cases, Bool-cases, ◌⊎◌, inl, inr, arith, get_elem?,
}
use gomatrixcrypto.Base.Keyed.{sort_by_key, insert_by_key, text_leb}
use gomatrixcrypto.MatrixJson.{Value, canonical}
use gomatrixcrypto.Merkle.Tree.{
  Hash, ProofStep, merkle_root, merkle_root_and_path, verify_leaf_path,
}
use gomatrixcrypto.Merkle.Tree.Path.{verify_leaf_path-merkle_root_and_path}
use gomatrixcrypto.Merkle.Fields.{
  Field, Leaf, collect, field_leaf, make_leaf, leaf_hash, leaves, root, root_from_leaves, digests,
  find_leaf, field_leaf_hash, path_to, leaf_path,
}
use gomatrixcrypto.Merkle.Fields.Laws.{collect_cons, leaves-collect}

find_leaf_lem :
    (field_name : List ℕ) (ls : List Leaf) (i : ℕ)
    → find_leaf field_name ls ≡ some i
    → (l : Leaf) × (get_elem? ls i ≡ some l)
      × (get_elem? (digests ls) i ≡ some l.1.digest)
      × (l.0 ≡ field_name)
unfolding find_leaf digests
find_leaf_lem field_name [] i e = absurd (ground arith)
find_leaf_lem field_name (l ∷ ls) i e = elim (Bool-cases (list_eq l.0 field_name)) [
  | inl same ↦
      let at : i ≡ 0 = ground arith in rw at (l, refl, refl, list_eq→eq l.0 field_name same)
  | inr other ↦ elim (Option-cases (find_leaf field_name ls)) [
    | inl f ↦ absurd (ground arith)
    | inr (j, f) ↦
        let at : i ≡ suc j = ground arith in
        let (m, g, h, named) = find_leaf_lem field_name ls j f in rw at (m, g, h, named)
  ]
]

get_elem?-insert_by_key :
    (a : Leaf) (ls : List Leaf) (i : ℕ) (l : Leaf)
    → get_elem? (insert_by_key a ls) i ≡ some l
    → (a ≡ l) ⊎ ((j : ℕ) × (get_elem? ls j ≡ some l))
unfolding insert_by_key
get_elem?-insert_by_key a [] zero l e = inl (ground arith)
get_elem?-insert_by_key a [] (suc i) l e = absurd (ground arith)
get_elem?-insert_by_key a (b ∷ ls) zero l e = elim (Bool-cases (text_leb a.0 b.0)) [
  | inl before ↦ inl (ground arith)
  | inr after ↦ inr (0, ground arith)
]
get_elem?-insert_by_key a (b ∷ ls) (suc i) l e = elim (Bool-cases (text_leb a.0 b.0)) [
  | inl before ↦ inr (i, ground arith)
  | inr after ↦ elim (get_elem?-insert_by_key a ls i l (ground arith)) [
    | inl same ↦ inl same
    | inr (j, f) ↦ inr (suc j, f)
  ]
]

get_elem?-sort_by_key :
    (ls : List Leaf) (i : ℕ) (l : Leaf)
    → get_elem? (sort_by_key ls) i ≡ some l
    → (j : ℕ) × (get_elem? ls j ≡ some l)
unfolding sort_by_key
get_elem?-sort_by_key [] i l e = absurd (ground arith)
get_elem?-sort_by_key (a ∷ ls) i l e = elim (get_elem?-insert_by_key a (sort_by_key ls) i l e) [
  | inl same ↦ (0, ap some same)
  | inr (j, f) ↦ let (k, g) = get_elem?-sort_by_key ls j l f in (suc k, g)
]

module _ (sha3 : List ℕ → Hash) where
  make_leaf_lem :
      (field_name json : List ℕ) {l : Leaf}
      → make_leaf sha3 field_name json ≡ ok l
      → l.0 ≡ field_name
  unfolding make_leaf
  make_leaf_lem field_name json {l} e = elim (Result-cases (leaf_hash sha3 field_name json)) [
    | inr (x, h) ↦ absurd (ground arith)
    | inl (h, f) ↦ ground arith
  ]

  field_leaf_lem :
      (n : List ℕ) (v : Value) {l : Leaf}
      → field_leaf sha3 (record { name = n; value = v }) ≡ ok l
      → l.0 ≡ n
  unfolding field_leaf
  field_leaf_lem [] v e = absurd (ground arith)
  field_leaf_lem (c ∷ cs) v {l} e = elim (Result-cases (canonical v)) [
    | inr (x, h) ↦ absurd (ground arith)
    | inl (json, h) ↦
        make_leaf_lem (c ∷ cs) json
          (ap (λ (r : Result (List ℕ)). r >>= make_leaf sha3 (c ∷ cs)) (sym h) ∙ e)
  ]

  -- Each leaf is that of a field.
  collect_lem :
      (fs : List Field) (ls : List Leaf) (i : ℕ) (l : Leaf)
      → collect sha3 fs ≡ ok ls
      → get_elem? ls i ≡ some l
      → (f : Field) × (get_elem? fs i ≡ some f) × (field_leaf sha3 f ≡ ok l)
  collect_lem [] ls i l e at = absurd (unfold collect in ground arith)
  collect_lem (f ∷ fs) ls zero l e at =
      let (m, ms, g, h, split) = collect_cons sha3 f fs e in (f, refl, g ∙ ap ok (ground arith))
  collect_lem (f ∷ fs) ls (suc i) l e at =
      let (m, ms, g, h, split) = collect_cons sha3 f fs e in
      collect_lem fs ms i l h (ap (λ (x : List Leaf). get_elem? x (suc i)) (sym split) ∙ at)

  root_from_leaves_lem :
      (ls : List Leaf) (i : ℕ) (l : Leaf)
      → get_elem? ls i ≡ some l
      → root_from_leaves sha3 ls ≡ ok (merkle_root sha3 (digests ls))
  unfolding root_from_leaves
  root_from_leaves_lem [] i l at = absurd (ground arith)
  root_from_leaves_lem (l ∷ ls) i m at = refl

  -- Where a path is returned for a name, the root with it is the root over the fields, one of the fields
  -- has the name, and the verifier accepts the path from that field's leaf hash to the root.
  pub leaf_path_lem :
      (fs : List Field) (field_name : List ℕ) (path : List ProofStep) (r : Hash)
      → leaf_path sha3 fs field_name ≡ ok (path, r)
      → (root sha3 fs ≡ ok r)
        × (i : ℕ) × (f : Field) × (h : Hash) × (get_elem? fs i ≡ some f)
        × (f.name ≡ field_name)
        × (field_leaf_hash sha3 f ≡ ok h)
        × (verify_leaf_path sha3 h path r ≡ true)
  leaf_path_lem fs field_name path r e = elim (Result-cases (leaves sha3 fs)) [
    | inr (x, f) ↦ absurd (unfold leaf_path in ground arith)
    | inl (ls, f) ↦ elim (Option-cases (find_leaf field_name ls)) [
      | inl g ↦ absurd (unfold leaf_path path_to in ground arith)
      | inr (i, g) ↦
          let (l, at, digest_at, named) = find_leaf_lem field_name ls i g in
          let (ms, collected, fresh, sorted) = leaves-collect sha3 fs f in
          let (j, there) =
            get_elem?-sort_by_key ms i l
              (ap (λ (x : List Leaf). get_elem? x i) (sym sorted) ∙ at) in
          let (a, found, leaf_of) = collect_lem fs ms j l collected there in
          let (same, accepted) =
            verify_leaf_path-merkle_root_and_path sha3 (digests ls) i l.1.digest digest_at in
          let found_path : merkle_root_and_path sha3 (digests ls) i ≡ (r, path) =
            unfold leaf_path path_to in ground arith in
          let root_is : merkle_root sha3 (digests ls) ≡ r =
            sym same ∙ ap (λ (x : Hash × List ProofStep). x.0) found_path in
          (
            unfold root in rw (f, root_from_leaves_lem ls i l at, root_is) refl,
            j,
            a,
            l.1.digest,
            found,
            sym (field_leaf_lem a.name a.value leaf_of) ∙ named,
            unfold field_leaf_hash in rw leaf_of refl,
            sym (
                  ap₂ (λ (p : List ProofStep) (x : Hash). verify_leaf_path sha3 l.1.digest p x)
                    (ap (λ (x : Hash × List ProofStep). x.1) found_path) root_is)
                ∙ accepted,
          )
    ]
  ]
