-- ===== src/Reconcile/Accumulator/Laws.antt =====
-- reconcile/algebraic.go: lemmas on the updates of the room accumulator and on residuals.
use gomatrixcrypto.Base.{
  ℕ, ◌+◌, ◌≤◌, ◌<◌, ◌≡◌, refl, sym, ap, ap₂, ◌∙◌, true, List, [], ◌∷◌, ◌++◌, none, length, All,
  replicate, list_eq_of_eq, length-perm, arith, map,
}
use gomatrixcrypto.Base.Words.{
  xor_words, xor_words_cancel_right, fold_words, fold_words-perm, fold_words_difference,
  fold_words-append,
}
use mathlib.Core.List.{Perm, map-append}
use mathlib.Core.List.Perm
use gomatrixcrypto.Reconcile.Element.{ElementHash}
use gomatrixcrypto.Reconcile.Accumulator.{
  RoomAccumulator, new_room_accumulator, insert, remove, residual, fold_residual, verify_residual,
  verify_global_residual, max_u64,
}

-- A removal undoes the insertion of the same element, where the count has room for it: both succeed,
-- and the digest and the count are as before.
pub remove-insert_accumulator :
    (r : RoomAccumulator) (hash : ElementHash)
    → r.count < max_u64
    → ((insert r hash).1 ≡ none) × (remove (insert r hash).0 hash ≡ (r, none))
unfolding insert remove
remove-insert_accumulator r hash h = ground (arith, xor_words_cancel_right r.digest hash.h128)

-- An insertion undoes a removal that succeeded.
pub insert-remove_accumulator :
    (r : RoomAccumulator) (hash : ElementHash)
    → 0 < r.count
    → r.count ≤ max_u64
    → ((remove r hash).1 ≡ none) × (insert (remove r hash).0 hash ≡ (r, none))
unfolding insert remove
insert-remove_accumulator r hash h k = ground (arith, xor_words_cancel_right r.digest hash.h128)

-- Inserting the elements of a list in order; an error leaves the accumulator as it is.
unfoldable pub populate : RoomAccumulator → List ElementHash → RoomAccumulator
populate r [] = r
populate r (hash ∷ hashes) = populate (insert r hash).0 hashes

abbrev pub wide : List ElementHash → List (List ℕ)
wide hashes = map (λ (h : ElementHash). h.h128) hashes

-- Each element has 16 bytes.
abbrev pub AreWide : List ElementHash → Type 0
AreWide hashes = All (λ (w : List ℕ). length w ≡ 16) (wide hashes)

pub populate_lem :
    (r : RoomAccumulator) (hashes : List ElementHash)
    → r.count + length hashes ≤ max_u64
    → populate r hashes
      ≡ record { digest = fold_words r.digest (wide hashes); count = r.count + length hashes }
unfolding populate fold_words insert
populate_lem r [] h = ground arith
populate_lem r (hash ∷ hashes) h =
    let r' : RoomAccumulator = record {
      digest = xor_words r.digest hash.h128;
      count = r.count + 1;
    } in
    let step : (insert r hash).0 ≡ r' = ground arith in
    ap (λ (a : RoomAccumulator). populate a hashes) step
    ∙ populate_lem r' hashes (omega arith)
    ∙ ap
        (λ (c : ℕ).
          let a : RoomAccumulator = record {
            digest = fold_words r'.digest (wide hashes);
            count = c;
          } in
          a)
        (omega arith)

-- The accumulator of a population does not depend on the order in which its elements were inserted,
-- where the count does not overflow.
pub populate-perm :
    (xs ys : List ElementHash)
    → Perm xs ys
    → length xs ≤ max_u64
    → populate new_room_accumulator xs ≡ populate new_room_accumulator ys
unfolding new_room_accumulator
populate-perm xs ys p h =
    populate_lem new_room_accumulator xs (omega arith)
    ∙ ap₂
        (λ (d : List ℕ) (c : ℕ).
          let a : RoomAccumulator = record { digest = d; count = 0 + c } in a)
        (fold_words-perm (replicate 16 0) (Perm.map (λ (e : ElementHash). e.h128) p))
        (length-perm p)
    ∙ sym (populate_lem new_room_accumulator ys (omega (arith, length-perm p)))

pub fold_residual_lem :
    (acc : List ℕ) (hashes : List ElementHash)
    → fold_residual acc hashes ≡ fold_words acc (wide hashes)
unfolding fold_residual fold_words
fold_residual_lem acc [] = refl
fold_residual_lem acc (hash ∷ hashes) = fold_residual_lem (xor_words acc hash.h128) hashes

digest-populate :
    (hashes : List ElementHash)
    → length hashes ≤ max_u64
    → (populate new_room_accumulator hashes).digest ≡ fold_words (replicate 16 0) (wide hashes)
unfolding new_room_accumulator
digest-populate hashes h =
    ap (λ (r : RoomAccumulator). r.digest) (populate_lem new_room_accumulator hashes (omega arith))

difference_lem :
    (common xs ys : List ElementHash)
    → length (common ++ xs) ≤ max_u64
    → length (common ++ ys) ≤ max_u64
    → AreWide xs
    → AreWide ys
    → residual
        (populate new_room_accumulator (common ++ xs))
        (populate new_room_accumulator (common ++ ys))
      ≡ fold_words (replicate 16 0) (wide xs ++ wide ys)
unfolding residual
difference_lem common xs ys h k wx wy =
    ap₂ xor_words
      (digest-populate (common ++ xs) h
        ∙ ap (fold_words (replicate 16 0)) (map-append (λ (e : ElementHash). e.h128) common xs))
      (digest-populate (common ++ ys) k
        ∙ ap (fold_words (replicate 16 0)) (map-append (λ (e : ElementHash). e.h128) common ys))
    ∙ fold_words_difference 16 (wide common) (wide xs) (wide ys) wx wy

-- Two rooms that share the elements `common` and differ by `xs` and `ys`: the residual of their
-- accumulators is verified by the elements of the symmetric difference, where neither count overflows
-- and the digests have 16 bytes.
pub verify_residual-residual :
    (common xs ys : List ElementHash)
    → length (common ++ xs) ≤ max_u64
    → length (common ++ ys) ≤ max_u64
    → AreWide xs
    → AreWide ys
    → verify_residual
        (residual
          (populate new_room_accumulator (common ++ xs))
          (populate new_room_accumulator (common ++ ys)))
        (xs ++ ys)
      ≡ true
unfolding verify_residual
verify_residual-residual common xs ys h k wx wy = list_eq_of_eq (
    fold_residual_lem (replicate 16 0) (xs ++ ys)
    ∙ ap (fold_words (replicate 16 0)) (map-append (λ (e : ElementHash). e.h128) xs ys)
    ∙ sym (difference_lem common xs ys h k wx wy))

-- Two rooms that share the elements `common` and differ by `xs` and `ys`: the residual of their
-- accumulators is verified by the list of wide digests of `xs` and that of `ys`, where neither count
-- overflows and the digests have 16 bytes.
pub verify_global_residual-residual :
    (common xs ys : List ElementHash)
    → length (common ++ xs) ≤ max_u64
    → length (common ++ ys) ≤ max_u64
    → AreWide xs
    → AreWide ys
    → verify_global_residual
        (residual
          (populate new_room_accumulator (common ++ xs))
          (populate new_room_accumulator (common ++ ys)))
        (wide xs)
        (wide ys)
      ≡ true
unfolding verify_global_residual
verify_global_residual-residual common xs ys h k wx wy = list_eq_of_eq (
    sym (fold_words-append (replicate 16 0) (wide xs) (wide ys))
    ∙ sym (difference_lem common xs ys h k wx wy))
