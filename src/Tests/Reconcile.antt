-- ===== src/Tests/Reconcile.antt =====
-- Runs of the sketches, the accumulator and the resident state.
use gomatrixcrypto.Base.{
  ℕ, suc, ◌≡◌, ◌≢◌, refl, true, none, some, [], ◌∷◌, replicate, arith, ok, count_overflow,
}
use mathlib.Core.List.Perm
use gomatrixcrypto.Base.Int.{pos}
use gomatrixcrypto.Reconcile.Element.{ElementHash, Encoding}
use gomatrixcrypto.Reconcile.Accumulator
use gomatrixcrypto.Reconcile.Accumulator.{
  RoomAccumulator, new_room_accumulator, max_u64, residual, verify_residual, verify_global_residual,
}
use gomatrixcrypto.Reconcile.Accumulator.Laws.{
  populate, wide, populate-perm, remove-insert_accumulator, verify_residual-residual,
  verify_global_residual-residual,
}
use gomatrixcrypto.Reconcile.Resident
use gomatrixcrypto.Reconcile.Resident.{ResidentKernel, new_resident_kernel}
use gomatrixcrypto.Reconcile.Resident.Laws.{insert_comm, insert_error, remove-insert_kernel}
use gomatrixcrypto.Reconcile.Sketch.{
  SyndromeSketch, capacity, encode, decode_syndrome_sketch, subtract,
}
use gomatrixcrypto.Reconcile.Sketch.Laws.{
  empty, toggle_all, toggle_all-perm, subtract-toggle_all, decode_syndrome_sketch-encode,
}

abbrev element : ℕ → ElementHash
element b = record { h128 = replicate 16 b; h64 = b }

nonzero : (n : ℕ) → suc n ≢ 0
nonzero n e = absurd (omega arith)

abbrev sketch_of_two : SyndromeSketch
sketch_of_two = record { coordinates = 6 ∷ 9 ∷ [] }

toggle_all-perm_example : toggle_all (empty 2) (3 ∷ 5 ∷ []) ≡ toggle_all (empty 2) (5 ∷ 3 ∷ [])
toggle_all-perm_example =
    toggle_all-perm 2 (3 ∷ 5 ∷ []) (5 ∷ 3 ∷ []) (Perm.swap 5 3 []) (nonzero 2, (nonzero 4, tt))
      (nonzero 4, (nonzero 2, tt))

subtract-toggle_all_example :
    subtract (toggle_all (empty 2) (7 ∷ 3 ∷ [])) (toggle_all (empty 2) (7 ∷ 5 ∷ []))
    ≡ ok (toggle_all (empty 2) (3 ∷ 5 ∷ []))
subtract-toggle_all_example =
    subtract-toggle_all 2 (7 ∷ []) (3 ∷ []) (5 ∷ []) (nonzero 6, tt) (nonzero 2, tt) (nonzero 4, tt)

-- An encoding that writes the bytes as they are.
abbrev plain_encoding : Encoding
plain_encoding = record {
  encode = λ bytes. bytes;
  decode = λ bytes. some bytes;
  encoded_len = λ n. n;
}

decode_syndrome_sketch-encode_example :
    decode_syndrome_sketch plain_encoding (pos 2) (encode plain_encoding sketch_of_two)
    ≡ ok sketch_of_two
unfolding capacity
decode_syndrome_sketch-encode_example =
    decode_syndrome_sketch-encode plain_encoding (λ bytes. refl) (λ bytes. refl) sketch_of_two
      (omega arith) (omega arith) (omega arith, (omega arith, tt))

populate-perm_example :
    populate new_room_accumulator (element 1 ∷ element 2 ∷ [])
    ≡ populate new_room_accumulator (element 2 ∷ element 1 ∷ [])
populate-perm_example =
    populate-perm (element 1 ∷ element 2 ∷ []) (element 2 ∷ element 1 ∷ [])
      (Perm.swap (element 2) (element 1) []) (omega arith)

abbrev counted : RoomAccumulator
counted = record { digest = replicate 16 3; count = 1 }

remove-insert_accumulator_example :
    ((Accumulator.insert counted (element 2)).1 ≡ none)
    × (Accumulator.remove (Accumulator.insert counted (element 2)).0 (element 2) ≡ (counted, none))
remove-insert_accumulator_example = remove-insert_accumulator counted (element 2) (omega arith)

verify_residual-residual_example :
    verify_residual
      (residual
        (populate new_room_accumulator (element 7 ∷ element 1 ∷ []))
        (populate new_room_accumulator (element 7 ∷ element 2 ∷ [])))
      (element 1 ∷ element 2 ∷ [])
    ≡ true
unfolding replicate
verify_residual-residual_example =
    verify_residual-residual (element 7 ∷ []) (element 1 ∷ []) (element 2 ∷ []) (omega arith)
      (omega arith) (refl, tt) (refl, tt)

verify_global_residual-residual_example :
    verify_global_residual
      (residual
        (populate new_room_accumulator (element 7 ∷ element 1 ∷ []))
        (populate new_room_accumulator (element 7 ∷ element 2 ∷ [])))
      (wide (element 1 ∷ []))
      (wide (element 2 ∷ []))
    ≡ true
unfolding replicate
verify_global_residual-residual_example =
    verify_global_residual-residual (element 7 ∷ []) (element 1 ∷ []) (element 2 ∷ []) (omega arith)
      (omega arith) (refl, tt) (refl, tt)

abbrev counted_kernel : ResidentKernel
counted_kernel = record { accumulator = counted; strata = replicate 32 (replicate 8 0) }

remove-insert_kernel_example :
    ((Resident.insert counted_kernel (element 2)).1 ≡ none)
    × (Resident.remove (Resident.insert counted_kernel (element 2)).0 (element 2)
        ≡ (counted_kernel, none))
remove-insert_kernel_example =
    remove-insert_kernel counted_kernel (element 2) (nonzero 1) (omega arith)

insert_comm_example :
    Resident.insert (Resident.insert counted_kernel (element 2)).0 (element 3)
    ≡ Resident.insert (Resident.insert counted_kernel (element 3)).0 (element 2)
insert_comm_example =
    insert_comm counted_kernel (element 2) (element 3) (nonzero 1) (nonzero 2) (omega arith)

-- A kernel whose count is at its bound.
abbrev full_kernel : ResidentKernel
full_kernel = record {
  accumulator = record { digest = replicate 16 3; count = max_u64 };
  strata = replicate 32 (replicate 8 0);
}

-- One element more is refused.
overflow_refused : (Resident.insert full_kernel (element 2)).1 ≡ some count_overflow
unfolding Resident.insert Accumulator.insert Resident.update_strata
overflow_refused = refl

insert_error_example : (Resident.insert full_kernel (element 2)).0 ≡ full_kernel
insert_error_example = insert_error full_kernel (element 2) overflow_refused
