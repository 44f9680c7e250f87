-- ===== src/LtHash/Laws.antt =====
-- lthash/lthash.go: lemmas on the updates of the lattice state and on what is hashed.
use gomatrixcrypto.Base.{
  ℕ, zero, suc, ◌≤◌, ◌<◌, ◌≡◌, refl, sym, ap, ◌∙◌, List, [], ◌∷◌, All, length, take, replicate, map,
  arith, ◌⊎◌, inl, inr, bit_and, get_or, Bool-cases, leb, ◌==◌, ==→eq, length-take,
}
use mathlib.Core.List.{Perm}
use mathlib.Core.List.Perm
use gomatrixcrypto.Base.Bytes.{get_words, get_words-put_words, length-put_words, get_words-lt}
use gomatrixcrypto.LtHash.Words.{
  add_words, sub_words, AreU16, sub_words-add_words, sum_words, sum_words-perm, sum_words-AreU16,
  sum_words_last,
}
use gomatrixcrypto.LtHash.{
  Hash, Entry, seed, insert, remove, replace, insert_entries, from_entries, bytes, word_count,
  byte_size, truncate_to_u16_limit, truncate_loop, max_u16,
}

module _ (shake256 : List ℕ → List ℕ) where
  abbrev pub seed_of : Entry → Hash
  seed_of e = seed shake256 e.event_type e.state_key e.event_id

  insert_entries_lem :
      (h : Hash) (entries : List Entry)
      → insert_entries shake256 h entries ≡ sum_words h (map seed_of entries)
  unfolding insert_entries sum_words insert
  insert_entries_lem h [] = refl
  insert_entries_lem h (e ∷ entries) = insert_entries_lem (add_words h (seed_of e)) entries

  -- The state of a set of entries does not depend on the order of insertion.
  pub from_entries-perm :
      (xs ys : List Entry) → Perm xs ys → from_entries shake256 xs ≡ from_entries shake256 ys
  unfolding from_entries
  from_entries-perm xs ys p =
      insert_entries_lem (replicate word_count 0) xs
      ∙ sum_words-perm (replicate word_count 0) (Perm.map seed_of p)
      ∙ sym (insert_entries_lem (replicate word_count 0) ys)

  zeros-AreU16 : (n : ℕ) → AreU16 (replicate n 0)
  unfolding replicate
  zeros-AreU16 zero = tt
  zeros-AreU16 (suc n) = (omega arith, zeros-AreU16 n)

  from_entries-AreU16 : (xs : List Entry) → AreU16 (from_entries shake256 xs)
  unfolding from_entries
  from_entries-AreU16 xs =
      rw (insert_entries_lem (replicate word_count 0) xs)
        (sum_words-AreU16 (replicate word_count 0) (map seed_of xs) (zeros-AreU16 word_count))

  -- An entry at the front of the list is the last one inserted, up to order.
  from_entries-cons :
      (e : Entry) (es : List Entry)
      → from_entries shake256 (e ∷ es) ≡ add_words (from_entries shake256 es) (seed_of e)
  unfolding from_entries sum_words
  from_entries-cons e es =
      insert_entries_lem (replicate word_count 0) (e ∷ es)
      ∙ sum_words_last (replicate word_count 0) (seed_of e) (map seed_of es)
      ∙ ap (λ (h : Hash). add_words h (seed_of e))
          (sym (insert_entries_lem (replicate word_count 0) es))

  module _ (bytes_out : (m : List ℕ) → All (λ b. b < 256) (shake256 m)) where
    seed-AreU16 : (e : Entry) → AreU16 (seed_of e)
    unfolding seed
    seed-AreU16 e = get_words-lt 2 word_count _ (bytes_out _)

    -- Removing an entry that was just inserted restores the state, where the state is made of uint16
    -- words and the extendable-output function writes bytes.
    pub remove-insert_entry :
        (h : Hash) (e : Entry)
        → AreU16 h
        → remove shake256
            (insert shake256 h e.event_type e.state_key e.event_id)
            e.event_type
            e.state_key
            e.event_id
          ≡ h
    unfolding remove insert
    remove-insert_entry h e u = sub_words-add_words h (seed_of e) u (seed-AreU16 e)

    -- Replacing an event in the state of a set of entries, wherever it was inserted, gives the state
    -- of the set with the new event in its place, where the extendable-output function writes bytes.
    pub replace-from_entries :
        (event_type state_key old new : List ℕ) (es entries : List Entry)
        → Perm entries
            (record { event_type = event_type; state_key = state_key; event_id = old } ∷ es)
        → replace shake256 (from_entries shake256 entries) event_type state_key old new
          ≡ from_entries shake256
              (record { event_type = event_type; state_key = state_key; event_id = new } ∷ es)
    unfolding replace
    replace-from_entries event_type state_key old new es entries p =
        let before : Entry = record {
          event_type = event_type;
          state_key = state_key;
          event_id = old;
        } in
        let after : Entry = record {
          event_type = event_type;
          state_key = state_key;
          event_id = new;
        } in
        let state : from_entries shake256 entries
            ≡ add_words (from_entries shake256 es) (seed_of before) =
          from_entries-perm entries (before ∷ es) p ∙ from_entries-cons before es in
        ap (λ (h : Hash). add_words (sub_words h (seed_of before)) (seed_of after)) state
        ∙ ap (λ (h : Hash). add_words h (seed_of after))
            (sub_words-add_words (from_entries shake256 es) (seed_of before)
              (from_entries-AreU16 es) (seed-AreU16 before))
        ∙ sym (from_entries-cons after es)

-- A state of 1024 uint16 words is written as 2048 bytes, and is read back from them.
pub bytes_roundtrip :
    (h : Hash)
    → length h ≡ word_count
    → AreU16 h
    → (length (bytes h) ≡ byte_size) × (get_words 2 word_count (bytes h) ≡ h)
unfolding bytes
bytes_roundtrip h n u = (omega (arith, length-put_words 2 h), rw (← n) (get_words-put_words 2 h u))

-- The byte at an index of a string is a UTF-8 continuation byte.
abbrev pub IsContinuation : List ℕ → ℕ → Type 0
IsContinuation s i = bit_and (get_or s i 0) 0xc0 ≡ 0x80

-- What may be hashed of a string, with the length that is written before it: the whole string, where
-- its length is a uint16, or else the longest prefix of at most 65535 bytes behind which a character
-- starts, and nothing where there is none.
pub data IsLimited (s : List ℕ) : List ℕ × ℕ → Type 0 where
  whole : length s ≤ max_u16 → IsLimited s (s, length s)
  cut :
      (n : ℕ)
      → max_u16 < length s
      → n ≤ max_u16
      → length (take n s) ≡ n
      → (n ≡ 0) ⊎ ¬ IsContinuation s n
      → ((i : ℕ) → n < i → i ≤ max_u16 → IsContinuation s i)
      → IsLimited s (take n s, n)

truncate_loop_lem :
    (stop : ℕ) (s : List ℕ)
    → (truncate_loop stop s ≤ stop)
      × ((truncate_loop stop s ≡ 0) ⊎ ¬ IsContinuation s (truncate_loop stop s))
      × ((i : ℕ) → truncate_loop stop s < i → i ≤ stop → IsContinuation s i)
unfolding truncate_loop
truncate_loop_lem zero s = (omega arith, inl refl, λ i above below. absurd (omega arith))
truncate_loop_lem (suc stop) s = elim (Bool-cases (bit_and (get_or s (suc stop) 0) 0xc0 == 0x80)) [
  | inl more ↦
      let (within, ends, behind) = truncate_loop_lem stop s in
      rw more (
        omega arith,
        ends,
        λ i above below. elim (Bool-cases (i == suc stop)) [
          | inl last ↦
              let here : i ≡ suc stop = ==→eq i (suc stop) last in
              rw here (==→eq (bit_and (get_or s (suc stop) 0) 0xc0) 0x80 more)
          | inr before ↦ behind i above (ground arith)
        ],
      )
  | inr here ↦
      rw here
        (omega arith, inr (λ same. absurd (ground arith)), λ i above below. absurd (omega arith))
]

-- What is hashed of a string, with the length that is written before it, is the whole string or, of a
-- string longer than 65535 bytes, the longest prefix of at most so many bytes that ends where a UTF-8
-- character starts, and nothing where there is none, as IsLimited has it.
pub truncate_to_u16_limit-IsLimited : (s : List ℕ) → IsLimited s (truncate_to_u16_limit s)
unfolding truncate_to_u16_limit
truncate_to_u16_limit-IsLimited s = elim (Bool-cases (leb (length s) max_u16)) [
  | inl fits ↦ rw fits (whole (ground arith))
  | inr long ↦
      let (within, ends, behind) = truncate_loop_lem max_u16 s in
      let n = truncate_loop max_u16 s in
      rw long (cut n (ground arith) within (length-take n s (ground arith)) ends behind)
]
