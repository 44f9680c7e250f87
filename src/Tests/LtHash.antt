-- ===== src/Tests/LtHash.antt =====
-- Runs of the lattice hash, with a stand-in for SHAKE256 that writes 2048 bytes.
use gomatrixcrypto.Base.{
  ℕ, zero, suc, ◌%◌, ◌<◌, ◌≡◌, List, [], ◌∷◌, ◌++◌, length, replicate, length-replicate, All, arith,
}
use mathlib.Core.List.Perm
use gomatrixcrypto.Base.Bytes.{get_words}
use gomatrixcrypto.LtHash.{
  Hash, Entry, insert, remove, replace, from_entries, bytes, word_count, byte_size,
  truncate_to_u16_limit,
}
use gomatrixcrypto.LtHash.Words.{AreU16}
use gomatrixcrypto.LtHash.Laws.{
  from_entries-perm, remove-insert_entry, replace-from_entries, bytes_roundtrip,
  truncate_to_u16_limit-IsLimited, IsLimited,
}

abbrev toy_shake256 : List ℕ → List ℕ
toy_shake256 m = replicate byte_size (length m % 256)

replicate-All : (n b : ℕ) → b < 256 → All (λ x. x < 256) (replicate n b)
unfolding replicate
replicate-All zero b h = tt
replicate-All (suc n) b h = (h, replicate-All n b h)

toy_bytes : (m : List ℕ) → All (λ b. b < 256) (toy_shake256 m)
toy_bytes m = replicate-All byte_size (length m % 256) (omega arith)

abbrev entry : ℕ → Entry
entry b = record { event_type = b'a' ∷ []; state_key = []; event_id = b ∷ [] }

from_entries-perm_example :
    from_entries toy_shake256 (entry 1 ∷ entry 2 ∷ [])
    ≡ from_entries toy_shake256 (entry 2 ∷ entry 1 ∷ [])
from_entries-perm_example =
    from_entries-perm toy_shake256 (entry 1 ∷ entry 2 ∷ []) (entry 2 ∷ entry 1 ∷ [])
      (Perm.swap (entry 2) (entry 1) [])

abbrev zero_state : Hash
zero_state = replicate word_count 0

zeros_lt : (n : ℕ) → AreU16 (replicate n 0)
unfolding replicate
zeros_lt zero = tt
zeros_lt (suc n) = (omega arith, zeros_lt n)

remove-insert_entry_example :
    remove toy_shake256
      (insert toy_shake256 zero_state (b'a' ∷ []) [] (5 ∷ []))
      (b'a' ∷ [])
      []
      (5 ∷ [])
    ≡ zero_state
remove-insert_entry_example =
    remove-insert_entry toy_shake256 toy_bytes zero_state (entry 5) (zeros_lt word_count)

replace-from_entries_example :
    replace toy_shake256
      (from_entries toy_shake256 (entry 1 ∷ entry 2 ∷ []))
      (b'a' ∷ [])
      []
      (1 ∷ [])
      (3 ∷ [])
    ≡ from_entries toy_shake256 (entry 3 ∷ entry 2 ∷ [])
replace-from_entries_example =
    replace-from_entries toy_shake256 toy_bytes (b'a' ∷ []) [] (1 ∷ []) (3 ∷ []) (entry 2 ∷ [])
      (entry 1 ∷ entry 2 ∷ []) (Perm.refl (entry 1 ∷ entry 2 ∷ []))

bytes_roundtrip_example :
    (length (bytes zero_state) ≡ byte_size)
    × (get_words 2 word_count (bytes zero_state) ≡ zero_state)
bytes_roundtrip_example =
    bytes_roundtrip zero_state (length-replicate word_count 0) (zeros_lt word_count)

-- The repository's own test: a character of two bytes across the limit.
abbrev long_key : List ℕ
long_key = replicate 65534 b'a' ++ (0xc3 ∷ 0xa9 ∷ [])

truncate_to_u16_limit-IsLimited_example : IsLimited long_key (truncate_to_u16_limit long_key)
truncate_to_u16_limit-IsLimited_example = truncate_to_u16_limit-IsLimited long_key
