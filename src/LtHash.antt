-- ===== src/LtHash.antt =====
-- lthash/lthash.go: the LtHash16 state of a set of entries. A state is the list of its 1024 uint16
-- words; SHAKE256 (its first 2048 bytes) and BLAKE2b are parameters.
pub mod Words
pub mod Laws
use gomatrixcrypto.Base.{
  ℕ, zero, suc, ◌+◌, ◌-◌, ◌*◌, ◌%◌, ◌^◌, bit_and, ◌≡◌, Bool, true, false, List, [], ◌∷◌, ◌++◌,
  length, take, replicate, get_or, leb, ◌==◌, if◌then◌else◌,
}
use gomatrixcrypto.Base.Bytes.{codes, put_le, get_words, put_words}
use gomatrixcrypto.LtHash.Words.{add_words, sub_words}

abbrev pub word_count : ℕ
word_count = 1024

abbrev pub byte_size : ℕ
byte_size = 2048

abbrev pub max_u16 : ℕ
max_u16 = 65535

unfoldable pub dst : List ℕ
dst = codes "msc4500_lthash16_v1" ++ (0 ∷ [])

abbrev pub Hash : Type 0
Hash = List ℕ

pub record Entry : Type 0 where
  pub event_type : List ℕ
  pub state_key : List ℕ
  pub event_id : List ℕ

-- The loop that walks back over UTF-8 continuation bytes.
unfoldable pub truncate_loop : ℕ → List ℕ → ℕ
truncate_loop zero s = 0
truncate_loop (suc stop) s =
    let rest = truncate_loop stop s in
    if bit_and (get_or s (suc stop) 0) 0xc0 == 0x80 then rest else suc stop

unfoldable pub truncate_to_u16_limit : List ℕ → List ℕ × ℕ
truncate_to_u16_limit s =
    let stop = truncate_loop max_u16 s in
    if leb (length s) max_u16 then (s, length s) else (take stop s, stop)

module _ (shake256 : List ℕ → List ℕ) where
  -- What is written to the extendable-output function.
  unfoldable pub seed_input : List ℕ → List ℕ → List ℕ → List ℕ
  seed_input event_type state_key event_id =
      let (kind, type_len) = truncate_to_u16_limit event_type in
      let (key, key_len) = truncate_to_u16_limit state_key in
      dst ++ (put_le 2 type_len ++ (kind ++ (put_le 2 key_len ++ (key ++ event_id))))

  unfoldable pub seed : List ℕ → List ℕ → List ℕ → Hash
  seed event_type state_key event_id =
      get_words 2 word_count (shake256 (seed_input event_type state_key event_id))

  unfoldable pub insert : Hash → List ℕ → List ℕ → List ℕ → Hash
  insert h event_type state_key event_id = add_words h (seed event_type state_key event_id)

  unfoldable pub remove : Hash → List ℕ → List ℕ → List ℕ → Hash
  remove h event_type state_key event_id = sub_words h (seed event_type state_key event_id)

  unfoldable pub replace : Hash → List ℕ → List ℕ → List ℕ → List ℕ → Hash
  replace h event_type state_key old_event_id new_event_id =
      add_words (sub_words h (seed event_type state_key old_event_id))
        (seed event_type state_key new_event_id)

  unfoldable pub insert_entries : Hash → List Entry → Hash
  insert_entries h [] = h
  insert_entries h (entry ∷ entries) =
      insert_entries (insert h entry.event_type entry.state_key entry.event_id) entries

  unfoldable pub from_entries : List Entry → Hash
  from_entries entries = insert_entries (replicate word_count 0) entries

unfoldable pub bytes : Hash → List ℕ
bytes h = put_words 2 h

module _ (blake2b raw_url_encode : List ℕ → List ℕ) where
  unfoldable pub checksum : Hash → List ℕ
  checksum h = blake2b (bytes h)

  unfoldable pub string : Hash → List ℕ
  string h = raw_url_encode (checksum h)
