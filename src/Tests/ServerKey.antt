-- ===== src/Tests/ServerKey.antt =====
-- Runs of the verification of server keys, of the registry and of the wrapping of private keys, with
-- stand-ins for the cryptographic functions.
use gomatrixcrypto.Base.{
  ◌≢◌, Bool-cases, inl, inr, list_eq→eq, ap, none, ℕ, ◌≡◌, refl, sym, get_or, true, List, [], ◌∷◌,
  some, if◌then◌else◌, Result, ok, replicate, list_eq, take, drop, arith,
}
use gomatrixcrypto.Base.Int.{pos}
use gomatrixcrypto.Base.Bytes.{codes}
use gomatrixcrypto.Base.Bytes.{get_words, get_le}
use gomatrixcrypto.Base.Keyed.{sort_by_key, insert_by_key, text_leb}
use gomatrixcrypto.Cuckoo.{
  normalize, filled_size, is_bad_size, has_size, is_sorted, is_sorted_from, endpoints_loop,
  is_repeated, edge_mask, edge_for_nonce, seed_words, state_of_words, edge_of, siphash24, sip_round,
  validate,
}
use gomatrixcrypto.Cuckoo.Cycle.{
  verify_cycle, verify_cycle_within, walk_loop, round, advance, partner_loop, xor_all, result_of,
}
use gomatrixcrypto.MatrixJson.{
  Fields, Width, text, uint, uint32s, object, end, field, append_value, append_items,
  append_entries, append_entry, join, append_string, valid_string, valid_from, lead, escape,
  escape_all, append_uint, append_int, append_uint32s, format_uint, digits_loop,
}
use gomatrixcrypto.Fndsa512.{Scheme, domain_none}
use gomatrixcrypto.MatrixJson.Object.{put, lookup}
use gomatrixcrypto.ServerKey.Profile.{
  Registry, new_profile, initial_registry, register_profile, is_registered_profile, get_profile,
}
use gomatrixcrypto.ServerKey.Profile.Invariant.{
  IsReachable, initial, registered, IsUsable, IsReachable-IsUsable,
}
use gomatrixcrypto.ServerKey.Object.{
  Library, MintingProof, validate_proof, new_signed_fndsa, fndsa_key_object,
}
use gomatrixcrypto.ServerKey.Numbers.{uint32s_to_any}
use gomatrixcrypto.ServerKey.Verify.Signed.{signed_object}
use gomatrixcrypto.ServerKey.Verify.RoundTrip.{verify_minted_fndsa_server_key-new_signed_fndsa}
use gomatrixcrypto.ServerKey.Verify.{verify_minted_fndsa_server_key}
use gomatrixcrypto.ServerKey.Verify.Minted.{IsMinted, verify_minted_fndsa_server_key-IsMinted}
use gomatrixcrypto.ServerKey.PrivateKey.{
  EncryptionParams, Aead, Wrapping, wrapped, encrypt_private_key, decrypt_private_key,
}
use gomatrixcrypto.ServerKey.PrivateKey.RoundTrip.{decrypt_private_key-encrypt}
use gomatrixcrypto.Tests.Cuckoo.{small_config, sixes, four_nonces}

abbrev toy_decode : List ℕ → Result (List ℕ)
toy_decode s = if list_eq s (codes "A") then ok (replicate 897 1) else ok (replicate 666 2)

abbrev toy_scheme : Scheme
toy_scheme = record {
  raw_sign = λ key domain hash_id message. ok (replicate 666 2);
  raw_verify = λ key domain hash_id message signature. true;
}

abbrev toy_library : Library
toy_library = record {
  sha3 = λ message. sixes;
  sha256 = λ message. sixes;
  encode_std = λ bytes. codes "A";
  decode_std = toy_decode;
  encode_url = λ bytes. codes "k";
  convert = λ bits. 0;
  scheme = toy_scheme;
}

abbrev small_registry : Registry
small_registry = (codes "p", new_profile (codes "p") small_config 4) ∷ initial_registry

abbrev key_entry : Fields
key_entry = field (codes "key") (text (codes "A")) (
    field (codes "profile") (text (codes "p")) (
      field (codes "pow")
        (object (
          field (codes "nonce") (uint Width.w32 0)
            (field (codes "solution") (uint32s four_nonces) end)))
        end))

abbrev server_object : Fields
server_object = field (codes "server_name") (text (codes "s")) (
    field (codes "verify_keys") (object (field (codes "fndsa512:k") (object key_entry) end)) (
      field (codes "signatures")
        (object
          (field (codes "s") (object (field (codes "fndsa512:k") (text (codes "B")) end)) end))
        end))

server_object-accepted :
    verify_minted_fndsa_server_key toy_library small_registry server_object (codes "s")
    ≡ ok (codes "fndsa512:k")
unfolding verify_minted_fndsa_server_key new_profile append_value append_items append_entries
    append_entry join append_string valid_string valid_from lead escape escape_all append_uint
    append_uint32s format_uint digits_loop sort_by_key insert_by_key text_leb normalize filled_size
    is_bad_size has_size is_sorted is_sorted_from endpoints_loop is_repeated edge_mask
    edge_for_nonce seed_words state_of_words edge_of siphash24 sip_round verify_cycle
    verify_cycle_within walk_loop round advance partner_loop xor_all result_of replicate get_words
    get_le get_or take drop list_eq
server_object-accepted = refl

verify_minted_fndsa_server_key-IsMinted_example :
    IsMinted toy_library small_registry server_object (codes "s") (codes "fndsa512:k")
verify_minted_fndsa_server_key-IsMinted_example =
    verify_minted_fndsa_server_key-IsMinted toy_library small_registry server_object (codes "s")
      (codes "fndsa512:k") server_object-accepted

small_registry-made :
    register_profile initial_registry (codes "p") small_config (pos 4) ≡ ok small_registry
unfolding register_profile get_profile validate normalize is_bad_size filled_size
    is_registered_profile list_eq
small_registry-made = refl

small_registry-IsReachable : IsReachable small_registry
small_registry-IsReachable =
    registered {profiles = initial_registry} (codes "p") small_config (pos 4) initial
      small_registry-made

small_profile :
    get_profile small_registry (codes "p") ≡ some (new_profile (codes "p") small_config 4)
unfolding get_profile list_eq
small_profile = refl

IsReachable-IsUsable_example : IsUsable (new_profile (codes "p") small_config 4)
IsReachable-IsUsable_example =
    IsReachable-IsUsable small_registry (codes "p") (new_profile (codes "p") small_config 4)
      small_registry-IsReachable small_profile

abbrev toy_aead : Aead
toy_aead = record {
  seal = λ nonce message extra. message;
  open_sealed = λ nonce ciphertext extra. ok ciphertext;
}

abbrev toy_wrapping : Wrapping
toy_wrapping = record {
  id_key = λ passphrase salt time memory threads size. replicate size 0;
  new_x = λ key. ok toy_aead;
  encode_std = λ bytes. bytes;
  decode_std = ok;
  convert = λ bits. 0;
}

toy_opens :
    (key : List ℕ) (aead : Aead) (nonce message extra : List ℕ)
    → toy_wrapping.new_x key ≡ ok aead
    → aead.open_sealed nonce (aead.seal nonce message extra) extra ≡ ok message
toy_opens key aead nonce message extra e =
    let is : toy_aead ≡ aead = ground arith in rw (sym is) refl

abbrev toy_params : EncryptionParams
toy_params = record { time = 3; memory_kib = 4; threads = 1; salt = []; nonce = [] }

abbrev toy_key : List ℕ
toy_key = replicate 1281 7

abbrev toy_passphrase : List ℕ
toy_passphrase = codes "correct horse"

abbrev toy_encrypted : Fields
toy_encrypted =
    wrapped toy_wrapping (record toy_params { salt = replicate 16 9; nonce = replicate 24 9 })
      toy_key

abbrev toy_rng : List ℕ
toy_rng = replicate 40 9

toy_key-encrypted :
    encrypt_private_key toy_wrapping toy_rng toy_key toy_passphrase toy_params ≡ ok toy_encrypted
unfolding encrypt_private_key wrapped replicate drop take
toy_key-encrypted = refl

toy_decodes : (bytes : List ℕ) → toy_wrapping.decode_std (toy_wrapping.encode_std bytes) ≡ ok bytes
toy_decodes bytes = refl

decrypt_private_key-encrypt_example :
    decrypt_private_key toy_wrapping toy_encrypted toy_passphrase ≡ ok toy_key
decrypt_private_key-encrypt_example =
    decrypt_private_key-encrypt toy_wrapping toy_decodes toy_opens toy_rng toy_key toy_passphrase
      toy_params toy_encrypted refl toy_key-encrypted

abbrev long_key : List ℕ
long_key = replicate 897 1

abbrev long_sig : List ℕ
long_sig = replicate 666 2

-- An encoding that is short for the key and the signature.
abbrev short_encode : List ℕ → List ℕ
short_encode bytes =
    if list_eq bytes long_key
    then codes "A"
    else if list_eq bytes long_sig
    then codes "B"
    else 67 ∷ bytes

abbrev behind_first : List ℕ → List ℕ
behind_first [] = []
behind_first (c ∷ cs) = cs

abbrev short_decode : List ℕ → Result (List ℕ)
short_decode s =
    if list_eq s (codes "A")
    then ok long_key
    else if list_eq s (codes "B")
    then ok long_sig
    else ok (behind_first s)

short_decodes : (bytes : List ℕ) → short_decode (short_encode bytes) ≡ ok bytes
unfolding list_eq
short_decodes bytes = elim (Bool-cases (list_eq bytes long_key)) [
  | inl same ↦ rw same (ap ok (sym (list_eq→eq bytes long_key same)))
  | inr other ↦ elim (Bool-cases (list_eq bytes long_sig)) [
    | inl same ↦ rw (other, same) (ap ok (sym (list_eq→eq bytes long_sig same)))
    | inr another ↦ rw (other, another) refl
  ]
]

abbrev signing_library : Library
signing_library = record toy_library { encode_std = short_encode; decode_std = short_decode }

toy_pair :
    (m s : List ℕ)
    → toy_scheme.raw_sign toy_key domain_none 0 m ≡ ok s
    → toy_scheme.raw_verify long_key domain_none 0 m s ≡ true
toy_pair m s e = refl

abbrev toy_proof : MintingProof
toy_proof = record { algorithm = codes "p"; nonce = 0; solution = four_nonces }

toy_proof-valid :
    validate_proof signing_library small_registry long_key (codes "s") (codes "p") toy_proof ≡ none
unfolding validate_proof new_profile append_value append_items append_entries append_entry join
    append_string valid_string valid_from lead escape escape_all append_uint append_uint32s
    format_uint digits_loop sort_by_key insert_by_key text_leb normalize filled_size is_bad_size
    has_size is_sorted is_sorted_from endpoints_loop is_repeated edge_mask edge_for_nonce seed_words
    state_of_words edge_of siphash24 sip_round verify_cycle verify_cycle_within walk_loop round
    advance partner_loop xor_all result_of replicate get_words get_le get_or take drop list_eq put
    lookup uint32s_to_any fndsa_key_object append_int
toy_proof-valid = refl

toy_named : codes "p" ≢ []
toy_named e = absurd (ground arith)

abbrev toy_signed : Fields
toy_signed =
    signed_object signing_library (codes "s") long_key (pos 5) toy_proof (codes "fndsa512:k")
      long_sig

toy_signed-made :
    new_signed_fndsa signing_library small_registry (codes "s") toy_key long_key (pos 5) toy_proof
    ≡ ok (toy_signed, codes "fndsa512:k")
unfolding new_signed_fndsa new_profile append_value append_items append_entries append_entry join
    append_string valid_string valid_from lead escape escape_all append_uint append_uint32s
    format_uint digits_loop sort_by_key insert_by_key text_leb normalize filled_size is_bad_size
    has_size is_sorted is_sorted_from endpoints_loop is_repeated edge_mask edge_for_nonce seed_words
    state_of_words edge_of siphash24 sip_round verify_cycle verify_cycle_within walk_loop round
    advance partner_loop xor_all result_of replicate get_words get_le get_or take drop list_eq put
    lookup uint32s_to_any fndsa_key_object append_int
toy_signed-made = refl

verify_minted_fndsa_server_key-new_signed_fndsa_example :
    verify_minted_fndsa_server_key signing_library small_registry toy_signed (codes "s")
    ≡ ok (codes "fndsa512:k")
verify_minted_fndsa_server_key-new_signed_fndsa_example =
    verify_minted_fndsa_server_key-new_signed_fndsa signing_library small_registry short_decodes
      toy_key long_key toy_pair (codes "s") (pos 5) toy_proof toy_signed (codes "fndsa512:k")
      toy_named (omega arith) (omega arith, (omega arith, (omega arith, (omega arith, tt))))
      toy_proof-valid toy_signed-made
