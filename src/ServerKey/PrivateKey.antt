-- ===== src/ServerKey/PrivateKey.antt =====
-- serverkey/privatekey.go: private keys wrapped under a passphrase. Argon2id, the AEAD and base64 are
-- parameters; the random source is the bytes that are read from it.
pub mod RoundTrip
use gomatrixcrypto.Base.{
  ℕ, zero, suc, ◌*◌, ◌^◌, ◌-◌, ◌≡◌, Bool, true, false, ◌||◌, ◌&&◌, List, [], ◌∷◌, Option, none,
  some, length, take, drop, list_eq, leb, ltb, ◌==◌, if◌then◌else◌, Result, ok, err, Error, ◌>>=◌,
  invalid_key_object, invalid_private_key, invalid_passphrase, weak_passphrase, read_failure,
}
use gomatrixcrypto.Base.Bytes.{codes}
use gomatrixcrypto.MatrixJson.{Value, Fields, Width, text, uint, object, end, field}
use gomatrixcrypto.MatrixJson.Object.{lookup, as_map, as_text}
use gomatrixcrypto.Fndsa512.{private_key_size}
use gomatrixcrypto.ServerKey.Numbers.{uint64_from_any}
use gomatrixcrypto.ServerKey.Verify.{require, or_nil, pass_if}

abbrev pub encrypted_private_key_algorithm : List ℕ
encrypted_private_key_algorithm = codes "tk.nutra.msc45xx.private-key.xchacha20poly1305-argon2id.v1"

abbrev pub private_key_kdf_algorithm : List ℕ
private_key_kdf_algorithm = codes "argon2id"

abbrev pub private_key_aead_algorithm : List ℕ
private_key_aead_algorithm = codes "xchacha20poly1305"

abbrev pub private_key_salt_size : ℕ
private_key_salt_size = 16

abbrev pub private_key_key_size : ℕ
private_key_key_size = 32

abbrev pub private_key_min_passphrase_size : ℕ
private_key_min_passphrase_size = 12

-- chacha20poly1305.NonceSizeX
abbrev pub nonce_size_x : ℕ
nonce_size_x = 24

pub record EncryptionParams : Type 0 where
  pub time : ℕ
  pub memory_kib : ℕ
  pub threads : ℕ
  pub salt : List ℕ
  pub nonce : List ℕ

abbrev pub default_private_key_encryption_params : EncryptionParams
default_private_key_encryption_params = record {
  time = 3;
  memory_kib = 64 * 1024;
  threads = 4;
  salt = [];
  nonce = [];
}

-- A cipher.AEAD: of a nonce, a text and the additional data.
pub record Aead : Type 0 where
  pub seal : List ℕ → List ℕ → List ℕ → List ℕ
  pub open_sealed : List ℕ → List ℕ → List ℕ → Result (List ℕ)

-- `id_key` is argon2.IDKey of the passphrase, the salt, the three costs and the length of the key;
-- `new_x` is chacha20poly1305.NewX.
pub record Wrapping : Type 0 where
  pub id_key : List ℕ → List ℕ → ℕ → ℕ → ℕ → ℕ → List ℕ
  pub new_x : List ℕ → Result Aead
  pub encode_std : List ℕ → List ℕ
  pub decode_std : List ℕ → Result (List ℕ)
  pub convert : ℕ → ℕ

-- `io.ReadFull` of n bytes, with what is left.
unfoldable pub read_full : ℕ → List ℕ → Result (List ℕ × List ℕ)
read_full n rng = if leb n (length rng) then ok (take n rng, drop n rng) else err read_failure

-- What is given, or n bytes of the source where it is empty.
unfoldable pub fill : ℕ → List ℕ → List ℕ → Result (List ℕ × List ℕ)
unfolding read_full
fill n [] rng = read_full n rng
fill n (b ∷ given) rng = ok ((b ∷ given), rng)

unfoldable pub validate_private_key_passphrase : List ℕ → Result Bool
validate_private_key_passphrase [] = err invalid_passphrase
validate_private_key_passphrase (c ∷ cs) =
    if ltb (length (c ∷ cs)) private_key_min_passphrase_size then err weak_passphrase else ok true

unfoldable pub validate_private_key_encryption_inputs : ℕ → EncryptionParams → Result Bool
validate_private_key_encryption_inputs key_length params =
    if key_length == private_key_size
    then if params.time == 0 || (params.memory_kib == 0 || params.threads == 0)
      then err invalid_key_object
      else ok true
    else err invalid_private_key

abbrev pub has_sizes : EncryptionParams → Bool
has_sizes params =
    (length params.salt == private_key_salt_size) && (length params.nonce == nonce_size_x)

abbrev pub in_range : EncryptionParams → Bool
in_range params =
    leb params.time (2 ^ 32 - 1)
    && (leb params.memory_kib (2 ^ 32 - 1) && leb params.threads (2 ^ 8 - 1))

module _ (lib : Wrapping) where
  unfoldable pub private_key_aead : List ℕ → EncryptionParams → Result Aead
  private_key_aead passphrase params = lib.new_x (
      lib.id_key passphrase params.salt params.time params.memory_kib params.threads
        private_key_key_size)

  -- The object of a wrapped key.
  unfoldable pub wrapped : EncryptionParams → List ℕ → Fields
  wrapped params ciphertext = field (codes "algorithm") (text encrypted_private_key_algorithm) (
      field (codes "kdf")
        (object (
          field (codes "algorithm") (text private_key_kdf_algorithm) (
            field (codes "time") (uint Width.w32 params.time) (
              field (codes "memory_kib") (uint Width.w32 params.memory_kib) (
                field (codes "threads") (uint Width.w8 params.threads)
                  (field (codes "salt") (text (lib.encode_std params.salt)) end))))))
        (field (codes "aead")
          (object (
            field (codes "algorithm") (text private_key_aead_algorithm)
              (field (codes "nonce") (text (lib.encode_std params.nonce)) end)))
          (field (codes "ciphertext") (text (lib.encode_std ciphertext)) end)))

  -- The cipher's part of the encryption, with the salt and the nonce in place.
  unfoldable pub seal_key : List ℕ → List ℕ → EncryptionParams → Result Fields
  unfolding private_key_aead wrapped
  seal_key private_key passphrase params =
      pass_if (has_sizes params) invalid_key_object >>= λ (passed : Bool).
      private_key_aead passphrase params >>= λ (aead : Aead).
      ok (wrapped params (aead.seal params.nonce private_key encrypted_private_key_algorithm))

  unfoldable pub encrypt_private_key : List ℕ → List ℕ → List ℕ → EncryptionParams → Result Fields
  unfolding validate_private_key_encryption_inputs validate_private_key_passphrase fill seal_key
  encrypt_private_key rng private_key passphrase params =
      validate_private_key_encryption_inputs (length private_key) params >>= λ (valid : Bool).
      validate_private_key_passphrase passphrase >>= λ (strong : Bool).
      fill private_key_salt_size params.salt rng >>= λ (salted : List ℕ × List ℕ).
      fill nonce_size_x params.nonce salted.1 >>= λ (nonced : List ℕ × List ℕ).
      seal_key private_key passphrase (record params { salt = salted.0; nonce = nonced.0 })

  -- A text that has to be a given one.
  unfoldable pub require_text : List ℕ → Option Value → Result Bool
  unfolding list_eq
  require_text wanted found = require invalid_key_object (as_text found) >>= λ (s : List ℕ).
      pass_if (list_eq s wanted) invalid_key_object

  unfoldable pub decode_text : Option Value → Result (List ℕ)
  decode_text found = require invalid_key_object (as_text found) >>= lib.decode_std

  unfoldable pub number_at : List ℕ → Fields → Result ℕ
  unfolding lookup uint64_from_any
  number_at k fs = uint64_from_any lib.convert (or_nil (lookup k fs))

  -- The tests on what was read.
  unfoldable pub check_params : EncryptionParams → Result EncryptionParams
  unfolding validate_private_key_encryption_inputs
  check_params params = pass_if (in_range params) invalid_key_object >>= λ (small : Bool).
      validate_private_key_encryption_inputs private_key_size params >>= λ (valid : Bool).
      pass_if (has_sizes params) invalid_key_object >>= λ (sized : Bool). ok params

  unfoldable pub params_from_object : Fields → Result EncryptionParams
  unfolding lookup require_text decode_text number_at check_params
  params_from_object encrypted =
      require invalid_key_object (as_map (lookup (codes "kdf") encrypted)) >>= λ (kdf : Fields).
      require_text private_key_kdf_algorithm (lookup (codes "algorithm") kdf) >>= λ (is_kdf : Bool).
      number_at (codes "time") kdf >>= λ (t : ℕ). number_at (codes "memory_kib") kdf >>= λ (m : ℕ).
      number_at (codes "threads") kdf >>= λ (n : ℕ).
      decode_text (lookup (codes "salt") kdf) >>= λ (s : List ℕ).
      require invalid_key_object (as_map (lookup (codes "aead") encrypted))
      >>= λ (raw_aead : Fields).
          require_text private_key_aead_algorithm (lookup (codes "algorithm") raw_aead)
          >>= λ (is_aead : Bool). decode_text (lookup (codes "nonce") raw_aead) >>= λ (iv : List ℕ).
              check_params (record { time = t; memory_kib = m; threads = n; salt = s; nonce = iv })

  -- A key of the right size is passed on.
  abbrev pub check_opened : List ℕ → Result (List ℕ)
  check_opened private_key =
      if length private_key == private_key_size then ok private_key else err invalid_private_key

  unfoldable pub open_object : Fields → List ℕ → Result (List ℕ)
  unfolding lookup require_text decode_text params_from_object private_key_aead
  open_object encrypted passphrase =
      require_text encrypted_private_key_algorithm (lookup (codes "algorithm") encrypted)
      >>= λ (is_ours : Bool). params_from_object encrypted >>= λ (params : EncryptionParams).
          decode_text (lookup (codes "ciphertext") encrypted) >>= λ (ciphertext : List ℕ).
          private_key_aead passphrase params >>= λ (aead : Aead).
          aead.open_sealed params.nonce ciphertext encrypted_private_key_algorithm >>= check_opened

  unfoldable pub decrypt_private_key : Fields → List ℕ → Result (List ℕ)
  unfolding open_object
  decrypt_private_key encrypted [] = err invalid_passphrase
  decrypt_private_key encrypted (c ∷ passphrase) = open_object encrypted (c ∷ passphrase)

  unfoldable pub reencrypt_private_key :
      List ℕ → Fields → List ℕ → List ℕ → EncryptionParams → Result Fields
  unfolding decrypt_private_key encrypt_private_key
  reencrypt_private_key rng encrypted old_passphrase new_passphrase params =
      decrypt_private_key encrypted old_passphrase >>= λ (private_key : List ℕ).
      encrypt_private_key rng private_key new_passphrase params
