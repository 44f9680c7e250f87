-- ===== src/ServerKey/PrivateKey/RoundTrip.antt =====
-- serverkey/privatekey.go: what is wrapped and unwrapped under one passphrase.
use gomatrixcrypto.Base.{
  ℕ, ◌≡◌, refl, ◌∙◌, Bool, true, false, List, [], ◌∷◌, length, list_eq, ◌==◌, ok, Error, ==→eq,
  invalid_key_object, ◌>>=◌, bind-ok, chain, Bool-cases, inl, inr, arith,
}
use gomatrixcrypto.Base.Bytes.{codes}
use gomatrixcrypto.MatrixJson.{Fields}
use gomatrixcrypto.MatrixJson.Object.{lookup}
use gomatrixcrypto.Fndsa512.{private_key_size}
use gomatrixcrypto.ServerKey.Verify.{pass_if}
use gomatrixcrypto.ServerKey.PrivateKey.{
  EncryptionParams, Aead, Wrapping, encrypted_private_key_algorithm, in_range, has_sizes,
  validate_private_key_encryption_inputs, validate_private_key_passphrase, fill, private_key_aead,
  wrapped, seal_key, encrypt_private_key, require_text, decode_text, check_params,
  params_from_object, open_object, decrypt_private_key, check_opened, private_key_salt_size,
  private_key_key_size, nonce_size_x,
}

validate_lem :
    (key_length : ℕ) (params : EncryptionParams) (s iv : List ℕ) {valid : Bool}
    → validate_private_key_encryption_inputs key_length params ≡ ok valid
    → (key_length ≡ private_key_size)
      × (validate_private_key_encryption_inputs private_key_size
            (record params { salt = s; nonce = iv })
          ≡ ok valid)
unfolding validate_private_key_encryption_inputs
validate_lem key_length params s iv e = elim (Bool-cases (key_length == private_key_size)) [
  | inl same ↦ (==→eq key_length private_key_size same, ground arith)
  | inr other ↦ absurd (ground arith)
]

pass_if-ok_lem : (b : Bool) (x : Error) {c : Bool} → pass_if b x ≡ ok c → b ≡ true
pass_if-ok_lem true x h = refl
pass_if-ok_lem false x h = absurd (ground arith)

module _ (lib : Wrapping)
    (decodes : (bytes : List ℕ) → lib.decode_std (lib.encode_std bytes) ≡ ok bytes) where
  params_from_object-wrapped :
      (params : EncryptionParams) (ciphertext : List ℕ)
      → params_from_object lib (wrapped lib params ciphertext) ≡ check_params lib params
  unfolding params_from_object wrapped list_eq
  params_from_object-wrapped params ciphertext = rw (decodes params.salt, decodes params.nonce) refl

  require_text-wrapped :
      (params : EncryptionParams) (ciphertext : List ℕ)
      → require_text lib encrypted_private_key_algorithm
          (lookup (codes "algorithm") (wrapped lib params ciphertext))
        ≡ ok true
  unfolding require_text lookup wrapped list_eq
  require_text-wrapped params ciphertext = refl

  decode_text-wrapped :
      (params : EncryptionParams) (ciphertext : List ℕ)
      → decode_text lib (lookup (codes "ciphertext") (wrapped lib params ciphertext))
        ≡ ok ciphertext
  unfolding decode_text lookup wrapped list_eq
  decode_text-wrapped params ciphertext = decodes ciphertext

  -- Behind the object's own tests, the cipher opens what the object holds.
  open_object-wrapped :
      (params : EncryptionParams) (ciphertext passphrase : List ℕ) {aead : Aead}
      {private_key : List ℕ}
      → check_params lib params ≡ ok params
      → private_key_aead lib passphrase params ≡ ok aead
      → aead.open_sealed params.nonce ciphertext encrypted_private_key_algorithm ≡ ok private_key
      → length private_key ≡ private_key_size
      → open_object lib (wrapped lib params ciphertext) passphrase ≡ ok private_key
  unfolding open_object
  open_object-wrapped params ciphertext passphrase {aead} {private_key} e f g h =
      chain _ (require_text-wrapped params ciphertext) (
        chain _ (params_from_object-wrapped params ciphertext ∙ e) (
          chain _ (decode_text-wrapped params ciphertext)
            (chain _ f (chain (check_opened lib) g (rw h refl)))))

  check_params_lem :
      (params : EncryptionParams) {valid : Bool}
      → in_range params ≡ true
      → validate_private_key_encryption_inputs private_key_size params ≡ ok valid
      → has_sizes params ≡ true
      → check_params lib params ≡ ok params
  unfolding check_params
  check_params_lem params e f g =
      let small : pass_if (in_range params) invalid_key_object ≡ ok true = rw e refl in
      let sized : pass_if (has_sizes params) invalid_key_object ≡ ok true = rw g refl in
      chain _ small (chain _ f (chain _ sized refl))

  unfold_encrypt :
      (rng private_key passphrase : List ℕ) (params : EncryptionParams)
      → (validate_private_key_encryption_inputs (length private_key) params >>= λ (valid : Bool).
          validate_private_key_passphrase passphrase >>= λ (strong : Bool).
          fill private_key_salt_size params.salt rng >>= λ (salted : List ℕ × List ℕ).
          fill nonce_size_x params.nonce salted.1 >>= λ (nonced : List ℕ × List ℕ).
          seal_key lib private_key passphrase (record params { salt = salted.0; nonce = nonced.0 }))
        ≡ encrypt_private_key lib rng private_key passphrase params
  unfolding encrypt_private_key
  unfold_encrypt rng private_key passphrase params = refl

  seal_key_lem :
      (private_key passphrase : List ℕ) (params : EncryptionParams) {encrypted : Fields}
      → seal_key lib private_key passphrase params ≡ ok encrypted
      → (has_sizes params ≡ true)
        × (aead : Aead) × (private_key_aead lib passphrase params ≡ ok aead)
        × (encrypted
            ≡ wrapped lib params
                (aead.seal params.nonce private_key encrypted_private_key_algorithm))
  unfolding seal_key
  seal_key_lem private_key passphrase params e =
      let (passed, a, f) = bind-ok (pass_if (has_sizes params) invalid_key_object) _ e in
      let (aead, b, g) = bind-ok (private_key_aead lib passphrase params) _ f in
      (pass_if-ok_lem (has_sizes params) invalid_key_object a, aead, b, ground arith)

  decrypt_lem :
      (passphrase : List ℕ) {strong : Bool}
      → validate_private_key_passphrase passphrase ≡ ok strong
      → (encrypted : Fields)
      → decrypt_private_key lib encrypted passphrase ≡ open_object lib encrypted passphrase
  decrypt_lem [] e encrypted = absurd (unfold validate_private_key_passphrase in ground arith)
  decrypt_lem (c ∷ cs) e encrypted = unfold decrypt_private_key in refl

  -- A private key that is encrypted under a passphrase, with costs within their Go types, is what the
  -- decryption of the object under the same passphrase returns, where base64 decodes what it encodes and
  -- the cipher opens what it seals.
  pub decrypt_private_key-encrypt :
      (opens : (key : List ℕ) (aead : Aead) (nonce message extra : List ℕ)
        → lib.new_x key ≡ ok aead
        → aead.open_sealed nonce (aead.seal nonce message extra) extra ≡ ok message)
      (rng private_key passphrase : List ℕ) (params : EncryptionParams) (encrypted : Fields)
      → in_range params ≡ true
      → encrypt_private_key lib rng private_key passphrase params ≡ ok encrypted
      → decrypt_private_key lib encrypted passphrase ≡ ok private_key
  decrypt_private_key-encrypt opens rng private_key passphrase params encrypted small e =
      let (valid, a, f) =
        bind-ok (validate_private_key_encryption_inputs (length private_key) params) _
          (unfold_encrypt rng private_key passphrase params ∙ e) in
      let (strong, b, g) = bind-ok (validate_private_key_passphrase passphrase) _ f in
      let ((s, left_over), c, h) = bind-ok (fill private_key_salt_size params.salt rng) _ g in
      let ((iv, rest), d, i) = bind-ok (fill nonce_size_x params.nonce left_over) _ h in
      let full : EncryptionParams = record params { salt = s; nonce = iv } in
      let (sized, aead, made, is) = seal_key_lem private_key passphrase full i in
      let (right_size, still_valid) = validate_lem (length private_key) params s iv a in
      let checked : check_params lib full ≡ ok full =
        check_params_lem full small still_valid sized in
      let wrapping_key : List ℕ =
        lib.id_key passphrase s params.time params.memory_kib params.threads private_key_key_size in
      let keyed : lib.new_x wrapping_key ≡ ok aead = unfold private_key_aead in made in
      let opened =
        open_object-wrapped full (aead.seal iv private_key encrypted_private_key_algorithm)
          passphrase checked made
          (opens wrapping_key aead iv private_key encrypted_private_key_algorithm keyed)
          right_size in
      decrypt_lem passphrase b encrypted ∙ (rw is opened)
