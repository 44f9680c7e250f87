-- ===== src/ServerKey/Verify.antt =====
-- serverkey/serverkey.go: the verification of a published key object. The loop over the keys takes them
-- in the order of the iteration.
pub mod Sound
pub mod Minted
pub mod Signed
pub mod RoundTrip
use gomatrixcrypto.Base.{
  ℕ, zero, suc, ◌≡◌, Bool, true, false, List, [], ◌∷◌, ◌++◌, Option, none, some, length, replicate,
  list_eq, ◌==◌, if◌then◌else◌, Result, ok, err, Error, ◌>>=◌, invalid_server_name,
  invalid_key_name, invalid_key_object, invalid_signature, invalid_public_key,
}
use gomatrixcrypto.Base.Bytes.{codes}
use gomatrixcrypto.MatrixJson.{Value, Fields, object, end, field}
use gomatrixcrypto.MatrixJson.Object.{lookup, as_map, as_text}
use gomatrixcrypto.Fndsa512
use gomatrixcrypto.Fndsa512.{public_key_size}
use gomatrixcrypto.ServerKey.Profile.{Registry}
use gomatrixcrypto.ServerKey.Numbers.{uint32_from_any, uint32s_from_any}
use gomatrixcrypto.ServerKey.Object.{
  Library, MintingProof, fndsa_prefix, has_prefix, signing_bytes, key_id, short_key_id,
  validate_proof,
}

-- `v, ok := ...; if !ok { return err }`
abbrev pub require {ℓ} : {A : Type ℓ} → Error → Option A → Result A
require e none = err e
require e (some a) = ok a

-- The value of a call whose error is dropped.
abbrev pub value_or : List ℕ → Result (List ℕ) → List ℕ
value_or d (ok bytes) = bytes
value_or d (err e) = d

-- A nil interface where there is no such key.
abbrev pub or_nil : Option Value → Value
or_nil none = Value.null
or_nil (some v) = v

-- A pass where a nil error, or a test, lets the function go on.
abbrev pub pass_unless : Option Error → Result Bool
pass_unless none = ok true
pass_unless (some e) = err e

abbrev pub pass_if : Bool → Error → Result Bool
pass_if b e = if b then ok true else err e

abbrev pub non_empty : List ℕ → Option (List ℕ)
non_empty [] = none
non_empty (c ∷ cs) = some (c ∷ cs)

abbrev pub text_or_empty : Option (List ℕ) → List ℕ
text_or_empty none = []
text_or_empty (some s) = s

-- The fields that the loop reads of the object.
pub record Parts : Type 0 where
  pub verify_keys : Fields
  pub server_sigs : Fields
  pub message : List ℕ

module _ (lib : Library) where
  unfoldable pub public_key_from_object : Fields → Result (List ℕ)
  unfolding lookup
  public_key_from_object key_object =
      require invalid_key_object (as_text (lookup (codes "key") key_object))
      >>= lib.decode_std
      >>= λ (public_key : List ℕ).
          if length public_key == public_key_size then ok public_key else err invalid_public_key

  unfoldable pub minting_proof_from_object : Fields → Result (List ℕ × MintingProof)
  unfolding lookup uint32_from_any uint32s_from_any
  minting_proof_from_object key_object =
      require invalid_key_object
        (non_empty (text_or_empty (as_text (lookup (codes "profile") key_object))))
      >>= λ (profile_name : List ℕ).
          require invalid_key_object (as_map (lookup (codes "pow") key_object))
          >>= λ (raw_pow : Fields).
              uint32_from_any lib.convert (or_nil (lookup (codes "nonce") raw_pow)) >>= λ (n : ℕ).
              uint32s_from_any lib.convert (or_nil (lookup (codes "solution") raw_pow))
              >>= λ (ns : List ℕ).
                  ok (profile_name, record { algorithm = profile_name; nonce = n; solution = ns })

  -- The proof's part of the check of a key.
  unfoldable pub check_minting : Registry → List ℕ → List ℕ → List ℕ → Fields → Result Bool
  unfolding minting_proof_from_object validate_proof key_id short_key_id list_eq replicate
  check_minting profiles server_name key_name public_key key_object =
      minting_proof_from_object key_object >>= λ (found : List ℕ × MintingProof).
      pass_unless (validate_proof lib profiles public_key server_name found.0 found.1)
      >>= λ (passed : Bool).
          let id = value_or (replicate 32 0) (key_id lib profiles public_key server_name found.1) in
          let short = value_or [] (short_key_id lib profiles found.0 id) in
          pass_if (list_eq key_name (fndsa_prefix ++ short)) invalid_key_name

  unfoldable pub check_signature_of : List ℕ → List ℕ → Fields → List ℕ → Result (List ℕ)
  unfolding lookup Fndsa512.verify
  check_signature_of public_key message server_sigs key_name =
      require invalid_signature (as_text (lookup key_name server_sigs))
      >>= lib.decode_std
      >>= λ (sig : List ℕ).
          pass_if (Fndsa512.verify lib.scheme public_key message sig) invalid_signature
          >>= λ (passed : Bool). ok key_name

  -- The body of the loop for a key of the algorithm.
  unfoldable pub check_key : Registry → List ℕ → Bool → Parts → List ℕ → Value → Result (List ℕ)
  unfolding public_key_from_object check_minting check_signature_of
  check_key profiles server_name require_proof parts key_name raw_key_object =
      require invalid_key_object (as_map (some raw_key_object)) >>= λ (key_object : Fields).
      public_key_from_object key_object >>= λ (public_key : List ℕ).
      (if require_proof
        then check_minting profiles server_name key_name public_key key_object
        else ok true)
      >>= λ (passed : Bool). check_signature_of public_key parts.message parts.server_sigs key_name

  unfoldable pub keys_loop : Registry → List ℕ → Bool → Parts → Fields → Result (List ℕ)
  unfolding has_prefix check_key
  keys_loop profiles server_name require_proof parts end = err invalid_key_name
  keys_loop profiles server_name require_proof parts (field key_name raw fs) =
      if has_prefix key_name fndsa_prefix
      then check_key profiles server_name require_proof parts key_name raw
      else keys_loop profiles server_name require_proof parts fs

  -- The tests in front of the loop.
  unfoldable pub parts_of : Fields → List ℕ → Result Parts
  unfolding lookup list_eq signing_bytes
  parts_of obj server_name =
      require invalid_key_object (as_text (lookup (codes "server_name") obj))
      >>= λ (object_server_name : List ℕ).
          pass_if (list_eq object_server_name server_name) invalid_server_name
          >>= λ (passed : Bool).
              require invalid_key_object (as_map (lookup (codes "verify_keys") obj))
              >>= λ (keys : Fields).
                  require invalid_key_object (as_map (lookup (codes "signatures") obj))
                  >>= λ (signatures : Fields).
                      require invalid_key_object (as_map (lookup server_name signatures))
                      >>= λ (sigs : Fields). signing_bytes obj >>= λ (bytes : List ℕ).
                          ok (record { verify_keys = keys; server_sigs = sigs; message = bytes })

  unfoldable pub verify_fndsa_signature : Registry → Fields → List ℕ → Bool → Result (List ℕ)
  unfolding parts_of keys_loop
  verify_fndsa_signature profiles obj server_name require_proof =
      parts_of obj server_name >>= λ (parts : Parts).
      keys_loop profiles server_name require_proof parts parts.verify_keys

  unfoldable pub verify_fndsa_self_signature : Registry → Fields → List ℕ → Result (List ℕ)
  unfolding verify_fndsa_signature
  verify_fndsa_self_signature profiles obj server_name =
      verify_fndsa_signature profiles obj server_name false

  unfoldable pub verify_minted_fndsa_server_key : Registry → Fields → List ℕ → Result (List ℕ)
  unfolding verify_fndsa_signature
  verify_minted_fndsa_server_key profiles obj server_name =
      verify_fndsa_signature profiles obj server_name true
