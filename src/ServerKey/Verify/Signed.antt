-- ===== src/ServerKey/Verify/Signed.antt =====
-- serverkey/serverkey.go: the key objects that the package builds and signs, before its verification.
use gomatrixcrypto.Base.{
  ℕ, ◌<◌, ◌^◌, ◌≡◌, ◌≢◌, refl, true, List, [], ◌∷◌, ◌++◌, none, some, length, All, list_eq,
  list_eq_refl, ok, chain, arith, invalid_key_object, invalid_signature,
}
use gomatrixcrypto.Base.Int.{ℤ}
use gomatrixcrypto.Base.Bytes.{codes}
use gomatrixcrypto.MatrixJson.{Fields, Width, text, int, object, end, field}
use gomatrixcrypto.MatrixJson.Object.{lookup, put, as_text}
use gomatrixcrypto.Fndsa512
use gomatrixcrypto.Fndsa512.{public_key_size}
use gomatrixcrypto.ServerKey.Profile.{Registry}
use gomatrixcrypto.ServerKey.Numbers.{
  uint32s_of_items, uint32s_to_any, uint64_from_any, at_most_uint32,
}
use gomatrixcrypto.ServerKey.Object.{
  Library, MintingProof, fndsa_prefix, signing_bytes, signed_fields, key_id, short_key_id,
  validate_proof, fndsa_key_object, attach, store_signature,
}
use gomatrixcrypto.ServerKey.Verify.{
  require, pass_if, pass_unless, non_empty, public_key_from_object, minting_proof_from_object,
  check_minting, check_signature_of, parts_of,
}

uint32s_of_items-to_any :
    (convert : ℕ → ℕ) (ns : List ℕ)
    → All (λ (n : ℕ). n < 2 ^ 32) ns
    → uint32s_of_items convert (uint32s_to_any ns) ≡ ok ns
unfolding uint32s_of_items uint32s_to_any uint64_from_any
uint32s_of_items-to_any convert [] small = refl
uint32s_of_items-to_any convert (n ∷ ns) (n_small, small) =
    let rest = uint32s_of_items-to_any convert ns small in ground arith

non_empty_lem : (s : List ℕ) → s ≢ [] → non_empty s ≡ some s
non_empty_lem [] named = absurd (named refl)
non_empty_lem (c ∷ s) named = refl

-- The object before and after its signature.
abbrev pub unsigned : Library → List ℕ → List ℕ → ℤ → MintingProof → List ℕ → Fields
unsigned lib server_name public_key valid_until_ts proof key_name =
    field (codes "server_name") (text server_name) (
      field (codes "verify_keys")
        (object (field key_name (object (fndsa_key_object lib public_key proof)) end))
        (field (codes "valid_until_ts") (int Width.w64 valid_until_ts) end))

abbrev pub signed_object : Library → List ℕ → List ℕ → ℤ → MintingProof → List ℕ → List ℕ → Fields
signed_object lib server_name public_key valid_until_ts proof key_name sig =
    field (codes "server_name") (text server_name) (
      field (codes "verify_keys")
        (object (field key_name (object (fndsa_key_object lib public_key proof)) end))
        (field (codes "valid_until_ts") (int Width.w64 valid_until_ts) (
          field (codes "signatures")
            (object
              (field server_name (object (field key_name (text (lib.encode_std sig)) end)) end))
            end)))

module _ (lib : Library) where
  pub attach-unsigned :
      (server_name public_key : List ℕ) (ts : ℤ) (proof : MintingProof) (key_name sig : List ℕ)
      → attach lib (unsigned lib server_name public_key ts proof key_name) server_name key_name sig
        ≡ ok (signed_object lib server_name public_key ts proof key_name sig)
  unfolding attach store_signature lookup put list_eq
  attach-unsigned server_name public_key ts proof key_name sig = refl

  signing_bytes-signed_object :
      (server_name public_key : List ℕ) (ts : ℤ) (proof : MintingProof) (key_name sig : List ℕ)
      → signing_bytes (signed_object lib server_name public_key ts proof key_name sig)
        ≡ signing_bytes (unsigned lib server_name public_key ts proof key_name)
  unfolding signing_bytes signed_fields list_eq
  signing_bytes-signed_object server_name public_key ts proof key_name sig = refl

  pub parts_of-signed_object :
      (server_name public_key : List ℕ) (ts : ℤ) (proof : MintingProof)
      (key_name sig message : List ℕ)
      → signing_bytes (unsigned lib server_name public_key ts proof key_name) ≡ ok message
      → parts_of lib (signed_object lib server_name public_key ts proof key_name sig) server_name
        ≡ ok (record {
          verify_keys = field key_name (object (fndsa_key_object lib public_key proof)) end;
          server_sigs = field key_name (text (lib.encode_std sig)) end;
          message = message;
        })
  unfolding parts_of lookup list_eq
  parts_of-signed_object server_name public_key ts proof key_name sig message e =
      rw
        (
          list_eq_refl server_name,
          signing_bytes-signed_object server_name public_key ts proof key_name sig,
          e,
        )
        refl

module _ (lib : Library)
    (decodes : (bytes : List ℕ) → lib.decode_std (lib.encode_std bytes) ≡ ok bytes) where
  pub public_key_from_object-fndsa_key_object :
      (public_key : List ℕ) (proof : MintingProof)
      → length public_key ≡ public_key_size
      → public_key_from_object lib (fndsa_key_object lib public_key proof) ≡ ok public_key
  unfolding public_key_from_object fndsa_key_object lookup list_eq
  public_key_from_object-fndsa_key_object public_key proof size =
      chain _ (decodes public_key) (rw size refl)

  pub minting_proof_from_object-fndsa_key_object :
      (public_key : List ℕ) (proof : MintingProof)
      → proof.algorithm ≢ []
      → proof.nonce < 2 ^ 32
      → All (λ (n : ℕ). n < 2 ^ 32) proof.solution
      → minting_proof_from_object lib (fndsa_key_object lib public_key proof)
        ≡ ok (proof.algorithm, proof)
  unfolding minting_proof_from_object fndsa_key_object lookup list_eq
  minting_proof_from_object-fndsa_key_object public_key proof named small_nonce small =
      let fits : at_most_uint32 lib.convert proof.nonce ≡ ok proof.nonce = ground arith in
      let filled : require invalid_key_object (non_empty proof.algorithm) ≡ ok proof.algorithm =
        rw (non_empty_lem proof.algorithm named) refl in
      chain _ filled
        (chain _ fits (chain _ (uint32s_of_items-to_any lib.convert proof.solution small) refl))

  pub check_minting-fndsa_key_object :
      (profiles : Registry) (server_name public_key : List ℕ) (proof : MintingProof)
      (id short : List ℕ)
      → minting_proof_from_object lib (fndsa_key_object lib public_key proof)
        ≡ ok (proof.algorithm, proof)
      → validate_proof lib profiles public_key server_name proof.algorithm proof ≡ none
      → key_id lib profiles public_key server_name proof ≡ ok id
      → short_key_id lib profiles proof.algorithm id ≡ ok short
      → check_minting lib profiles server_name
          (fndsa_prefix ++ short)
          public_key
          (fndsa_key_object lib public_key proof)
        ≡ ok true
  unfolding check_minting
  check_minting-fndsa_key_object profiles server_name public_key proof id short read valid has_id
        has_short =
      let passed : pass_unless
            (validate_proof lib profiles public_key server_name proof.algorithm proof)
          ≡ ok true =
        rw valid refl in
      chain _ read
        (chain _ passed (rw (has_id, has_short, list_eq_refl (fndsa_prefix ++ short)) refl))

  pub check_signature_of-signed :
      (public_key message key_name sig : List ℕ)
      → Fndsa512.verify lib.scheme public_key message sig ≡ true
      → check_signature_of lib public_key message
          (field key_name (text (lib.encode_std sig)) end)
          key_name
        ≡ ok key_name
  unfolding check_signature_of lookup
  check_signature_of-signed public_key message key_name sig verified =
      let found : require invalid_signature
            (as_text (lookup key_name (field key_name (text (lib.encode_std sig)) end)))
          ≡ ok (lib.encode_std sig) =
        rw (list_eq_refl key_name) refl in
      let passed : pass_if (Fndsa512.verify lib.scheme public_key message sig) invalid_signature
          ≡ ok true =
        rw verified refl in
      chain _ (chain _ found (decodes sig)) (chain _ passed refl)
