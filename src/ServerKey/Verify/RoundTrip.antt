-- ===== src/ServerKey/Verify/RoundTrip.antt =====
-- serverkey/serverkey.go: what the package builds and signs, before its own verification.
use gomatrixcrypto.Base.{
  ℕ, ◌<◌, ◌^◌, ◌≡◌, ◌≢◌, refl, sym, ap, ◌∙◌, true, none, List, [], ◌∷◌, ◌++◌, length, All, ◌==◌,
  ==→eq, ok, ◌>>=◌, bind-ok, chain, ok_injective, Bool-cases, inl, inr, arith,
}
use gomatrixcrypto.Base.Int.{ℤ}
use gomatrixcrypto.MatrixJson.{Fields, object, end, field}
use gomatrixcrypto.Fndsa512
use gomatrixcrypto.Fndsa512.{
  Scheme, Domain, domain_none, public_key_size, private_key_size, signature_size, check_private_key,
  check_signature, check_public_key, is_ok,
}
use gomatrixcrypto.ServerKey.Profile.{Registry}
use gomatrixcrypto.ServerKey.Object.{
  Library, MintingProof, fndsa_prefix, has_prefix, signing_bytes, key_id, short_key_id,
  validate_proof, fndsa_key_object, new_unsigned_fndsa, attach, sign_fndsa, new_signed_fndsa,
}
use gomatrixcrypto.ServerKey.Verify.{
  Parts, public_key_from_object, check_minting, check_signature_of, check_key, keys_loop, parts_of,
  verify_minted_fndsa_server_key,
}
use gomatrixcrypto.ServerKey.Verify.Sound.{keys_loop-field}
use gomatrixcrypto.ServerKey.Verify.Signed.{
  unsigned, signed_object, attach-unsigned, parts_of-signed_object,
  public_key_from_object-fndsa_key_object, minting_proof_from_object-fndsa_key_object,
  check_minting-fndsa_key_object, check_signature_of-signed,
}

check_private_key_lem : (key : List ℕ) {k : List ℕ} → check_private_key key ≡ ok k → k ≡ key
unfolding check_private_key
check_private_key_lem key e = elim (Bool-cases (length key == private_key_size)) [
  | inl right ↦ ground arith
  | inr wrong ↦ absurd (ground arith)
]

check_signature_lem :
    (sig : List ℕ) {s : List ℕ}
    → check_signature sig ≡ ok s
    → (sig ≡ s) × (length s ≡ signature_size)
unfolding check_signature
check_signature_lem sig {s} e = elim (Bool-cases (length sig == signature_size)) [
  | inr wrong ↦ absurd (ground arith)
  | inl right ↦
      let same : sig ≡ s = ground arith in
      (same, ap length (sym same) ∙ ==→eq (length sig) signature_size right)
]

has_fndsa_prefix : (s : List ℕ) → has_prefix (fndsa_prefix ++ s) fndsa_prefix ≡ true
unfolding has_prefix
has_fndsa_prefix s = refl

-- What the package signs, it verifies, where the scheme does so for the two keys.
sign-verify :
    (scheme : Scheme) (private_key public_key message sig : List ℕ)
    → ((m s : List ℕ)
        → scheme.raw_sign private_key domain_none 0 m ≡ ok s
        → scheme.raw_verify public_key domain_none 0 m s ≡ true)
    → length public_key ≡ public_key_size
    → Fndsa512.sign scheme private_key message ≡ ok sig
    → Fndsa512.verify scheme public_key message sig ≡ true
unfolding Fndsa512.sign Fndsa512.verify
sign-verify scheme private_key public_key message sig pair size e =
    let (made, a, f) =
      bind-ok
        (check_private_key private_key >>= λ (key : List ℕ).
          scheme.raw_sign key domain_none 0 message)
        _ e in
    let (key, b, g) = bind-ok (check_private_key private_key) _ a in
    let (same, sig_size) = check_signature_lem made f in
    let raw : scheme.raw_sign private_key domain_none 0 message ≡ ok sig =
      ap (λ (k : List ℕ). scheme.raw_sign k domain_none 0 message)
        (sym (check_private_key_lem private_key b))
      ∙ g
      ∙ ap ok same in
    rw (size, sig_size) (pair message sig raw)

module _ (lib : Library) (profiles : Registry) where
  new_unsigned_fndsa_lem :
      (server_name public_key : List ℕ) (ts : ℤ) (proof : MintingProof) {made : Fields × List ℕ}
      → new_unsigned_fndsa lib profiles server_name public_key ts proof ≡ ok made
      → (length public_key ≡ public_key_size)
        × (id short : List ℕ) × (key_id lib profiles public_key server_name proof ≡ ok id)
        × (short_key_id lib profiles proof.algorithm id ≡ ok short)
        × (made ≡ (
          unsigned lib server_name public_key ts proof (fndsa_prefix ++ short),
          fndsa_prefix ++ short,
        ))
  unfolding new_unsigned_fndsa
  new_unsigned_fndsa_lem [] public_key ts proof e = absurd (ground arith)
  new_unsigned_fndsa_lem (c ∷ cs) public_key ts proof e =
      elim (Bool-cases (length public_key == public_key_size)) [
        | inr wrong ↦ absurd (ground arith)
        | inl right ↦
            let made_of = rw right at e in
            let (short, a, f) =
              bind-ok
                (key_id lib profiles public_key (c ∷ cs) proof >>= λ (id : List ℕ).
                  short_key_id lib profiles proof.algorithm id)
                _ made_of in
            let (id, b, g) = bind-ok (key_id lib profiles public_key (c ∷ cs) proof) _ a in
            (==→eq (length public_key) public_key_size right, id, short, b, g, ground arith)
      ]

  sign_fndsa_lem :
      (fs : Fields) (server_name key_name private_key : List ℕ) {signed : Fields}
      → sign_fndsa lib fs server_name key_name private_key ≡ ok signed
      → (message sig : List ℕ) × (signing_bytes fs ≡ ok message)
        × (Fndsa512.sign lib.scheme private_key message ≡ ok sig)
        × (attach lib fs server_name key_name sig ≡ ok signed)
  unfolding sign_fndsa
  sign_fndsa_lem fs [] key_name private_key e = absurd (ground arith)
  sign_fndsa_lem fs (c ∷ cs) key_name private_key e =
      elim (Bool-cases (has_prefix key_name fndsa_prefix)) [
        | inr wrong ↦ absurd (ground arith)
        | inl right ↦
            let (sig, a, f) =
              bind-ok (signing_bytes fs >>= Fndsa512.sign lib.scheme private_key) _
                (rw right at e) in
            let (message, b, g) = bind-ok (signing_bytes fs) _ a in (message, sig, b, g, f)
      ]

  -- Behind the tests on the object, its one key is the first of the loop.
  verify_minted-parts :
      (obj : Fields) (server_name key_name : List ℕ) (key_object : Fields) {parts : Parts}
      → parts_of lib obj server_name ≡ ok parts
      → parts.verify_keys ≡ field (fndsa_prefix ++ key_name) (object key_object) end
      → check_key lib profiles server_name true parts (fndsa_prefix ++ key_name) (object key_object)
        ≡ ok (fndsa_prefix ++ key_name)
      → verify_minted_fndsa_server_key lib profiles obj server_name ≡ ok (fndsa_prefix ++ key_name)
  unfolding verify_minted_fndsa_server_key
  verify_minted-parts obj server_name key_name key_object {parts} e keys checked = chain _ e (
      ap (keys_loop lib profiles server_name true parts) keys
      ∙ keys_loop-field lib profiles server_name true parts (fndsa_prefix ++ key_name)
          (object key_object) end
      ∙ rw (has_fndsa_prefix key_name) checked)

  check_key-fndsa_key_object :
      (server_name public_key key_name : List ℕ) (proof : MintingProof) (parts : Parts)
      → public_key_from_object lib (fndsa_key_object lib public_key proof) ≡ ok public_key
      → check_minting lib profiles server_name key_name public_key
          (fndsa_key_object lib public_key proof)
        ≡ ok true
      → check_signature_of lib public_key parts.message parts.server_sigs key_name ≡ ok key_name
      → check_key lib profiles server_name true parts key_name
          (object (fndsa_key_object lib public_key proof))
        ≡ ok key_name
  unfolding check_key
  check_key-fndsa_key_object server_name public_key key_name proof parts read minted signed =
      chain _ read (chain _ minted signed)

  new_signed_fndsa_lem :
      (server_name private_key public_key : List ℕ) (ts : ℤ) (proof : MintingProof) (obj : Fields)
      (key_name : List ℕ)
      → new_signed_fndsa lib profiles server_name private_key public_key ts proof
        ≡ ok (obj, key_name)
      → (length public_key ≡ public_key_size)
        × (id short message sig : List ℕ) × (key_id lib profiles public_key server_name proof
            ≡ ok id)
        × (short_key_id lib profiles proof.algorithm id ≡ ok short)
        × (key_name ≡ fndsa_prefix ++ short)
        × (signing_bytes (unsigned lib server_name public_key ts proof (fndsa_prefix ++ short))
            ≡ ok message)
        × (Fndsa512.sign lib.scheme private_key message ≡ ok sig)
        × (obj ≡ signed_object lib server_name public_key ts proof (fndsa_prefix ++ short) sig)
  unfolding new_signed_fndsa
  new_signed_fndsa_lem server_name private_key public_key ts proof obj key_name e =
      let (made, a, f) =
        bind-ok (new_unsigned_fndsa lib profiles server_name public_key ts proof) _ e in
      let (signed, b, g) = bind-ok (sign_fndsa lib made.0 server_name made.1 private_key) _ f in
      let (size, id, short, has_id, has_short, is) =
        new_unsigned_fndsa_lem server_name public_key ts proof a in
      let from : sign_fndsa lib
            (unsigned lib server_name public_key ts proof (fndsa_prefix ++ short)) server_name
            (fndsa_prefix ++ short) private_key
          ≡ ok signed =
        ap (λ (m : Fields × List ℕ). sign_fndsa lib m.0 server_name m.1 private_key) (sym is) ∙ b in
      let (message, sig, bytes, made_sig, attached) =
        sign_fndsa_lem (unsigned lib server_name public_key ts proof (fndsa_prefix ++ short))
          server_name (fndsa_prefix ++ short) private_key from in
      let whole : ok (signed_object lib server_name public_key ts proof (fndsa_prefix ++ short) sig)
          ≡ ok signed =
        sym (attach-unsigned lib server_name public_key ts proof (fndsa_prefix ++ short) sig)
        ∙ attached in
      let returned : (signed, made.1) ≡ (obj, key_name) = ok_injective g in
      (
        size,
        id,
        short,
        message,
        sig,
        has_id,
        has_short,
        sym (ap (λ (m : Fields × List ℕ). m.1) returned) ∙ ap (λ (m : Fields × List ℕ). m.1) is,
        bytes,
        made_sig,
        sym (ap (λ (m : Fields × List ℕ). m.0) returned) ∙ sym (ok_injective whole),
      )

  -- A key object that is built and signed for a public key is accepted by the verification of minted
  -- keys under the name that was returned, where its proof of work is valid under a named profile, its
  -- nonces are uint32, base64 decodes what it encodes, and the scheme verifies with the public key what
  -- it signs with the private one.
  pub verify_minted_fndsa_server_key-new_signed_fndsa :
      (decodes : (bytes : List ℕ) → lib.decode_std (lib.encode_std bytes) ≡ ok bytes)
      (private_key public_key : List ℕ)
      (pair : (m s : List ℕ)
        → lib.scheme.raw_sign private_key domain_none 0 m ≡ ok s
        → lib.scheme.raw_verify public_key domain_none 0 m s ≡ true)
      (server_name : List ℕ) (valid_until_ts : ℤ) (proof : MintingProof) (obj : Fields)
      (key_name : List ℕ)
      → proof.algorithm ≢ []
      → proof.nonce < 2 ^ 32
      → All (λ (n : ℕ). n < 2 ^ 32) proof.solution
      → validate_proof lib profiles public_key server_name proof.algorithm proof ≡ none
      → new_signed_fndsa lib profiles server_name private_key public_key valid_until_ts proof
        ≡ ok (obj, key_name)
      → verify_minted_fndsa_server_key lib profiles obj server_name ≡ ok key_name
  verify_minted_fndsa_server_key-new_signed_fndsa decodes private_key public_key pair server_name ts
        proof obj key_name named small_nonce small valid e =
      let (size, id, short, message, sig, has_id, has_short, is_name, bytes, made_sig, is_object) =
        new_signed_fndsa_lem server_name private_key public_key ts proof obj key_name e in
      let reads = public_key_from_object-fndsa_key_object lib decodes public_key proof size in
      let minted =
        check_minting-fndsa_key_object lib decodes profiles server_name public_key proof id short
          (minting_proof_from_object-fndsa_key_object lib decodes public_key proof named small_nonce
            small)
          valid has_id has_short in
      let verified = sign-verify lib.scheme private_key public_key message sig pair size made_sig in
      let signed =
        check_signature_of-signed lib decodes public_key message (fndsa_prefix ++ short) sig
          verified in
      let parts =
        parts_of-signed_object lib server_name public_key ts proof (fndsa_prefix ++ short) sig
          message bytes in
      rw (is_name, is_object)
        (verify_minted-parts
          (signed_object lib server_name public_key ts proof (fndsa_prefix ++ short) sig)
          server_name short (fndsa_key_object lib public_key proof) parts refl
          (check_key-fndsa_key_object server_name public_key (fndsa_prefix ++ short) proof _ reads
            minted signed))
