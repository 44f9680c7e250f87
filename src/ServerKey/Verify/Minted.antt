-- ===== src/ServerKey/Verify/Minted.antt =====
-- serverkey/serverkey.go: the key objects that the verification of minted keys accepts.
use gomatrixcrypto.Base.{
  ℕ, ◌≡◌, sym, ap, ◌∙◌, true, List, [], ◌++◌, some, replicate, ok, ◌>>=◌, bind-ok,
}
use gomatrixcrypto.Base.Bytes.{codes}
use gomatrixcrypto.MatrixJson.{Fields, object}
use gomatrixcrypto.MatrixJson.Object.{lookup, as_map, as_text}
use gomatrixcrypto.Cuckoo.Verify.{IsProof}
use gomatrixcrypto.Fndsa512
use gomatrixcrypto.Fndsa512.{public_key_size}
use gomatrixcrypto.ServerKey.Profile.{Registry, Profile, get_profile}
use gomatrixcrypto.ServerKey.Object.{
  Library, MintingProof, fndsa_prefix, signing_bytes, key_id, short_key_id, graph_seed,
}
use gomatrixcrypto.ServerKey.Verify.{
  Parts, value_or, public_key_from_object, minting_proof_from_object, keys_loop, parts_of,
  verify_fndsa_signature, verify_minted_fndsa_server_key,
}
use gomatrixcrypto.ServerKey.Verify.Sound.{
  check_key_lem, check_minting_lem, check_signature_of_lem, parts_of_lem, keys_loop_lem,
  validate_proof_lem,
}

-- A key of a server's object: the object is of the server and lists the key with a public key, its name
-- is made of the hash of the minting object, the proof of work is one of the graph of the key under a
-- registered profile, and the signature of the server under that name is one of the object's bytes.
pub record IsMinted (lib : Library) (profiles : Registry) (obj : Fields)
    (server_name key_name : List ℕ) : Type 0 where
  pub verify_keys : Fields
  pub key_object : Fields
  pub public_key : List ℕ
  pub profile_name : List ℕ
  pub profile : Profile
  pub proof : MintingProof
  pub seed : List ℕ
  pub signatures : Fields
  pub server_sigs : Fields
  pub encoded : List ℕ
  pub sig : List ℕ
  pub message : List ℕ
  pub of_server : as_text (lookup (codes "server_name") obj) ≡ some server_name
  pub has_keys : as_map (lookup (codes "verify_keys") obj) ≡ some verify_keys
  pub listed : lookup key_name verify_keys ≡ some (object key_object)
  pub key : public_key_from_object lib key_object ≡ ok public_key
  pub minted : minting_proof_from_object lib key_object ≡ ok (profile_name, proof)
  pub registered : get_profile profiles profile_name ≡ some profile
  pub seeded : graph_seed lib profiles public_key server_name profile_name proof.nonce ≡ ok seed
  pub worked : IsProof profile.config seed proof.solution
  pub named :
      key_name
      ≡ fndsa_prefix
        ++ value_or [] (
            short_key_id lib profiles profile_name
              (value_or (replicate 32 0) (key_id lib profiles public_key server_name proof)))
  pub has_signatures : as_map (lookup (codes "signatures") obj) ≡ some signatures
  pub has_server : as_map (lookup server_name signatures) ≡ some server_sigs
  pub signed : as_text (lookup key_name server_sigs) ≡ some encoded
  pub decoded : lib.decode_std encoded ≡ ok sig
  pub covered : signing_bytes obj ≡ ok message
  pub verified : Fndsa512.verify lib.scheme public_key message sig ≡ true

module _ (lib : Library) (profiles : Registry) where
  -- Where the verification of a minted key accepts a server's object and returns a key name, the object
  -- has the key: listed under that name, named after its own hash, with a cycle of the profile's length
  -- in the graph of its seed as its proof of work, and signed over the object's signing bytes.
  pub verify_minted_fndsa_server_key-IsMinted :
      (obj : Fields) (server_name key_name : List ℕ)
      → verify_minted_fndsa_server_key lib profiles obj server_name ≡ ok key_name
      → IsMinted lib profiles obj server_name key_name
  verify_minted_fndsa_server_key-IsMinted obj server_name key_name e =
      let opened : (parts_of lib obj server_name >>= λ (parts : Parts).
      keys_loop lib profiles server_name true parts parts.verify_keys)
          ≡ ok key_name =
        unfold verify_minted_fndsa_server_key verify_fndsa_signature in e in
      let (parts, a, f) = bind-ok (parts_of lib obj server_name) _ opened in
      let (sigs, of, keys, with_sigs, with_server, bytes) =
        parts_of_lem lib profiles obj server_name a in
      let (name, raw, at, starts, checked) =
        keys_loop_lem lib profiles server_name true parts parts.verify_keys f in
      let (entry, pk, is_object, from, passed, minting, signing) =
        check_key_lem lib profiles server_name name parts raw checked in
      let (profile_of, p, found, valid, name_of) =
        check_minting_lem lib profiles server_name name pk entry minting in
      let (text_of, s, has, decodes, verifies, same) =
        check_signature_of_lem lib profiles pk parts.message parts.server_sigs name signing in
      let (profile, seed, got, seeded, worked) =
        validate_proof_lem lib profiles pk server_name profile_of p valid in
      record {
        verify_keys = parts.verify_keys;
        key_object = entry;
        public_key = pk;
        profile_name = profile_of;
        profile = profile;
        proof = p;
        seed = seed;
        signatures = sigs;
        server_sigs = parts.server_sigs;
        encoded = text_of;
        sig = s;
        message = parts.message;
        of_server = of;
        has_keys = keys;
        listed =
            ap (λ (x : List ℕ). lookup x parts.verify_keys) (sym same) ∙ at ∙ ap some is_object;
        key = from;
        minted = found;
        registered = got;
        seeded = seeded;
        worked = worked;
        named = sym same ∙ name_of;
        has_signatures = with_sigs;
        has_server = with_server;
        signed = ap (λ (x : List ℕ). as_text (lookup x parts.server_sigs)) (sym same) ∙ has;
        decoded = decodes;
        covered = bytes;
        verified = verifies;
      }
