-- ===== src/ServerKey/Verify/Sound.antt =====
-- serverkey/serverkey.go: what an accepted key object is.
use gomatrixcrypto.Base.{
  ℕ, ◌≡◌, ◌≢◌, refl, sym, ap, ◌∙◌, Bool, true, false, List, [], ◌++◌, Option, none, some, replicate,
  list_eq, list_eq→eq, list_eq_refl, if◌then◌else◌, ok, Error, ◌>>=◌, bind-ok, Bool-cases,
  Option-cases, Result-cases, inl, inr, arith,
}
use gomatrixcrypto.Base.Bytes.{codes}
use gomatrixcrypto.MatrixJson.{
  Value, Fields, null, boolean, text, int, uint, number, float, uint32s, other, array, object, end,
  field,
}
use gomatrixcrypto.MatrixJson.Object.{lookup, as_map, as_text}
use gomatrixcrypto.Cuckoo
use gomatrixcrypto.Cuckoo.Verify.{IsProof, verify-IsProof}
use gomatrixcrypto.Fndsa512
use gomatrixcrypto.Fndsa512.{public_key_size}
use gomatrixcrypto.ServerKey.Profile.{Registry, Profile, get_profile}
use gomatrixcrypto.ServerKey.Object.{
  Library, MintingProof, fndsa_prefix, has_prefix, signing_bytes, key_id, short_key_id, graph_seed,
  validate_proof,
}
use gomatrixcrypto.ServerKey.Verify.{
  require, pass_if, pass_unless, value_or, Parts, public_key_from_object, minting_proof_from_object,
  check_minting, check_signature_of, check_key, keys_loop, parts_of,
}

require-ok {ℓ} : {A : Type ℓ} (e : Error) (o : Option A) {a : A} → require e o ≡ ok a → o ≡ some a
require-ok e none h = absurd (ground arith)
require-ok e (some b) h = ground arith

pass_if-ok : (b : Bool) (e : Error) {c : Bool} → pass_if b e ≡ ok c → b ≡ true
pass_if-ok true e h = refl
pass_if-ok false e h = absurd (ground arith)

pass_unless-ok : (o : Option Error) {c : Bool} → pass_unless o ≡ ok c → o ≡ none
pass_unless-ok none h = refl
pass_unless-ok (some e) h = absurd (ground arith)

as_map_lem : (v : Value) {fs : Fields} → as_map (some v) ≡ some fs → v ≡ object fs
as_map_lem (object fs) e = ground arith
as_map_lem null e = absurd (ground arith)
as_map_lem (boolean b) e = absurd (ground arith)
as_map_lem (text s) e = absurd (ground arith)
as_map_lem (int w n) e = absurd (ground arith)
as_map_lem (uint w n) e = absurd (ground arith)
as_map_lem (number s) e = absurd (ground arith)
as_map_lem (float n) e = absurd (ground arith)
as_map_lem (uint32s ns) e = absurd (ground arith)
as_map_lem (other n) e = absurd (ground arith)
as_map_lem (array vs) e = absurd (ground arith)

lookup-later :
    (k l : List ℕ) (v : Value) (fs : Fields) {w : Value}
    → lookup l fs ≡ some w
    → k ≢ l
    → lookup l (field k v fs) ≡ some w
unfolding lookup
lookup-later k l v fs e differ = ground (arith, list_eq→eq k l)

module _ (lib : Library) (profiles : Registry) where
  pub validate_proof_lem :
      (public_key server_name profile_name : List ℕ) (proof : MintingProof)
      → validate_proof lib profiles public_key server_name profile_name proof ≡ none
      → (p : Profile) × (seed : List ℕ) × (get_profile profiles profile_name ≡ some p)
        × (graph_seed lib profiles public_key server_name profile_name proof.nonce ≡ ok seed)
        × IsProof p.config seed proof.solution
  validate_proof_lem public_key server_name profile_name proof e =
      elim (Option-cases (get_profile profiles profile_name)) [
        | inl f ↦ absurd (unfold validate_proof in ground arith)
        | inr (p, f) ↦
            elim (Result-cases
              (graph_seed lib profiles public_key server_name profile_name proof.nonce)) [
                | inr (x, g) ↦ absurd (unfold validate_proof in ground arith)
                | inl (seed, g) ↦
                    let accepted : Cuckoo.verify p.config seed proof.solution ≡ none =
                      unfold validate_proof in ground arith in
                    (p, seed, f, g, verify-IsProof p.config seed proof.solution accepted)
              ]
      ]

  pub keys_loop-field :
      (server_name : List ℕ) (require_proof : Bool) (parts : Parts) (name : List ℕ) (raw : Value)
      (fs : Fields)
      → keys_loop lib profiles server_name require_proof parts (field name raw fs) ≡ (
          if has_prefix name fndsa_prefix
          then check_key lib profiles server_name require_proof parts name raw
          else keys_loop lib profiles server_name require_proof parts fs)
  unfolding keys_loop
  keys_loop-field server_name require_proof parts name raw fs = refl

  pub keys_loop_lem :
      (server_name : List ℕ) (require_proof : Bool) (parts : Parts) (keys : Fields)
      {key_name : List ℕ}
      → keys_loop lib profiles server_name require_proof parts keys ≡ ok key_name
      → (name : List ℕ) × (raw : Value) × (lookup name keys ≡ some raw)
        × (has_prefix name fndsa_prefix ≡ true)
        × (check_key lib profiles server_name require_proof parts name raw ≡ ok key_name)
  keys_loop_lem server_name require_proof parts end e = absurd (unfold keys_loop in ground arith)
  keys_loop_lem server_name require_proof parts (field name raw fs) e =
      let step = sym (keys_loop-field server_name require_proof parts name raw fs) ∙ e in
      elim (Bool-cases (has_prefix name fndsa_prefix)) [
        | inl starts ↦
            (name, raw, unfold lookup in rw (list_eq_refl name) refl, starts, rw starts at step)
        | inr not_key ↦
            let (found, v, at, starts, checked) =
              keys_loop_lem server_name require_proof parts fs (rw not_key at step) in
            (
              found,
              v,
              lookup-later name found raw fs at (λ (same : name ≡ found).
                  ground (arith, ap (λ (x : List ℕ). has_prefix x fndsa_prefix) same)),
              starts,
              checked,
            )
      ]

  pub check_key_lem :
      (server_name name : List ℕ) (parts : Parts) (raw : Value) {key_name : List ℕ}
      → check_key lib profiles server_name true parts name raw ≡ ok key_name
      → (key_object : Fields) × (public_key : List ℕ) × (raw ≡ object key_object)
        × (public_key_from_object lib key_object ≡ ok public_key)
        × (passed : Bool) × (check_minting lib profiles server_name name public_key key_object
            ≡ ok passed)
        × (check_signature_of lib public_key parts.message parts.server_sigs name ≡ ok key_name)
  unfolding check_key
  check_key_lem server_name name parts raw e =
      let (key_object, a, f) = bind-ok (require _ (as_map (some raw))) _ e in
      let (public_key, b, g) = bind-ok (public_key_from_object lib key_object) _ f in
      let (passed, c, h) =
        bind-ok (check_minting lib profiles server_name name public_key key_object) _ g in
      (key_object, public_key, as_map_lem raw (require-ok _ (as_map (some raw)) a), b, passed, c, h)

  pub check_minting_lem :
      (server_name name public_key : List ℕ) (key_object : Fields) {passed : Bool}
      → check_minting lib profiles server_name name public_key key_object ≡ ok passed
      → (profile_name : List ℕ) × (proof : MintingProof) × (minting_proof_from_object lib key_object
          ≡ ok (profile_name, proof))
        × (validate_proof lib profiles public_key server_name profile_name proof ≡ none)
        × (name
            ≡ fndsa_prefix
              ++ value_or [] (
                  short_key_id lib profiles profile_name
                    (value_or (replicate 32 0) (key_id lib profiles public_key server_name proof))))
  unfolding check_minting
  check_minting_lem server_name name public_key key_object e =
      let ((profile_name, proof), a, f) = bind-ok (minting_proof_from_object lib key_object) _ e in
      let (passed, b, g) =
        bind-ok
          (pass_unless (validate_proof lib profiles public_key server_name profile_name proof)) _
          f in
      (
        profile_name,
        proof,
        a,
        pass_unless-ok (validate_proof lib profiles public_key server_name profile_name proof) b,
        list_eq→eq name _ (pass_if-ok (list_eq name _) _ g),
      )

  pub check_signature_of_lem :
      (public_key message : List ℕ) (server_sigs : Fields) (name : List ℕ) {key_name : List ℕ}
      → check_signature_of lib public_key message server_sigs name ≡ ok key_name
      → (encoded sig : List ℕ) × (as_text (lookup name server_sigs) ≡ some encoded)
        × (lib.decode_std encoded ≡ ok sig)
        × (Fndsa512.verify lib.scheme public_key message sig ≡ true)
        × (name ≡ key_name)
  unfolding check_signature_of
  check_signature_of_lem public_key message server_sigs name e =
      let (sig, a, f) =
        bind-ok (require _ (as_text (lookup name server_sigs)) >>= lib.decode_std) _ e in
      let (encoded, b, g) = bind-ok (require _ (as_text (lookup name server_sigs))) _ a in
      let (passed, c, h) =
        bind-ok (pass_if (Fndsa512.verify lib.scheme public_key message sig) _) _ f in
      (
        encoded,
        sig,
        require-ok _ (as_text (lookup name server_sigs)) b,
        g,
        pass_if-ok (Fndsa512.verify lib.scheme public_key message sig) _ c,
        ground arith,
      )

  pub parts_of_lem :
      (obj : Fields) (server_name : List ℕ) {parts : Parts}
      → parts_of lib obj server_name ≡ ok parts
      → (signatures : Fields) × (as_text (lookup (codes "server_name") obj) ≡ some server_name)
        × (as_map (lookup (codes "verify_keys") obj) ≡ some parts.verify_keys)
        × (as_map (lookup (codes "signatures") obj) ≡ some signatures)
        × (as_map (lookup server_name signatures) ≡ some parts.server_sigs)
        × (signing_bytes obj ≡ ok parts.message)
  unfolding parts_of
  parts_of_lem obj server_name e =
      let (named, a, f) = bind-ok (require _ (as_text (lookup (codes "server_name") obj))) _ e in
      let (passed, b, g) = bind-ok (pass_if (list_eq named server_name) _) _ f in
      let (keys, c, h) = bind-ok (require _ (as_map (lookup (codes "verify_keys") obj))) _ g in
      let (signatures, d, i) = bind-ok (require _ (as_map (lookup (codes "signatures") obj))) _ h in
      let (sigs, k, j) = bind-ok (require _ (as_map (lookup server_name signatures))) _ i in
      let (bytes, m, n) = bind-ok (signing_bytes obj) _ j in
      let same : named ≡ server_name =
        list_eq→eq named server_name (pass_if-ok (list_eq named server_name) _ b) in
      (
        signatures,
        require-ok _ (as_text (lookup (codes "server_name") obj)) a ∙ ap some same,
        require-ok _ (as_map (lookup (codes "verify_keys") obj)) c ∙ ap some (ground arith),
        require-ok _ (as_map (lookup (codes "signatures") obj)) d,
        require-ok _ (as_map (lookup server_name signatures)) k ∙ ap some (ground arith),
        m ∙ ap ok (ground arith),
      )
