-- ===== src/ServerKey/Object.antt =====
-- serverkey/serverkey.go: the objects that are hashed, signed and published, their identifiers and their
-- signatures. SHA-3, SHA-256, base64 and the signature scheme are parameters.
use gomatrixcrypto.Base.{
  ℕ, Bool, true, false, ◌||◌, List, [], ◌∷◌, ◌++◌, Option, none, some, length, take, list_eq, ◌==◌,
  if◌then◌else◌, Result, ok, err, Error, ◌>>=◌, invalid_server_name, invalid_key_name,
  invalid_key_object, unknown_profile, invalid_public_key,
}
use gomatrixcrypto.Base.Int.{ℤ}
use gomatrixcrypto.Base.Bytes.{codes}
use gomatrixcrypto.MatrixJson.{Fields, Width, text, int, uint, array, object, end, field, canonical}
use gomatrixcrypto.MatrixJson.Object.{lookup, put, as_map}
use gomatrixcrypto.Cuckoo
use gomatrixcrypto.Fndsa512
use gomatrixcrypto.Fndsa512.{Scheme, public_key_size}
use gomatrixcrypto.KeyId
use gomatrixcrypto.ServerKey.Profile.{Registry, get_profile, graph_tag_of, key_id_tag_of}
use gomatrixcrypto.ServerKey.Numbers.{uint32s_to_any}

-- What the package takes from other libraries. `encode_std` and `decode_std` are RawStdEncoding,
-- `encode_url` is RawURLEncoding, `convert` is the conversion of a float64 beyond uint64.
pub record Library : Type 0 where
  pub sha3 : List ℕ → List ℕ
  pub sha256 : List ℕ → List ℕ
  pub encode_std : List ℕ → List ℕ
  pub decode_std : List ℕ → Result (List ℕ)
  pub encode_url : List ℕ → List ℕ
  pub convert : ℕ → ℕ
  pub scheme : Scheme

abbrev pub fndsa_algorithm : List ℕ
fndsa_algorithm = codes "fndsa512"

abbrev pub fndsa_prefix : List ℕ
fndsa_prefix = codes "fndsa512:"

pub record MintingProof : Type 0 where
  pub algorithm : List ℕ
  pub nonce : ℕ
  pub solution : List ℕ

-- `strings.HasPrefix(s, prefix)`
unfoldable pub has_prefix : List ℕ → List ℕ → Bool
has_prefix s [] = true
has_prefix [] (p ∷ ps) = false
has_prefix (c ∷ cs) (p ∷ ps) = if c == p then has_prefix cs ps else false

-- The object without the keys that a signature does not cover.
unfoldable pub signed_fields : Fields → Fields
signed_fields end = end
signed_fields (field k v fs) =
    if list_eq k (codes "signatures") || list_eq k (codes "unsigned")
    then signed_fields fs
    else field k v (signed_fields fs)

unfoldable pub signing_bytes : Fields → Result (List ℕ)
unfolding signed_fields
signing_bytes fs = canonical (object (signed_fields fs))

module _ (lib : Library) where
  unfoldable pub fndsa_key_object : List ℕ → MintingProof → Fields
  unfolding uint32s_to_any
  fndsa_key_object public_key proof = field (codes "key") (text (lib.encode_std public_key)) (
      field (codes "profile") (text proof.algorithm) (
        field (codes "pow")
          (object (
            field (codes "nonce") (uint Width.w32 proof.nonce)
              (field (codes "solution") (array (uint32s_to_any proof.solution)) end)))
          end))

  unfoldable pub graph_object : Registry → List ℕ → List ℕ → List ℕ → ℕ → Fields
  unfolding graph_tag_of
  graph_object profiles public_key server_name profile_name nonce =
      field (codes "action") (text (graph_tag_of profiles profile_name)) (
        field (codes "nonce") (uint Width.w32 nonce) (
          field (codes "profile") (text profile_name) (
            field (codes "public_key") (text (lib.encode_std public_key))
              (field (codes "server_name") (text server_name) end))))

  unfoldable pub minting_object : Registry → List ℕ → List ℕ → List ℕ → MintingProof → Fields
  unfolding key_id_tag_of
  minting_object profiles public_key server_name profile_name proof =
      field (codes "action") (text (key_id_tag_of profiles profile_name)) (
        field (codes "nonce") (uint Width.w32 proof.nonce) (
          field (codes "profile") (text profile_name) (
            field (codes "public_key") (text (lib.encode_std public_key)) (
              field (codes "server_name") (text server_name)
                (field (codes "solution") (array (uint32s_to_any proof.solution)) end)))))

  unfoldable pub graph_seed : Registry → List ℕ → List ℕ → List ℕ → ℕ → Result (List ℕ)
  unfolding graph_object
  graph_seed profiles public_key server_name profile_name nonce =
      canonical (object (graph_object profiles public_key server_name profile_name nonce))
      >>= λ (json : List ℕ). ok (lib.sha3 json)

  unfoldable pub key_id : Registry → List ℕ → List ℕ → MintingProof → Result (List ℕ)
  unfolding minting_object
  key_id profiles public_key server_name proof =
      canonical (object (minting_object profiles public_key server_name proof.algorithm proof))
      >>= λ (json : List ℕ). ok (lib.sha3 json)

  unfoldable pub key_id_base64 : Registry → List ℕ → List ℕ → MintingProof → Result (List ℕ)
  unfolding key_id
  key_id_base64 profiles public_key server_name proof =
      key_id profiles public_key server_name proof >>= λ (id : List ℕ). ok (lib.encode_url id)

  unfoldable pub short_key_id : Registry → List ℕ → List ℕ → Result (List ℕ)
  unfolding get_profile
  short_key_id profiles profile_name id = elim (get_profile profiles profile_name) [
    | none ↦ err unknown_profile
    | some p ↦ ok (lib.encode_url (take p.short_bytes id))
  ]

  unfoldable pub validate_proof : Registry → List ℕ → List ℕ → List ℕ → MintingProof → Option Error
  unfolding get_profile graph_seed Cuckoo.verify
  validate_proof profiles public_key server_name profile_name proof =
      elim (get_profile profiles profile_name) [
        | none ↦ some unknown_profile
        | some p ↦ elim (graph_seed profiles public_key server_name profile_name proof.nonce) [
          | err e ↦ some e
          | ok seed ↦ Cuckoo.verify p.config seed proof.solution
        ]
      ]

  unfoldable pub new_unsigned_fndsa :
      Registry → List ℕ → List ℕ → ℤ → MintingProof → Result (Fields × List ℕ)
  unfolding key_id short_key_id fndsa_key_object
  new_unsigned_fndsa profiles [] public_key valid_until_ts proof = err invalid_server_name
  new_unsigned_fndsa profiles (c ∷ server_name) public_key valid_until_ts proof =
      if length public_key == public_key_size
      then (key_id profiles public_key (c ∷ server_name) proof
          >>= (λ (id : List ℕ). short_key_id profiles proof.algorithm id)
          >>= λ (short : List ℕ). ok (
            field (codes "server_name") (text (c ∷ server_name)) (
                field (codes "verify_keys")
                  (object (
                    field (fndsa_prefix ++ short) (object (fndsa_key_object public_key proof)) end))
                  (field (codes "valid_until_ts") (int Width.w64 valid_until_ts) end)),
            fndsa_prefix ++ short,
          ))
      else err invalid_public_key

  abbrev pub map_or_empty : Option Fields → Fields
  map_or_empty none = end
  map_or_empty (some fs) = fs

  -- `signatures[serverName][keyName] = sig`, where a server's entry that is no map is replaced.
  unfoldable pub store_signature : Fields → List ℕ → List ℕ → List ℕ → Fields
  store_signature signatures server_name key_name sig =
      put server_name
        (object (
          put key_name (text (lib.encode_std sig))
            (map_or_empty (as_map (lookup server_name signatures)))))
        signatures

  -- The object with the signature. An error leaves the object as it was.
  unfoldable pub attach : Fields → List ℕ → List ℕ → List ℕ → Result Fields
  unfolding store_signature
  attach obj server_name key_name sig = elim (lookup (codes "signatures") obj) [
    | none ↦
        ok (put (codes "signatures") (object (store_signature end server_name key_name sig)) obj)
    | some v ↦ elim (as_map (some v)) [
      | none ↦ err invalid_key_object
      | some signatures ↦ ok (
          put (codes "signatures") (object (store_signature signatures server_name key_name sig))
            obj)
    ]
  ]

  unfoldable pub sign_fndsa : Fields → List ℕ → List ℕ → List ℕ → Result Fields
  unfolding has_prefix signing_bytes Fndsa512.sign attach
  sign_fndsa obj [] key_name private_key = err invalid_server_name
  sign_fndsa obj (c ∷ server_name) key_name private_key =
      if has_prefix key_name fndsa_prefix
      then (signing_bytes obj >>= Fndsa512.sign lib.scheme private_key >>= λ (sig : List ℕ).
          attach obj (c ∷ server_name) key_name sig)
      else err invalid_key_name

  unfoldable pub new_signed_fndsa :
      Registry → List ℕ → List ℕ → List ℕ → ℤ → MintingProof → Result (Fields × List ℕ)
  unfolding new_unsigned_fndsa sign_fndsa
  new_signed_fndsa profiles server_name private_key public_key valid_until_ts proof =
      new_unsigned_fndsa profiles server_name public_key valid_until_ts proof
      >>= λ (made : Fields × List ℕ).
          sign_fndsa made.0 server_name made.1 private_key >>= λ (signed : Fields).
          ok (signed, made.1)

  unfoldable pub key_metadata_sha256 : Fields → Result (List ℕ)
  key_metadata_sha256 key_object =
      canonical (object key_object) >>= λ (json : List ℕ). ok (lib.encode_url (lib.sha256 json))

  unfoldable pub key_id_sha256 : List ℕ → List ℕ
  unfolding KeyId.fingerprint
  key_id_sha256 public_key = lib.encode_url (KeyId.fingerprint lib.sha256 public_key)
