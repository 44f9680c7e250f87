-- ===== src/Merkle/Fields.antt =====
-- merkle/merkle.go and merkle/proof.go: named fields as leaves, the roots over them, an event's header
-- and identifier, and a field's inclusion path. SHA3-256 and base64 are parameters.
pub mod Laws
pub mod Proofs
use gomatrixcrypto.Base.{
  ℕ, zero, suc, ◌≡◌, Bool, true, false, List, [], ◌∷◌, ◌++◌, Option, none, some, map, list_eq, ◌==◌,
  if◌then◌else◌, Result, ok, err, Error, ◌>>=◌, empty_field_name, invalid_field_name,
  duplicate_field, no_leaves, field_not_found,
}
use gomatrixcrypto.Base.Int.{ℤ}
use gomatrixcrypto.Base.Bytes.{codes}
use gomatrixcrypto.Base.Keyed.{sort_by_key}
use gomatrixcrypto.Merkle.Tree.{Hash, hash, ProofStep, leaf_dst, merkle_root, merkle_root_and_path}
use gomatrixcrypto.MatrixJson.{Value, Width, null, text, int, canonical, valid_string}

pub record Field : Type 0 where
  pub name : List ℕ
  pub value : Value

pub record LeafData : Type 0 where
  pub canonical_json : List ℕ
  pub digest : Hash

-- A leaf is its name with the rest of it.
abbrev pub Leaf : Type 0
Leaf = List ℕ × LeafData

pub record Header : Type 0 where
  pub room_id : List ℕ
  pub sender_localpart : List ℕ
  pub sender_domain : List ℕ
  pub event_type : List ℕ
  pub state_key : Option (List ℕ)
  pub redacts : Option (List ℕ)
  pub depth : ℤ
  pub origin_server_ts : ℤ

unfoldable pub has_nul : List ℕ → Bool
has_nul [] = false
has_nul (c ∷ cs) = if c == 0 then true else has_nul cs

-- `none` is a nil error.
unfoldable pub validate_field_name : List ℕ → Option Error
validate_field_name [] = some empty_field_name
validate_field_name (c ∷ cs) =
    if valid_string (c ∷ cs)
    then if has_nul (c ∷ cs) then some invalid_field_name else none
    else some invalid_field_name

-- Two neighbours of one name.
unfoldable pub has_duplicate : List Leaf → Bool
has_duplicate [] = false
has_duplicate (a ∷ []) = false
has_duplicate (a ∷ b ∷ ls) = if list_eq a.0 b.0 then true else has_duplicate (b ∷ ls)

abbrev pub next : Option ℕ → Option ℕ
next none = none
next (some i) = some (suc i)

-- The index of the first leaf of a name.
unfoldable pub find_leaf : List ℕ → List Leaf → Option ℕ
find_leaf field_name [] = none
find_leaf field_name (l ∷ ls) =
    if list_eq l.0 field_name then some 0 else next (find_leaf field_name ls)

unfoldable pub digests : List Leaf → List Hash
digests [] = []
digests (l ∷ ls) = l.1.digest ∷ digests ls

abbrev pub optional : Option (List ℕ) → Value
optional none = null
optional (some s) = text s

module _ (sha3 : List ℕ → Hash) where
  unfoldable pub leaf_hash : List ℕ → List ℕ → Result Hash
  unfolding validate_field_name hash
  leaf_hash field_name canonical_value = elim (validate_field_name field_name) [
    | some e ↦ err e
    | none ↦ ok (hash sha3 (leaf_dst ∷ field_name ∷ (0 ∷ []) ∷ canonical_value ∷ []))
  ]

  unfoldable pub make_leaf : List ℕ → List ℕ → Result Leaf
  unfolding leaf_hash
  make_leaf field_name json = leaf_hash field_name json >>= λ (h : Hash).
      ok (field_name, record { canonical_json = json; digest = h })

  unfoldable pub field_leaf : Field → Result Leaf
  unfolding make_leaf
  field_leaf f = elim f.name [
    | [] ↦ err empty_field_name
    | _ ↦ canonical f.value >>= make_leaf f.name
  ]

  -- The leaves in the order of the fields; the first error ends the loop.
  unfoldable pub collect : List Field → Result (List Leaf)
  unfolding field_leaf
  collect [] = ok []
  collect (f ∷ fs) = field_leaf f >>= λ (l : Leaf). collect fs >>= λ (ls : List Leaf). ok (l ∷ ls)

  -- The test behind the sort.
  unfoldable pub reject_duplicates : List Leaf → Result (List Leaf)
  unfolding has_duplicate
  reject_duplicates ls = if has_duplicate ls then err duplicate_field else ok ls

  unfoldable pub leaves : List Field → Result (List Leaf)
  unfolding collect reject_duplicates sort_by_key
  leaves fs = collect fs >>= λ (ls : List Leaf). reject_duplicates (sort_by_key ls)

  unfoldable pub root_from_leaves : List Leaf → Result Hash
  unfolding merkle_root digests
  root_from_leaves [] = err no_leaves
  root_from_leaves (l ∷ ls) = ok (merkle_root sha3 (digests (l ∷ ls)))

  unfoldable pub root : List Field → Result Hash
  unfolding leaves root_from_leaves
  root fs = leaves fs >>= root_from_leaves

  unfoldable pub component_hash : List ℕ → Value → Result Hash
  unfolding field_leaf
  component_hash field_name v =
      field_leaf (record { name = field_name; value = v }) >>= λ (l : Leaf). ok l.1.digest

  unfoldable pub redacted_content_hash : Value → Result Hash
  unfolding component_hash
  redacted_content_hash v = component_hash (codes "redacted_content") v

  unfoldable pub ephemeral_content_hash : Value → Result Hash
  unfolding component_hash
  ephemeral_content_hash v = component_hash (codes "ephemeral_content") v

  unfoldable pub header_root : Header → Result Hash
  unfolding root
  header_root header = root (
      record { name = codes "depth"; value = int Width.w64 header.depth }
      ∷ record { name = codes "origin_server_ts"; value = int Width.w64 header.origin_server_ts }
      ∷ record { name = codes "redacts"; value = optional header.redacts }
      ∷ record { name = codes "room_id"; value = text header.room_id }
      ∷ record { name = codes "sender_domain"; value = text header.sender_domain }
      ∷ record { name = codes "sender_localpart"; value = text header.sender_localpart }
      ∷ record { name = codes "state_key"; value = optional header.state_key }
      ∷ record { name = codes "type"; value = text header.event_type }
      ∷ [])

  unfoldable pub field_leaf_hash : Field → Result Hash
  unfolding field_leaf
  field_leaf_hash f = field_leaf f >>= λ (l : Leaf). ok l.1.digest

  -- The path and the root, behind the search for the name.
  unfoldable pub path_to : List Leaf → Option ℕ → Result (List ProofStep × Hash)
  unfolding merkle_root_and_path digests
  path_to ls none = err field_not_found
  path_to ls (some i) =
      let found = merkle_root_and_path sha3 (digests ls) i in ok (found.1, found.0)

  unfoldable pub leaf_path : List Field → List ℕ → Result (List ProofStep × Hash)
  unfolding leaves find_leaf path_to
  leaf_path fs field_name = leaves fs >>= λ (ls : List Leaf). path_to ls (find_leaf field_name ls)

-- `encode_url` is base64.RawURLEncoding's EncodeToString.
unfoldable pub event_id : (List ℕ → List ℕ) → Hash → List ℕ
event_id encode_url event_root = b'$' ∷ encode_url event_root
