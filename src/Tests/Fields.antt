-- ===== src/Tests/Fields.antt =====
-- Runs of the encoder, of the roots over fields and of redaction, with a stand-in for SHA3-256.
use mathlib.Core.List.{Permᴰ, flatten}
use gomatrixcrypto.Base.{
  ℕ, ◌+◌, ◌*◌, ◌%◌, ◌≡◌, ◌≢◌, refl, Bool, true, false, ◌||◌, List, [], ◌∷◌, Option, none, some,
  if◌then◌else◌, ok, list_eq, get_elem?, arith,
}
use gomatrixcrypto.Base.Bytes.{codes}
use gomatrixcrypto.MatrixJson.{
  Value, Fields, Items, text, boolean, object, array, null, nil, item, end, field, canonical,
  append_value, append_items, append_entries, append_entry, join, append_string, valid_string,
  valid_from, lead, escape, escape_all,
}
use gomatrixcrypto.MatrixJson.Object.{lookup, put}
use gomatrixcrypto.Base.Keyed.{sort_by_key, insert_by_key, text_leb}
use gomatrixcrypto.MatrixJson.Order.{objects, swapped, canonical-SameValue}
use gomatrixcrypto.Merkle.Tree.{
  Hash, ProofStep, right, verify_leaf_path, hash, inner_hash, merkle_root, root_loop,
  merkle_root_and_path, path_loop,
}
use gomatrixcrypto.Merkle.Fields.{
  Field, root, leaf_path, field_leaf_hash, digests, find_leaf, has_duplicate, has_nul,
}
use gomatrixcrypto.Merkle.Fields.Laws.{root-perm}
use gomatrixcrypto.Merkle.Fields.Proofs.{leaf_path_lem}
use gomatrixcrypto.Merkle.Redaction.{
  RedactionRule, redaction_rule_keys, redaction_preserved_keys, redact_content, split_dotted_path,
  split_redaction_content,
}
use gomatrixcrypto.Merkle.Redaction.Laws.{
  is_listed, is_plain, lookup-redact_content, split_redaction_content-array,
}

abbrev weak_sum : List ℕ → ℕ
weak_sum [] = 7
weak_sum (b ∷ bs) = (b + 3 * weak_sum bs) % 256

abbrev weak_hash : List ℕ → Hash
weak_hash m = weak_sum m ∷ []

abbrev a_then_b : Value
a_then_b = object (field (codes "a") null (field (codes "b") (boolean true) end))

abbrev b_then_a : Value
b_then_a = object (field (codes "b") (boolean true) (field (codes "a") null end))

a_differs_b : codes "a" ≢ codes "b"
a_differs_b e = absurd (ground arith)

canonical-SameValue_example : canonical a_then_b ≡ canonical b_then_a
canonical-SameValue_example =
    canonical-SameValue a_then_b b_then_a
      (objects (swapped (codes "a") (codes "b") null (boolean true) end a_differs_b))

abbrev depth_field : Field
depth_field = record { name = codes "depth"; value = null }

abbrev type_field : Field
type_field = record { name = codes "type"; value = text (codes "t") }

abbrev the_root : Hash
the_root = 114 ∷ []

the_root_is : root weak_hash (type_field ∷ depth_field ∷ []) ≡ ok the_root
unfolding root merkle_root root_loop inner_hash hash digests append_value append_items
    append_entries append_entry join append_string valid_string valid_from lead escape escape_all
    sort_by_key insert_by_key text_leb has_duplicate has_nul list_eq flatten
the_root_is = refl

root-perm_example : root weak_hash (depth_field ∷ type_field ∷ []) ≡ ok the_root
root-perm_example =
    root-perm weak_hash (type_field ∷ depth_field ∷ []) (depth_field ∷ type_field ∷ []) the_root
      (Permᴰ.swap refl refl) the_root_is

abbrev depth_path : List ProofStep
depth_path = record { side = right; sibling = 166 ∷ [] } ∷ []

depth_path_is :
    leaf_path weak_hash (type_field ∷ depth_field ∷ []) (codes "depth") ≡ ok (depth_path, the_root)
unfolding leaf_path merkle_root_and_path path_loop merkle_root root_loop inner_hash hash digests
    find_leaf append_value append_items append_entries append_entry join append_string valid_string
    valid_from lead escape escape_all sort_by_key insert_by_key text_leb has_duplicate has_nul
    list_eq flatten
depth_path_is = refl

leaf_path_lem_example :
    (root weak_hash (type_field ∷ depth_field ∷ []) ≡ ok the_root)
    × (i : ℕ) × (f : Field) × (h : Hash) × (get_elem? (type_field ∷ depth_field ∷ []) i ≡ some f)
    × (f.name ≡ codes "depth")
    × (field_leaf_hash weak_hash f ≡ ok h)
    × (verify_leaf_path weak_hash h depth_path the_root ≡ true)
leaf_path_lem_example =
    leaf_path_lem weak_hash (type_field ∷ depth_field ∷ []) (codes "depth") depth_path the_root
      depth_path_is

abbrev allowed : Items
allowed = item (text (codes "r")) nil

abbrev join_rules : Fields
join_rules =
    field (codes "join_rule") (text (codes "restricted"))
      (field (codes "allow") (array allowed) (field (codes "note") null end))

abbrev join_rules_rule : RedactionRule
join_rules_rule = redaction_rule_keys (codes "join_rule" ∷ codes "allow" ∷ [])

join_rules-plain : is_plain (codes "join_rule" ∷ codes "allow" ∷ []) ≡ true
unfolding is_plain split_dotted_path
join_rules-plain = refl

lookup-redact_content_example :
    lookup (codes "note") (redact_content join_rules join_rules_rule) ≡ (
      if false || is_listed (codes "note") (codes "join_rule" ∷ codes "allow" ∷ [])
      then lookup (codes "note") join_rules
      else none)
lookup-redact_content_example =
    lookup-redact_content join_rules join_rules_rule (codes "note") join_rules-plain

abbrev never_equal : ℕ → ℕ → Option Bool
never_equal a b = some false

allow_there : lookup (codes "allow") join_rules ≡ some (array allowed)
unfolding lookup list_eq
allow_there = refl

allow_kept :
    lookup
      (codes "allow")
      (redact_content join_rules (redaction_preserved_keys (codes "m.room.join_rules")))
    ≡ some (array allowed)
unfolding redact_content redaction_preserved_keys lookup put list_eq split_dotted_path
allow_kept = refl

split_redaction_content-array_example :
    split_redaction_content never_equal join_rules (codes "m.room.join_rules") ≡ none
split_redaction_content-array_example =
    split_redaction_content-array never_equal join_rules (codes "m.room.join_rules") (codes "allow")
      allowed allow_there allow_kept
