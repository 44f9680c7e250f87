-- ===== src/Merkle/Redaction.antt =====
-- merkle/redaction.go: the split of an event's content by what a redaction preserves. A content is a
-- decoded JSON object, with no pointers in it; a map is its entries in the order of an iteration.
pub mod Laws
use gomatrixcrypto.Base.{
  ℕ, zero, suc, ◌+◌, ◌-◌, ◌/◌, ◌%◌, ◌^◌, Bool, true, false, ◌&&◌, ◌||◌, not, List, [], ◌∷◌, Option,
  none, some, list_eq, ◌==◌, if◌then◌else◌,
}
use gomatrixcrypto.Base.Int.{ℤ, pos, negsuc}
use gomatrixcrypto.Base.Bytes.{codes}
use gomatrixcrypto.MatrixJson.{
  Value, Items, Fields, Width, null, boolean, text, int, uint, number, float, uint32s, other, array,
  object, nil, item, end, field,
}
use gomatrixcrypto.MatrixJson.Object.{lookup, put, as_map}

pub record RedactionRule : Type 0 where
  pub all : Bool
  pub keys : List (List ℕ)

abbrev pub redaction_rule_none : RedactionRule
redaction_rule_none = record { all = false; keys = [] }

abbrev pub redaction_rule_all : RedactionRule
redaction_rule_all = record { all = true; keys = [] }

abbrev pub redaction_rule_keys : List (List ℕ) → RedactionRule
redaction_rule_keys ks = record { all = false; keys = ks }

unfoldable pub redaction_preserved_keys : List ℕ → RedactionRule
redaction_preserved_keys event_type =
    if list_eq event_type (codes "m.room.create")
    then redaction_rule_all
    else if list_eq event_type (codes "m.room.member")
    then redaction_rule_keys (
        codes "membership"
        ∷ codes "join_authorised_via_users_server"
        ∷ codes "third_party_invite.signed"
        ∷ [])
    else if list_eq event_type (codes "m.room.power_levels")
    then redaction_rule_keys (
        codes "ban"
        ∷ codes "events"
        ∷ codes "events_default"
        ∷ codes "invite"
        ∷ codes "kick"
        ∷ codes "redact"
        ∷ codes "state_default"
        ∷ codes "users"
        ∷ codes "users_default"
        ∷ [])
    else if list_eq event_type (codes "m.room.join_rules")
    then redaction_rule_keys (codes "join_rule" ∷ codes "allow" ∷ [])
    else if list_eq event_type (codes "m.room.history_visibility")
    then redaction_rule_keys (codes "history_visibility" ∷ [])
    else if list_eq event_type (codes "m.room.redaction")
    then redaction_rule_keys (codes "redacts" ∷ [])
    else redaction_rule_none

abbrev pub count_fields : Fields → ℕ
count_fields end = 0
count_fields (field k v fs) = suc (count_fields fs)

unfoldable pub split_dotted_path : List ℕ → Option (List ℕ × List ℕ)
split_dotted_path [] = none
split_dotted_path (c ∷ cs) = if c == b'.' then some ([], cs) else behind (split_dotted_path cs)
  where
    behind : Option (List ℕ × List ℕ) → Option (List ℕ × List ℕ)
    behind none = none
    behind (some (top, rest)) = some (c ∷ top, rest)

-- One path of a rule: `out` is the result so far.
unfoldable pub preserve_key : Fields → List ℕ → Fields → Fields
preserve_key content top out = elim (lookup top content) [ none ↦ out | some v ↦ put top v out ]

abbrev pub parent_of : Option Fields → Fields
parent_of none = end
parent_of (some fs) = fs

unfoldable pub preserve_nested : Fields → List ℕ → List ℕ → Fields → Fields
preserve_nested content top rest out = elim (as_map (lookup top content)) [
  | none ↦ out
  | some inner ↦ elim (lookup rest inner) [
    | none ↦ out
    | some v ↦ put top (object (put rest v (parent_of (as_map (lookup top out))))) out
  ]
]

unfoldable pub preserve : Fields → List ℕ → Fields → Fields
unfolding preserve_key preserve_nested
preserve content path out = elim (split_dotted_path path) [
  | none ↦ preserve_key content path out
  | some (top, rest) ↦ preserve_nested content top rest out
]

unfoldable pub preserve_all : Fields → List (List ℕ) → Fields → Fields
unfolding preserve
preserve_all content [] out = out
preserve_all content (path ∷ paths) out = preserve_all content paths (preserve content path out)

unfoldable pub redact_content : Fields → RedactionRule → Fields
unfolding preserve_all
redact_content content rule = if rule.all then content else preserve_all content rule.keys end

abbrev pub equal_bool : Bool → Bool → Bool
equal_bool true b = b
equal_bool false b = not b

abbrev pub equal_int : ℤ → ℤ → Bool
equal_int (pos a) (pos b) = a == b
equal_int (negsuc a) (negsuc b) = a == b
equal_int (pos a) (negsuc b) = false
equal_int (negsuc a) (pos b) = false

abbrev pub width_index : Width → ℕ
width_index Width.native = 0
width_index Width.w8 = 1
width_index Width.w16 = 2
width_index Width.w32 = 3
width_index Width.w64 = 4
width_index Width.pointer = 5

-- The bit pattern of a NaN.
abbrev pub is_nan : ℕ → Bool
is_nan bits = ((bits / 2 ^ 52) % 2 ^ 11 == 2 ^ 11 - 1) && not (bits % 2 ^ 52 == 0)

-- `==` on float64, where both zeros are one number.
abbrev pub equal_float : ℕ → ℕ → Bool
equal_float a b =
    if is_nan a || is_nan b
    then false
    else if (a % 2 ^ 63 == 0) && (b % 2 ^ 63 == 0)
    then true
    else a == b

-- `m[k]` where a missing key reads as nil.
abbrev pub or_null : Option Value → Value
or_null none = null
or_null (some v) = v

abbrev pub keep : List ℕ → Option Value → Fields → Fields
keep k none fs = fs
keep k (some v) fs = field k v fs

-- The result is `none` where Go panics: `==` on two slices. `equal_other` is `==` on the other types.
module _ (equal_other : ℕ → ℕ → Option Bool) where
  -- `a == b` on two values that are not both maps.
  unfoldable pub interface_equal : Value → Value → Option Bool
  interface_equal null null = some true
  interface_equal (boolean a) (boolean b) = some (equal_bool a b)
  interface_equal (text a) (text b) = some (list_eq a b)
  interface_equal (int w a) (int x b) = some ((width_index w == width_index x) && equal_int a b)
  interface_equal (uint w a) (uint x b) = some ((width_index w == width_index x) && (a == b))
  interface_equal (number a) (number b) = some (list_eq a b)
  interface_equal (float a) (float b) = some (equal_float a b)
  interface_equal (uint32s a) (uint32s b) = none
  interface_equal (array a) (array b) = none
  interface_equal (other a) (other b) = equal_other a b
  interface_equal _ _ = some false

  unfoldable mutual
    unfolding interface_equal

    pub deep_equal : Value → Value → Option Bool
    deep_equal (object am) b = elim (as_map (some b)) [
      | none ↦ some false
      | some bm ↦ if count_fields am == count_fields bm then equal_fields am bm else some false
    ]
    deep_equal null b = interface_equal null b
    deep_equal (boolean a) b = interface_equal (boolean a) b
    deep_equal (text a) b = interface_equal (text a) b
    deep_equal (int w a) b = interface_equal (int w a) b
    deep_equal (uint w a) b = interface_equal (uint w a) b
    deep_equal (number a) b = interface_equal (number a) b
    deep_equal (float a) b = interface_equal (float a) b
    deep_equal (uint32s a) b = interface_equal (uint32s a) b
    deep_equal (other a) b = interface_equal (other a) b
    deep_equal (array a) b = interface_equal (array a) b

    -- The loop over the first map.
    pub equal_fields : Fields → Fields → Option Bool
    equal_fields end bm = some true
    equal_fields (field k av am) bm = elim (lookup k bm) [
      | none ↦ some false
      | some bv ↦ elim (deep_equal av bv) [
        | none ↦ none
        | some false ↦ some false
        | some true ↦ equal_fields am bm
      ]
    ]

  -- The inner keys that differ from what is preserved, in front of those behind.
  unfoldable pub remainder_loop : Fields → Fields → Option Fields
  unfolding deep_equal
  remainder_loop preserved end = some end
  remainder_loop preserved (field k v inner) = elim (deep_equal (or_null (lookup k preserved)) v) [
    | none ↦ none
    | some same ↦ elim (remainder_loop preserved inner) [
      | none ↦ none
      | some rest ↦ some (if same then rest else field k v rest)
    ]
  ]

  -- What one key leaves: nothing, or a value.
  unfoldable pub remainder_of : Option Value → Value → Option (Option Value)
  unfolding deep_equal remainder_loop
  remainder_of none v = some (some v)
  remainder_of (some preserved) v = elim (deep_equal preserved v) [
    | none ↦ none
    | some true ↦ some none
    | some false ↦ elim (as_map (some preserved)) [
      | none ↦ some (some v)
      | some preserved_inner ↦ elim (as_map (some v)) [
        | none ↦ some (some v)
        | some full_inner ↦ elim (remainder_loop preserved_inner full_inner) [
          | none ↦ none
          | some end ↦ some none
          | some (field k w rest) ↦ some (some (object (field k w rest)))
        ]
      ]
    ]
  ]

  -- The loop over the content; no key comes twice.
  unfoldable pub ephemeral_remainder : Fields → Fields → Option Fields
  unfolding remainder_of
  ephemeral_remainder end redacted = some end
  ephemeral_remainder (field k v content) redacted = elim (remainder_of (lookup k redacted) v) [
    | none ↦ none
    | some left_over ↦ elim (ephemeral_remainder content redacted) [
      | none ↦ none
      | some rest ↦ some (keep k left_over rest)
    ]
  ]

  unfoldable pub split_redaction_content : Fields → List ℕ → Option (Fields × Fields)
  unfolding redact_content redaction_preserved_keys ephemeral_remainder
  split_redaction_content content event_type =
      let redacted = redact_content content (redaction_preserved_keys event_type) in
      elim (ephemeral_remainder content redacted) [
        | none ↦ none
        | some ephemeral ↦ some (redacted, ephemeral)
      ]
