-- ===== src/MatrixJson/Order.antt =====
-- matrixjson/canonical.go: the encodings of values that differ in the order of the iteration of a map.
use gomatrixcrypto.Base.{◌≡◌, ◌≢◌, refl, ap, ◌∙◌, Bool, true, false, List, [], ◌∷◌, ℕ, Result, ok}
use gomatrixcrypto.Base.Keyed.{sort_by_key, insert_by_key_comm}
use gomatrixcrypto.MatrixJson.{
  Value, Items, Fields, array, object, nil, item, end, field, append_value, append_items,
  encode_fields, append_entries, join, canonical,
}

-- One value, in two iterations of each of its maps. No map has a key twice.
mutual
  pub data SameValue : Value → Value → Type 0 where
    unchanged : (v : Value) → SameValue v v
    arrays : {vs ws : Items} → SameItems vs ws → SameValue (array vs) (array ws)
    objects : {fs gs : Fields} → SameFields fs gs → SameValue (object fs) (object gs)

  pub data SameItems : Items → Items → Type 0 where
    nils : SameItems nil nil
    items :
        {v w : Value} {vs ws : Items}
        → SameValue v w
        → SameItems vs ws
        → SameItems (item v vs) (item w ws)

  pub data SameFields : Fields → Fields → Type 0 where
    ends : SameFields end end
    fields :
        (k : List ℕ) {v w : Value} {fs gs : Fields}
        → SameValue v w
        → SameFields fs gs
        → SameFields (field k v fs) (field k w gs)
    swapped :
        (k l : List ℕ) (v w : Value) (fs : Fields)
        → k ≢ l
        → SameFields (field k v (field l w fs)) (field l w (field k v fs))
    chained : {fs gs hs : Fields} → SameFields fs gs → SameFields gs hs → SameFields fs hs

mutual
  unfolding append_value append_items encode_fields sort_by_key

  append_value_same : {v w : Value} → SameValue v w → append_value v ≡ append_value w
  append_value_same (unchanged v) = refl
  append_value_same (arrays s) =
      ap (λ (bytes : Result (List ℕ)). join (ok (b'[' ∷ [])) bytes) (append_items_same true s)
  append_value_same (objects s) =
      ap
        (λ (entries : List (List ℕ × Result (List ℕ))).
          join (ok (0x7b ∷ [])) (append_entries true entries))
        (encode_fields_same s)

  append_items_same :
      (first : Bool) {vs ws : Items}
      → SameItems vs ws
      → append_items first vs ≡ append_items first ws
  append_items_same first nils = refl
  append_items_same first (items s t) = rw (append_value_same s, append_items_same false t) refl

  encode_fields_same :
      {fs gs : Fields}
      → SameFields fs gs
      → sort_by_key (encode_fields fs) ≡ sort_by_key (encode_fields gs)
  encode_fields_same ends = refl
  encode_fields_same (fields k s t) = rw (append_value_same s, encode_fields_same t) refl
  encode_fields_same (swapped k l v w fs ne) =
      insert_by_key_comm (k, append_value v) (l, append_value w) (sort_by_key (encode_fields fs)) ne
  encode_fields_same (chained s t) = encode_fields_same s ∙ encode_fields_same t

-- Two values that differ at most in the order of the iteration of their maps, at any depth, have the
-- same canonical encoding, or the same error.
pub canonical-SameValue : (v w : Value) → SameValue v w → canonical v ≡ canonical w
canonical-SameValue v w s = append_value_same s
