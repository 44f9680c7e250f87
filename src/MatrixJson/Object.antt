-- ===== src/MatrixJson/Object.antt =====
-- Go maps with text keys as entries in the order of an iteration, and what a type assertion finds.
use gomatrixcrypto.Base.{
  ℕ, ◌≡◌, refl, List, Option, none, some, list_eq, list_eq→eq, list_eq_refl, if◌then◌else◌, arith,
}
use gomatrixcrypto.MatrixJson.{Value, Fields, object, text, end, field}

-- `m[k]`, with `none` where the map has no such key.
unfoldable pub lookup : List ℕ → Fields → Option Value
lookup k end = none
lookup k (field l v fs) = if list_eq l k then some v else lookup k fs

-- `m[k] = v`
unfoldable pub put : List ℕ → Value → Fields → Fields
put k v end = field k v end
put k v (field l w fs) = if list_eq l k then field l v fs else field l w (put k v fs)

-- `v.(map[string]any)`
abbrev pub as_map : Option Value → Option Fields
as_map (some (object fs)) = some fs
as_map _ = none

-- `v.(string)`
abbrev pub as_text : Option Value → Option (List ℕ)
as_text (some (text s)) = some s
as_text _ = none

pub lookup-put :
    (k t : List ℕ) (v : Value) (fs : Fields)
    → lookup k (put t v fs) ≡ (if list_eq t k then some v else lookup k fs)
unfolding lookup put
lookup-put k t v end = refl
lookup-put k t v (field l w fs) = ground (
  arith,
  lookup-put k t v fs,
  list_eq→eq l t,
  list_eq→eq l k,
  list_eq→eq t k,
  list_eq_refl k,
  list_eq_refl t,
)
