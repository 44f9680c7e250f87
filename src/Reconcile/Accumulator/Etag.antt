-- ===== src/Reconcile/Accumulator/Etag.antt =====
-- reconcile/algebraic.go: the opaque value of a room's frontier. SHA-256 and base64 are parameters.
use mathlib.Core.List.{Permᴰ}
use gomatrixcrypto.Base.{
  ℕ, ◌≡◌, refl, ap, ap₂, ◌∙◌, ◌||◌, List, [], ◌∷◌, ◌++◌, take, ◌==◌, if◌then◌else◌, arith,
}
use gomatrixcrypto.Base.Bytes.{codes}
use gomatrixcrypto.Base.Keyed.{text_leb, text_leb_total, text_leb_trans, text_leb_antisym}
use gomatrixcrypto.Reconcile.Accumulator.{RoomAccumulator}

unfoldable pub insert_string : List ℕ → List (List ℕ) → List (List ℕ)
insert_string s [] = s ∷ []
insert_string s (t ∷ ts) = if text_leb s t then s ∷ t ∷ ts else t ∷ insert_string s ts

-- `slices.Sort` on strings, as insertion sort.
unfoldable pub sort_strings : List (List ℕ) → List (List ℕ)
unfolding insert_string
sort_strings [] = []
sort_strings (s ∷ ss) = insert_string s (sort_strings ss)

unfoldable pub escape_byte : ℕ → List ℕ
escape_byte c =
    if c == 0x5c || c == 0x22
    then 0x5c ∷ c ∷ []
    else if c == 0x08
    then 0x5c ∷ b'b' ∷ []
    else if c == 0x0c
    then 0x5c ∷ b'f' ∷ []
    else if c == 0x0a
    then 0x5c ∷ b'n' ∷ []
    else if c == 0x0d
    then 0x5c ∷ b'r' ∷ []
    else if c == 0x09
    then 0x5c ∷ b't' ∷ []
    else c ∷ []

unfoldable pub escape_bytes : List ℕ → List ℕ
unfolding escape_byte
escape_bytes [] = []
escape_bytes (c ∷ cs) = escape_byte c ++ escape_bytes cs

-- The strings behind the first, each behind a comma, and the closing bracket.
unfoldable pub string_elements : List (List ℕ) → List ℕ
unfolding escape_bytes
string_elements [] = b']' ∷ []
string_elements (s ∷ ss) = b',' ∷ 0x22 ∷ (escape_bytes s ++ (0x22 ∷ string_elements ss))

-- The copy that ETag makes of no identifiers is nil, which is written as null.
unfoldable pub canonical_string_array : List (List ℕ) → List ℕ
unfolding string_elements
canonical_string_array [] = codes "null"
canonical_string_array (s ∷ ss) = b'[' ∷ 0x22 ∷ (escape_bytes s ++ (0x22 ∷ string_elements ss))

unfoldable pub etag :
    (List ℕ → List ℕ) → (List ℕ → List ℕ) → RoomAccumulator → List (List ℕ) → List ℕ
unfolding sort_strings canonical_string_array
etag sha256 encode_url r extremity_event_ids =
    encode_url
      (r.digest ++ take 8 (sha256 (canonical_string_array (sort_strings extremity_event_ids))))

insert_string_comm :
    (s t : List ℕ) (ts : List (List ℕ))
    → insert_string s (insert_string t ts) ≡ insert_string t (insert_string s ts)
unfolding insert_string
insert_string_comm s t [] =
    ground (arith, text_leb_total s t, text_leb_total t s, text_leb_antisym s t)
insert_string_comm s t (u ∷ ts) = ground (
  arith,
  text_leb_total s t,
  text_leb_total t s,
  text_leb_antisym s t,
  text_leb_total s u,
  text_leb_total t u,
  text_leb_trans s t u,
  text_leb_trans t s u,
  text_leb_trans u s t,
  text_leb_trans s u t,
  text_leb_trans t u s,
  text_leb_trans u t s,
  insert_string_comm s t ts,
)

sort_strings-permᴰ : {ss ts : List (List ℕ)} → Permᴰ ss ts → sort_strings ss ≡ sort_strings ts
unfolding sort_strings
sort_strings-permᴰ Permᴰ.nil = refl
sort_strings-permᴰ (Permᴰ.cons e p) = ap₂ insert_string e (sort_strings-permᴰ p)
sort_strings-permᴰ (Permᴰ.swap {a = a} {b = b} {a' = d} {b' = c} {l = ss} e f) =
    insert_string_comm a b (sort_strings ss)
    ∙ ap₂ (λ (x y : List ℕ). insert_string x (insert_string y (sort_strings ss))) f e
sort_strings-permᴰ (Permᴰ.trans p q) = sort_strings-permᴰ p ∙ sort_strings-permᴰ q

-- The value of a frontier does not depend on the order in which its event IDs are given.
pub etag-perm :
    (sha256 encode_url : List ℕ → List ℕ) (r : RoomAccumulator) (ss ts : List (List ℕ))
    → Permᴰ ss ts
    → etag sha256 encode_url r ss ≡ etag sha256 encode_url r ts
unfolding etag
etag-perm sha256 encode_url r ss ts p =
    ap
      (λ (sorted : List (List ℕ)).
        encode_url (r.digest ++ take 8 (sha256 (canonical_string_array sorted))))
      (sort_strings-permᴰ p)
