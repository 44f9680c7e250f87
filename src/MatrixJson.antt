-- ===== src/MatrixJson.antt =====
-- matrixjson/canonical.go: Matrix Canonical JSON of a Go value. A value is what the encoder's reflection
-- sees of it: an interface or a pointer is the value behind it, and a nil one is null. A string is the
-- list of its bytes, and a map is its entries in the order of an iteration.
pub mod Object
pub mod Order
use gomatrixcrypto.Base.{
  ℕ, zero, suc, ◌+◌, ◌-◌, ◌*◌, ◌/◌, ◌%◌, ◌^◌, ◌≡◌, Bool, true, false, ◌&&◌, ◌||◌, not, List, [],
  ◌∷◌, ◌++◌, Option, none, some, length, leb, ltb, ◌==◌, if◌then◌else◌, Result, ok, err, Error,
  ◌>>=◌, unsupported_type, integer_range, invalid_string, number_syntax,
}
use gomatrixcrypto.Base.Int.{ℤ, pos, negsuc}
use gomatrixcrypto.Base.Bytes.{codes}
use gomatrixcrypto.Base.Keyed.{sort_by_key}

-- The widths of the integer types; `native` is that of int and uint, `pointer` that of uintptr.
pub data Width : Type 0 where
  native w8 w16 w32 w64 pointer : Width

-- A float64 is its bit pattern; `uint32s` is a []uint32; `other` is a value of a type that cannot be
-- encoded, by its name.
mutual
  pub data Value : Type 0 where
    null : Value
    boolean : Bool → Value
    text : List ℕ → Value
    int : Width → ℤ → Value
    uint : Width → ℕ → Value
    number : List ℕ → Value
    float : ℕ → Value
    uint32s : List ℕ → Value
    other : ℕ → Value
    array : Items → Value
    object : Fields → Value

  pub data Items : Type 0 where
    nil : Items
    item : Value → Items → Items

  pub data Fields : Type 0 where
    end : Fields
    field : List ℕ → Value → Fields → Fields

abbrev pub max_canonical_int : ℕ
max_canonical_int = 2 ^ 53 - 1

-- `strconv.FormatUint(n, 10)`, of which a uint64 has at most 20 digits.
unfoldable pub digits_loop : ℕ → ℕ → List ℕ → List ℕ
digits_loop zero n acc = acc
digits_loop (suc fuel) n acc = elim (ltb n 10) [
  | true ↦ (b'0' + n) ∷ acc
  | false ↦ digits_loop fuel (n / 10) ((b'0' + n % 10) ∷ acc)
]

unfoldable pub format_uint : ℕ → List ℕ
unfolding digits_loop
format_uint n = digits_loop 20 n []

unfoldable pub append_int : ℤ → Result (List ℕ)
append_int (pos n) = if ltb max_canonical_int n then err integer_range else ok (format_uint n)
append_int (negsuc n) =
    if ltb max_canonical_int (n + 1) then err integer_range else ok (b'-' ∷ format_uint (n + 1))

unfoldable pub append_uint : ℕ → Result (List ℕ)
append_uint n = if ltb max_canonical_int n then err integer_range else ok (format_uint n)

-- `strings.ContainsAny(s, ".eE")`
unfoldable pub has_fraction : List ℕ → Bool
has_fraction [] = false
has_fraction (c ∷ cs) = if c == b'.' || (c == b'e' || c == b'E') then true else has_fraction cs

-- The digits of `strconv.ParseInt`, over the value so far; the rest of the range is tested behind them.
unfoldable pub parse_digits : ℕ → List ℕ → Option ℕ
parse_digits n [] = some n
parse_digits n (c ∷ cs) =
    if leb b'0' c && leb c b'9' then parse_digits (n * 10 + (c - b'0')) cs else none

unfoldable pub parse_unsigned : List ℕ → Option ℕ
parse_unsigned [] = none
parse_unsigned (c ∷ cs) = parse_digits 0 (c ∷ cs)

unfoldable pub in_int64 : Bool → Option ℕ → Result ℤ
in_int64 negative none = err number_syntax
in_int64 false (some n) = if ltb n (2 ^ 63) then ok (pos n) else err number_syntax
in_int64 true (some zero) = ok (pos 0)
in_int64 true (some (suc n)) = if ltb n (2 ^ 63) then ok (negsuc n) else err number_syntax

unfoldable pub parse_int : List ℕ → Result ℤ
parse_int [] = err number_syntax
parse_int (c ∷ cs) =
    if c == b'-'
    then in_int64 true (parse_unsigned cs)
    else if c == b'+'
    then in_int64 false (parse_unsigned cs)
    else in_int64 false (parse_unsigned (c ∷ cs))

unfoldable pub append_json_number : List ℕ → Result (List ℕ)
append_json_number s = if has_fraction s then err unsupported_type else parse_int s >>= append_int

-- The continuation bytes that a first byte asks for, with the range of the next byte, as
-- `utf8.ValidString` has it; `none` starts no character.
unfoldable pub lead : ℕ → Option (ℕ × ℕ × ℕ)
lead b =
    if ltb b 0x80
    then some (0, 0x80, 0xbf)
    else if ltb b 0xc2
    then none
    else if ltb b 0xe0
    then some (1, 0x80, 0xbf)
    else if b == 0xe0
    then some (2, 0xa0, 0xbf)
    else if b == 0xed
    then some (2, 0x80, 0x9f)
    else if ltb b 0xf0
    then some (2, 0x80, 0xbf)
    else if b == 0xf0
    then some (3, 0x90, 0xbf)
    else if ltb b 0xf4
    then some (3, 0x80, 0xbf)
    else if b == 0xf4
    then some (3, 0x80, 0x8f)
    else none

-- `needed` continuation bytes are left of a character, the next of them from lo to hi.
unfoldable pub valid_from : ℕ → ℕ → ℕ → List ℕ → Bool
valid_from zero lo hi [] = true
valid_from (suc needed) lo hi [] = false
valid_from zero lo hi (b ∷ bs) = elim (lead b) [
  | none ↦ false
  | some (needed, lo', hi') ↦ valid_from needed lo' hi' bs
]
valid_from (suc needed) lo hi (b ∷ bs) =
    if leb lo b && leb b hi then valid_from needed 0x80 0xbf bs else false

unfoldable pub valid_string : List ℕ → Bool
unfolding valid_from lead
valid_string s = valid_from 0 0x80 0xbf s

abbrev pub hex_digit : ℕ → ℕ
hex_digit d = if ltb d 10 then b'0' + d else 0x57 + d

-- What stands for one byte. A rune above 0x7f is written as its bytes, which stay as they are.
unfoldable pub escape : ℕ → List ℕ
escape c =
    if c == 0x5c || c == 0x22
    then 0x5c ∷ c ∷ []
    else if c == 0x08
    then 0x5c ∷ b'b' ∷ []
    else if c == 0x0c
    then 0x5c ∷ b'f' ∷ []
    else if c == 0x0a
    then 0x5c ∷ b'n' ∷ []
    else if c == 0x0d
    then 0x5c ∷ b'r' ∷ []
    else if c == 0x09
    then 0x5c ∷ b't' ∷ []
    else if ltb c 0x10
    then 0x5c ∷ b'u' ∷ b'0' ∷ b'0' ∷ b'0' ∷ hex_digit c ∷ []
    else if ltb c 0x20
    then 0x5c ∷ b'u' ∷ b'0' ∷ b'0' ∷ b'1' ∷ hex_digit (c - 0x10) ∷ []
    else c ∷ []

unfoldable pub escape_all : List ℕ → List ℕ
escape_all [] = []
escape_all (c ∷ cs) = escape c ++ escape_all cs

unfoldable pub append_string : List ℕ → Result (List ℕ)
append_string s =
    if valid_string s then ok (0x22 ∷ (escape_all s ++ (0x22 ∷ []))) else err invalid_string

-- One element of an array or an object behind the first; an error ends the encoding.
unfoldable pub join : Result (List ℕ) → Result (List ℕ) → Result (List ℕ)
join (err e) rest = err e
join (ok bytes) (err e) = err e
join (ok bytes) (ok more) = ok (bytes ++ more)

-- `"key":value`
unfoldable pub append_entry : List ℕ × Result (List ℕ) → Result (List ℕ)
unfolding join
append_entry (key, encoded) = join (append_string key) (join (ok (b':' ∷ [])) encoded)

-- The entries in their order, each behind a comma but the first.
unfoldable pub append_entries : Bool → List (List ℕ × Result (List ℕ)) → Result (List ℕ)
unfolding join append_entry
append_entries first [] = ok (0x7d ∷ [])
append_entries first (entry ∷ entries) =
    join (ok (if first then [] else b',' ∷ []))
      (join (append_entry entry) (append_entries false entries))

unfoldable pub append_uint32s : Bool → List ℕ → Result (List ℕ)
unfolding join
append_uint32s first [] = ok (b']' ∷ [])
append_uint32s first (n ∷ ns) =
    join (ok (if first then [] else b',' ∷ [])) (join (append_uint n) (append_uint32s false ns))

unfoldable mutual
  pub append_value : Value → Result (List ℕ)
  append_value null = ok (codes "null")
  append_value (boolean b) = ok (if b then codes "true" else codes "false")
  append_value (text s) = append_string s
  append_value (int width n) = append_int n
  append_value (uint width n) = append_uint n
  append_value (number s) = append_json_number s
  append_value (float bits) = err unsupported_type
  append_value (uint32s ns) = join (ok (b'[' ∷ [])) (append_uint32s true ns)
  append_value (other name) = err unsupported_type
  append_value (array items) = join (ok (b'[' ∷ [])) (append_items true items)
  append_value (object fields) =
      join (ok (0x7b ∷ [])) (append_entries true (sort_by_key (encode_fields fields)))

  pub append_items : Bool → Items → Result (List ℕ)
  append_items first nil = ok (b']' ∷ [])
  append_items first (item v vs) =
      join (ok (if first then [] else b',' ∷ [])) (join (append_value v) (append_items false vs))

  -- The keys with what their values are encoded to.
  pub encode_fields : Fields → List (List ℕ × Result (List ℕ))
  encode_fields end = []
  encode_fields (field key v fields) = (key, append_value v) ∷ encode_fields fields

abbrev pub canonical : Value → Result (List ℕ)
canonical v = append_value v
