-- ===== src/ServerKey/Profile.antt =====
-- serverkey/serverkey.go: the registry of profiles. The package's variable is a state that is passed; its
-- lock makes each call one step.
pub mod Invariant
use gomatrixcrypto.Base.{
  ℕ, zero, suc, ◌≤◌, ◌≡◌, refl, sym, ap, ◌∙◌, Bool, true, false, ◌||◌, List, [], ◌∷◌, ◌++◌, Option,
  none, some, leb, ltb, list_eq, list_eq→eq, list_eq_refl, if◌then◌else◌, Result, ok, err,
  invalid_profile, Option-cases, Bool-cases, inl, inr, arith,
}
use gomatrixcrypto.Base.Bytes.{codes}
use gomatrixcrypto.Base.Int.{ℤ, pos, negsuc}
use gomatrixcrypto.Cuckoo.{Config, validate}

pub record Profile : Type 0 where
  pub config : Config
  pub graph_tag : List ℕ
  pub key_id_tag : List ℕ
  pub short_bytes : ℕ

abbrev pub production_profile : List ℕ
production_profile = codes "tk.nutra.msc45xx.serverkey.v1"

abbrev pub production_entry : Profile
production_entry = record {
  config = record { edge_bits = 29; proof_size = pos 42 };
  graph_tag = codes "tk.nutra.msc45xx.serverkey.v1.graph";
  key_id_tag = codes "tk.nutra.msc45xx.serverkey.v1.keyid";
  short_bytes = 16;
}

abbrev pub Registry : Type 0
Registry = List (List ℕ × Profile)

abbrev pub initial_registry : Registry
initial_registry = (production_profile, production_entry) ∷ []

unfoldable pub get_profile : Registry → List ℕ → Option Profile
get_profile [] name = none
get_profile (p ∷ ps) name = if list_eq p.0 name then some p.1 else get_profile ps name

unfoldable pub is_registered_profile : Registry → List ℕ → Bool
is_registered_profile profiles name = elim (get_profile profiles name) [
  | none ↦ false
  | some p ↦ true
]

abbrev pub zero_config : Config
zero_config = record { edge_bits = 0; proof_size = pos 0 }

-- The zero Config where there is no such profile.
unfoldable pub production_config : Registry → Config
production_config profiles = elim (get_profile profiles production_profile) [
  | none ↦ zero_config
  | some p ↦ p.config
]

abbrev pub is_bad_length : ℤ → Bool
is_bad_length (pos n) = ltb n 1 || ltb 32 n
is_bad_length (negsuc n) = true

abbrev pub to_nat : ℤ → ℕ
to_nat (pos n) = n
to_nat (negsuc n) = 0

unfoldable pub new_profile : List ℕ → Config → ℕ → Profile
new_profile name config short_bytes = record {
  config = config;
  graph_tag = name ++ codes ".graph";
  key_id_tag = name ++ codes ".keyid";
  short_bytes = short_bytes;
}

-- `to_nat` is of a length within the bounds.
unfoldable pub register_profile : Registry → List ℕ → Config → ℤ → Result Registry
unfolding new_profile
register_profile profiles [] config short_bytes = err invalid_profile
register_profile profiles (c ∷ name) config short_bytes =
    if is_bad_length short_bytes then err invalid_profile else elim (validate config) [
      | some e ↦ err invalid_profile
      | none ↦
          if is_registered_profile profiles (c ∷ name)
          then err invalid_profile
          else ok (((c ∷ name), new_profile (c ∷ name) config (to_nat short_bytes)) ∷ profiles)
    ]

unfoldable pub graph_tag_of : Registry → List ℕ → List ℕ
graph_tag_of profiles name = elim (get_profile profiles name) [
  | some p ↦ p.graph_tag
  | none ↦ name ++ codes ".graph"
]

unfoldable pub key_id_tag_of : Registry → List ℕ → List ℕ
key_id_tag_of profiles name = elim (get_profile profiles name) [
  | some p ↦ p.key_id_tag
  | none ↦ name ++ codes ".keyid"
]
