-- ===== src/ServerKey/Profile/Invariant.antt =====
-- serverkey/serverkey.go: the registries that the package's calls can reach.
use gomatrixcrypto.Base.{
  ℕ, ◌≤◌, ◌≡◌, refl, sym, ap, ◌∙◌, true, false, List, [], ◌∷◌, none, some, list_eq, list_eq→eq, ok,
  Option-cases, Bool-cases, inl, inr, arith,
}
use gomatrixcrypto.Base.Int.{ℤ, pos, negsuc}
use gomatrixcrypto.Cuckoo.{Config, validate, normalize, filled_size, is_bad_size}
use gomatrixcrypto.ServerKey.Profile.{
  Profile, Registry, production_profile, production_entry, initial_registry, get_profile,
  is_registered_profile, new_profile, register_profile, is_bad_length,
}

-- The registries that a sequence of successful registrations makes of the initial one.
pub data IsReachable : Registry → Type 0 where
  initial : IsReachable initial_registry
  registered :
      {profiles next : Registry} (name : List ℕ) (config : Config) (short_bytes : ℤ)
      → IsReachable profiles
      → register_profile profiles name config short_bytes ≡ ok next
      → IsReachable next

-- A profile that a proof can be verified with, and whose short identifiers are cut from 32 bytes.
pub record IsUsable (p : Profile) : Type 0 where
  pub config_ok : validate p.config ≡ none
  pub some_bytes : 1 ≤ p.short_bytes
  pub within_hash : p.short_bytes ≤ 32

new_profile-IsUsable :
    (name : List ℕ) (config : Config) (n : ℕ)
    → validate config ≡ none
    → is_bad_length (pos n) ≡ false
    → IsUsable (new_profile name config n)
unfolding new_profile
new_profile-IsUsable name config n valid fits = record {
  config_ok = valid;
  some_bytes = ground arith;
  within_hash = ground arith;
}

get_profile-same :
    (name k : List ℕ) (p : Profile) (profiles : Registry)
    → list_eq name k ≡ true
    → get_profile ((name, p) ∷ profiles) k ≡ some p
unfolding get_profile
get_profile-same name k p profiles e = rw e refl

get_profile-other :
    (name k : List ℕ) (p : Profile) (profiles : Registry)
    → list_eq name k ≡ false
    → get_profile ((name, p) ∷ profiles) k ≡ get_profile profiles k
unfolding get_profile
get_profile-other name k p profiles e = rw e refl

production_entry-IsUsable : IsUsable production_entry
production_entry-IsUsable = record {
  config_ok = unfold validate normalize filled_size is_bad_size in refl;
  some_bytes = omega arith;
  within_hash = omega arith;
}

register_profile_lem :
    (profiles : Registry) (name : List ℕ) (config : Config) (short_bytes : ℤ) {next : Registry}
    → register_profile profiles name config short_bytes ≡ ok next
    → (p : Profile) × (next ≡ (name, p) ∷ profiles)
      × (get_profile profiles name ≡ none)
      × IsUsable p
unfolding register_profile is_registered_profile
register_profile_lem profiles [] config n e = absurd (ground arith)
register_profile_lem profiles (c ∷ name) config (negsuc n) e = absurd (ground arith)
register_profile_lem profiles (c ∷ name) config (pos n) e =
    elim (Bool-cases (is_bad_length (pos n))) [
      | inl bad ↦ absurd (ground arith)
      | inr fits ↦ elim (Option-cases (validate config)) [
        | inr (x, invalid) ↦ absurd (ground arith)
        | inl valid ↦ elim (Option-cases (get_profile profiles (c ∷ name))) [
          | inr (p, there) ↦ absurd (ground arith)
          | inl fresh ↦ (
            new_profile (c ∷ name) config n,
            ground arith,
            fresh,
            new_profile-IsUsable (c ∷ name) config n valid (ground arith),
          )
        ]
      ]
    ]

-- In every registry that can be reached, the production profile is the one that the package starts with.
pub IsReachable-production_entry :
    (profiles : Registry)
    → IsReachable profiles
    → get_profile profiles production_profile ≡ some production_entry
IsReachable-production_entry _ initial = unfold get_profile list_eq in refl
IsReachable-production_entry _ (registered {profiles = before} name config n r e) =
    let (p, is, fresh, usable) = register_profile_lem before name config n e in
    let kept = IsReachable-production_entry before r in
    elim (Bool-cases (list_eq name production_profile)) [
      | inl same ↦
          let there : get_profile before name ≡ some production_entry =
            ap (get_profile before) (list_eq→eq name production_profile same) ∙ kept in
          absurd (ground arith)
      | inr other ↦ rw is (get_profile-other name production_profile p before other ∙ kept)
    ]

-- In every registry that can be reached, each profile has a valid graph configuration and short
-- identifiers of 1 to 32 bytes.
pub IsReachable-IsUsable :
    (profiles : Registry) (name : List ℕ) (p : Profile)
    → IsReachable profiles
    → get_profile profiles name ≡ some p
    → IsUsable p
IsReachable-IsUsable _ name p initial e = elim (Bool-cases (list_eq production_profile name)) [
  | inl same ↦
      let first = get_profile-same production_profile name production_entry [] same in
      let is_it : production_entry ≡ p = ground arith in rw (sym is_it) production_entry-IsUsable
  | inr other ↦
      let rest = get_profile-other production_profile name production_entry [] other in
      let nothing : get_profile [] name ≡ none = unfold get_profile in refl in absurd (ground arith)
]
IsReachable-IsUsable _ name p (registered {profiles = before} added config n r e) f =
    let (q, is, fresh, usable) = register_profile_lem before added config n e in
    let there : get_profile ((added, q) ∷ before) name ≡ some p =
      ap (λ (x : Registry). get_profile x name) (sym is) ∙ f in
    elim (Bool-cases (list_eq added name)) [
      | inl same ↦
          let is_it : q ≡ p = ground (arith, get_profile-same added name q before same) in
          rw (sym is_it) usable
      | inr other ↦
          IsReachable-IsUsable before name p r
            (sym (get_profile-other added name q before other) ∙ there)
    ]
