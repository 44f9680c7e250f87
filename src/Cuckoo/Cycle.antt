-- ===== src/Cuckoo/Cycle.antt =====
-- cuckoo/cuckoo.go: the walk that checks that tagged endpoints form one cycle. Edge e has its endpoints
-- at 2 * e and 2 * e + 1.
pub mod Partner
pub mod Walk
pub mod Sound
use gomatrixcrypto.Base.{
  ℕ, zero, suc, ◌+◌, ◌-◌, ◌*◌, ◌/◌, ◌%◌, ◌^◌, ◌≡◌, Bool, true, false, ◌&&◌, not, List, [], ◌∷◌,
  Option, none, some, length, get_or, ltb, ◌==◌, if◌then◌else◌, Error, invalid_proof,
}
use gomatrixcrypto.Base.Xor.{◌⊕◌}

unfoldable pub xor_all : ℕ → List ℕ → ℕ
xor_all acc [] = acc
xor_all acc (endpoint ∷ uvs) = xor_all (acc ⊕ endpoint) uvs

-- `j ^ 1`: the other endpoint of the edge.
abbrev pub flip : ℕ → ℕ
flip j = if j % 2 == 0 then j + 1 else j - 1

-- The loop over k, k + 2, …, of which `rounds` are left; `none` is a second match.
unfoldable pub partner_loop : List ℕ → ℕ → ℕ → ℕ → ℕ → Option ℕ
partner_loop uvs i zero k j = some j
partner_loop uvs i (suc rounds) k j = elim (not (k == i) && (get_or uvs k 0 == get_or uvs i 0)) [
  | false ↦ partner_loop uvs i rounds (k + 2) j
  | true ↦ if j == i then partner_loop uvs i rounds (k + 2) k else none
]

-- One half of a round, on the side of `first`: the other endpoint of the one edge that shares the
-- endpoint at i; `none` is an error.
unfoldable pub advance : List ℕ → ℕ → ℕ → Option ℕ
advance uvs first i = elim (partner_loop uvs i (length uvs / 2) first i) [
  | none ↦ none
  | some j ↦ if j == i then none else some (flip j)
]

-- Both halves of a round.
unfoldable pub round : List ℕ → ℕ → Option ℕ
round uvs i = elim (advance uvs 0 i) [ none ↦ none | some j ↦ advance uvs 1 j ]

-- `for { … }`, over (i, n); the outer `none` is fuel that has run out.
unfoldable pub walk_loop : ℕ → List ℕ → ℕ → ℕ → Option (Option Error)
walk_loop zero uvs i n = none
walk_loop (suc fuel) uvs i n = elim (round uvs i) [
  | none ↦ some (some invalid_proof)
  | some zero ↦ some (if n + 2 == length uvs / 2 then none else some invalid_proof)
  | some (suc i') ↦ walk_loop fuel uvs (suc i') (n + 2)
]

-- A walk that goes on for ever is kept apart from the errors: fuel for each endpoint is enough.
unfoldable pub verify_cycle_within : ℕ → List ℕ → Option (Option Error)
verify_cycle_within fuel uvs =
    if xor_all 0 uvs == 0 then walk_loop fuel uvs 0 0 else some (some invalid_proof)

-- What the loop returns; the second equation stands for no run.
unfoldable pub result_of : Option (Option Error) → Option Error
result_of (some result) = result
result_of none = some invalid_proof

unfoldable pub verify_cycle : List ℕ → Option Error
verify_cycle uvs = result_of (verify_cycle_within (suc (length uvs)) uvs)
