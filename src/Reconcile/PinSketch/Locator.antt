-- ===== src/Reconcile/PinSketch/Locator.antt =====
-- reconcile/pinsketch.go: the syndromes and the Berlekamp-Massey loop.
use gomatrixcrypto.Base.{
  ℕ, ◌+◌, ◌-◌, ◌*◌, ◌||◌, ◌&&◌, List, [], ◌∷◌, ◌++◌, map, Option, none, some, length, replicate,
  get_or, set, last_or, leb, ltb, ◌==◌, if◌then◌else◌,
}
use gomatrixcrypto.Base.Xor.{◌⊕◌}
use gomatrixcrypto.Reconcile.Field.{mul}
use gomatrixcrypto.Reconcile.PinSketch.{Polynomial, gf64_inv, xor_at}

-- The loop over the odd syndromes that are left: the value at 2 * index, and at 2 * index + 1 the
-- square of what already stands at index.
unfoldable pub reconstruct_loop : ℕ → List ℕ → List ℕ → List ℕ
reconstruct_loop index all [] = all
reconstruct_loop index all (value ∷ odd) =
    let placed = set all (index * 2) value in
    let power = get_or placed index 0 in
    reconstruct_loop (index + 1) (set placed (index * 2 + 1) (mul power power)) odd

unfoldable pub reconstruct_syndromes : List ℕ → List ℕ
reconstruct_syndromes odd = reconstruct_loop 0 (replicate (length odd * 2) 0) odd

-- The loop over the coefficients from index i on.
unfoldable pub discrepancy_loop : List ℕ → ℕ → ℕ → Polynomial → ℕ → ℕ
discrepancy_loop syndromes n i [] discrepancy = discrepancy
discrepancy_loop syndromes n i (coefficient ∷ current) discrepancy =
    discrepancy_loop syndromes n (i + 1) current (
      if i == 0 || ltb n i
      then discrepancy
      else discrepancy ⊕ mul (get_or syndromes (n - i) 0) coefficient)

pub record Recurrence : Type 0 where
  pub current : Polynomial
  pub previous : Polynomial
  pub previous_discrepancy : ℕ

-- The body behind the test on the discrepancy. Neither polynomial is empty, and their degrees add up
-- to n at most, so the shift is not negative.
unfoldable pub update_recurrence : ℕ → ℕ → ℕ → Recurrence → Option Recurrence
update_recurrence max_degree n discrepancy s =
    let current_degree = length s.current - 1 in
    let previous_degree = length s.previous - 1 in
    let shift = n + 1 - current_degree - previous_degree in
    let swap = leb (current_degree * 2) n in
    let new_len = length s.previous + shift in
    let extended =
      if swap && ltb (length s.current) new_len
      then s.current ++ replicate (new_len - length s.current) 0
      else s.current in
    if swap && ltb max_degree (new_len - 1) then none else elim (gf64_inv s.previous_discrepancy) [
      | none ↦ none
      | some inv ↦
          let scale = mul discrepancy inv in
          let updated = xor_at shift extended (map (λ c. mul scale c) s.previous) in
          if swap
          then some (record {
            current = updated;
            previous = s.current;
            previous_discrepancy = discrepancy;
          })
          else some (record s { current = updated })
    ]

-- The loop over the syndromes that are left, n of them being done.
unfoldable pub massey_loop : List ℕ → ℕ → ℕ → List ℕ → Recurrence → Option Recurrence
massey_loop syndromes max_degree n [] s = some s
massey_loop syndromes max_degree n (syndrome ∷ rest) s =
    let discrepancy = discrepancy_loop syndromes n 0 s.current syndrome in
    elim (if discrepancy == 0 then some s else update_recurrence max_degree n discrepancy s) [
      | none ↦ none
      | some s' ↦ massey_loop syndromes max_degree (n + 1) rest s'
    ]

unfoldable pub berlekamp_massey : List ℕ → ℕ → Option Polynomial
berlekamp_massey syndromes max_degree =
    elim (massey_loop syndromes max_degree 0 syndromes
      (record { current = 1 ∷ []; previous = 1 ∷ []; previous_discrepancy = 1 })) [
        | none ↦ none
        | some s ↦
            if length s.current == 0 || last_or s.current 0 == 0 then none else some s.current
      ]
