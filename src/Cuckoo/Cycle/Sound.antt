-- ===== src/Cuckoo/Cycle/Sound.antt =====
-- cuckoo/cuckoo.go: the walk of verifyCycle ends, and what it accepts is one cycle.
use gomatrixcrypto.Base.{
  ℕ, zero, suc, ◌+◌, ◌*◌, ◌/◌, ◌%◌, ◌≤◌, ◌<◌, ◌≡◌, ◌≢◌, refl, Bool, true, false, List, Option, none,
  some, length, ◌==◌, Bool-cases, Option-cases, inl, inr, if◌then◌else◌, arith, Error,
  invalid_proof,
}
use gomatrixcrypto.Base.Pigeonhole.{pigeonhole}
use gomatrixcrypto.Cuckoo.Cycle.{
  advance, flip, round, walk_loop, xor_all, verify_cycle_within, result_of, verify_cycle,
}
use gomatrixcrypto.Cuckoo.Cycle.Partner.{Partner, eq_cases, advance_lem}
use gomatrixcrypto.Cuckoo.Cycle.Walk.{
  position, position-zero, position-suc, Succeeds, position_bounds, position-injective,
  flipped_fresh, Partner-position,
}

-- An order of all m edges, from edge 0 and back to it, where each edge shares with the next one an
-- endpoint that no third edge has, on one side of the graph and the other by turns.
pub record IsCycle (uvs : List ℕ) (order : ℕ → ℕ) : Type 0 where
  pub starts : order 0 ≡ 0
  pub closes : order (length uvs / 2) ≡ 0
  pub on_edges : (k : ℕ) → k < length uvs / 2 → order k / 2 < length uvs / 2
  pub meets : (k : ℕ) → k < length uvs / 2 → Partner uvs (k % 2) (order k) (flip (order (suc k)))
  pub distinct : (k l : ℕ) → k < l → l < length uvs / 2 → order k / 2 ≢ order l / 2

-- The half rounds from n up to stop succeed, and none before stop comes back to edge 0.
record Ran (uvs : List ℕ) (n stop : ℕ) : Type 0 where
  steps : (k : ℕ) → n ≤ k → k < stop → Succeeds uvs k
  fresh : (k : ℕ) → n < k → k < stop → k % 2 ≡ 0 → position uvs k ≢ 0

-- Both halves of a round that succeeds.
round_lem :
    (uvs : List ℕ) (n : ℕ) {i : ℕ}
    → n % 2 ≡ 0
    → round uvs (position uvs n) ≡ some i
    → Succeeds uvs n × Succeeds uvs (suc n) × (position uvs (suc (suc n)) ≡ i)
unfolding round
round_lem uvs n {i} even e =
    let odd : suc n % 2 ≡ 1 = omega arith in
    elim (Option-cases (advance uvs 0 (position uvs n))) [
      | inl fails ↦ absurd (cc (rw (fails, round) at e))
      | inr (j, first) ↦
          let stepped : advance uvs (n % 2) (position uvs n) ≡ some j = rw even first in
          let at_j : position uvs (suc n) ≡ j = position-suc uvs n stepped in
          let second : advance uvs 1 j ≡ some i = rw (first, round) at e in
          let stepped' : advance uvs (suc n % 2) (position uvs (suc n)) ≡ some i =
            rw (odd, at_j) second in
          let at_i : position uvs (suc (suc n)) ≡ i = position-suc uvs (suc n) stepped' in
          (rw at_j stepped, rw at_i stepped', at_i)
    ]

Ran-nil : (uvs : List ℕ) (n : ℕ) → Ran uvs n n
Ran-nil uvs n = record {
  steps = λ k le lt. absurd (omega arith);
  fresh = λ k lt lt' e. absurd (omega arith);
}

module _ (uvs : List ℕ) (n : ℕ) (even : n % 2 ≡ 0) (first : Succeeds uvs n)
    (second : Succeeds uvs (suc n)) where
  step_cases :
      (stop : ℕ)
      → ((k : ℕ) → suc (suc n) ≤ k → k < stop → Succeeds uvs k)
      → (k : ℕ) → n ≤ k
      → k < stop
      → Succeeds uvs k
  step_cases stop steps k le lt = elim (eq_cases k n) [
    | inl e ↦ rw e first
    | inr ne ↦ elim (eq_cases k (suc n)) [
      | inl e ↦ rw e second
      | inr ne' ↦ steps k (omega arith) lt
    ]
  ]

  Ran-round : Ran uvs n (suc (suc n))
  Ran-round = record {
    steps = step_cases (suc (suc n)) (λ k le lt. absurd (omega arith));
    fresh = λ k lt lt' e. absurd (omega arith);
  }

  Ran-suc :
      (stop : ℕ) → position uvs (suc (suc n)) ≢ 0 → Ran uvs (suc (suc n)) stop → Ran uvs n stop
  Ran-suc stop ne ran = record {
    steps = step_cases stop ran.steps;
    fresh = λ k lt lt' e. elim (eq_cases k (suc (suc n))) [
      | inl here ↦ rw here ne
      | inr later ↦ ran.fresh k (omega arith) lt' e
    ];
  }

-- A run that accepts has come back to edge 0 behind as many half rounds as there are edges.
walk_loop_accepts :
    (fuel : ℕ) (uvs : List ℕ) (n : ℕ)
    → n % 2 ≡ 0
    → walk_loop fuel uvs (position uvs n) n ≡ some none
    → Ran uvs n (length uvs / 2)
      × (position uvs (length uvs / 2) ≡ 0)
      × (length uvs / 2 % 2 ≡ 0)
      × (n < length uvs / 2)
unfolding walk_loop
walk_loop_accepts zero uvs n even e = absurd (ground arith)
walk_loop_accepts (suc fuel) uvs n even e = elim (Option-cases (round uvs (position uvs n))) [
  | inl fails ↦ absurd (ground arith)
  | inr (zero, r) ↦
      let (first, second, home) = round_lem uvs n even r in
      let total : suc (suc n) ≡ length uvs / 2 = ground arith in
      rw (← total) (Ran-round uvs n even first second, home, omega arith, omega arith)
  | inr (suc i, r) ↦
      let (first, second, at_i) = round_lem uvs n even r in
      let next : n + 2 ≡ suc (suc n) = omega arith in
      let rest : walk_loop fuel uvs (position uvs (suc (suc n))) (suc (suc n)) ≡ some none =
        rw (at_i, ← next) (rw (r, walk_loop) at e) in
      let (ran, home, whole, lt) = walk_loop_accepts fuel uvs (suc (suc n)) (omega arith) rest in
      let away : position uvs (suc (suc n)) ≢ 0 = λ z. absurd (omega (arith, at_i, z)) in
      (Ran-suc uvs n even first second _ away ran, home, whole, omega arith)
]

-- A run that uses up its fuel has gone on all the time.
walk_loop_runs :
    (fuel : ℕ) (uvs : List ℕ) (n : ℕ)
    → n % 2 ≡ 0
    → walk_loop fuel uvs (position uvs n) n ≡ none
    → Ran uvs n (n + fuel * 2)
unfolding walk_loop
walk_loop_runs zero uvs n even e = let z : n + 0 * 2 ≡ n = omega arith in rw z (Ran-nil uvs n)
walk_loop_runs (suc fuel) uvs n even e = elim (Option-cases (round uvs (position uvs n))) [
  | inl fails ↦ absurd (ground arith)
  | inr (zero, r) ↦ absurd (ground arith)
  | inr (suc i, r) ↦
      let (first, second, at_i) = round_lem uvs n even r in
      let next : n + 2 ≡ suc (suc n) = omega arith in
      let rest : walk_loop fuel uvs (position uvs (suc (suc n))) (suc (suc n)) ≡ none =
        rw (at_i, ← next) (rw (r, walk_loop) at e) in
      let total : n + suc fuel * 2 ≡ suc (suc n) + fuel * 2 = omega arith in
      let away : position uvs (suc (suc n)) ≢ 0 = λ z. absurd (omega (arith, at_i, z)) in
      rw total (
        Ran-suc uvs n even first second _ away
          (walk_loop_runs fuel uvs (suc (suc n)) (omega arith) rest))
]

-- A run from the start, with the facts about its positions.
module _ (uvs : List ℕ) (some_edge : 0 < length uvs / 2) (stop : ℕ) (ran : Ran uvs 0 stop) where
  all_steps : (k : ℕ) → k < stop → Succeeds uvs k
  all_steps k lt = ran.steps k (omega arith) lt

  all_fresh : (k : ℕ) → 0 < k → k < stop → position uvs k ≢ 0
  all_fresh k pos lt e =
      let (parity, _) = position_bounds uvs some_edge stop all_steps k (omega arith) in
      absurd (ran.fresh k pos lt (omega (arith, parity, e)) e)

  edges_distinct : (k l : ℕ) → k < l → l < stop → position uvs k / 2 ≢ position uvs l / 2
  edges_distinct k l lt le e =
      let same = position-injective uvs some_edge stop all_steps all_fresh k l lt le in
      let crossed = flipped_fresh uvs some_edge stop all_steps all_fresh l k lt le in
      absurd (ground arith)

  edges_within : (k : ℕ) → k < stop → position uvs k / 2 < length uvs / 2
  edges_within k lt =
      let (_, within) = position_bounds uvs some_edge stop all_steps k (omega arith) in omega arith

  stops : stop ≤ length uvs / 2
  stops = pigeonhole (length uvs / 2) stop (λ k. position uvs k / 2) edges_within edges_distinct

-- A run that does not use up its fuel is the same on more.
walk_loop_more :
    (f g : ℕ) (uvs : List ℕ) (i n : ℕ) {result : Option Error}
    → f ≤ g
    → walk_loop f uvs i n ≡ some result
    → walk_loop g uvs i n ≡ some result
unfolding walk_loop
walk_loop_more zero g uvs i n le e = absurd (ground arith)
walk_loop_more (suc f) zero uvs i n le e = absurd (omega arith)
walk_loop_more (suc f) (suc g) uvs i n le e = elim (Option-cases (round uvs i)) [
  | inl fails ↦ rw (fails, walk_loop) (rw (fails, walk_loop) at e)
  | inr (zero, r) ↦ rw (r, walk_loop) (rw (r, walk_loop) at e)
  | inr (suc j, r) ↦
      rw (r, walk_loop)
        (walk_loop_more f g uvs (suc j) (n + 2) (omega arith) (rw (r, walk_loop) at e))
]

-- A first half round that succeeds has found an edge.
some_edge_of : (uvs : List ℕ) → Succeeds uvs 0 → 0 < length uvs / 2
some_edge_of uvs first =
    let (p, partner, _) = advance_lem uvs (0 % 2) (position uvs 0) (omega arith) first in
    omega (arith, partner.within)

walk_loop_ends : (fuel : ℕ) (uvs : List ℕ) → length uvs < fuel → walk_loop fuel uvs 0 0 ≢ none
walk_loop_ends fuel uvs enough e =
    let ran = walk_loop_runs fuel uvs 0 (omega arith) (rw (position-zero uvs) e) in
    let some_edge = some_edge_of uvs (ran.steps 0 (omega arith) (omega arith)) in
    absurd (omega (arith, stops uvs some_edge (0 + fuel * 2) ran))

-- Whatever the endpoints, the walk ends by its own tests, and no fuel beyond that of verifyCycle changes
-- what it returns.
pub verify_cycle_within_total :
    (uvs : List ℕ) (fuel : ℕ)
    → length uvs < fuel
    → verify_cycle_within fuel uvs ≡ some (verify_cycle uvs)
unfolding verify_cycle verify_cycle_within result_of
verify_cycle_within_total uvs fuel enough = elim (Bool-cases (xor_all 0 uvs == 0)) [
  | inr odd ↦ rw odd refl
  | inl balanced ↦ elim (Option-cases (walk_loop (suc (length uvs)) uvs 0 0)) [
    | inl out ↦ absurd (walk_loop_ends (suc (length uvs)) uvs (omega arith) out)
    | inr (result, e) ↦
        let more = walk_loop_more (suc (length uvs)) fuel uvs 0 0 (omega arith) e in
        rw (balanced, e) more
  ]
]

accepted_walk :
    (balanced : Bool) {walk : Option (Option Error)}
    → result_of (if balanced then walk else some (some invalid_proof)) ≡ none
    → walk ≡ some none
unfolding result_of
accepted_walk true {walk} e = elim (Option-cases walk) [
  | inl out ↦ absurd (ground arith)
  | inr (result, found) ↦ ground arith
]
accepted_walk false e = absurd (ground arith)

-- What the walk accepts is one cycle through all the edges.
pub verify_cycle-IsCycle :
    (uvs : List ℕ) → verify_cycle uvs ≡ none → (order : ℕ → ℕ) × IsCycle uvs order
unfolding verify_cycle verify_cycle_within result_of
verify_cycle-IsCycle uvs e =
    let walked : walk_loop (suc (length uvs)) uvs (position uvs 0) 0 ≡ some none =
      rw (position-zero uvs) (accepted_walk (xor_all 0 uvs == 0) e) in
    let (ran, home, even, some_edge) =
      walk_loop_accepts (suc (length uvs)) uvs 0 (omega arith) walked in
    let m : ℕ = length uvs / 2 in
    (
      position uvs,
      record {
        starts = position-zero uvs;
        closes = home;
        on_edges = edges_within uvs some_edge m ran;
        meets = Partner-position uvs some_edge m (all_steps uvs some_edge m ran);
        distinct = edges_distinct uvs some_edge m ran;
      },
    )
