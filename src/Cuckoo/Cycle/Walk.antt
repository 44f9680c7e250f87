-- ===== src/Cuckoo/Cycle/Walk.antt =====
-- cuckoo/cuckoo.go: the positions that the walk visits.
use gomatrixcrypto.Base.{
  ℕ, zero, suc, ◌+◌, ◌*◌, ◌/◌, ◌%◌, ◌≤◌, ◌<◌, ◌≡◌, ◌≢◌, refl, sym, ◌∙◌, List, Option, none, some,
  length, inl, inr, arith,
}
use gomatrixcrypto.Cuckoo.Cycle.{advance, flip}
use gomatrixcrypto.Cuckoo.Cycle.Partner.{
  Partner, Partner-sym, Partner-functional, advance_lem, eq_cases,
}

abbrev or_zero : Option ℕ → ℕ
or_zero none = 0
or_zero (some j) = j

-- Where the walk stands after k half rounds.
pub position : List ℕ → ℕ → ℕ
position uvs zero = 0
position uvs (suc k) = or_zero (advance uvs (k % 2) (position uvs k))

pub position-zero : (uvs : List ℕ) → position uvs 0 ≡ 0
unfolding position
position-zero uvs = refl

pub position-suc :
    (uvs : List ℕ) (k : ℕ) {j : ℕ}
    → advance uvs (k % 2) (position uvs k) ≡ some j
    → position uvs (suc k) ≡ j
unfolding position
position-suc uvs k e = rw e refl

-- The half round behind k half rounds succeeds.
abbrev pub Succeeds : List ℕ → ℕ → Type 0
Succeeds uvs k = advance uvs (k % 2) (position uvs k) ≡ some (position uvs (suc k))

flip_lem : (j : ℕ) → (flip j % 2 ≡ (j + 1) % 2) × (flip j / 2 ≡ j / 2) × (flip (flip j) ≡ j)
flip_lem j = ground arith

turn : {a b : ℕ} → a ≡ flip b → b ≡ flip a
turn {a} {b} e = rw e (sym (flip_lem b).2)

-- A walk of n half rounds that has not come back.
module _ (uvs : List ℕ) (some_edge : 0 < length uvs / 2) (n : ℕ)
    (ran : (k : ℕ) → k < n → Succeeds uvs k) where
  pub Partner-position :
      (k : ℕ) → k < n → Partner uvs (k % 2) (position uvs k) (flip (position uvs (suc k)))
  Partner-position k lt =
      let (p, partner, e) = advance_lem uvs (k % 2) (position uvs k) (omega arith) (ran k lt) in
      let back : flip (position uvs (suc k)) ≡ p = rw e (flip_lem p).2 in rw back partner

  pub position_bounds :
      (k : ℕ) → k ≤ n → (position uvs k % 2 ≡ k % 2) × (position uvs k < length uvs / 2 * 2)
  position_bounds zero le = (unfold position in omega arith, unfold position in omega arith)
  position_bounds (suc k) le =
      let partner = Partner-position k le in
      let x = flip_lem (position uvs (suc k)) in
      (omega (arith, partner.on_side, x), omega (arith, partner.within, x))

  position-back :
      (k : ℕ) → k < n → Partner uvs (k % 2) (flip (position uvs (suc k))) (position uvs k)
  position-back k lt =
      let (side, within) = position_bounds k (omega arith) in
      Partner-sym side within (Partner-position k lt)

  module _ (fresh : (k : ℕ) → 0 < k → k < n → position uvs k ≢ 0) where
    -- No position is visited twice.
    pub position-injective : (k l : ℕ) → k < l → l < n → position uvs k ≢ position uvs l
    position-injective zero l lt le e = absurd (fresh l lt le (sym e ∙ position-zero uvs))
    position-injective k zero lt le e = absurd (omega arith)
    position-injective (suc k) (suc l) lt le e =
        let below : k < n = omega arith in
        let under : l < n = omega arith in
        let parity : l % 2 ≡ k % 2 =
          omega (arith, (position_bounds (suc k) below).0, (position_bounds (suc l) under).0, e) in
        let back : Partner uvs (k % 2) (flip (position uvs (suc k))) (position uvs k) =
          position-back k below in
        let back' : Partner uvs (k % 2) (flip (position uvs (suc k))) (position uvs l) =
          rw (parity, sym e) at (position-back l under) in
        position-injective k l (omega arith) (omega arith) (Partner-functional back back')

    -- Nor is the other end of a position.
    pub flipped_fresh : (k l : ℕ) → l < k → k < n → position uvs l ≢ flip (position uvs k)
    flipped_fresh zero l lt le e = absurd (omega arith)
    flipped_fresh (suc k) l lt le e =
        let below : k < n = omega arith in
        let side = (position_bounds (suc k) below).0 in
        let partner = Partner-position k below in
        let parity : l % 2 ≡ k % 2 =
          omega (arith, (position_bounds l (omega arith)).0, e, partner.on_side) in
        elim (eq_cases l k) [
          | inl here ↦ absurd (partner.differs (rw here at (sym e)))
          | inr apart ↦
              let back : Partner uvs (k % 2) (position uvs l) (position uvs k) =
                rw (← e) at (position-back k below) in
              let forth : Partner uvs (k % 2) (position uvs l) (flip (position uvs (suc l))) =
                rw parity at (Partner-position l (omega arith)) in
              let met : position uvs k ≡ flip (position uvs (suc l)) =
                Partner-functional back forth in
              flipped_fresh k (suc l) (omega arith) (omega arith) (turn met)
        ]
