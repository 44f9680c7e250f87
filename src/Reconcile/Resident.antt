-- ===== src/Reconcile/Resident.antt =====
-- reconcile/resident.go: the state kept for one population, the level-0 accumulator and the strata of
-- the difference estimator.
pub mod Laws
use gomatrixcrypto.Base.{
  ℕ, zero, suc, ◌+◌, ◌≡◌, Bool, true, false, List, [], ◌∷◌, Option, none, some, replicate, leb, ltb,
  ◌==◌, if◌then◌else◌, Error, zero_short_identifier,
}
use gomatrixcrypto.Reconcile.Field.{mul}
use gomatrixcrypto.Reconcile.Element.{ElementHash}
use gomatrixcrypto.Reconcile.Accumulator
use gomatrixcrypto.Reconcile.Accumulator.{RoomAccumulator, new_room_accumulator}
use gomatrixcrypto.Reconcile.Sketch.{toggle_loop}
use gomatrixcrypto.Reconcile.PinSketch.Quadratic.{trailing_zeros}

abbrev pub strata_count : ℕ
strata_count = 32

abbrev pub stratum_capacity : ℕ
stratum_capacity = 8

pub record ResidentKernel : Type 0 where
  pub accumulator : RoomAccumulator
  pub strata : List (List ℕ)

unfoldable pub new_resident_kernel : ResidentKernel
new_resident_kernel = record {
  accumulator = new_room_accumulator;
  strata = replicate strata_count (replicate stratum_capacity 0);
}

unfoldable pub stratum_of : ℕ → ℕ
stratum_of value =
    let index = trailing_zeros 64 value in if leb strata_count index then 31 else index

-- The odd powers are added to one stratum: the loop is that of `Toggle`.
unfoldable pub toggle_at : ℕ → ℕ → List (List ℕ) → List (List ℕ)
toggle_at index value [] = []
toggle_at zero value (stratum ∷ strata) = toggle_loop (mul value value) value stratum ∷ strata
toggle_at (suc index) value (stratum ∷ strata) = stratum ∷ toggle_at index value strata

unfoldable pub toggle_stratum : List (List ℕ) → ℕ → List (List ℕ)
toggle_stratum strata value = toggle_at (stratum_of value) value strata

-- What is left to do behind the accumulator's own update, which has taken place: an error ends the
-- call, otherwise the stratum is toggled.
unfoldable pub update_strata :
    ResidentKernel → ℕ → RoomAccumulator × Option Error → ResidentKernel × Option Error
update_strata r value (accumulator, some e) = (record r { accumulator = accumulator }, some e)
update_strata r value (accumulator, none) =
    (record { accumulator = accumulator; strata = toggle_stratum r.strata value }, none)

unfoldable pub insert : ResidentKernel → ElementHash → ResidentKernel × Option Error
insert r hash =
    if hash.h64 == 0
    then (r, some zero_short_identifier)
    else update_strata r hash.h64 (Accumulator.insert r.accumulator hash)

unfoldable pub remove : ResidentKernel → ElementHash → ResidentKernel × Option Error
remove r hash =
    if hash.h64 == 0
    then (r, some zero_short_identifier)
    else update_strata r hash.h64 (Accumulator.remove r.accumulator hash)
