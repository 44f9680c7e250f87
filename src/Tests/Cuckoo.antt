-- ===== src/Tests/Cuckoo.antt =====
-- Runs of the verifier of proofs of work, on a graph of eight edges.
use gomatrixcrypto.Base.{
  ℕ, ◌≡◌, refl, List, [], ◌∷◌, none, some, replicate, get_or, take, drop, arith,
}
use gomatrixcrypto.Base.Int.{pos}
use gomatrixcrypto.Cuckoo.{
  Config, verify, normalize, filled_size, is_bad_size, has_size, is_sorted, is_sorted_from,
  endpoints_loop, is_repeated, edge_mask, edge_for_nonce, seed_words, state_of_words, edge_of,
  siphash24, sip_round,
}
use gomatrixcrypto.Cuckoo.Verify.{IsProof, verify-IsProof}
use gomatrixcrypto.Cuckoo.Cycle.{
  verify_cycle, verify_cycle_within, walk_loop, round, advance, partner_loop, xor_all, result_of,
}
use gomatrixcrypto.Base.Bytes.{get_words, get_le}
use gomatrixcrypto.Cuckoo.Cycle.Sound.{verify_cycle_within_total}

abbrev pub small_config : Config
small_config = record { edge_bits = 3; proof_size = pos 4 }

abbrev pub sixes : List ℕ
sixes = replicate 32 6

abbrev pub four_nonces : List ℕ
four_nonces = 0 ∷ 3 ∷ 4 ∷ 7 ∷ []

pub four_nonces-accepted : verify small_config sixes four_nonces ≡ none
unfolding verify normalize filled_size is_bad_size has_size is_sorted is_sorted_from endpoints_loop
    is_repeated edge_mask edge_for_nonce seed_words state_of_words edge_of siphash24 sip_round
    verify_cycle verify_cycle_within walk_loop round advance partner_loop xor_all result_of
    replicate get_words get_or get_le take drop
four_nonces-accepted = refl

verify-IsProof_example : IsProof small_config sixes four_nonces
verify-IsProof_example = verify-IsProof small_config sixes four_nonces four_nonces-accepted

abbrev square : List ℕ
square = 4 ∷ 5 ∷ 10 ∷ 1 ∷ 4 ∷ 1 ∷ 10 ∷ 5 ∷ []

verify_cycle_within_total_example : verify_cycle_within 20 square ≡ some (verify_cycle square)
verify_cycle_within_total_example = verify_cycle_within_total square 20 (omega arith)
