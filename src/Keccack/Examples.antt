-- ===== src/Keccack/Examples.antt =====
-- The permutation at inputs.
use xinix.Base.{◌≡◌, bit_xor, arith}
use xinix.Keccack.{State, lane, sha3_round}
use xinix.Keccack.Rounds.{round_word, sha3_round_lem}

-- Every word holds its index.
abbrev counted : State
counted k = k

sha3_round_lem_example : sha3_round 0 counted (lane 0 0) ≡ bit_xor (round_word counted 0 0) 1
sha3_round_lem_example = sha3_round_lem 0 counted 0 0 (omega arith) (omega arith) (omega arith)
