-- ===== src/Random.antt =====
-- The random generator of randlib/src/random.c, on the union of common/include/random.h: the state of
-- SHA-512 is the first eight words of that of SHA-3.
pub mod Outputs
mod Examples
use xinix.Base.{
  ℕ, zero, suc, ◌+◌, ◌-◌, ◌*◌, ◌/◌, ◌%◌, ◌^◌, Bool, true, false, Option, none, some, List, [], ◌∷◌,
  ◌==◌, ltb, if◌then◌else◌, get_or, u64,
}
use xinix.Keccack.{State, sha3_permute, sha3_squeeze}
use xinix.Sha2.{sha2_update}
use xinix.Sha2.Tables.{sha512_init}
use xinix.Sha2.Unchanged.{width_64}

pub record RandomGenerator : Type 0 where
  pub words : State
  pub ticks_since_ingest : ℕ

-- What stands in memory where the code reads it without having written it: the bytes of `buf`, and the
-- word behind the array of `sha2_update`
pub record Garbage : Type 0 where
  pub stack : ℕ → ℕ
  pub beyond : ℕ

-- The block of `rand_ingest`: the entropy, two bytes of padding, and what stood on the stack
pub ingest_block : Garbage → List ℕ → ℕ → ℕ
ingest_block g entropy k =
    if ltb k 16
    then get_or entropy k 0
    else if k == 17
    then 0xF8
    else if k == 127
    then 0x01
    else g.stack k

pub rand_ingest : Garbage → RandomGenerator → List ℕ → RandomGenerator
rand_ingest g gen entropy = record {
  words =
      sha3_permute
        (sha3_permute (sha2_update width_64 gen.words (ingest_block g entropy) g.beyond));
  ticks_since_ingest = 0;
}

-- `memset` of the state, and SHA512_INIT over its first words
abbrev pub initial_words : State
initial_words k = get_or sha512_init k 0

-- `rand_init` for what `rand_slow_get_entropy` gives; whether it succeeded, and the generator after
pub rand_init : Garbage → Option (List ℕ) → RandomGenerator → Bool × RandomGenerator
rand_init g none gen = (false, record gen { words = initial_words })
rand_init g (some buf) gen = (true, rand_ingest g (record gen { words = initial_words }) buf)

-- The first `n` bytes from `k` on
abbrev pub bytes_from : ℕ → ℕ → (ℕ → ℕ) → List ℕ
bytes_from zero k f = []
bytes_from (suc n) k f = f k ∷ bytes_from n (k + 1) f

-- `none` is a copy past the state.
pub rand_poll : Garbage → RandomGenerator → Option (List ℕ × RandomGenerator)
rand_poll g gen =
    elim (sha3_squeeze (sha3_permute (sha2_update width_64 gen.words (λ k. 0) g.beyond)) 128) [
      | none ↦ none
      | some (output, words) ↦ some (
        bytes_from 16 0 output,
        record { words = words; ticks_since_ingest = u64 (gen.ticks_since_ingest + 1) },
      )
    ]
