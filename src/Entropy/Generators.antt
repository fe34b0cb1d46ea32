-- ===== src/Entropy/Generators.antt =====
-- The generators of kernel/src/common/entropy.c, one call at a time: their lock, when they take fresh
-- entropy, and what is written to the random devices.
pub mod Ready
pub mod Runs
pub mod Write
use xinix.Base.{
  ◌>>=◌, ℕ, zero, suc, ◌+◌, ◌-◌, ◌*◌, ◌/◌, ◌%◌, ◌^◌, Bool, true, false, not, Option, none, some,
  List, [], ◌∷◌, ◌++◌, ◌==◌, leb, ltb, if◌then◌else◌, bit_or, bit_xor, replicate, take, drop,
  get_or, set,
}
use xinix.Random.{RandomGenerator, Garbage, rand_ingest, rand_poll}
use xinix.Entropy.{Ring, poll_ebuf}

abbrev pub user_ticks_since_ingest : ℕ
user_ticks_since_ingest = 128

abbrev pub kernel_ticks_since_ingest : ℕ
kernel_ticks_since_ingest = 16

-- The bytes of a word in little endian
abbrev pub word_bytes : ℕ → ℕ → List ℕ
word_bytes zero v = []
word_bytes (suc n) v = v % 256 ∷ word_bytes n (v / 256)

abbrev pub xor_bytes : List ℕ → List ℕ → List ℕ
xor_bytes [] ys = []
xor_bytes (x ∷ xs) [] = x ∷ xs
xor_bytes (x ∷ xs) (y ∷ ys) = bit_xor x y ∷ xor_bytes xs ys

-- The parameters are `__rand_slow_get_entropy_backing`, on the state of the processor, and what stands
-- in memory where `rand_ingest` reads it unwritten.
module _ {S : Type 0} (backing : S → Option (List ℕ) × S) (garbage : S → Garbage) where
  -- The state of the processor, the ring of events, the context's generator with its lock, and the
  -- thread's generator
  pub record Machine : Type 0 where
    pub hidden : S
    pub ring : Ring
    pub kgen_lock : ℕ
    pub kgen : RandomGenerator
    pub urand_gen : RandomGenerator

  -- `none`: `poll_ebuf` does not end. On an error the buffer has the zeros of the backing function.
  pub rand_slow_get_entropy : Machine → Option (List ℕ × Machine)
  rand_slow_get_entropy m =
      let (val, after) = backing m.hidden in
      elim val [
        | none ↦ some (replicate 16 0, record m { hidden = after })
        | some output ↦ do
          first ← poll_ebuf m.ring
          second ← poll_ebuf first.1
          some (
            xor_bytes output (word_bytes 8 first.0 ++ word_bytes 8 second.0),
            record m { hidden = after; ring = second.1 },
          )
      ]

  -- Fresh entropy for the generator of the context or of the thread
  pub reseed_kgen : Machine → Option Machine
  reseed_kgen m = do
    (buf, n) ← rand_slow_get_entropy m
    some (record n { kgen = rand_ingest (garbage n.hidden) n.kgen buf })

  pub reseed_urand_gen : Machine → Option Machine
  reseed_urand_gen m = do
    (buf, n) ← rand_slow_get_entropy m
    some (record n { urand_gen = rand_ingest (garbage n.hidden) n.urand_gen buf })

  -- `some (none, …)` is the refusal when the lock is held.
  pub random_kglobal_gen : Machine → Option (Option (List ℕ) × Machine)
  random_kglobal_gen m =
      let locked = record m { kgen_lock = bit_or m.kgen_lock 1 } in
      let fresh =
        if leb kernel_ticks_since_ingest m.kgen.ticks_since_ingest
        then reseed_kgen locked
        else some locked in
      if not (m.kgen_lock == 0) then some (none, locked) else do
        n ← fresh
        (out, gen) ← rand_poll (garbage n.hidden) n.kgen
        some (some out, record n { kgen = gen; kgen_lock = 0 })

  -- The bytes for the thread's generator: from the context's one, or else from the slow source
  pub user_entropy : Machine → Option (List ℕ × Machine)
  user_entropy m = do
    (given, n) ← random_kglobal_gen m
    elim given [ none ↦ rand_slow_get_entropy n | some buf ↦ some (buf, n) ]

  pub reseed_user : Machine → Option Machine
  reseed_user m = do
    (buf, n) ← user_entropy m
    some (record n { urand_gen = rand_ingest (garbage n.hidden) n.urand_gen buf })

  pub random_global_gen : Machine → Option (List ℕ × Machine)
  random_global_gen m =
      let fresh =
        if leb user_ticks_since_ingest m.urand_gen.ticks_since_ingest
        then reseed_user m
        else some m in
      do
        n ← fresh
        (out, gen) ← rand_poll (garbage n.hidden) n.urand_gen
        some (out, record n { urand_gen = gen })

  pub random_global_ingest : List ℕ → Machine → Option Machine
  random_global_ingest out m =
      let fresh =
        if leb (user_ticks_since_ingest / 2) m.urand_gen.ticks_since_ingest
        then reseed_urand_gen m
        else some m in
      do n ← fresh; some (record n { urand_gen = rand_ingest (garbage n.hidden) n.urand_gen out })

  -- `none` is also the wait for a lock that no one gives back.
  pub random_kglobal_ingest : List ℕ → Machine → Option Machine
  random_kglobal_ingest out m =
      let locked = record m { kgen_lock = bit_or m.kgen_lock 1 } in
      let fresh =
        if leb (kernel_ticks_since_ingest / 2) m.kgen.ticks_since_ingest
        then reseed_kgen locked
        else some locked in
      if not (m.kgen_lock == 0) then none else do
        n ← fresh
        some (record n { kgen = rand_ingest (garbage n.hidden) n.kgen out; kgen_lock = 0 })

-- `rd_write`, with the device's ingest as a function on its state; `none` is a write outside the array
-- `rest` or an ingest that does not return. The last call is given the start of the buffer, whatever
-- was gathered in `rest`; 16 bytes from there are read.
module _ {S : Type 0} (ingest : List ℕ → S → Option S) where
  pub rd_write_blocks : ℕ → List ℕ → S → Option S
  rd_write_blocks zero rdata s = some s
  rd_write_blocks (suc blocks) rdata s = do
    after ← ingest (take 16 rdata) s
    rd_write_blocks blocks (drop 16 rdata) after

  -- The size that is returned, and the state; `buf` has the memory from the buffer on.
  pub rd_write : ℕ → List ℕ → S → Option (ℕ × S)
  rd_write sz buf s = do
    after ← rd_write_blocks (sz / 16) buf s
    last ← if ltb (sz % 16 + 1) 16 then ingest (take 16 buf) after else none
    some (sz, last)
