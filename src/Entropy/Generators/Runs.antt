-- ===== src/Entropy/Generators/Runs.antt =====
-- Any sequence of calls of the generators and events.
use xinix.Base.{ℕ, suc, ◌+◌, Option, none, some, List, [], ◌∷◌, ◌++◌, ◌>>=◌}
use xinix.Random.{Garbage}
use xinix.Entropy.{push_event}
use xinix.Entropy.Generators.{
  Machine, random_kglobal_gen, random_global_gen, random_global_ingest, random_kglobal_ingest,
}
use xinix.Entropy.Generators.Ready.{kept, kernel_ticks}

-- A call of one of the four functions, or an event with its time
pub data Request : Type 0 where
  gen kernel_gen : Request
  ingest kernel_ingest : List ℕ → Request
  event : ℕ → ℕ → Request

-- How many of the requests ask for bytes
abbrev pub asked : List Request → ℕ
asked [] = 0
asked (gen ∷ rs) = suc (asked rs)
asked (kernel_gen ∷ rs) = suc (asked rs)
asked (ingest bytes ∷ rs) = asked rs
asked (kernel_ingest bytes ∷ rs) = asked rs
asked (event e time ∷ rs) = asked rs

-- How often the generators of the context and of the thread were polled since they took entropy, after
-- a request: a poll counts, after the entropy that is taken at 16 and at 128 polls, for the thread's
-- generator from the context's one; what is ingested starts the count again.
abbrev pub counts : Request → ℕ × ℕ → ℕ × ℕ
counts gen (kernel, user) = (kernel_ticks kernel user, kept 128 user + 1)
counts kernel_gen (kernel, user) = (kept 16 kernel + 1, user)
counts (ingest bytes) (kernel, user) = (kernel, 0)
counts (kernel_ingest bytes) (kernel, user) = (0, user)
counts (event e time) (kernel, user) = (kernel, user)

abbrev pub counts_after : List Request → ℕ × ℕ → ℕ × ℕ
counts_after [] ticks = ticks
counts_after (r ∷ rs) ticks = counts_after rs (counts r ticks)

module _ {S : Type 0} (backing : S → Option (List ℕ) × S) (garbage : S → Garbage) where
  abbrev pub Blocks : Type 0
  Blocks = List (List ℕ) × Machine backing garbage

  -- The blocks that a request gives out, and the state after it
  abbrev pub answer : Request → Machine backing garbage → Option Blocks
  answer gen m = random_global_gen backing garbage m >>= λ r. some (r.0 ∷ [], r.1)
  answer kernel_gen m = random_kglobal_gen backing garbage m >>= λ r.
      some (elim r.0 [ none ↦ [] | some out ↦ out ∷ [] ], r.1)
  answer (ingest bytes) m = random_global_ingest backing garbage bytes m >>= λ n. some ([], n)
  answer (kernel_ingest bytes) m =
      random_kglobal_ingest backing garbage bytes m >>= λ n. some ([], n)
  answer (event e time) m = some ([], record m { ring = push_event m.ring e time })

  abbrev pub run : List Request → Machine backing garbage → Option Blocks
  run [] m = some ([], m)
  run (r ∷ rs) m =
      answer r m >>= λ first. run rs first.1 >>= λ rest. some (first.0 ++ rest.0, rest.1)

  abbrev pub ticks_of : Machine backing garbage → ℕ × ℕ
  ticks_of m = (m.kgen.ticks_since_ingest, m.urand_gen.ticks_since_ingest)
