-- ===== src/Random/Examples.antt =====
-- Two generators at inputs.
use xinix.Base.{ℕ, ◌+◌, ◌≡◌, some, List, [], ◌∷◌, replicate}
use xinix.Random.{RandomGenerator, Garbage, rand_init}
use xinix.Random.Outputs.{Call, ingest, poll, outputs, rand_outputs_lem}

abbrev clean : Garbage
clean = record { stack = λ k. 0; beyond = 0 }

abbrev dirty : Garbage
dirty = record { stack = λ k. k + 1; beyond = 77 }

abbrev fresh : RandomGenerator
fresh = record { words = λ k. 0; ticks_since_ingest = 0 }

abbrev zeros : List ℕ
zeros = replicate 16 0

abbrev ones : List ℕ
ones = replicate 16 1

abbrev calls : Garbage → List ℕ → List Call
calls g entropy = poll g ∷ ingest g entropy ∷ poll g ∷ []

rand_outputs_lem_example :
    (outs : List (List ℕ)) × (outputs (calls clean zeros) (rand_init clean (some zeros) fresh).1
      ≡ some outs)
    × (outputs (calls dirty ones) (rand_init dirty (some ones) fresh).1 ≡ some outs)
rand_outputs_lem_example =
    rand_outputs_lem clean dirty zeros ones fresh fresh (calls clean zeros) (calls dirty ones) tt
