-- ===== src/Random/Outputs.antt =====
-- What the outputs of the generator depend on.
use xinix.Base.{
  ℕ, ◌+◌, ◌*◌, ◌/◌, ◌%◌, ◌^◌, ◌≡◌, refl, ap, sym, ◌∙◌, Option, none, some, List, [], ◌∷◌, u64,
}
use xinix.Keccack.{sha3_permute, sha3_squeeze}
use xinix.Sha2.{sha2_update}
use xinix.Sha2.Unchanged.{width_64}
use xinix.Random.{RandomGenerator, Garbage, rand_ingest, rand_init, rand_poll, bytes_from}

-- A call of the generator, with what it finds in memory
pub data Call : Type 0 where
  ingest : Garbage → List ℕ → Call
  poll : Garbage → Call

-- The outputs of a sequence of calls; `none` is a copy past the state.
abbrev pub outputs : List Call → RandomGenerator → Option (List (List ℕ))
outputs [] gen = some []
outputs (ingest g entropy ∷ calls) gen = outputs calls (rand_ingest g gen entropy)
outputs (poll g ∷ calls) gen = elim (rand_poll g gen) [
  | none ↦ none
  | some (bytes, after) ↦ elim (outputs calls after) [
    | none ↦ none
    | some rest ↦ some (bytes ∷ rest)
  ]
]

-- The same calls in the same order, whatever they ingest and find in memory
abbrev pub SameCalls : List Call → List Call → Type 0
SameCalls [] [] = Unit {0}
SameCalls [] (c ∷ cs) = ⊥
SameCalls (c ∷ cs) [] = ⊥
SameCalls (ingest g e ∷ cs) (ingest g' e' ∷ ds) = SameCalls cs ds
SameCalls (ingest g e ∷ cs) (poll g' ∷ ds) = ⊥
SameCalls (poll g ∷ cs) (ingest g' e' ∷ ds) = ⊥
SameCalls (poll g ∷ cs) (poll g' ∷ ds) = SameCalls cs ds

same_ingest :
    (g g' : Garbage) (gen : RandomGenerator) (e e' : List ℕ)
    → rand_ingest g gen e ≡ rand_ingest g' gen e'
unfolding rand_ingest sha2_update
same_ingest g g' gen e e' = refl

same_poll : (g g' : Garbage) (gen : RandomGenerator) → rand_poll g gen ≡ rand_poll g' gen
unfolding rand_poll sha2_update
same_poll g g' gen = refl

-- A poll gives bytes and counts a tick; fresh entropy takes the ticks back to 0.
pub rand_poll_total :
    (g : Garbage) (gen : RandomGenerator)
    → (bytes : List ℕ) × (after : RandomGenerator) × (rand_poll g gen ≡ some (bytes, after))
      × (after.ticks_since_ingest ≡ u64 (gen.ticks_since_ingest + 1))
unfolding rand_poll sha3_squeeze
rand_poll_total g gen =
    let words = sha3_permute (sha2_update width_64 gen.words (λ k. 0) g.beyond) in
    (
      bytes_from 16 0 (λ b. words (b / 8) / 2 ^ (8 * (b % 8)) % 256),
      record { words = sha3_permute words; ticks_since_ingest = u64 (gen.ticks_since_ingest + 1) },
      refl,
      refl,
    )

pub rand_ingest-ticks :
    (g : Garbage) (gen : RandomGenerator) (entropy : List ℕ)
    → (rand_ingest g gen entropy).ticks_since_ingest ≡ 0
unfolding rand_ingest
rand_ingest-ticks g gen entropy = refl

outputs_total :
    (cs : List Call) (gen : RandomGenerator) → (outs : List (List ℕ)) × (outputs cs gen ≡ some outs)
outputs_total [] gen = ([], refl)
outputs_total (ingest g e ∷ cs) gen = outputs_total cs (rand_ingest g gen e)
outputs_total (poll g ∷ cs) gen =
    let (bytes, after, given, tick) = rand_poll_total g gen in
    let (rest, e) = outputs_total cs after in (bytes ∷ rest, rw (outputs, given, e) refl)

-- The outputs after one that was polled
go_on : List Call → Option (List ℕ × RandomGenerator) → Option (List (List ℕ))
go_on cs o = elim o [
  | none ↦ none
  | some (bytes, next) ↦ elim (outputs cs next) [ none ↦ none | some rest ↦ some (bytes ∷ rest) ]
]

go_on-same :
    (cs ds : List Call)
    → ((gen : RandomGenerator) → outputs cs gen ≡ outputs ds gen)
    → (o : Option (List ℕ × RandomGenerator)) → go_on cs o ≡ go_on ds o
unfolding go_on
go_on-same cs ds same none = refl
go_on-same cs ds same (some (bytes, next)) = rw (go_on, same next) refl

outputs_same :
    (cs ds : List Call) (gen : RandomGenerator) → SameCalls cs ds → outputs cs gen ≡ outputs ds gen
unfolding go_on
outputs_same [] [] gen same = refl
outputs_same [] (d ∷ ds) gen same = absurd same
outputs_same (c ∷ cs) [] gen same = absurd same
outputs_same (ingest g e ∷ cs) (ingest g' e' ∷ ds) gen same =
    outputs_same cs ds (rand_ingest g gen e) same ∙ ap (outputs ds) (same_ingest g g' gen e e')
outputs_same (ingest g e ∷ cs) (poll g' ∷ ds) gen same = absurd same
outputs_same (poll g ∷ cs) (ingest g' e' ∷ ds) gen same = absurd same
outputs_same (poll g ∷ cs) (poll g' ∷ ds) gen same =
    go_on-same cs ds (λ next. outputs_same cs ds next same) (rand_poll g gen)
    ∙ ap (go_on ds) (same_poll g g' gen)

-- After `rand_init` succeeded the bytes that the generator gives are always the same ones: they depend
-- only on the order of the calls, not on the entropy at the start, not on what is ingested, nor on
-- what the code finds in memory. Every poll gives its bytes.
pub rand_outputs_lem :
    (g g' : Garbage) (seed seed' : List ℕ) (gen gen' : RandomGenerator) (cs ds : List Call)
    → SameCalls cs ds
    → (outs : List (List ℕ)) × (outputs cs (rand_init g (some seed) gen).1 ≡ some outs)
      × (outputs ds (rand_init g' (some seed') gen').1 ≡ some outs)
unfolding rand_init rand_ingest sha2_update
rand_outputs_lem g g' seed seed' gen gen' cs ds same =
    let (outs, e) = outputs_total cs (rand_init g (some seed) gen).1 in
    (outs, e, sym (outputs_same cs ds (rand_init g' (some seed') gen').1 same) ∙ e)
