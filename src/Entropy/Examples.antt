-- ===== src/Entropy/Examples.antt =====
-- Events and random devices at inputs.
use xinix.Base.{
  ℕ, ◌+◌, ◌<◌, ◌≡◌, ◌⊎◌, refl, arith, Option, some, List, [], ◌∷◌, ◌++◌, replicate,
  length-replicate, ◌>>=◌, take,
}
use xinix.Entropy.{Ring, total_event, push_event, poll_ebuf}
use xinix.Entropy.Events.{count, pending, IsRing, push_event_lem, poll_ebuf_lem}
use xinix.Entropy.Device.{GivesBlocks}
use xinix.Random.{Garbage}
use xinix.Entropy.Generators.{Machine, rd_write}
use xinix.Entropy.Generators.Runs.{Request, gen, kernel_gen, ingest, kernel_ingest, event}
use xinix.Entropy.Generators.Write.{pieces, ingest_all, rd_write_lem}

abbrev empty_ring : Ring
empty_ring = record { entropy_buffer = replicate 1024 0; read_head = 1023; write_head = 1023 }

empty_ring-IsRing : IsRing empty_ring
empty_ring-IsRing = record {
  whole = length-replicate {A = ℕ} 1024 0;
  read_in = omega arith;
  write_in = omega arith;
}

push_event_lem_example :
    ((count empty_ring ≡ 1023) × (push_event empty_ring 7 9 ≡ empty_ring))
    ⊎ ((count empty_ring < 1023)
        × (pending (push_event empty_ring 7 9) ≡ pending empty_ring ++ total_event 7 9 ∷ [])
        × IsRing (push_event empty_ring 7 9))
push_event_lem_example = push_event_lem empty_ring 7 9 empty_ring-IsRing

-- One event waits, at the end of the array.
abbrev one_event : Ring
one_event = record empty_ring { write_head = 0 }

one_event-IsRing : IsRing one_event
one_event-IsRing = record {
  whole = length-replicate {A = ℕ} 1024 0;
  read_in = omega arith;
  write_in = omega arith;
}

poll_ebuf_lem_example :
    ((pending one_event ≡ []) × (poll_ebuf one_event ≡ some (0, one_event)))
    ⊎ ((v : ℕ) × (r1 : Ring) × (pending one_event ≡ v ∷ pending r1)
        × (poll_ebuf one_event ≡ some (v, r1))
        × IsRing r1)
poll_ebuf_lem_example = poll_ebuf_lem one_event one_event-IsRing

-- A generator that counts its blocks
abbrev counting : ℕ → Option (List ℕ × ℕ)
counting s = some (replicate 16 s, s + 1)

counting-GivesBlocks : GivesBlocks counting
counting-GivesBlocks = record {
  gives = λ s. (replicate 16 s, s + 1, refl, length-replicate {A = ℕ} 16 s);
}

-- A processor that gives the number of the call, and memory that holds zeros
abbrev backing : ℕ → Option (List ℕ) × ℕ
backing n = (some (replicate 16 n), n + 1)

abbrev garbage : ℕ → Garbage
garbage n = record { stack = λ k. 0; beyond = 0 }

abbrev at_start : Machine backing garbage
at_start = record {
  hidden = 0;
  ring = empty_ring;
  kgen_lock = 0;
  kgen = record { words = λ k. 0; ticks_since_ingest = 16 };
  urand_gen = record { words = λ k. 0; ticks_since_ingest = 128 };
}

abbrev requests : List Request
requests =
    gen ∷ event 7 9 ∷ kernel_ingest (replicate 16 3) ∷ kernel_gen ∷ ingest (replicate 16 4) ∷ []

-- A device that keeps what it is given
abbrev keep : List ℕ → List (List ℕ) → Option (List (List ℕ))
keep block kept = some (block ∷ kept)

rd_write_lem_example : rd_write keep 20 (replicate 32 5) [] ≡ (
    ingest_all keep (pieces 1 (replicate 32 5) ++ (take 16 (replicate 32 5) ∷ [])) [] >>= λ last.
    some (20, last))
rd_write_lem_example = rd_write_lem keep 20 (replicate 32 5) []
