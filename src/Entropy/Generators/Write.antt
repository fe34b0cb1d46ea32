-- ===== src/Entropy/Generators/Write.antt =====
-- What a write to a random device passes on.
use xinix.Base.{
  ℕ, zero, suc, ◌+◌, ◌/◌, ◌%◌, ◌≡◌, refl, arith, inl, inr, true, false, Bool-cases, Option-cases,
  Option, none, some, List, [], ◌∷◌, ◌++◌, ◌>>=◌, ◌==◌, ltb, if◌then◌else◌, take, drop,
}
use xinix.Entropy.Generators.{rd_write_blocks, rd_write}

-- The first `n` pieces of 16 bytes
abbrev pub pieces : ℕ → List ℕ → List (List ℕ)
pieces zero buf = []
pieces (suc n) buf = take 16 buf ∷ pieces n (drop 16 buf)

module _ {S : Type 0} (ingest : List ℕ → S → Option S) where
  abbrev pub ingest_all : List (List ℕ) → S → Option S
  ingest_all [] s = some s
  ingest_all (block ∷ blocks) s = ingest block s >>= ingest_all blocks

  ingest_all-append :
      (xs ys : List (List ℕ)) (s : S)
      → ingest_all (xs ++ ys) s ≡ (ingest_all xs s >>= ingest_all ys)
  ingest_all-append [] ys s = refl
  ingest_all-append (x ∷ xs) ys s = elim (Option-cases (ingest x s)) [
    | inl fails ↦ rw fails refl
    | inr (after, e) ↦ rw e (ingest_all-append xs ys after)
  ]

  blocks_lem :
      (n : ℕ) (buf : List ℕ) (s : S) → rd_write_blocks ingest n buf s ≡ ingest_all (pieces n buf) s
  unfolding rd_write_blocks
  blocks_lem zero buf s = refl
  blocks_lem (suc n) buf s = elim (Option-cases (ingest (take 16 buf) s)) [
    | inl fails ↦ rw (rd_write_blocks, fails) refl
    | inr (after, e) ↦ rw (rd_write_blocks, e) (blocks_lem n (drop 16 buf) after)
  ]

  -- `rd_write` passes on the whole pieces of 16 bytes in order, and then the first 16 bytes of the buffer
  -- once more, never the bytes that are left over; with 15 bytes left over it writes outside its array
  -- after the pieces.
  pub rd_write_lem :
      (sz : ℕ) (buf : List ℕ) (s : S)
      → rd_write ingest sz buf s ≡ (
          if sz % 16 == 15
          then none
          else ingest_all (pieces (sz / 16) buf ++ (take 16 buf ∷ [])) s >>= λ last.
              some (sz, last))
  unfolding rd_write
  rd_write_lem sz buf s =
      let whole = ingest_all (pieces (sz / 16) buf) s in
      let spread = ingest_all-append (pieces (sz / 16) buf) (take 16 buf ∷ []) s in
      elim (Bool-cases (sz % 16 == 15)) [
        | inl past ↦
            let outside : ltb (sz % 16 + 1) 16 ≡ false = ground (arith, past) in
            rw (past, rd_write, outside, blocks_lem (sz / 16) buf s)
              (elim (Option-cases whole) [ inl fails ↦ rw fails refl | inr (after, e) ↦ rw e refl ])
        | inr inner ↦
            let inside : ltb (sz % 16 + 1) 16 ≡ true = ground (arith, inner) in
            rw (inner, rd_write, inside, blocks_lem (sz / 16) buf s, spread)
              (elim (Option-cases whole) [
                | inl fails ↦ rw fails refl
                | inr (after, e) ↦ rw e (elim (Option-cases (ingest (take 16 buf) after)) [
                  | inl fails ↦ rw fails refl
                  | inr (last, ends) ↦ rw ends refl
                ])
              ])
      ]
