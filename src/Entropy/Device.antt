-- ===== src/Entropy/Device.antt =====
-- How much `rd_read` reads, and how much it says.
use xinix.Base.{
  ℕ, zero, suc, ◌+◌, ◌*◌, ◌/◌, ◌%◌, ◌^◌, ◌<◌, ◌≡◌, arith, true, Option, some, List, [], ◌++◌,
  length, length-append, length-take, take, ltb, u64,
}
use xinix.Entropy.{Reading, rd_read, rd_read_blocks, rd_read_rest}

module _ {S : Type 0} (gen : S → Option (List ℕ × S)) where
  -- The generator always gives 16 bytes.
  pub record GivesBlocks : Type 0 where
    pub gives :
        (s : S) → (block : List ℕ) × (s1 : S) × (gen s ≡ some (block, s1)) × (length block ≡ 16)

  rest_lem :
      GivesBlocks
      → (sz : ℕ) (d : Reading gen) → sz < 16
      → d.total_read + 16 < 2 ^ 64
      → (length (rd_read_rest gen sz d).bytes ≡ length d.bytes + sz)
        × ((rd_read_rest gen sz d).total_read ≡ d.total_read + (sz + 15) / 16 * 16)
  unfolding rd_read_rest
  rest_lem blocks zero d small fits = (omega arith, omega arith)
  rest_lem blocks (suc sz) d small fits =
      let (block, s1, e, size) = blocks.gives d.state in
      let more : ltb 0 (suc sz) ≡ true = ground arith in
      rw (e, more)
        (
          omega (
            arith,
            length-append d.bytes (take (suc sz) block),
            length-take (suc sz) block,
            size,
          ),
          omega arith,
        )

  blocks_lem :
      GivesBlocks
      → (n sz : ℕ) (d : Reading gen) → sz < 16
      → d.total_read + 16 * n + 16 < 2 ^ 64
      → (length (rd_read_blocks gen n sz d).bytes ≡ length d.bytes + 16 * n + sz)
        × ((rd_read_blocks gen n sz d).total_read ≡ d.total_read + 16 * n + (sz + 15) / 16 * 16)
  unfolding rd_read_blocks
  blocks_lem blocks zero sz d small fits =
      let (size, total) = rest_lem blocks sz d small (omega arith) in
      (omega (arith, size), omega (arith, total))
  blocks_lem blocks (suc n) sz d small fits =
      let (block, s1, e, sixteen) = blocks.gives d.state in
      let counted : u64 (d.total_read + 16) ≡ d.total_read + 16 = omega arith in
      let (size, total) =
        blocks_lem blocks n sz
          (record { total_read = u64 (d.total_read + 16); bytes = d.bytes ++ block; state = s1 })
          small (omega (arith, fits)) in
      rw (e, rd_read_blocks, length)
        (omega (arith, size, length-append d.bytes block, sixteen), omega (arith, total, counted))

  -- From a generator that always gives 16 bytes `rd_read` reads as many bytes as it was asked for, but
  -- says the next multiple of 16.
  pub rd_read_lem :
      GivesBlocks
      → (sz : ℕ) (s : S) → sz < 2 ^ 63
      → (length (rd_read gen sz s).bytes ≡ sz)
        × ((rd_read gen sz s).total_read ≡ (sz + 15) / 16 * 16)
  unfolding rd_read
  rd_read_lem blocks sz s small =
      let (size, total) =
        blocks_lem blocks (sz / 16) (sz % 16) (record { total_read = 0; bytes = []; state = s })
          (omega arith) (omega arith) in
      (omega (arith, size), omega (arith, total))
