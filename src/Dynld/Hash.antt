-- ===== src/Dynld/Hash.antt =====
-- The hashes of names and the tables of the GNU hash, loader/include/hash.h.
pub mod Laws
use xinix.Base.{
  ℕ, ◌+◌, ◌-◌, ◌*◌, ◌/◌, ◌%◌, ◌^◌, Bool, List, [], ◌∷◌, ◌==◌, if◌then◌else◌, bit_and, bit_xor, u32,
  ◌<<<◌, ◌>>>◌,
}

-- The loop of `gnu_hash` over the bytes of the name up to its end
pub gnu_hash_from : List ℕ → ℕ → ℕ
gnu_hash_from [] h = h
gnu_hash_from (c ∷ name) h = gnu_hash_from name (u32 (u32 (u32 (h <<< 5) + h) + c))

pub gnu_hash : List ℕ → ℕ
gnu_hash name = gnu_hash_from name 5381

abbrev pub svr4_step : ℕ → ℕ → ℕ
svr4_step h c =
    let h1 = u32 (u32 (h <<< 4) + c) in
    let g = bit_and h1 0xf000_0000 in
    let h2 = if g == 0 then h1 else bit_xor h1 (g >>> 24) in bit_and h2 (2 ^ 32 - 1 - g)

pub svr4_hash_from : List ℕ → ℕ → ℕ
svr4_hash_from [] h = h
svr4_hash_from (c ∷ name) h = svr4_hash_from name (svr4_step h c)

pub svr4_hash : List ℕ → ℕ
svr4_hash name = svr4_hash_from name 0

-- `dt_gnu_hash`; the words of 32 bits behind the header are `tail`, two for each entry.
pub record GnuHash : Type 0 where
  pub nbuckets : ℕ
  pub symoffset : ℕ
  pub bloom_size : ℕ
  pub bloom_shift : ℕ
  pub tail : ℕ → ℕ

pub gnu_hash_get_bucket : GnuHash → ℕ → ℕ
gnu_hash_get_bucket h bucket = h.tail (2 * (h.bloom_size + (bucket >>> 1)) + bit_and bucket 1)

pub gnu_hash_get_chain : GnuHash → ℕ → ℕ
gnu_hash_get_chain h chain = gnu_hash_get_bucket h (u32 (chain + h.nbuckets))
