-- ===== src/Elf/Place.antt =====
-- Where the second loop of `loader_map_elf` puts the segments.
use xinix.Base.{
  ℕ, ◌+◌, ◌-◌, ◌*◌, ◌/◌, ◌%◌, ◌^◌, ◌≤◌, ◌<◌, ◌≡◌, ◌⊎◌, inl, inr, refl, ◌∙◌, arith, Bool-cases, Bool,
  false, ◌&&◌, ◌||◌, List, [], ◌∷◌, ◌==◌, if◌then◌else◌, bit_and, u64,
}
use xinix.Base.Bits.{bit_and_low, bit_and_clear}
use xinix.Bytes.{Memory, memcpy}
use xinix.Bytes.Copy.{inside, moved, memcpy_lem}
use xinix.Elf.{Phdr, pt_load, map_segments, copy_target, base_rpa, Protection}

-- The segment is loaded over the address.
abbrev pub covers : ℕ → Phdr → ℕ → Bool
covers root p a = p.p_type == pt_load && inside (root + p.p_paddr) p.p_filesz a

pub covered : ℕ → List Phdr → ℕ → Bool
covered root [] a = false
covered root (p ∷ ps) a = covers root p a || covered root ps a

-- The memory with each loaded segment's bytes of the file at its place; where segments overlap, the
-- last one counts.
pub image_at : ℕ → ℕ → List Phdr → Memory → Memory
image_at e_hdr root [] m a = m a
image_at e_hdr root (p ∷ ps) m a =
    let later = image_at e_hdr root ps m a in
    if covered root ps a
    then later
    else if covers root p a
    then m (e_hdr + p.p_offset + (a - (root + p.p_paddr)))
    else m a

-- Each loaded segment lies in a file of `file_size` bytes at `e_hdr`, its place is apart from the file,
-- and no address wraps.
unfoldable pub Placed : (e_hdr file_size root : ℕ) → List Phdr → Type 0
Placed e_hdr file_size root [] = Unit
Placed e_hdr file_size root (p ∷ ps) =
    (p.p_type ≡ pt_load
      → (p.p_offset + p.p_filesz ≤ file_size)
        × (root + p.p_paddr + p.p_filesz < 2 ^ 64)
        × ((root + p.p_paddr + p.p_filesz ≤ e_hdr) ⊎ (e_hdr + file_size ≤ root + p.p_paddr)))
    × Placed e_hdr file_size root ps

-- The page and the offset in it add up to the address.
copy_target_lem :
    (root : ℕ) (p : Phdr) → root + p.p_paddr < 2 ^ 64 → copy_target root p ≡ root + p.p_paddr
copy_target_lem root p fits =
    let page : base_rpa p ≡ p.p_paddr / 4096 * 4096 = bit_and_clear 12 52 p.p_paddr (omega arith) in
    let rest : bit_and p.p_paddr 4095 ≡ p.p_paddr % 4096 = bit_and_low 12 p.p_paddr in
    omega (arith, page, rest)

-- Memories that agree on the file give the same image over the segments.
image_at-agree :
    (e_hdr file_size root : ℕ) (ps : List Phdr) (m m1 : Memory)
    → Placed e_hdr file_size root ps
    → ((a : ℕ) → e_hdr ≤ a → a < e_hdr + file_size → m1 a ≡ m a)
    → (a : ℕ)
    → image_at e_hdr root ps m1 a ≡ (if covered root ps a then image_at e_hdr root ps m a else m1 a)
unfolding image_at covered Placed
image_at-agree e_hdr file_size root [] m m1 placed agree a = refl
image_at-agree e_hdr file_size root (p ∷ ps) m m1 (here, placed) agree a =
    elim (Bool-cases (covered root ps a)) [
      | inl later ↦
          ground (arith, later, image_at-agree e_hdr file_size root ps m m1 placed agree a)
      | inr last ↦ elim (Bool-cases (covers root p a)) [
        | inl hit ↦
            let loads : p.p_type ≡ pt_load = ground (arith, hit) in
            let from : root + p.p_paddr ≤ a = ground (arith, hit) in
            let to : a < root + p.p_paddr + p.p_filesz = ground (arith, hit) in
            let (in_file, _, _) = here loads in
            let source =
              agree (e_hdr + p.p_offset + (a - (root + p.p_paddr))) (omega arith)
                (omega (arith, from, to, in_file)) in
            ground (arith, last, hit, source)
        | inr missed ↦ ground (arith, last, missed)
      ]
    ]

copied_lem :
    (e_hdr file_size root : ℕ) (p : Phdr) (m : Memory)
    → p.p_offset + p.p_filesz ≤ file_size
    → root + p.p_paddr + p.p_filesz < 2 ^ 64
    → (root + p.p_paddr + p.p_filesz ≤ e_hdr) ⊎ (e_hdr + file_size ≤ root + p.p_paddr)
    → e_hdr + file_size < 2 ^ 64
    → (a : ℕ)
    → memcpy (copy_target root p) (u64 (e_hdr + p.p_offset)) p.p_filesz m a
      ≡ moved (root + p.p_paddr) (e_hdr + p.p_offset) p.p_filesz m a
copied_lem e_hdr file_size root p m in_file no_wrap apart fits a =
    let source : u64 (e_hdr + p.p_offset) ≡ e_hdr + p.p_offset = omega arith in
    rw (copy_target_lem root p (omega arith), source)
      (memcpy_lem (root + p.p_paddr) (e_hdr + p.p_offset) p.p_filesz m a (ground arith))

kept_lem :
    (e_hdr file_size root : ℕ) (p : Phdr) (m : Memory)
    → p.p_offset + p.p_filesz ≤ file_size
    → (root + p.p_paddr + p.p_filesz ≤ e_hdr) ⊎ (e_hdr + file_size ≤ root + p.p_paddr)
    → (a : ℕ) → e_hdr ≤ a
    → a < e_hdr + file_size
    → moved (root + p.p_paddr) (e_hdr + p.p_offset) p.p_filesz m a ≡ m a
kept_lem e_hdr file_size root p m in_file apart a from to = ground arith

-- The loop leaves in memory, at every address, the byte that the image has there.
pub map_segments-image_at :
    (e_hdr file_size root : ℕ) (ps : List Phdr) (m : Memory) (log : List Protection)
    → Placed e_hdr file_size root ps
    → e_hdr + file_size < 2 ^ 64
    → (a : ℕ) → (map_segments e_hdr root ps m log).0 a ≡ image_at e_hdr root ps m a
unfolding map_segments image_at Placed
map_segments-image_at e_hdr file_size root [] m log placed fits a = refl
map_segments-image_at e_hdr file_size root (p ∷ ps) m log (here, placed) fits a =
    elim (Bool-cases (p.p_type == pt_load)) [
      | inr skipped ↦
          rw (skipped, map_segments)
            (map_segments-image_at e_hdr file_size root ps m log placed fits a
              ∙ image_at-agree e_hdr file_size root ps m m placed (λ x _ _. refl) a)
      | inl loads ↦
          let (in_file, no_wrap, apart) = here (ground (arith, loads)) in
          let copied = memcpy (copy_target root p) (u64 (e_hdr + p.p_offset)) p.p_filesz m in
          let bytes = copied_lem e_hdr file_size root p m in_file no_wrap apart fits in
          let kept =
            image_at-agree e_hdr file_size root ps m copied placed
              (λ x from to. bytes x ∙ kept_lem e_hdr file_size root p m in_file apart x from to)
              a in
          let rest = map_segments-image_at e_hdr file_size root ps copied _ placed fits a in
          rw (loads, map_segments) (rest ∙ kept ∙ ground (arith, loads, bytes a))
    ]
