-- ===== src/Acpi/Dsdt.antt =====
-- `load_fadt`: where the FACS and the DSDT are, and which pages of the DSDT are mapped.
use xinix.Base.{
  ℕ, zero, suc, ◌+◌, ◌*◌, ◌/◌, ◌%◌, ◌^◌, ◌<◌, ◌≡◌, ◌≢◌, refl, ap, ◌∙◌, arith, inl, inr,
  Option-cases, Bool, ◌&&◌, not, ◌==◌, leb, if◌then◌else◌, List, [], ◌∷◌, Option, some, bit_and,
  u64, ◌>>=◌,
}
use xinix.Base.Bits.{bit_and_low}
use xinix.Paging.{Store}
use xinix.Acpi.{Kernel, Acpi, map_page, unaligned_u32, table_length}

-- A field of eight bytes
abbrev pub field_u64 : (ℕ → ℕ) → ℕ → ℕ
field_u64 bytes a = unaligned_u32 bytes a + unaligned_u32 bytes (a + 4) * 2 ^ 32

-- `sizeof(fadt2_t)`
abbrev pub fadt2_size : ℕ
fadt2_size = 244

-- `fadt_header.revision >= 2 && fadt_header.length >= sizeof(fadt2_t)`
abbrev pub is_fadt2 : Kernel → ℕ → Bool
is_fadt2 k p = leb 2 (k.firmware (p + 8)) && leb fadt2_size (table_length k p)

-- `fadt_xdsdt` before `fadt_dsdt`, and `fadt_xfirmware_ctrl` before `fadt_fwctl`
unfoldable pub dsdt_paddr : Kernel → ℕ → ℕ
dsdt_paddr k p =
    if is_fadt2 k p && not (field_u64 k.firmware (p + 140) == 0)
    then field_u64 k.firmware (p + 140)
    else unaligned_u32 k.firmware (p + 40)

pub facs_paddr : Kernel → ℕ → ℕ
facs_paddr k p =
    if is_fadt2 k p && not (field_u64 k.firmware (p + 132) == 0)
    then field_u64 k.firmware (p + 132)
    else unaligned_u32 k.firmware (p + 36)

-- `dsdt_plen`
abbrev pub dsdt_plen : ℕ → ℕ → ℕ
dsdt_plen paddr len = u64 (bit_and paddr 0x3FF + len) / 2 ^ 12

-- The loop over the pages that remain
pub map_rest : ℕ → Kernel → ℕ → Store → Option Store
map_rest zero k paddr s = some s
map_rest (suc plen) k paddr s =
    map_page k (u64 (u64 (paddr + 4096) + 4096)) s >>= λ r. map_rest plen k (u64 (paddr + 4096)) r.1

pub load_fadt : Kernel → ℕ → Acpi → Option Acpi
load_fadt k p s = do
  (facs, s1) ← map_page k (facs_paddr k p) s.store
  (dsdt, s2) ← map_page k (dsdt_paddr k p) s1
  s3 ← map_rest (dsdt_plen (dsdt_paddr k p) (table_length k dsdt)) k (dsdt_paddr k p) s2
  some (record s { store = s3; fadt = p; facs = facs; dsdt = dsdt })

-- Pages asked for one after the other
abbrev pub map_all : Kernel → List ℕ → Store → Option Store
map_all k [] s = some s
map_all k (a ∷ rest) s = map_page k a s >>= λ r. map_all k rest r.1

abbrev pub pages_from : ℕ → ℕ → List ℕ
pages_from a zero = []
pages_from a (suc n) = a ∷ pages_from (a + 4096) n

map_rest_lem :
    (plen : ℕ) (k : Kernel) (paddr : ℕ) (s : Store)
    → paddr + 4096 * (plen + 2) < 2 ^ 64
    → map_rest plen k paddr s ≡ map_all k (pages_from (paddr + 8192) plen) s
unfolding map_rest
map_rest_lem zero k paddr s fits = refl
map_rest_lem (suc plen) k paddr s fits =
    let first : u64 (u64 (paddr + 4096) + 4096) ≡ paddr + 8192 = omega arith in
    let next : u64 (paddr + 4096) ≡ paddr + 4096 = omega arith in
    let turn : paddr + 4096 + 8192 ≡ paddr + 8192 + 4096 = omega arith in
    elim (Option-cases (map_page k (paddr + 8192) s)) [
      | inl missing ↦ rw (first, next, missing, map_rest) refl
      | inr ((base, t), page) ↦
          rw (first, next, page, map_rest)
            (map_rest_lem plen k (paddr + 4096) t (omega arith)
              ∙ ap (λ (a : ℕ). map_all k (pages_from a plen) t) turn)
    ]

map_page_address :
    (k : Kernel) (a base : ℕ) (s t : Store)
    → map_page k a s ≡ some (base, t)
    → base ≡ u64 (a + k.hhdm_offset)
unfolding map_page
map_page_address k a base s t e = ground (arith, e)

-- No page of a list has this number.
abbrev pub NoPage : ℕ → List ℕ → Type 0
NoPage n [] = Unit {0}
NoPage n (a ∷ rest) = (a / 4096 ≢ n) × NoPage n rest

pages_from-NoPage : (n a count : ℕ) → n < a / 4096 → NoPage n (pages_from a count)
pages_from-NoPage n a zero above = tt
pages_from-NoPage n a (suc count) above =
    (omega arith, pages_from-NoPage n (a + 4096) count (omega arith))

-- The length of the table that lies at a physical address
abbrev pub length_at : Kernel → ℕ → ℕ
length_at k paddr = table_length k (u64 (paddr + k.hhdm_offset))

-- The pages of the DSDT that `load_fadt` asks for
abbrev pub dsdt_pages : ℕ → ℕ → List ℕ
dsdt_pages paddr len = paddr ∷ pages_from (paddr + 8192) ((paddr % 1024 + len) / 4096)

-- Where no address wraps, `load_fadt` maps the page of the FACS, the first page of the DSDT and then
-- those from the third on, as many as the remainder by 1024 and the length ask for, and the second
-- page of the DSDT is never asked for.
pub load_fadt_lem :
    (k : Kernel) (p : ℕ) (s : Acpi)
    → dsdt_paddr k p + length_at k (dsdt_paddr k p) + 16384 < 2 ^ 64
    → (load_fadt k p s ≡ (
        map_page k (facs_paddr k p) s.store >>= λ facs.
        map_all k (dsdt_pages (dsdt_paddr k p) (length_at k (dsdt_paddr k p))) facs.1 >>= λ last.
        some (record s {
          store = last;
          fadt = p;
          facs = u64 (facs_paddr k p + k.hhdm_offset);
          dsdt = u64 (dsdt_paddr k p + k.hhdm_offset);
        })))
      × NoPage
          (dsdt_paddr k p / 4096 + 1)
          (dsdt_pages (dsdt_paddr k p) (length_at k (dsdt_paddr k p)))
unfolding load_fadt
load_fadt_lem k p s fits = (
  elim (Option-cases (map_page k (facs_paddr k p) s.store)) [
    | inl missing ↦ rw missing refl
    | inr ((facs, s1), first) ↦
        let at_facs = map_page_address k (facs_paddr k p) facs s.store s1 first in
        let paddr = dsdt_paddr k p in
        elim (Option-cases (map_page k paddr s1)) [
          | inl missing ↦ rw (first, missing) refl
          | inr ((dsdt, s2), second) ↦
              let at_dsdt = map_page_address k paddr dsdt s1 s2 second in
              let pages : dsdt_plen paddr (length_at k paddr)
                  ≡ (paddr % 1024 + length_at k paddr) / 4096 =
                omega (arith, bit_and_low 10 paddr) in
              let loop =
                map_rest_lem ((paddr % 1024 + length_at k paddr) / 4096) k paddr s2 (omega arith) in
              rw (first, second, at_facs, at_dsdt, pages, loop) refl
        ]
  ],
  (omega arith, pages_from-NoPage _ _ _ (omega arith)),
)
