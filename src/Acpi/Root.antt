-- ===== src/Acpi/Root.antt =====
-- The walk over the root table, `load_rsdt` and `load_xsdt`, and the choice between them.
use xinix.Base.{
  ℕ, zero, suc, ◌+◌, ◌*◌, ◌/◌, ◌^◌, ◌<◌, ◌≡◌, refl, arith, inl, inr, Option-cases, true, false,
  Bool, ◌&&◌, not, ◌==◌, ltb, if◌then◌else◌, List, [], ◌∷◌, ◌++◌, Option, some, length, u32, u64,
  sub64, ascii, ◌>>=◌,
}
use xinix.Acpi.{Kernel, Acpi, unaligned_u32, table_length, header_size, load_madt}
use xinix.Acpi.Dsdt.{field_u64, load_fadt}
use xinix.Acpi.Records.{le_bytes, LiesAt, LiesAt-append, unaligned_u32_lem, unaligned_u32_low}

-- `memcmp(sdt_p->signature, text, 4) == 0`
abbrev pub signature_is : Kernel → ℕ → List ℕ → Bool
signature_is k p [] = true
signature_is k p (c ∷ cs) = k.firmware p == c && signature_is k (p + 1) cs

pub handle_sdt : Kernel → ℕ → Acpi → Option Acpi
handle_sdt k p s =
    if signature_is k p (ascii "APIC")
    then load_madt k p s
    else if signature_is k p (ascii "FACP")
    then load_fadt k p s
    else some s

-- `int num_sdts = (header.length - sizeof(sdt_header_t)) / width`: the rounds of a loop up to it, none
-- for a negative number
pub num_sdts : Kernel → ℕ → ℕ → ℕ
num_sdts k p width =
    let n = u32 (sub64 (table_length k p) header_size / width) in if ltb n (2 ^ 31) then n else 0

-- The loop over the entries from number `i` on
pub load_sdts : ℕ → Kernel → (ℕ → ℕ) → ℕ → Acpi → Option Acpi
load_sdts zero k entry i s = some s
load_sdts (suc left) k entry i s =
    handle_sdt k (u64 (k.hhdm_offset + entry i)) s >>= λ t. load_sdts left k entry (i + 1) t

pub load_xsdt : Kernel → ℕ → Acpi → Option Acpi
load_xsdt k p s =
    load_sdts (num_sdts k p 8) k (λ i. field_u64 k.firmware (p + header_size + 8 * i)) 0 s

pub load_rsdt : Kernel → ℕ → Acpi → Option Acpi
load_rsdt k p s =
    load_sdts (num_sdts k p 4) k (λ i. unaligned_u32 k.firmware (p + header_size + 4 * i)) 0 s

-- With the addresses that the auxiliary vector has of the two tables
pub load_system_descriptor_tables : Kernel → ℕ → ℕ → Acpi → Option Acpi
load_system_descriptor_tables k xsdt rsdt s =
    if not (xsdt == 0) then load_xsdt k xsdt s else load_rsdt k rsdt s

-- Tables handled one after the other
abbrev pub handle_all : Kernel → List ℕ → Acpi → Option Acpi
handle_all k [] s = some s
handle_all k (a ∷ rest) s = handle_sdt k (u64 (k.hhdm_offset + a)) s >>= λ t. handle_all k rest t

abbrev pub entry_bytes : ℕ → List ℕ → List ℕ
entry_bytes width [] = []
entry_bytes width (a ∷ rest) = le_bytes width a ++ entry_bytes width rest

abbrev pub AllBelow : ℕ → List ℕ → Type 0
AllBelow bound [] = Unit {0}
AllBelow bound (a ∷ rest) = (a < bound) × AllBelow bound rest

-- A root table of entries of `width` bytes lists these addresses.
pub record IsRoot (k : Kernel) (p width : ℕ) (tables : List ℕ) : Type 0 where
  pub entries : LiesAt k.firmware (p + header_size) (entry_bytes width tables)
  pub words : AllBelow (2 ^ (8 * width)) tables
  pub size : table_length k p ≡ header_size + width * length tables
  pub few : length tables < 2 ^ 29

-- The entries that the loop reads from number `i` on
abbrev Reads : (ℕ → ℕ) → ℕ → List ℕ → Type 0
Reads entry i [] = Unit {0}
Reads entry i (a ∷ rest) = (entry i ≡ a) × Reads entry (i + 1) rest

load_sdts_lem :
    (k : Kernel) (entry : ℕ → ℕ) (i : ℕ) (tables : List ℕ) (s : Acpi)
    → Reads entry i tables
    → load_sdts (length tables) k entry i s ≡ handle_all k tables s
unfolding load_sdts
load_sdts_lem k entry i [] s reads = refl
load_sdts_lem k entry i (a ∷ tables) s reads =
    elim (Option-cases (handle_sdt k (u64 (k.hhdm_offset + a)) s)) [
      | inl stopped ↦ rw (reads.0, stopped) refl
      | inr (t, handled) ↦
          rw (reads.0, handled, load_sdts) (load_sdts_lem k entry (i + 1) tables t reads.1)
    ]

field_u64_lem :
    (bytes : ℕ → ℕ) (a n : ℕ) (rest : List ℕ)
    → n < 2 ^ 64
    → LiesAt bytes a (le_bytes 8 n ++ rest)
    → field_u64 bytes a ≡ n
field_u64_lem bytes a n rest small lies =
    let upper = n / 256 / 256 / 256 / 256 in
    let at4 : LiesAt bytes (a + 4) (le_bytes 4 upper ++ rest) =
      LiesAt-append bytes a (a + 4) (le_bytes 4 n) (le_bytes 4 upper ++ rest) lies (omega arith) in
    omega (
      arith,
      unaligned_u32_low bytes a n (le_bytes 4 upper ++ rest) lies,
      unaligned_u32_low bytes (a + 4) upper rest at4,
    )

xsdt-Reads :
    (k : Kernel) (p i : ℕ) (tables : List ℕ)
    → LiesAt k.firmware (p + header_size + 8 * i) (entry_bytes 8 tables)
    → AllBelow (2 ^ 64) tables
    → Reads (λ j. field_u64 k.firmware (p + header_size + 8 * j)) i tables
xsdt-Reads k p i [] lies small = tt
xsdt-Reads k p i (a ∷ tables) lies small = (
  field_u64_lem k.firmware (p + header_size + 8 * i) a (entry_bytes 8 tables) small.0 lies,
  xsdt-Reads k p (i + 1) tables
      (LiesAt-append k.firmware (p + header_size + 8 * i) (p + header_size + 8 * (i + 1))
        (le_bytes 8 a) (entry_bytes 8 tables) lies (omega arith))
      small.1,
)

rsdt-Reads :
    (k : Kernel) (p i : ℕ) (tables : List ℕ)
    → LiesAt k.firmware (p + header_size + 4 * i) (entry_bytes 4 tables)
    → AllBelow (2 ^ 32) tables
    → Reads (λ j. unaligned_u32 k.firmware (p + header_size + 4 * j)) i tables
rsdt-Reads k p i [] lies small = tt
rsdt-Reads k p i (a ∷ tables) lies small = (
  unaligned_u32_lem k.firmware (p + header_size + 4 * i) a (entry_bytes 4 tables) small.0 lies,
  rsdt-Reads k p (i + 1) tables
      (LiesAt-append k.firmware (p + header_size + 4 * i) (p + header_size + 4 * (i + 1))
        (le_bytes 4 a) (entry_bytes 4 tables) lies (omega arith))
      small.1,
)

positive_count : (n : ℕ) → n < 2 ^ 29 → (if ltb n (2 ^ 31) then n else 0) ≡ n
positive_count n few = ground arith

num_sdts_8 :
    (k : Kernel) (p : ℕ) (tables : List ℕ) → IsRoot k p 8 tables → num_sdts k p 8 ≡ length tables
unfolding num_sdts
num_sdts_8 k p tables root =
    let count : u32 (sub64 (table_length k p) header_size / 8) ≡ length tables =
      omega (arith, root.size, root.few) in
    rw count (positive_count (length tables) root.few)

num_sdts_4 :
    (k : Kernel) (p : ℕ) (tables : List ℕ) → IsRoot k p 4 tables → num_sdts k p 4 ≡ length tables
unfolding num_sdts
num_sdts_4 k p tables root =
    let count : u32 (sub64 (table_length k p) header_size / 4) ≡ length tables =
      omega (arith, root.size, root.few) in
    rw count (positive_count (length tables) root.few)

load_xsdt_lem :
    (k : Kernel) (p : ℕ) (tables : List ℕ) (s : Acpi)
    → IsRoot k p 8 tables
    → load_xsdt k p s ≡ handle_all k tables s
unfolding load_xsdt
load_xsdt_lem k p tables s root = rw (num_sdts_8 k p tables root) (
    load_sdts_lem k (λ i. field_u64 k.firmware (p + header_size + 8 * i)) 0 tables s
      (xsdt-Reads k p 0 tables
        (LiesAt-append k.firmware (p + header_size) (p + header_size + 8 * 0) []
          (entry_bytes 8 tables) root.entries (omega arith))
        root.words))

load_rsdt_lem :
    (k : Kernel) (p : ℕ) (tables : List ℕ) (s : Acpi)
    → IsRoot k p 4 tables
    → load_rsdt k p s ≡ handle_all k tables s
unfolding load_rsdt
load_rsdt_lem k p tables s root = rw (num_sdts_4 k p tables root) (
    load_sdts_lem k (λ i. unaligned_u32 k.firmware (p + header_size + 4 * i)) 0 tables s
      (rsdt-Reads k p 0 tables
        (LiesAt-append k.firmware (p + header_size) (p + header_size + 4 * 0) []
          (entry_bytes 4 tables) root.entries (omega arith))
        root.words))

-- The root table that is used lists these tables: the XSDT if it has an address, or the RSDT.
abbrev pub Lists : Kernel → ℕ → ℕ → List ℕ → Type 0
Lists k zero rsdt tables = IsRoot k rsdt 4 tables
Lists k (suc xsdt) rsdt tables = IsRoot k (suc xsdt) 8 tables

-- Whichever root table there is, the tables that it lists are handled one after the other, in order.
pub load_tables_lem :
    (k : Kernel) (xsdt rsdt : ℕ) (tables : List ℕ) (s : Acpi)
    → Lists k xsdt rsdt tables
    → load_system_descriptor_tables k xsdt rsdt s ≡ handle_all k tables s
unfolding load_system_descriptor_tables
load_tables_lem k zero rsdt tables s root = load_rsdt_lem k rsdt tables s root
load_tables_lem k (suc xsdt) rsdt tables s root =
    let given : (suc xsdt == 0) ≡ false = ground arith in
    rw given (load_xsdt_lem k (suc xsdt) tables s root)

-- A length below that of the header counts as no entries.
pub short_table :
    (k : Kernel) (p : ℕ)
    → table_length k p < header_size
    → (num_sdts k p 8 ≡ 0) × (num_sdts k p 4 ≡ 0)
unfolding num_sdts
short_table k p short = (ground arith, ground arith)
