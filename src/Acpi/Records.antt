-- ===== src/Acpi/Records.antt =====
-- The records of a MADT as data, and how a table of them lies in memory.
use xinix.Base.{
  ℕ, zero, suc, ◌+◌, ◌*◌, ◌/◌, ◌%◌, ◌^◌, ◌<◌, bit_or, ◌≡◌, ◌≢◌, ap, ◌∙◌, arith, List, [], ◌∷◌, ◌++◌,
  Option, some, length, ◌>>=◌,
}
use xinix.Base.Bits.{bit_or_fields'}
use xinix.Paging.{Store}
use xinix.Acpi.{Kernel, Ioapic, map_page, unaligned_u32}

pub data MadtRecord : Type 0 where
  io_apic : (id reserved address interrupt_base : ℕ) → MadtRecord
  other : (type : ℕ) (payload : List ℕ) → MadtRecord

abbrev pub le_bytes : ℕ → ℕ → List ℕ
le_bytes zero n = []
le_bytes (suc w) n = (n % 256) ∷ le_bytes w (n / 256)

-- A record begins with its type and its length in bytes.
abbrev pub record_bytes : MadtRecord → List ℕ
record_bytes (io_apic id reserved address interrupt_base) =
    1 ∷ 12 ∷ id ∷ reserved ∷ (le_bytes 4 address ++ le_bytes 4 interrupt_base)
record_bytes (other type payload) = type ∷ (2 + length payload) ∷ payload

abbrev pub table_bytes : List MadtRecord → List ℕ
table_bytes [] = []
table_bytes (r ∷ rs) = record_bytes r ++ table_bytes rs

abbrev pub IsRecord : MadtRecord → Type 0
IsRecord (io_apic id reserved address interrupt_base) =
    (address < 2 ^ 32) × (interrupt_base < 2 ^ 32)
IsRecord (other type payload) = type ≢ 1

abbrev pub AreRecords : List MadtRecord → Type 0
AreRecords [] = Unit {0}
AreRecords (r ∷ rs) = IsRecord r × AreRecords rs

-- The bytes lie at an address.
abbrev pub LiesAt : (ℕ → ℕ) → ℕ → List ℕ → Type 0
LiesAt bytes a [] = Unit {0}
LiesAt bytes a (b ∷ bs) = (bytes a ≡ b) × LiesAt bytes (a + 1) bs

pub LiesAt-append :
    (bytes : ℕ → ℕ) (a c : ℕ) (xs ys : List ℕ)
    → LiesAt bytes a (xs ++ ys)
    → a + length xs ≡ c
    → LiesAt bytes c ys
LiesAt-append bytes a c [] ys h e = let here : a ≡ c = omega (arith, e) in rw (← here) h
LiesAt-append bytes a c (x ∷ xs) ys h e = LiesAt-append bytes (a + 1) c xs ys h.1 (omega (arith, e))

joined :
    (b0 b1 b2 b3 : ℕ)
    → b0 < 256
    → b1 < 256
    → b2 < 256
    → bit_or (bit_or (bit_or b0 (b1 * 2 ^ 8)) (b2 * 2 ^ 16)) (b3 * 2 ^ 24)
      ≡ b3 * 2 ^ 24 + (b2 * 2 ^ 16 + (b1 * 2 ^ 8 + b0))
joined b0 b1 b2 b3 h0 h1 h2 =
    let two : bit_or b0 (b1 * 2 ^ 8) ≡ b1 * 2 ^ 8 + b0 = bit_or_fields' 8 b1 b0 h0 in
    let three : bit_or (b1 * 2 ^ 8 + b0) (b2 * 2 ^ 16) ≡ b2 * 2 ^ 16 + (b1 * 2 ^ 8 + b0) =
      bit_or_fields' 16 b2 (b1 * 2 ^ 8 + b0) (omega arith) in
    rw (two, three) (bit_or_fields' 24 b3 (b2 * 2 ^ 16 + (b1 * 2 ^ 8 + b0)) (omega arith))

-- Four bytes, the lowest first, are read as the low part of the number that they were written for.
pub unaligned_u32_low :
    (bytes : ℕ → ℕ) (a n : ℕ) (rest : List ℕ)
    → LiesAt bytes a (le_bytes 4 n ++ rest)
    → unaligned_u32 bytes a ≡ n % 2 ^ 32
unfolding unaligned_u32
unaligned_u32_low bytes a n rest (b0, (b1, (b2, (b3, _)))) =
    let c0 = n % 256 in
    let c1 = n / 256 % 256 in
    let c2 = n / 256 / 256 % 256 in
    let c3 = n / 256 / 256 / 256 % 256 in
    let e2 : bytes (a + 2) ≡ c2 = ap bytes (omega arith) ∙ b2 in
    let e3 : bytes (a + 3) ≡ c3 = ap bytes (omega arith) ∙ b3 in
    rw (b0, b1, e2, e3) (joined c0 c1 c2 c3 (omega arith) (omega arith) (omega arith) ∙ omega arith)

pub unaligned_u32_lem :
    (bytes : ℕ → ℕ) (a n : ℕ) (rest : List ℕ)
    → n < 2 ^ 32
    → LiesAt bytes a (le_bytes 4 n ++ rest)
    → unaligned_u32 bytes a ≡ n
unaligned_u32_lem bytes a n rest small lies = unaligned_u32_low bytes a n rest lies ∙ omega arith

-- The I/O APICs of the records, each with its page mapped, and the page tables afterwards
unfoldable pub mapped_ioapics : Kernel → List MadtRecord → Store → Option (List Ioapic × Store)
mapped_ioapics k [] s = some ([], s)
mapped_ioapics k (other type payload ∷ rs) s = mapped_ioapics k rs s
mapped_ioapics k (io_apic id reserved address interrupt_base ∷ rs) s = do
  (base, t) ← map_page k address s
  (found, last) ← mapped_ioapics k rs t
  let ioapic : Ioapic = record {
    register_base = base;
    id = id;
    global_system_interrupt_base = interrupt_base;
  }
  some (ioapic ∷ found, last)

abbrev pub ioapic_count : List MadtRecord → ℕ
ioapic_count [] = 0
ioapic_count (other type payload ∷ rs) = ioapic_count rs
ioapic_count (io_apic id reserved address interrupt_base ∷ rs) = suc (ioapic_count rs)
