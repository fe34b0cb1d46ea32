-- ===== src/Features.antt =====
-- The features of the processor, `init_cpu_feature_array` of prekernel/shared/x86_64/src/cpuid.c, for
-- given answers of cpuid. The array is a function from indices to 32-bit words.
pub mod Clears
pub mod Masks
pub mod Reported
mod Examples
use xinix.Base.{
  ℕ, zero, suc, ◌+◌, ◌-◌, ◌*◌, ◌^◌, Bool, true, false, not, ◌&&◌, ◌||◌, List, [], ◌∷◌, get_or, ◌==◌,
  leb, if◌then◌else◌, bit_and, bit_or, ◌<<<◌,
}

-- `struct cpuid`
pub record CpuidLeaf : Type 0 where
  pub eax : ℕ
  pub ecx : ℕ
  pub edx : ℕ
  pub ebx : ℕ

-- `(struct cpuid){}`
abbrev pub no_leaf : CpuidLeaf
no_leaf = record { eax = 0; ecx = 0; edx = 0; ebx = 0 }

abbrev pub not32 : ℕ → ℕ
not32 x = 2 ^ 32 - 1 - x

abbrev pub bit : ℕ → ℕ
bit k = 2 ^ k

abbrev pub avx_feature_mask : List ℕ
avx_feature_mask =
    bit 29
    ∷ 0
    ∷ (bit 9 + bit 10)
    ∷ 0
    ∷ bit 5
    ∷ (bit 0 + bit 2 + bit 4 + bit 23)
    ∷ 0
    ∷ (bit 4 + bit 5 + bit 10)
    ∷ []

abbrev pub avx512_feature_mask : List ℕ
avx512_feature_mask =
    0
    ∷ 0
    ∷ (bit 1 + bit 6 + bit 11 + bit 12 + bit 14)
    ∷ (bit 2 + bit 3 + bit 8 + bit 23)
    ∷ (bit 16 + bit 17 + bit 21 + bit 26 + bit 27 + bit 28 + bit 30 + bit 31)
    ∷ bit 5
    ∷ bit 19
    ∷ 0
    ∷ []

abbrev pub amx_feature_mask : List ℕ
amx_feature_mask = 0 ∷ 0 ∷ 0 ∷ (bit 22 + bit 24 + bit 25) ∷ bit 21 ∷ 0 ∷ bit 8 ∷ []

-- A bit of a word is set.
abbrev pub has_bit : ℕ → ℕ → Bool
has_bit word k = not (bit_and word (bit k) == 0)

abbrev pub set_word : ℕ → ℕ → (ℕ → ℕ) → ℕ → ℕ
set_word i v array k = if k == i then v else array k

-- `has_avx` and the other flags
pub record Supported : Type 0 where
  pub has_avx : Bool
  pub has_avx512 : Bool
  pub has_amx : Bool
  pub has_apx : Bool
  pub has_pku : Bool
  pub has_cet_u : Bool
  pub has_cet_s : Bool
  pub has_uintr : Bool
  pub has_pasid : Bool
  pub has_pt : Bool
  pub has_lbr : Bool
  pub has_lwp : Bool

abbrev pub nothing_supported : Supported
nothing_supported = record {
  has_avx = false;
  has_avx512 = false;
  has_amx = false;
  has_apx = false;
  has_pku = false;
  has_cet_u = false;
  has_cet_s = false;
  has_uintr = false;
  has_pasid = false;
  has_pt = false;
  has_lbr = false;
  has_lwp = false;
}

-- What the processor saves: from the words `xcr0_supported` and `xss_supported`
abbrev pub saved : ℕ → ℕ → Supported
saved xcr0_supported xss_supported = record {
  has_avx = has_bit xcr0_supported 2;
  has_avx512 = bit_and xcr0_supported (7 <<< 5) == 7 <<< 5;
  has_amx = bit_and xcr0_supported (3 <<< 17) == 3 <<< 17;
  has_apx = has_bit xcr0_supported 19;
  has_pku = has_bit xcr0_supported 9;
  has_cet_u = has_bit xss_supported 11;
  has_cet_s = has_bit xss_supported 12;
  has_uintr = has_bit xss_supported 14;
  has_pasid = has_bit xss_supported 10;
  has_pt = has_bit xss_supported 8;
  has_lbr = has_bit xss_supported 15;
  has_lwp = has_bit xcr0_supported 62;
}

-- `array[i] &= ~mask`, unless the state is supported
abbrev pub clear_unless : Bool → ℕ → ℕ → (ℕ → ℕ) → ℕ → ℕ
clear_unless keep i mask array =
    if keep then array else set_word i (bit_and (array i) (not32 mask)) array

-- A turn of the loop over the masks
abbrev pub clear_masks : Supported → ℕ → (ℕ → ℕ) → ℕ → ℕ
clear_masks s i array = clear_unless s.has_amx i (get_or amx_feature_mask i 0) (
    clear_unless s.has_avx512 i (get_or avx512_feature_mask i 0)
      (clear_unless s.has_avx i (get_or avx_feature_mask i 0) array))

-- The loop, for some indices from `i` on
pub clear_all_masks : Supported → ℕ → ℕ → (ℕ → ℕ) → ℕ → ℕ
clear_all_masks s zero i array = array
clear_all_masks s (suc more) i array = clear_all_masks s more (i + 1) (clear_masks s i array)

-- One of the clears that follow: whether it is left out, the index and the bits
pub record Clear : Type 0 where
  pub keep : Bool
  pub word : ℕ
  pub mask : ℕ

-- In the order of the code, which runs them in turn
abbrev pub clears : Supported → List Clear
clears s =
    record { keep = s.has_pku; word = 2; mask = 3 <<< 3 }
    ∷ record { keep = s.has_cet_s && s.has_cet_u; word = 2; mask = bit 7 }
    ∷ record { keep = s.has_cet_s && s.has_cet_u; word = 7; mask = bit 18 }
    ∷ record { keep = s.has_pt; word = 4; mask = bit 25 }
    ∷ record { keep = s.has_uintr; word = 3; mask = bit 5 }
    ∷ record { keep = s.has_lbr; word = 3; mask = bit 19 }
    ∷ record { keep = s.has_pasid; word = 2; mask = bit 29 }
    ∷ record { keep = s.has_lwp; word = 13; mask = bit 15 }
    ∷ []

pub run_clears : List Clear → (ℕ → ℕ) → ℕ → ℕ
run_clears [] array = array
run_clears (c ∷ cs) array = run_clears cs (clear_unless c.keep c.word c.mask array)

-- The answers of cpuid, for a leaf and a sub-leaf
module _ (cpuid_count : ℕ → ℕ → CpuidLeaf) where
  abbrev max_default_leaf : ℕ
  max_default_leaf = (cpuid_count 0 0).eax

  abbrev pub eax1 : CpuidLeaf
  eax1 = if leb 1 max_default_leaf then cpuid_count 1 0 else no_leaf

  -- Of leaf 7, whether the processor has it or not
  abbrev pub eax7 : ℕ → CpuidLeaf
  eax7 subleaf = if leb subleaf (cpuid_count 7 0).eax then cpuid_count 7 subleaf else no_leaf

  abbrev eax8000_0001 : CpuidLeaf
  eax8000_0001 =
      if leb 0x8000_0001 (cpuid_count 0x8000_0000 0).eax then cpuid_count 0x8000_0001 0 else no_leaf

  -- The words as the processor gives them
  pub raw_words : (ℕ → ℕ) → ℕ → ℕ
  raw_words array = set_word 14 (bit_and eax8000_0001.edx (not32 0x0183_f3ff)) (
      set_word 13 eax8000_0001.ecx (
        set_word 11 (eax7 2).edx (
          set_word 8 (eax7 1).ebx (
            set_word 7 (eax7 1).edx (
              set_word 6 (eax7 1).ecx (
                set_word 5 (eax7 1).eax (
                  set_word 4 (eax7 0).ebx (
                    set_word 3 (eax7 0).edx (
                      set_word 2 (eax7 0).ecx
                        (set_word 1 eax1.edx (set_word 0 eax1.ecx array)))))))))))

  abbrev pub has_xsave : Bool
  has_xsave = has_bit eax1.ecx 26

  abbrev pub eax0d : ℕ → CpuidLeaf
  eax0d subleaf = if leb 0x0d max_default_leaf then cpuid_count 0x0d subleaf else no_leaf

  pub xsave_words : (ℕ → ℕ) → ℕ → ℕ
  xsave_words array =
      let words = set_word 37 (eax0d 1).edx (
        set_word 36 (eax0d 1).ecx (
          set_word 35 (eax0d 0).ecx (
            set_word 34 (eax0d 1).eax
              (set_word 33 (eax0d 0).edx (set_word 32 (eax0d 0).eax array))))) in
      if has_xsave then words else array

  pub supported : Supported
  supported =
      if has_xsave
      then saved (bit_or (eax0d 0).eax ((eax0d 0).edx <<< 32))
          (bit_or (eax0d 1).ecx ((eax0d 1).edx <<< 32))
      else nothing_supported

  abbrev pub eax24 : ℕ → CpuidLeaf
  eax24 subleaf = if leb 0x24 max_default_leaf then cpuid_count 0x24 subleaf else no_leaf

  pub avx10_words : (ℕ → ℕ) → ℕ → ℕ
  avx10_words array =
      let has_avx10 = supported.has_avx512 && has_bit (eax7 1).edx 19 in
      let second = if leb 1 (eax24 0).eax then cpuid_count 0x24 1 else no_leaf in
      let has_version2 = leb 2 (bit_and (eax24 0).ebx 0xff) in
      let words =
        set_word 17 (bit_or second.ecx (if has_version2 then 4 else 0))
          (set_word 16 (eax24 0).ebx array) in
      if has_avx10 then words else array

  pub init_cpu_feature_array : (ℕ → ℕ) → ℕ → ℕ
  init_cpu_feature_array array =
      let masked = clear_all_masks supported 16 0 (xsave_words (raw_words array)) in
      run_clears (clears supported) (avx10_words (clear_unless supported.has_apx 7 (bit 21) masked))
