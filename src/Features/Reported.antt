-- ===== src/Features/Reported.antt =====
-- What `init_cpu_feature_array` reports.
use xinix.Base.{
  ℕ, ◌≤◌, ◌<◌, ◌≡◌, refl, arith, Bool, true, false, ◌&&◌, ◌==◌, leb, bit_and, bit_or, if◌then◌else◌,
}
use xinix.Features.{
  Supported, bit, set_word, clear_unless, clear_all_masks, clears, run_clears, CpuidLeaf, raw_words,
  xsave_words, supported, avx10_words, init_cpu_feature_array, has_xsave, eax0d, eax24, eax7,
  has_bit, no_leaf,
}
use xinix.Features.Masks.{
  MasksCleared, Part-MasksCleared, clear_all_masks-Part, clear_all_masks-MasksCleared, AllCleared,
  run_clears-Part, run_clears-AllCleared, clears-AllFine,
}
use xinix.Features.Clears.{
  Part, Part-same, Part-trans, Cleared, clear_unless-Part, clear_unless-Cleared, Part-Cleared,
}

-- The first 16 words are the same.
abbrev SameWords : (ℕ → ℕ) → (ℕ → ℕ) → Type 0
SameWords a b = (i : ℕ) → i < 16 → b i ≡ a i

set_word-SameWords : {a b : ℕ → ℕ} (k v : ℕ) → 16 ≤ k → SameWords a b → SameWords a (set_word k v b)
set_word-SameWords k v high equal i small =
    let away : (i == k) ≡ false = ground (arith, high, small) in rw away (equal i small)

chosen-Part : (chosen : Bool) (a b : ℕ → ℕ) → SameWords a b → Part a (if chosen then b else a)
chosen-Part true a b equal i small = rw (equal i small) (Part-same a i small)
chosen-Part false a b equal i small = Part-same a i small

-- What is reported of a state that the processor does not save, or without XSAVE at all
pub record IsMasked (s : Supported) (array : ℕ → ℕ) : Type 0 where
  pub masks : (i : ℕ) → i < 16 → MasksCleared s array i
  pub apx : Cleared s.has_apx 7 0x20_0000 array
  pub pku : Cleared s.has_pku 2 0x18 array
  pub shstk : Cleared (s.has_cet_s && s.has_cet_u) 2 0x80 array
  pub cet_sss : Cleared (s.has_cet_s && s.has_cet_u) 7 0x4_0000 array
  pub pt : Cleared s.has_pt 4 0x200_0000 array
  pub uintr : Cleared s.has_uintr 3 0x20 array
  pub lbr : Cleared s.has_lbr 3 0x8_0000 array
  pub enqcmd : Cleared s.has_pasid 2 0x2000_0000 array
  pub lwp : Cleared s.has_lwp 13 0x8000 array

module _ (cpuid_count : ℕ → ℕ → CpuidLeaf) (array : ℕ → ℕ) where
  abbrev s : Supported
  s = supported cpuid_count

  abbrev raw : ℕ → ℕ
  raw = raw_words cpuid_count array

  abbrev saved_words : ℕ → ℕ
  saved_words = xsave_words cpuid_count raw

  abbrev masked : ℕ → ℕ
  masked = clear_all_masks s 16 0 saved_words

  abbrev with_apx : ℕ → ℕ
  with_apx = clear_unless s.has_apx 7 (bit 21) masked

  abbrev with_avx10 : ℕ → ℕ
  with_avx10 = avx10_words cpuid_count with_apx

  abbrev last : ℕ → ℕ
  last = run_clears (clears s) with_avx10

  saved_words-Part : Part raw saved_words
  unfolding xsave_words
  saved_words-Part =
      let words =
        set_word 33 (eax0d cpuid_count 0).edx (set_word 32 (eax0d cpuid_count 0).eax raw) in
      chosen-Part (has_xsave cpuid_count) raw
        (set_word 37 (eax0d cpuid_count 1).edx (
          set_word 36 (eax0d cpuid_count 1).ecx
            (set_word 35 (eax0d cpuid_count 0).ecx (set_word 34 (eax0d cpuid_count 1).eax words))))
        (set_word-SameWords 37 _ (omega arith) (
          set_word-SameWords 36 _ (omega arith) (
            set_word-SameWords 35 _ (omega arith) (
              set_word-SameWords 34 _ (omega arith) (
                set_word-SameWords 33 _ (omega arith)
                  (set_word-SameWords 32 _ (omega arith) (λ i small. refl)))))))

  with_avx10-Part : Part with_apx with_avx10
  unfolding avx10_words
  with_avx10-Part =
      let first = eax24 cpuid_count 0 in
      let second = if leb 1 first.eax then cpuid_count 0x24 1 else no_leaf in
      let has_version2 = leb 2 (bit_and first.ebx 0xff) in
      chosen-Part (s.has_avx512 && has_bit (eax7 cpuid_count 1).edx 19) with_apx
        (set_word 17 (bit_or second.ecx (if has_version2 then 4 else 0))
          (set_word 16 first.ebx with_apx))
        (set_word-SameWords 17 _ (omega arith)
          (set_word-SameWords 16 _ (omega arith) (λ i small. refl)))

  apx-last-Part : Part with_apx last
  apx-last-Part =
      Part-trans with_apx with_avx10 last with_avx10-Part (run_clears-Part (clears s) with_avx10)

  masked-last-Part : Part masked last
  masked-last-Part =
      Part-trans masked with_apx last (clear_unless-Part s.has_apx 7 (bit 21) masked) apx-last-Part

  last-Part : Part raw last
  last-Part =
      Part-trans raw masked last
        (Part-trans raw saved_words masked saved_words-Part
          (clear_all_masks-Part s 16 0 saved_words))
        masked-last-Part

  -- Whatever cpuid answers, the first 16 words have no bit that the processor did not give, and none
  -- of the bits that the code ties to a state which the processor does not save.
  pub init_cpu_feature_array-IsMasked :
      IsMasked s (init_cpu_feature_array cpuid_count array)
      × Part raw (init_cpu_feature_array cpuid_count array)
  unfolding init_cpu_feature_array AllCleared
  init_cpu_feature_array-IsMasked =
      let (pku, (shstk, (cet_sss, (pt, (uintr, (lbr, (enqcmd, (lwp, _)))))))) =
        run_clears-AllCleared (clears s) with_avx10 (clears-AllFine s) in
      (
        record {
          masks = λ i small.
              Part-MasksCleared s masked last i masked-last-Part small (
                clear_all_masks-MasksCleared s 16 0 i saved_words (omega arith) (omega arith)
                  small);
          apx =
              Part-Cleared s.has_apx with_apx last 7 (bit 21) apx-last-Part (omega arith)
                (clear_unless-Cleared s.has_apx 7 (bit 21) masked refl);
          pku = pku;
          shstk = shstk;
          cet_sss = cet_sss;
          pt = pt;
          uintr = uintr;
          lbr = lbr;
          enqcmd = enqcmd;
          lwp = lwp;
        },
        last-Part,
      )
