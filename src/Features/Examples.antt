-- ===== src/Features/Examples.antt =====
-- The features of a processor that has everything but XSAVE.
use xinix.Base.{ℕ, ◌≡◌, refl, true, false}
use xinix.Features.{
  CpuidLeaf, has_bit, supported, raw_words, xsave_words, avx10_words, clear_all_masks, run_clears,
  init_cpu_feature_array,
}
use xinix.Features.Clears.{Part}
use xinix.Features.Reported.{IsMasked, init_cpu_feature_array-IsMasked}

abbrev no_xsave : ℕ → ℕ → CpuidLeaf
no_xsave leaf subleaf = record {
  eax = 0xffff_ffff;
  ecx = 0xfbff_ffff;
  edx = 0xffff_ffff;
  ebx = 0xffff_ffff;
}

abbrev empty_array : ℕ → ℕ
empty_array k = 0

init_cpu_feature_array-IsMasked_example :
    IsMasked (supported no_xsave) (init_cpu_feature_array no_xsave empty_array)
    × Part (raw_words no_xsave empty_array) (init_cpu_feature_array no_xsave empty_array)
init_cpu_feature_array-IsMasked_example = init_cpu_feature_array-IsMasked no_xsave empty_array

-- AVX itself, bit 28 of the first word, is in none of the masks; F16C, bit 29, is.
avx_reported : has_bit (init_cpu_feature_array no_xsave empty_array 0) 28 ≡ true
unfolding init_cpu_feature_array raw_words xsave_words avx10_words supported clear_all_masks
    run_clears
avx_reported = refl

f16c_cleared : has_bit (init_cpu_feature_array no_xsave empty_array 0) 29 ≡ false
unfolding init_cpu_feature_array raw_words xsave_words avx10_words supported clear_all_masks
    run_clears
f16c_cleared = refl

-- Of AMX with half floats, bit 21 of word 5, the same is true.
amx_fp16_reported : has_bit (init_cpu_feature_array no_xsave empty_array 5) 21 ≡ true
unfolding init_cpu_feature_array raw_words xsave_words avx10_words supported clear_all_masks
    run_clears
amx_fp16_reported = refl
