-- ===== src/Clock/Reading.antt =====
-- `read_global_rtc`, and the confirmation of a reading.
use xinix.Base.{
  ◌^◌, ◌<◌, ◌≡◌, ◌⊎◌, inl, inr, refl, sym, ◌∙◌, arith, Bool-cases, true, false, none, some, List,
  [], ◌∷◌,
}
use xinix.Clock.{RtcState, CmosRtc, confirm, same_reading}

-- A time that the clock started from holds whole seconds, far from the end of the words.
pub record IsStarted (s : RtcState) : Type 0 where
  pub whole : s.last_init_time.time_nanos ≡ 0
  pub far : s.last_init_time.time_seconds < 2 ^ 62
  pub word : s.last_init_boottime < 2 ^ 64

same_reading_lem : (a b : CmosRtc) → same_reading a b ≡ true → a ≡ b
same_reading_lem a b e = ground arith

true_not_false : true ≡ false → ⊥
true_not_false e = cc

-- Each of the readings that failed to confirm differs from the first.
pub Differ : CmosRtc → List CmosRtc → Type 0
Differ values [] = Unit
Differ values (values2 ∷ rest) = (same_reading values2 values ≡ false) × Differ values rest

-- The loop that confirms a reading ends with the very first reading, if a later one equals it; when
-- none does, it goes on for as long as there are readings.
pub confirm_lem :
    (values : CmosRtc) (rest : List CmosRtc)
    → ((confirm values rest ≡ some values) × (Differ values rest → ⊥))
      ⊎ ((confirm values rest ≡ none) × Differ values rest)
unfolding confirm Differ
confirm_lem values [] = inr (refl, tt)
confirm_lem values (values2 ∷ rest) = elim (Bool-cases (same_reading values2 values)) [
  | inl e ↦ inl (
    ground (arith, e, same_reading_lem values2 values),
    λ (differs, _). true_not_false (sym e ∙ differs),
  )
  | inr e ↦ elim (confirm_lem values rest) [
    | inl (found, agrees) ↦ inl (ground (arith, e, found), λ (_, others). agrees others)
    | inr (missing, others) ↦ inr (ground (arith, e, missing), (e, others))
  ]
]
