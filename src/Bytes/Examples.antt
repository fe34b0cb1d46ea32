-- ===== src/Bytes/Examples.antt =====
-- The byte routines at inputs.
use xinix.Base.{ℕ, zero, suc, ◌+◌, ◌≤◌, ◌≡◌, refl, inr, none, some, if◌then◌else◌, ◌==◌, arith}
use xinix.Bytes.{
  Memory, Mapped, memcpy, memmove, memset, memcmp, compare_from, Sign, same, minus, strlen, strnlen,
  prekernel_strnlen,
}
use xinix.Bytes.Copy.{moved, memmove_lem, memcpy_lem}
use xinix.Bytes.Strings.{IsText, prekernel_strnlen_lem}

-- Every byte holds its address.
abbrev ramp : Memory
ramp a = a

memmove_lem_example : memmove 12 10 5 ramp 14 ≡ moved 12 10 5 ramp 14
memmove_lem_example = memmove_lem 12 10 5 ramp 14

memmove_overlap : memmove 12 10 5 ramp 14 ≡ 12
unfolding memmove xinix.Bytes.copy_up xinix.Bytes.copy_down
memmove_overlap = refl

memcpy_lem_example : memcpy 20 10 5 ramp 24 ≡ moved 20 10 5 ramp 24
memcpy_lem_example = memcpy_lem 20 10 5 ramp 24 (inr (omega arith))

memcmp-ramp : memcmp 10 20 3 ramp ≡ minus
unfolding memcmp
memcmp-ramp = refl

-- "ab" at 100, with nothing mapped behind its end mark.
abbrev ab : Mapped
ab a = if a == 100 then some 97 else if a == 101 then some 98 else if a == 102 then some 0 else none

ab-IsText : IsText ab 100 2
ab-IsText zero lt = (97, refl, omega arith)
ab-IsText (suc zero) lt = (98, refl, omega arith)
ab-IsText (suc (suc i)) lt = absurd (omega arith)

abbrev no_end : Mapped
no_end a = if a == 100 then some 97 else none

no_end-IsText : IsText no_end 100 1
no_end-IsText zero lt = (97, refl, omega arith)
no_end-IsText (suc i) lt = absurd (omega arith)

ab_readable : (j : ℕ) → j ≤ 2 → (c : ℕ) × (ab (100 + j) ≡ some c)
ab_readable zero le = (97, refl)
ab_readable (suc zero) le = (98, refl)
ab_readable (suc (suc zero)) le = (0, refl)
ab_readable (suc (suc (suc j))) le = absurd (omega arith)

prekernel_strnlen_lem_example : prekernel_strnlen ab 100 9 ≡ some 2
prekernel_strnlen_lem_example = prekernel_strnlen_lem ab 100 2 9 ab-IsText (inr (omega arith, refl))
