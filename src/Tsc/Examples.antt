-- ===== src/Tsc/Examples.antt =====
-- The counter and the timer at inputs.
use xinix.Base.{ℕ, ◌*◌, ◌^◌, ◌<◌, arith, List, [], ◌∷◌, length}
use xinix.Clock.{Duration}
use xinix.Tsc.{Cpuid, read_tsc, timer_irqs}
use xinix.Tsc.Reading.{Reads, read_tsc_lem}
use xinix.Tsc.Ticks.{IsTime, elapsed, root_timer, Counts, timer_irqs_lem}

abbrev cpu : Cpuid
cpu = record { max_leaf = 0x16; eax15 = 2; ebx15 = 176; ecx15 = 24_000_000; eax16 = 2100 }

read_tsc_lem_example : Reads 3_000_000_000 10_000_000_001 (read_tsc 3_000_000_000 10_000_000_001)
read_tsc_lem_example =
    read_tsc_lem 3_000_000_000 10_000_000_001 (omega arith) (omega arith) (omega arith)

abbrev at : ℕ → ℕ → Duration
at s n = record { time_seconds = s; time_nanos = n }

abbrev at-IsTime : (s n : ℕ) → s < 2 ^ 43 → n < 1_000_000_000 → IsTime (at s n)
at-IsTime s n small below = record { seconds_in = small; nanos_in = below }

-- Two ticks, the second one across a second
abbrev readings : List Duration
readings = at 5 900_000_999 ∷ at 6 100_000_000 ∷ []

timer_irqs_lem_example :
    Counts 7
      (elapsed (at 5 0) readings)
      (999 * length readings)
      (timer_irqs readings (root_timer (at 5 0) 7))
timer_irqs_lem_example =
    timer_irqs_lem readings (at 5 0) 7 (at-IsTime 5 0 (omega arith) (omega arith))
      (
        omega arith,
        at-IsTime 5 900_000_999 (omega arith) (omega arith),
        (omega arith, at-IsTime 6 100_000_000 (omega arith) (omega arith), tt),
      )
      (omega arith)
