-- ===== src/Tsc/Ticks.antt =====
-- The boot time that the timer's interrupts count.
use xinix.Base.{
  ℕ, ◌+◌, ◌-◌, ◌*◌, ◌/◌, ◌^◌, ◌≤◌, ◌<◌, ◌≡◌, refl, arith, true, List, [], ◌∷◌, if◌then◌else◌, u64,
  length, ap, ◌∙◌, Bool-cases, inl, inr,
}
use xinix.Clock.{Duration, second, duration_sub, isr_increment_boottime}
use xinix.Tsc.{Timer, timer_step, timer_irq, timer_irqs}
use xinix.Tsc.Reading.{nanos_of}

-- A time before the year 278,000 that the microseconds do not overflow
pub record IsTime (d : Duration) : Type 0 where
  pub seconds_in : d.time_seconds < 2 ^ 43
  pub nanos_in : d.time_nanos < second

timer_step_lem :
    (dur last : Duration)
    → IsTime dur
    → IsTime last
    → nanos_of (timer_step dur last) ≡ nanos_of dur - nanos_of last
unfolding timer_step duration_sub
timer_step_lem dur last now before = ground arith

timer_step-IsTime : (dur last : Duration) → IsTime dur → IsTime last → IsTime (timer_step dur last)
unfolding timer_step duration_sub
timer_step-IsTime dur last now before = record {
  seconds_in = ground arith;
  nanos_in = ground arith;
}

-- The microseconds that a tick adds
micros_lem :
    (d : Duration)
    → IsTime d
    → u64 (d.time_seconds * 1_000_000 + d.time_nanos / 1000) ≡ nanos_of d / 1000
micros_lem d is = ground (arith, is.seconds_in, is.nanos_in)

-- On every processor the reading becomes the last one; on the root one a tick adds to the boot time
-- the whole microseconds since the last reading, and nothing when the reading lies before it.
pub timer_irq_lem :
    (dur : Duration) (t : Timer)
    → IsTime dur
    → IsTime t.last_timer_tsc
    → timer_irq dur t ≡ record t {
      last_timer_tsc = dur;
      boottime =
          if t.is_root_context
          then u64 (t.boottime + (nanos_of dur - nanos_of t.last_timer_tsc) / 1000)
          else t.boottime;
    }
unfolding timer_irq isr_increment_boottime
timer_irq_lem dur t now before =
    let last = t.last_timer_tsc in
    let micros =
      micros_lem (timer_step dur last) (timer_step-IsTime dur last now before)
      ∙ ap (λ (k : ℕ). k / 1000) (timer_step_lem dur last now before) in
    elim (Bool-cases t.is_root_context) [
      | inl root ↦ rw (root, micros) refl
      | inr other ↦ rw other refl
    ]

-- Readings of the counter that never go back
abbrev pub IsRising : Duration → List Duration → Type 0
IsRising last [] = Unit {0}
IsRising last (dur ∷ durs) = (nanos_of last ≤ nanos_of dur) × IsTime dur × IsRising dur durs

-- The last of the readings
abbrev pub latest : Duration → List Duration → Duration
latest last [] = last
latest last (dur ∷ durs) = latest dur durs

latest-rising :
    (last : Duration) (durs : List Duration)
    → IsRising last durs
    → nanos_of last ≤ nanos_of (latest last durs)
latest-rising last [] up = omega arith
latest-rising last (dur ∷ durs) up = omega (arith, up.0, latest-rising dur durs up.2)

-- The root processor's timer, and the nanoseconds between the first and the last of its readings
abbrev pub root_timer : Duration → ℕ → Timer
root_timer last boottime = record {
  last_timer_tsc = last;
  is_root_context = true;
  boottime = boottime;
}

abbrev pub elapsed : Duration → List Duration → ℕ
elapsed last durs = nanos_of (latest last durs) - nanos_of last

-- A counter that is at most the elapsed time behind, and at most so many nanoseconds
abbrev pub Counts : ℕ → ℕ → ℕ → Timer → Type 0
Counts before nanos slack t =
    (t.boottime * 1000 ≤ before * 1000 + nanos)
    × (before * 1000 + nanos ≤ t.boottime * 1000 + slack)

-- Over any run of interrupts of the root processor whose readings never go back, and while the
-- nanoseconds since the start fit a word, the boot time advances by the microseconds between the first
-- and the last reading, less at most 999 nanoseconds for each tick.
pub timer_irqs_lem :
    (durs : List Duration) (last : Duration) (boottime : ℕ)
    → IsTime last
    → IsRising last durs
    → boottime * 1000 + elapsed last durs < 2 ^ 64
    → Counts boottime
        (elapsed last durs)
        (999 * length durs)
        (timer_irqs durs (root_timer last boottime))
unfolding timer_irqs
timer_irqs_lem [] last boottime before up fits = (ground arith, ground arith)
timer_irqs_lem (dur ∷ durs) last boottime before up fits =
    let step = (nanos_of dur - nanos_of last) / 1000 in
    let above = latest-rising dur durs up.2 in
    let next : timer_irq dur (root_timer last boottime) ≡ root_timer dur (boottime + step) =
      timer_irq_lem dur (root_timer last boottime) up.1 before
      ∙ ap (root_timer dur) (ground (arith, up.0, above, fits)) in
    let (low, high) =
      timer_irqs_lem durs dur (boottime + step) up.1 up.2 (ground (arith, up.0, above, fits)) in
    rw (timer_irqs, next) (omega (arith, low, up.0, above), omega (arith, high, up.0, above))
