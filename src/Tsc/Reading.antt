-- ===== src/Tsc/Reading.antt =====
-- What the counter's readings stand for.
use xinix.Base.{
  ℕ, ◌+◌, ◌*◌, ◌/◌, ◌%◌, ◌^◌, ◌≤◌, ◌<◌, ◌≡◌, arith, false, Option, none, some, ◌==◌, u32, u64, ap,
  sym, ◌∙◌,
}
use native.Mathlib.Nat.{mod-lt, div-lt_iff_lt-mul, mul-add-div_right, div-add-mod'}
use xinix.Clock.{Duration}
use xinix.Clock.Arithmetic.{IsNormal}
use xinix.Tsc.{read_tsc}

-- The nanoseconds of a time
abbrev pub nanos_of : Duration → ℕ
nanos_of d = d.time_seconds * 1_000_000_000 + d.time_nanos

-- What a reading of the counter comes to
abbrev pub Reads : ℕ → ℕ → Option Duration → Type 0
Reads hz raw none = ⊥
Reads hz raw (some d) = IsNormal d × (nanos_of d ≡ raw * 1_000_000_000 / hz)

-- At a frequency that is not zero, and small enough that the nanoseconds do not overflow a word,
-- `read_tsc` gives the time of the raw count in whole nanoseconds, rounded down.
pub read_tsc_lem :
    (hz raw : ℕ)
    → 0 < hz
    → hz * 1_000_000_000 ≤ 2 ^ 64
    → raw < 2 ^ 64
    → Reads hz raw (read_tsc hz raw)
unfolding read_tsc
read_tsc_lem hz raw positive small word =
    let ticks = raw % hz in
    let below : ticks < hz = mod-lt raw positive in
    let inside : ticks * 1_000_000_000 < hz * 1_000_000_000 = omega (arith, below) in
    let nanos : ticks * 1_000_000_000 / hz < 1_000_000_000 =
      (div-lt_iff_lt-mul positive).1 (omega (arith, inside)) in
    let seconds : raw / hz < 2 ^ 64 =
      (div-lt_iff_lt-mul positive).1 (omega (arith, word, positive)) in
    let whole : u64 (ticks * 1_000_000_000) ≡ ticks * 1_000_000_000 =
      ground (arith, inside, small) in
    let low : u32 (ticks * 1_000_000_000 / hz) ≡ ticks * 1_000_000_000 / hz =
      ground (arith, nanos) in
    let split : raw * 1_000_000_000 ≡ raw / hz * 1_000_000_000 * hz + ticks * 1_000_000_000 =
      grind (arith, div-add-mod' raw hz) in
    let sum : raw / hz * 1_000_000_000 + ticks * 1_000_000_000 / hz ≡ raw * 1_000_000_000 / hz =
      sym (mul-add-div_right positive (raw / hz * 1_000_000_000) (ticks * 1_000_000_000))
      ∙ ap (λ (k : ℕ). k / hz) (sym split) in
    let some_hz : (hz == 0) ≡ false = ground (arith, positive) in
    rw (Reads, some_hz, whole, low) (record { seconds_in = seconds; nanos_in = nanos }, sum)
