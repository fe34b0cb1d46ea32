-- ===== src/Tsc.antt =====
-- The time stamp counter, kernel/src/x86_64/tsc.c, and the timer interrupt of
-- kernel/src/common/main.c that counts the boot time with it.
pub mod Reading
pub mod Ticks
mod Examples
use xinix.Base.{
  ℕ, ◌+◌, ◌-◌, ◌*◌, ◌/◌, ◌%◌, ◌^◌, Bool, true, false, not, Option, none, some, List, [], ◌∷◌, ◌==◌,
  ltb, leb, if◌then◌else◌, u32, u64,
}
use xinix.Clock.{Duration, duration_sub, isr_increment_boottime}

-- The leaves of cpuid that `init_tsc` asks for: the highest leaf, leaf 0x15 and leaf 0x16
pub record Cpuid : Type 0 where
  pub max_leaf : ℕ
  pub eax15 : ℕ
  pub ebx15 : ℕ
  pub ecx15 : ℕ
  pub eax16 : ℕ

-- How `init_tsc` ends: with the ticks of a second, with one of its two halts, or with a division by
-- zero.
pub data TscInit : Type 0 where
  ready : ℕ → TscInit
  no_frequency faulty divide_error : TscInit

-- A division of words, by zero an exception
pub divide : ℕ → ℕ → TscInit
divide a b = if b == 0 then divide_error else ready (a / b)

-- `freq` is the entry AT_KXINIX_TSC_FREQ of the auxiliary vector, a 64-bit word. The product of the
-- leaf 0x16 and a million is one of 32 bits.
pub init_tsc : ℕ → Cpuid → TscInit
init_tsc freq c =
    if ltb c.max_leaf 0x15
    then (if freq == 0 then no_frequency else ready freq)
    else let core_freq = if not (c.ecx15 == 0) then c.ecx15 else u32 (c.eax16 * 1_000_000) in
      if not (c.eax15 == 0) then faulty else divide (u64 (core_freq * c.ebx15)) c.eax15

-- `read_tsc` on the raw count; `none` is the division by zero before `init_tsc`.
pub read_tsc : ℕ → ℕ → Option Duration
read_tsc tsc_ticks_per_second raw =
    let ticks = raw % tsc_ticks_per_second in
    if tsc_ticks_per_second == 0
    then none
    else some (record {
      time_seconds = raw / tsc_ticks_per_second;
      time_nanos = u32 (u64 (ticks * 1_000_000_000) / tsc_ticks_per_second);
    })

-- The fields of the context that the interrupt uses, and the counter of the boot time
pub record Timer : Type 0 where
  pub last_timer_tsc : Duration
  pub is_root_context : Bool
  pub boottime : ℕ

-- The step of a tick: one with negative seconds, in two's complement, is taken for zero.
pub timer_step : Duration → Duration → Duration
timer_step dur last =
    let step = duration_sub dur last in
    if leb (2 ^ 63) step.time_seconds then record { time_seconds = 0; time_nanos = 0 } else step

-- `timer_irq`, for what `read_tsc` gave
pub timer_irq : Duration → Timer → Timer
timer_irq dur t =
    let step = timer_step dur t.last_timer_tsc in
    let micros = u64 (step.time_seconds * 1_000_000 + step.time_nanos / 1000) in
    if t.is_root_context
    then record t { last_timer_tsc = dur; boottime = isr_increment_boottime t.boottime micros }
    else record t { last_timer_tsc = dur }

-- The interrupts of one run
pub timer_irqs : List Duration → Timer → Timer
timer_irqs [] t = t
timer_irqs (dur ∷ durs) t = timer_irqs durs (timer_irq dur t)
