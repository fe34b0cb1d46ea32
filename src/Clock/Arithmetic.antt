-- ===== src/Clock/Arithmetic.antt =====
-- `duration_add` and `duration_sub` of common/include/time.h against the time that they stand for.
use xinix.Base.{◌+◌, ◌*◌, ◌^◌, ◌≤◌, ◌<◌, ◌≡◌, ◌⊎◌, arith}
use xinix.Clock.{Duration, second, duration_add, duration_sub}

-- Nanoseconds below a second, seconds a word.
pub record IsNormal (d : Duration) : Type 0 where
  pub seconds_in : d.time_seconds < 2 ^ 64
  pub nanos_in : d.time_nanos < second

-- Without overflow of the seconds the sum stands for the sum of the two times, and it is normal but
-- when the nanoseconds add up to exactly one second.
pub duration_add_lem :
    (a b : Duration)
    → IsNormal a
    → IsNormal b
    → a.time_seconds + b.time_seconds + 1 < 2 ^ 64
    → let c = duration_add a b in
      (c.time_seconds * second + c.time_nanos
        ≡ a.time_seconds * second + a.time_nanos + (b.time_seconds * second + b.time_nanos))
      × (c.time_nanos ≤ second)
      × ((c.time_nanos < second) ⊎ (a.time_nanos + b.time_nanos ≡ second))
unfolding duration_add
duration_add_lem a b na nb fits = ground arith

-- Subtraction undoes addition, across every wrap of the seconds.
pub duration_sub-duration_add :
    (a b : Duration) → IsNormal a → IsNormal b → duration_sub (duration_add a b) b ≡ a
unfolding duration_add duration_sub
duration_sub-duration_add a b na nb = ground arith
