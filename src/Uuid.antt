-- ===== src/Uuid.antt =====
-- The generators of identifiers, kernel/src/common/uuid.c, for what `random_global_gen` gives.
pub mod Layout
mod Examples
use xinix.Base.{
  ℕ, ◌+◌, ◌-◌, ◌*◌, ◌/◌, ◌%◌, ◌^◌, Bool, true, false, Option, none, some, List, [], ◌∷◌, ltb, leb,
  ◌||◌, if◌then◌else◌, bit_and, bit_or, not64, u64, ◌<<<◌, get_or,
}
use xinix.Clock.{Duration, RtcState, read_global_rtc}

-- `uuid`
pub record Uuid : Type 0 where
  pub uuid_lo : ℕ
  pub uuid_hi : ℕ

-- The struct of `uuid_genv4` on the stack: the generator writes the bytes, and nothing writes `res`.
pub record Buffer : Type 0 where
  pub buf : List ℕ
  pub res : Uuid

-- The struct of `uuid_genv7`, with two words in place of the identifier
pub record WordBuffer : Type 0 where
  pub buf : List ℕ
  pub res : List ℕ

-- An identifier, an error, or the panic of the clock
pub data Generated : Type 0 where
  made : Uuid → Generated
  err_generic panic : Generated

pub uuid_genv4 : Option (List ℕ) → Buffer → Generated
uuid_genv4 none stack = err_generic
uuid_genv4 (some bytes) stack =
    let buffer = record stack { buf = bytes } in
    let res = buffer.res in
    made (record {
      uuid_lo = bit_or (bit_and res.uuid_lo (not64 0xC000_0000_0000_0000)) (2 <<< 62);
      uuid_hi = bit_or (bit_and res.uuid_hi (not64 0xF000)) (4 <<< 12);
    })

-- The milliseconds of a time, an int64_t as a word
pub unix_millis : Duration → ℕ
unix_millis dur = u64 (u64 (dur.time_seconds * 1000) + dur.time_nanos / 1_000_000)

pub uuid_at : ℕ → WordBuffer → Generated
uuid_at time buffer =
    if leb (2 ^ 63) time || ltb 0xFFFF_FFFF_FFFF time
    then err_generic
    else made (record {
      uuid_lo = bit_or (2 <<< 62) (bit_and (get_or buffer.res 1 0) 0x3FFF_FFFF_FFFF_FFFF);
      uuid_hi =
          bit_or (bit_or (u64 (time <<< 16)) (7 <<< 12)) (bit_and (get_or buffer.res 0 0) 0xFFF);
    })

-- `uuid_genv7`, with the state of the clock and the boot time
pub uuid_genv7 : Option (List ℕ) → RtcState → ℕ → WordBuffer → Generated
uuid_genv7 none clock boottime stack = err_generic
uuid_genv7 (some bytes) clock boottime stack =
    let buffer = record stack { buf = bytes } in
    elim (read_global_rtc clock boottime) [
      | none ↦ panic
      | some dur ↦ uuid_at (unix_millis dur) buffer
    ]
