-- ===== src/Uuid/Examples.antt =====
-- Identifiers at inputs.
use xinix.Base.{ℕ, some, List, [], ◌∷◌, replicate}
use xinix.Clock.{RtcState, read_global_rtc}
use xinix.Uuid.{Buffer, WordBuffer, uuid_genv7}
use xinix.Uuid.Layout.{Gives7, uuid_genv7_lem}

abbrev stack : Buffer
stack = record { buf = []; res = record { uuid_lo = 0x1234; uuid_hi = 0xFFFF_FFFF_FFFF_FFFF } }

abbrev bytes : List ℕ
bytes = replicate 16 0xAB

abbrev clock : RtcState
clock = record {
  last_init_time = record { time_seconds = 1_700_000_000; time_nanos = 0 };
  last_init_boottime = 5;
}

abbrev words : WordBuffer
words = record { buf = []; res = 0x1111 ∷ 0x2222 ∷ [] }

uuid_genv7_lem_example :
    Gives7
      (some bytes)
      (read_global_rtc clock 2_000_005)
      words.res
      (uuid_genv7 (some bytes) clock 2_000_005 words)
uuid_genv7_lem_example = uuid_genv7_lem (some bytes) clock 2_000_005 words
