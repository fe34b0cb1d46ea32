-- ===== src/Console/Examples.antt =====
-- The prompt at inputs.
use xinix.Base.{ℕ, refl, arith, false, false, List, [], ◌∷◌}
use xinix.Bytes.{Memory}
use xinix.Keyboard.{ScanStatus}
use xinix.Console.{Prompt, type_keys}
use xinix.Console.Line.{IsLine}
use xinix.Console.Session.{empty, Runs, type_keys-Runs}

abbrev blank : Memory
blank a = 0

abbrev fresh : Prompt
fresh = record {
  heap = record { ptr = 0x2020; limit = 0x3000 };
  memory = blank;
  line = 0x2000;
  line_capacity = 32;
  pos = 0;
  line_len = 0;
}

abbrev fresh-IsLine : IsLine empty fresh
fresh-IsLine = record {
  pos_at = refl;
  len_at = refl;
  left_at = λ i below. absurd (omega (arith, below));
  right_at = λ i below. absurd (omega (arith, below));
  room = omega arith;
  narrow = omega arith;
  placed = omega arith;
  bounded = record { ptr_in = omega arith; limit_in = omega arith };
}

abbrev key : ℕ → ScanStatus
key code = record {
  scan_code = code;
  modifiers = record { shift = false; ctrl = false; alt = false };
}

-- Two letters, a step to the left, a letter, and Enter
abbrev typed : List ScanStatus
typed = key 65 ∷ key 66 ∷ key 81 ∷ key 67 ∷ key 0x8043 ∷ key 58 ∷ []

type_keys-Runs_example : Runs typed fresh (type_keys typed fresh)
type_keys-Runs_example = type_keys-Runs typed fresh fresh-IsLine
