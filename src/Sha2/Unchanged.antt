-- ===== src/Sha2/Unchanged.antt =====
-- What the compression reads and what it leaves.
use xinix.Sha2.Tables.{sha2_k64, sha2_k32}
use xinix.Sha2.{Width}

abbrev pub width_64 : Width
width_64 = record { bits = 64; rounds = 80; constants = sha2_k64 }

abbrev pub width_32 : Width
width_32 = record { bits = 32; rounds = 64; constants = sha2_k32 }
