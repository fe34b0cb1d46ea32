-- ===== src/Auxv/Examples.antt =====
-- An auxiliary vector at inputs.
use xinix.Base.{ℕ, refl, List, [], ◌∷◌, replicate}
use xinix.Auxv.{AuxvEntry, store_auxv}
use xinix.Auxv.Values.{Finds, getauxval-store_auxv}

-- The offset of the direct map twice, between them an entry to ignore
abbrev vector : List AuxvEntry
vector =
    record { a_type = 101; a_un = 0x8000 }
    ∷ record { a_type = 1; a_un = 7 }
    ∷ record { a_type = 101; a_un = 0x9000 }
    ∷ record { a_type = 0; a_un = 0 }
    ∷ []

abbrev cleared : List ℕ
cleared = replicate 126 0

getauxval-store_auxv_example : Finds vector cleared 101 (store_auxv vector cleared)
getauxval-store_auxv_example = getauxval-store_auxv vector cleared 101 refl
