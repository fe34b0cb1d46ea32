-- ===== src/Auxv.antt =====
-- The auxiliary vector that the kernel starts with: the loop at the start of `kmain`, and `getauxval`,
-- of kernel/src/common/main.c.
pub mod Values
mod Examples
use xinix.Base.{
  ℕ, ◌+◌, ◌-◌, Bool, true, false, Option, none, some, List, [], ◌∷◌, ◌==◌, ltb, ◌||◌, if◌then◌else◌,
  set, get_elem?, length,
}

-- `auxv_t`, with the value as a word
pub record AuxvEntry : Type 0 where
  pub a_type : ℕ
  pub a_un : ℕ

-- The loop over the vector up to AT_NULL, into the array `__auxent` of 126 words; `none` is a write
-- outside the array, or a vector without an end.
pub store_auxv : List AuxvEntry → List ℕ → Option (List ℕ)
store_auxv [] auxent = none
store_auxv (ent ∷ ents) auxent =
    let skipped = store_auxv ents auxent in
    let stored = store_auxv ents (set auxent (ent.a_type - 2) ent.a_un) in
    if ent.a_type == 0
    then some auxent
    else if ent.a_type == 1
    then skipped
    else if ltb (ent.a_type - 2) (length auxent)
    then stored
    else none

-- `none` is a read outside the array.
pub getauxval : List ℕ → ℕ → Option ℕ
getauxval auxent a_type =
    if ltb a_type 2 || ltb 128 a_type then some 0 else get_elem? auxent (a_type - 2)
