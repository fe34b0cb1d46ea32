-- ===== src/Auxv/Values.antt =====
-- What `getauxval` finds after the vector was stored.
use xinix.Base.{
  ℕ, ◌-◌, ◌≤◌, ◌<◌, ◌≡◌, ◌≢◌, ◌⊎◌, refl, ap, ◌∙◌, arith, inl, inr, false, Bool-cases, Option, none,
  some, List, [], ◌∷◌, ◌==◌, ltb, ◌||◌, if◌then◌else◌, set, get_or, length, length-set,
  get_elem?-eq-get_or, get_elem?-eq-none, get_or-set_self, get_or-set_ne,
}
use xinix.Auxv.{AuxvEntry, store_auxv, getauxval}

-- The value of a type in a vector: that of the last entry of the type before AT_NULL
abbrev pub value_of : List AuxvEntry → ℕ → ℕ → ℕ
value_of [] a d = d
value_of (ent ∷ ents) a d =
    if ent.a_type == 0 then d else value_of ents a (if ent.a_type == a then ent.a_un else d)

-- A vector without AT_NULL, or with a type from 128 on before it
abbrev pub IsForeign : List AuxvEntry → Type 0
IsForeign [] = Unit {0}
IsForeign (ent ∷ ents) = (ent.a_type ≢ 0) × ((128 ≤ ent.a_type) ⊎ IsForeign ents)

abbrev Stores : List AuxvEntry → List ℕ → Option (List ℕ) → Type 0
Stores ents auxent none = IsForeign ents
Stores ents auxent (some after) =
    (length after ≡ 126)
    × ((a : ℕ)
        → 2 ≤ a
        → a < 128
        → get_or after (a - 2) 0 ≡ value_of ents a (get_or auxent (a - 2) 0))

-- The array after an entry is stored
set_value :
    (auxent : List ℕ) (ent : AuxvEntry)
    → ent.a_type - 2 < length auxent
    → ent.a_type ≢ 0
    → ent.a_type ≢ 1
    → (a : ℕ) → 2 ≤ a
    → a < 128
    → get_or (set auxent (ent.a_type - 2) ent.a_un) (a - 2) 0
      ≡ (if ent.a_type == a then ent.a_un else get_or auxent (a - 2) 0)
set_value auxent ent inside nonzero other a low high = elim (Bool-cases (ent.a_type == a)) [
  | inl same ↦
      let at : a - 2 ≡ ent.a_type - 2 = ground (arith, same) in
      rw same (
        ap (λ (k : ℕ). get_or (set auxent (ent.a_type - 2) ent.a_un) k 0) at
        ∙ get_or-set_self auxent (ent.a_type - 2) ent.a_un 0 inside)
  | inr different ↦ rw different (
      get_or-set_ne auxent (ent.a_type - 2) (a - 2) ent.a_un 0
        (ground (arith, different, nonzero, other, low)))
]

later :
    (ent : AuxvEntry) (ents : List AuxvEntry) (before auxent : List ℕ) (o : Option (List ℕ))
    → ent.a_type ≢ 0
    → ((a : ℕ)
        → 2 ≤ a
        → a < 128
        → get_or auxent (a - 2) 0 ≡ (if ent.a_type == a then ent.a_un else get_or before (a - 2) 0))
    → Stores ents auxent o
    → Stores (ent ∷ ents) before o
later ent ents before auxent none other same stores = (other, inr stores)
later ent ents before auxent (some after) other same stores =
    let go_on : (ent.a_type == 0) ≡ false = ground (arith, other) in
    (
      stores.0,
      λ a low high. stores.1 a low high ∙ ap (value_of ents a) (same a low high) ∙ rw go_on refl,
    )

store_auxv-Stores :
    (ents : List AuxvEntry) (auxent : List ℕ)
    → length auxent ≡ 126
    → Stores ents auxent (store_auxv ents auxent)
unfolding store_auxv
store_auxv-Stores [] auxent size = tt
store_auxv-Stores (ent ∷ ents) auxent size = elim (Bool-cases (ent.a_type == 0)) [
  | inl end ↦ rw (Stores, end) (size, λ a low high. rw end refl)
  | inr e0 ↦
      let other : ent.a_type ≢ 0 = ground (arith, e0) in
      elim (Bool-cases (ent.a_type == 1)) [
        | inl ignored ↦
            let same : (a : ℕ)
                → 2 ≤ a
                → a < 128
                → get_or auxent (a - 2) 0
                  ≡ (if ent.a_type == a then ent.a_un else get_or auxent (a - 2) 0) =
              λ a low high. ground (arith, ignored, low) in
            rw (e0, ignored)
              (later ent ents auxent auxent (store_auxv ents auxent) other same
                (store_auxv-Stores ents auxent size))
        | inr e1 ↦ elim (Bool-cases (ltb (ent.a_type - 2) (length auxent))) [
          | inl inside ↦
              rw (e0, e1, inside)
                (later ent ents auxent (set auxent (ent.a_type - 2) ent.a_un)
                  (store_auxv ents (set auxent (ent.a_type - 2) ent.a_un)) other
                  (set_value auxent ent (ground (arith, inside)) other (ground (arith, e1)))
                  (store_auxv-Stores ents (set auxent (ent.a_type - 2) ent.a_un)
                    (length-set auxent (ent.a_type - 2) ent.a_un ∙ size)))
          | inr past ↦ rw (e0, e1, past) (other, inl (ground (arith, past, size)))
        ]
      ]
]

-- What `getauxval` gives for a vector that was stored over an array
abbrev pub lookup : List AuxvEntry → List ℕ → ℕ → Option ℕ
lookup ents auxent a =
    if ltb a 2 || ltb 128 a
    then some 0
    else if a == 128
    then none
    else some (value_of ents a (get_or auxent (a - 2) 0))

abbrev pub Finds : List AuxvEntry → List ℕ → ℕ → Option (List ℕ) → Type 0
Finds ents auxent a none = IsForeign ents
Finds ents auxent a (some after) = getauxval after a ≡ lookup ents auxent a

found :
    (ents : List AuxvEntry) (auxent : List ℕ) (a : ℕ) (o : Option (List ℕ))
    → Stores ents auxent o
    → Finds ents auxent a o
unfolding getauxval
found ents auxent a none stores = stores
found ents auxent a (some after) stores = elim (Bool-cases (ltb a 2 || ltb 128 a)) [
  | inl outside ↦ rw outside refl
  | inr inside ↦ elim (Bool-cases (a == 128)) [
    | inl last ↦
        rw (inside, last) (get_elem?-eq-none after (a - 2) (ground (arith, last, stores.0)))
    | inr inner ↦
        rw (inside, inner)
          (get_elem?-eq-get_or after (a - 2) 0 (ground (arith, stores.0, inside, inner))
            ∙ ap some (stores.1 a (ground (arith, inside)) (ground (arith, inside, inner))))
  ]
]

-- On the array of 126 words: the loop writes outside the array, or passes the end of the vector, only
-- for a vector without AT_NULL or with a type from 128 on before it. Otherwise `getauxval` gives the
-- value of the last entry of a type from 2 to 127, the array's own word where there is none, and 0 for
-- every other type but 128, for which it reads behind the array.
pub getauxval-store_auxv :
    (ents : List AuxvEntry) (auxent : List ℕ) (a : ℕ)
    → length auxent ≡ 126
    → Finds ents auxent a (store_auxv ents auxent)
getauxval-store_auxv ents auxent a size =
    found ents auxent a (store_auxv ents auxent) (store_auxv-Stores ents auxent size)
