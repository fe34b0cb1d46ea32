-- ===== src/Stdio/Fuel.antt =====
-- `vfprintf` ends: a conversion leaves less of the format than it found.
use xinix.Base.{
  ◌⊎◌, ◌||◌, ℕ, zero, suc, ◌+◌, ◌-◌, ◌*◌, ◌≤◌, ◌<◌, ◌≡◌, refl, ap, arith, Bool-cases, Option-cases,
  inl, inr, Bool, true, false, Option, none, some, List, [], ◌∷◌, length, if◌then◌else◌, ◌==◌, ltb,
}
use xinix.Stdio.{Printing, Flags, write_checked}
use xinix.Stdio.Format.{
  Arg, literal, parse_flags, parse_number, parse_width, parse_precision, parse_length, Spec,
  next_word,
}
use xinix.Stdio.Convert.{Ending, ended, parse_spec, vfprintf_from, conversion, convert}

abbrev no_flags : Flags
no_flags = record { minus = false; plus = false; space = false; pound = false; zero_pad = false }

length-literal : (cs : List ℕ) → length (literal cs).1 ≤ length cs
unfolding literal
length-literal [] = omega arith
length-literal (c ∷ cs) = ground (arith, length-literal cs)

le_suc : {a b : ℕ} → a ≤ b → a ≤ suc b
le_suc h = omega arith

length-parse_flags : (cs : List ℕ) (flags : Flags) → length (parse_flags flags cs).1 ≤ length cs
unfolding parse_flags
length-parse_flags [] flags = omega arith
length-parse_flags (c ∷ cs) flags =
    elim (Bool-cases (c == 0x2d || (c == 0x2b || (c == 0x20 || (c == 0x23 || c == 0x30))))) [
      | inl flag ↦ rw flag (le_suc (length-parse_flags cs _))
      | inr other ↦ rw other (omega arith)
    ]

length-parse_number : (value : ℕ) (cs : List ℕ) → length (parse_number value cs).1 ≤ length cs
unfolding parse_number
length-parse_number value [] = omega arith
length-parse_number value (c ∷ cs) =
    ground (arith, length-parse_number (value * 10 + (c - 0x30)) cs)

length-parse_width :
    (cs : List ℕ) (args : List Arg) (v : ℕ) (rest : List ℕ) (args1 : List Arg)
    → parse_width cs args ≡ some (v, rest, args1)
    → length rest ≤ length cs
unfolding parse_width
length-parse_width cs args v rest args1 e = elim (Option-cases (next_word args)) [
  | inl missing ↦ ground (arith, missing, e, length-parse_number 0 cs)
  | inr (wa, found) ↦ ground (arith, found, e, length-parse_number 0 cs)
]

length-parse_precision :
    (cs : List ℕ) (args : List Arg) (v : Option ℕ) (rest : List ℕ) (args1 : List Arg)
    → parse_precision cs args ≡ some (v, rest, args1)
    → length rest ≤ length cs
unfolding parse_precision
length-parse_precision [] args v rest args1 e = ground (arith, e)
length-parse_precision (c ∷ cs) args v rest args1 e = elim (Option-cases (next_word args)) [
  | inl missing ↦ ground (arith, missing, e, length-parse_number 0 cs)
  | inr (wa, found) ↦ ground (arith, found, e, length-parse_number 0 cs)
]

length-parse_length : (cs : List ℕ) → length (parse_length cs).2 ≤ length cs
unfolding parse_length
length-parse_length [] = omega arith
length-parse_length (c ∷ []) = ground (arith, length-parse_number 0 [])
length-parse_length (c ∷ d ∷ cs) =
    ground (arith, length-parse_number 0 (d ∷ cs), length-parse_number 0 cs)

List-cases : {A : Type 0} (xs : List A) → (xs ≡ []) ⊎ ((x : A) × (ys : List A) × (xs ≡ x ∷ ys))
List-cases [] = inl refl
List-cases (x ∷ xs) = inr (x, xs, refl)

-- Both of two endings are one result.
abbrev EndAlike : Ending → Ending → Type 0
EndAlike first second = (r : Option Printing) × (first ≡ ended r) × (second ≡ ended r)

chosen_ends :
    (over : Bool) (x : Option Printing) (first second : Ending)
    → EndAlike first second
    → EndAlike (if over then ended x else first) (if over then ended x else second)
chosen_ends true x first second alike = (x, refl, refl)
chosen_ends false x first second alike = alike

module _ (fast32_bits fallen : ℕ) where
  length-parse_spec :
      (cs : List ℕ) (args : List Arg) (s : Spec)
      → parse_spec fast32_bits fallen cs args ≡ some s
      → length s.cursor ≤ length cs
  unfolding parse_spec
  length-parse_spec cs args s e =
      let at_width = (parse_flags no_flags cs).1 in
      elim (Option-cases (parse_width at_width args)) [
        | inl bad ↦ ground (arith, bad, e)
        | inr ((w, at_precision, args1), width) ↦
            elim (Option-cases (parse_precision at_precision args1)) [
              | inl bad ↦ ground (arith, bad, width, e)
              | inr ((p, at_length, args2), precise) ↦
                  let cursor : (parse_length at_length).2 ≡ s.cursor =
                    ground (arith, width, precise, e) in
                  omega (
                    arith,
                    length-parse_flags cs no_flags,
                    length-parse_width at_width args w at_precision args1 width,
                    length-parse_precision at_precision args1 p at_length args2 precise,
                    length-parse_length at_length,
                    ap length cursor,
                  )
            ]
      ]

  length-conversion :
      (cs : List ℕ) (args : List Arg) (p : Printing) (r : Printing × List ℕ × List Arg)
      → conversion fast32_bits fallen cs args p ≡ some r
      → length r.1 < length cs
  unfolding conversion
  length-conversion cs args p r e = elim (Option-cases (parse_spec fast32_bits fallen cs args)) [
    | inl bad ↦ ground (arith, bad, e)
    | inr (s, parsed) ↦ elim (List-cases s.cursor) [
      | inl over ↦ ground (arith, parsed, over, e)
      | inr (c, after, at) ↦ elim (Option-cases (convert fast32_bits fallen c s p)) [
        | inl bad ↦ ground (arith, parsed, at, bad, e)
        | inr (done, converted) ↦
            let rest : after ≡ r.1 = ground (arith, parsed, at, converted, e) in
            omega (arith, length-parse_spec cs args s parsed, ap length at, ap length rest)
      ]
    ]
  ]

  -- With more conversions allowed for than the format has characters, the loop over the format ends, and
  -- its result does not depend on how many are allowed for.
  pub vfprintf_from_enough :
      (more less : ℕ) (format : List ℕ) (args : List Arg) (p : Printing)
      → length format < more
      → length format < less
      → (r : Option Printing) × (vfprintf_from fast32_bits fallen more format args p ≡ ended r)
        × (vfprintf_from fast32_bits fallen less format args p ≡ ended r)
  unfolding vfprintf_from
  vfprintf_from_enough zero less format args p in_more in_less = absurd (omega arith)
  vfprintf_from_enough (suc more) zero format args p in_more in_less = absurd (omega arith)
  vfprintf_from_enough (suc more) (suc less) format args p in_more in_less =
      let before = (literal format).0 in
      let q = if ltb 0 (length before) then write_checked before p else p in
      elim (Bool-cases q.returned) [
        | inl over ↦ (some q, rw over refl, rw over refl)
        | inr going ↦ elim (List-cases (literal format).1) [
          | inl last ↦ (some q, rw (going, last) refl, rw (going, last) refl)
          | inr (percent, cs, at) ↦ elim (Option-cases (conversion fast32_bits fallen cs args q)) [
            | inl bad ↦ (none, rw (going, at, bad) refl, rw (going, at, bad) refl)
            | inr (r, converted) ↦
                let shorter : length r.1 < length format = omega (
                  arith,
                  length-conversion cs args q r converted,
                  ap length at,
                  length-literal format,
                ) in
                rw (going, at, converted)
                  (chosen_ends r.0.returned (some r.0)
                    (vfprintf_from fast32_bits fallen more r.1 r.2 r.0)
                    (vfprintf_from fast32_bits fallen less r.1 r.2 r.0)
                    (vfprintf_from_enough more less r.1 r.2 r.0 (omega (arith, shorter))
                      (omega (arith, shorter))))
          ]
        ]
      ]
