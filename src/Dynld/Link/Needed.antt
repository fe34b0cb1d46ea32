-- ===== src/Dynld/Link/Needed.antt =====
-- A library that needs another one.
use xinix.Base.{
  ℕ, ◌+◌, ◌≤◌, ◌<◌, ◌≡◌, ◌⊎◌, refl, ap, sym, ◌∙◌, arith, inl, inr, Bool-cases, Bool, true, false,
  not, ◌&&◌, List, [], ◌∷◌, ◌==◌, if◌then◌else◌,
}
use xinix.Dynld.{ok, error, >>=_succeeds, Dyn, Tables, Words}
use xinix.Dynld.Tags.{DynTag, dyn_tag, is_null, is_needed, null}
use xinix.Dynld.Scan.{Link, at_base, scan_entry, scan_dynamic}
use xinix.Dynld.Link.{DynldState, check_needed, prepare, dynld_link}

-- An entry before the end names a library that is needed.
abbrev pub has_needed : List Dyn → Bool
has_needed [] = false
has_needed (d ∷ ds) =
    if is_null (dyn_tag d.d_tag)
    then false
    else if is_needed (dyn_tag d.d_tag)
    then true
    else has_needed ds

scan_entry-needed :
    (base : ℕ) (no_relocate : Bool) (a v : ℕ) (l : Link) (t : DynTag) (r : Link)
    → scan_entry base no_relocate a v l t ≡ ok r
    → (r.first_needed ≡ (if is_needed t && l.first_needed == 0 then a else l.first_needed))
      × (r.last_needed ≡ (if is_needed t && not (l.first_needed == 0) then a else l.last_needed))
unfolding scan_entry
scan_entry-needed base no_relocate a v l null r e = ground (arith, e)
scan_entry-needed base no_relocate a v l _ r e = ground (arith, e)

-- Once a first one is known it stays, and the last one comes later.
scan_later :
    (base : ℕ) (no_relocate : Bool) (a : ℕ) (ds : List Dyn) (l r : Link)
    → 0 < l.first_needed
    → scan_dynamic base no_relocate a ds l ≡ ok r
    → (r.first_needed ≡ l.first_needed) × ((r.last_needed ≡ l.last_needed) ⊎ (a ≤ r.last_needed))
unfolding scan_dynamic
scan_later base no_relocate a [] l r known e = cc
scan_later base no_relocate a (d ∷ ds) l r known e = elim (Bool-cases (is_null (dyn_tag d.d_tag))) [
  | inl last ↦
      let same : l ≡ r = ground (arith, last, e) in
      (
        ap (λ (x : Link). x.first_needed) (sym same),
        inl (ap (λ (x : Link). x.last_needed) (sym same)),
      )
  | inr more ↦
      let entry = scan_entry base no_relocate a d.d_val l (dyn_tag d.d_tag) in
      let (l1, one, others) =
        >>=_succeeds entry (λ l1. scan_dynamic base no_relocate (a + 16) ds l1) (rw more at e) in
      let (first, last) = scan_entry-needed base no_relocate a d.d_val l (dyn_tag d.d_tag) l1 one in
      let kept : l1.first_needed ≡ l.first_needed = ground (arith, first) in
      let (first', last') =
        scan_later base no_relocate (a + 16) ds l1 r (omega (arith, kept)) others in
      (
        first' ∙ kept,
        elim last' [
          | inr later ↦ inr (omega arith)
          | inl same ↦ elim (Bool-cases (is_needed (dyn_tag d.d_tag))) [
            | inl another ↦
                let here : l1.last_needed ≡ a = ground (arith, last, another) in
                inr (omega (arith, same, here))
            | inr other ↦ inl (same ∙ ground (arith, last, other))
          ]
        ],
      )
]

-- Either no library is needed, or the loop over them fails at the first.
abbrev Checked : List Dyn → ℕ → Link → Type 0
Checked ds a r =
    ((has_needed ds ≡ false) × (r.first_needed ≡ 0) × (r.last_needed ≡ 0))
    ⊎ ((has_needed ds ≡ true)
        × (a ≤ r.first_needed)
        × (check_needed ds a r.first_needed r.last_needed ≡ error 1))

check_needed-met :
    (ds : List Dyn) (a first last : ℕ)
    → (first == last) ≡ true
    → check_needed ds a first last ≡ ok tt
unfolding check_needed
check_needed-met [] a first last meet = rw meet refl
check_needed-met (d ∷ ds) a first last meet = rw (meet, check_needed) refl

no_error : {u : Unit {0}} → ok u ≡ error 1 → ⊥
no_error e = cc

-- What a later part of the section says holds of the whole.
Checked-cons :
    (d : Dyn) (ds : List Dyn) (a : ℕ) (r : Link)
    → has_needed (d ∷ ds) ≡ has_needed ds
    → 0 < a
    → Checked ds (a + 16) r
    → Checked (d ∷ ds) a r
unfolding check_needed
Checked-cons d ds a r same some (inl (nothing, first, last)) = inl (same ∙ nothing, first, last)
Checked-cons d ds a r same some (inr (there, later, fails)) =
    let elsewhere : (a == r.first_needed) ≡ false = ground (arith, later) in
    elim (Bool-cases (r.first_needed == r.last_needed)) [
      | inl meet ↦
          absurd (
            no_error (sym (check_needed-met ds (a + 16) r.first_needed r.last_needed meet) ∙ fails))
      | inr differ ↦
          inr (same ∙ there, omega (arith, later), rw (differ, elsewhere, check_needed) fails)
    ]

scan-Checked :
    (base : ℕ) (no_relocate : Bool) (a : ℕ) (ds : List Dyn) (l r : Link)
    → 0 < a
    → l.first_needed ≡ 0
    → l.last_needed ≡ 0
    → scan_dynamic base no_relocate a ds l ≡ ok r
    → Checked ds a r
unfolding scan_dynamic check_needed
scan-Checked base no_relocate a [] l r some first last e = cc
scan-Checked base no_relocate a (d ∷ ds) l r some first last e =
    elim (Bool-cases (is_null (dyn_tag d.d_tag))) [
      | inl end ↦
          let same : l ≡ r = ground (arith, end, e) in
          inl (
            rw end refl,
            ap (λ (x : Link). x.first_needed) (sym same) ∙ first,
            ap (λ (x : Link). x.last_needed) (sym same) ∙ last,
          )
      | inr more ↦
          let entry = scan_entry base no_relocate a d.d_val l (dyn_tag d.d_tag) in
          let (l1, one, others) =
            >>=_succeeds entry (λ l1. scan_dynamic base no_relocate (a + 16) ds l1)
              (rw more at e) in
          let (first', last') =
            scan_entry-needed base no_relocate a d.d_val l (dyn_tag d.d_tag) l1 one in
          elim (Bool-cases (is_needed (dyn_tag d.d_tag))) [
            | inr other ↦ Checked-cons d ds a r (rw (more, other) refl) some (
                scan-Checked base no_relocate (a + 16) ds l1 r (omega arith)
                  (ground (arith, first', other, first)) (ground (arith, last', other, last))
                  others)
            | inl another ↦
                let here : l1.first_needed ≡ a = ground (arith, first', another, first) in
                let none_yet : l1.last_needed ≡ 0 = ground (arith, last', another, first, last) in
                let (at, behind) =
                  scan_later base no_relocate (a + 16) ds l1 r (omega (arith, here)) others in
                let apart : (a == r.last_needed) ≡ false = elim behind [
                  | inl same ↦ ground (arith, same, none_yet)
                  | inr later ↦ ground (arith, later)
                ] in
                let self : (a == a) ≡ true = ground arith in
                inr (
                  rw (more, another) refl,
                  omega (arith, at, here),
                  rw (at, here, apart, self, another, check_needed) refl,
                )
          ]
    ]

check_needed_lem :
    (base : ℕ) (no_relocate : Bool) (dyn_at : ℕ) (dyn : List Dyn) (l : Link)
    → 0 < dyn_at
    → scan_dynamic base no_relocate dyn_at dyn (at_base base) ≡ ok l
    → check_needed dyn dyn_at l.first_needed l.last_needed
      ≡ (if has_needed dyn then error 1 else ok tt)
check_needed_lem base no_relocate dyn_at dyn l some scanned =
    elim (scan-Checked base no_relocate dyn_at dyn (at_base base) l some refl refl scanned) [
      | inl (nothing, first, last) ↦
          rw nothing
            (check_needed-met dyn dyn_at l.first_needed l.last_needed (ground (arith, first, last)))
      | inr (there, later, fails) ↦ rw there fails
    ]

prepare-needed :
    (t : Tables) (base : ℕ) (dyn : List Dyn) (dyn_at file_name : ℕ) (no_relocate : Bool) (m : Words)
    (l : Link)
    → 0 < dyn_at
    → has_needed dyn ≡ true
    → scan_dynamic base no_relocate dyn_at dyn (at_base base) ≡ ok l
    → prepare t base dyn dyn_at file_name no_relocate m ≡ error 1
unfolding prepare
prepare-needed t base dyn dyn_at file_name no_relocate m l some needs scanned =
    let check : check_needed dyn dyn_at l.first_needed l.last_needed ≡ error 1 =
      check_needed_lem base no_relocate dyn_at dyn l some scanned ∙ rw needs refl in
    rw (scanned, check) refl

-- A library whose dynamic section names, before its end, a library that it needs is never linked: if
-- the scan succeeds, `dynld_link` fails with -1 and leaves the table as it was.
pub dynld_link-needed :
    (t : Tables) (base : ℕ) (dyn : List Dyn) (dyn_at file_name : ℕ) (no_relocate : Bool)
    (s : DynldState) (m : Words) (l : Link)
    → 0 < dyn_at
    → has_needed dyn ≡ true
    → scan_dynamic base no_relocate dyn_at dyn (at_base base) ≡ ok l
    → dynld_link t base dyn dyn_at file_name no_relocate s m ≡ (error 1, s)
unfolding dynld_link
dynld_link-needed t base dyn dyn_at file_name no_relocate s m l some needs scanned =
    rw (prepare-needed t base dyn dyn_at file_name no_relocate m l some needs scanned, dynld_link)
      refl
