-- ===== src/Stdio/Layout.antt =====
-- How `print_unsigned_int` lays out prefix, padding and digits.
use xinix.Base.{
  ℕ, ◌+◌, ◌-◌, ◌/◌, ◌^◌, ◌≤◌, ◌<◌, ◌≡◌, refl, sym, ap, ◌∙◌, arith, Bool-cases, inl, inr, List, [],
  ◌++◌, leb, if◌then◌else◌, length, replicate, length-replicate, length-append,
}
use xinix.Stdio.{
  StringFile, Printing, Flags, start_printing, write_checked, write_rep, prefix_if, print_short,
}
use xinix.Stdio.Chunks.{write_chunks_lem, write_checked-append, write_checked_count}
use xinix.Stdio.Decimal.{write_start}
use mathlib.Core.List.{append-nil}

abbrev pub prefix_of : Flags → List ℕ → List ℕ
prefix_of flags prefix = if flags.pound then prefix else []

-- The text of a number: prefix and digits, and what the width lacks as spaces behind them, as zeros
-- between them, or as spaces in front.
abbrev pub layout : Flags → List ℕ → List ℕ → ℕ → List ℕ
layout flags prefix digits min_width =
    let front = prefix_of flags prefix in
    let padding = min_width - (length front + length digits) in
    if flags.minus
    then front ++ digits ++ replicate padding 0x20
    else if flags.zero_pad
    then front ++ replicate padding 0x30 ++ digits
    else replicate padding 0x20 ++ front ++ digits

-- A printing that has written `text` in full
abbrev pub wrote : List ℕ → StringFile → Printing
wrote text f = write_checked text (start_printing f)

pub write_nil : (f : StringFile) → start_printing f ≡ wrote [] f
write_nil f =
    sym (write_start [] f (omega arith) (omega arith) ∙ ground (arith, append-nil f.contents))

module _ (f : StringFile) (text : List ℕ) where
  write_rep_lem :
      (count b : ℕ)
      → length text + count ≤ f.remaining
      → length text + count < 2 ^ 64
      → write_rep count b (wrote text f) ≡ wrote (text ++ replicate count b) f
  unfolding write_rep
  write_rep_lem count b room small =
      let size = length-replicate {A = ℕ} count b in
      let both = length-append {A = ℕ} text (replicate count b) in
      rw
        (
          write_chunks_lem (count / 64) count b (wrote text f) (omega arith)
              (omega (arith, write_checked_count text (start_printing f))),
          write_checked-append text (replicate count b) (start_printing f) (omega (arith, size)),
          write_start text f (omega arith) (omega arith),
          write_start (text ++ replicate count b) f (omega (arith, size, both))
              (omega (arith, size, both)),
        )
        refl

  prefix_lem :
      (flags : Flags) (prefix : List ℕ)
      → length text + length prefix < 2 ^ 64
      → prefix_if flags.pound prefix (wrote text f) ≡ wrote (text ++ prefix_of flags prefix) f
  prefix_lem flags prefix small = elim (Bool-cases flags.pound) [
    | inl on ↦ rw on (write_checked-append text prefix (start_printing f) (omega arith))
    | inr off ↦ rw off (ap (λ t. wrote t f) (sym (append-nil text)))
  ]

  digits_lem :
      (digits : List ℕ)
      → length text + length digits < 2 ^ 64
      → write_checked digits (wrote text f) ≡ wrote (text ++ digits) f
  digits_lem digits small = write_checked-append text digits (start_printing f) (omega arith)

layout_full :
    (flags : Flags) (prefix digits : List ℕ) (min_width : ℕ)
    → min_width - (length (prefix_of flags prefix) + length digits) ≡ 0
    → layout flags prefix digits min_width ≡ prefix_of flags prefix ++ digits
layout_full flags prefix digits min_width none_left = elim (Bool-cases flags.minus) [
  | inl left ↦ rw (none_left, left) (append-nil (prefix_of flags prefix ++ digits))
  | inr right ↦ elim (Bool-cases flags.zero_pad) [
    | inl on ↦
        rw (none_left, right, on) (ap (λ t. t ++ digits) (append-nil (prefix_of flags prefix)))
    | inr off ↦ rw (none_left, right, off) refl
  ]
]

-- On a stream with room the branches of the short case print the layout.
pub print_short_lem :
    (digits prefix : List ℕ) (flags : Flags) (min_width : ℕ) (f : StringFile)
    → min_width + length digits + length prefix ≤ f.remaining
    → min_width + length digits + length prefix < 2 ^ 64
    → print_short digits flags prefix min_width
        (length (prefix_of flags prefix) + length digits)
        (wrote [] f)
      ≡ wrote (layout flags prefix digits min_width) f
unfolding print_short
print_short_lem digits prefix flags min_width f room small =
    let front = prefix_of flags prefix in
    let width = length front + length digits in
    let padding = min_width - width in
    let front_size : length front ≤ length prefix = ground arith in
    let at_front = prefix_lem f [] flags prefix (omega arith) in
    elim (Bool-cases (leb min_width width)) [
      | inl fits ↦
          let none_left : padding ≡ 0 = ground (arith, fits) in
          rw (layout_full flags prefix digits min_width none_left, fits, at_front)
            (digits_lem f front digits (omega arith))
      | inr wide ↦
          let lacks : width + padding ≡ min_width = ground (arith, wide) in
          elim (Bool-cases flags.minus) [
            | inl left ↦
                rw (wide, left, at_front, digits_lem f front digits (omega arith))
                  (write_rep_lem f (front ++ digits) padding 0x20
                    (omega (arith, lacks, length-append front digits))
                    (omega (arith, lacks, length-append front digits)))
            | inr right ↦ elim (Bool-cases flags.zero_pad) [
              | inl on ↦
                  rw
                    (
                      wide,
                      right,
                      on,
                      at_front,
                      write_rep_lem f front padding 0x30 (omega (arith, lacks))
                          (omega (arith, lacks)),
                    )
                    (digits_lem f (front ++ replicate padding 0x30) digits (
                      omega (
                        arith,
                        lacks,
                        length-append {A = ℕ} front (replicate padding 0x30),
                        length-replicate {A = ℕ} padding 0x30,
                      )))
              | inr off ↦
                  rw
                    (
                      wide,
                      right,
                      off,
                      write_rep_lem f [] padding 0x20 (omega (arith, lacks)) (omega (arith, lacks)),
                      prefix_lem f (replicate padding 0x20) flags prefix
                          (omega (arith, lacks, length-replicate {A = ℕ} padding 0x20)),
                    )
                    (digits_lem f (replicate padding 0x20 ++ front) digits (
                      omega (
                        arith,
                        lacks,
                        length-append {A = ℕ} (replicate padding 0x20) front,
                        length-replicate {A = ℕ} padding 0x20,
                      )))
            ]
          ]
    ]
