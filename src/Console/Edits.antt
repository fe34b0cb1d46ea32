-- ===== src/Console/Edits.antt =====
-- The edits of a text with its cursor, and what the keys that move in it leave of a line.
use xinix.Base.{
  ℕ, zero, suc, ◌+◌, ◌-◌, ◌<◌, ◌≡◌, ap, sym, ◌∙◌, arith, Bool, true, false, not, ◌&&◌, Option, none,
  some, List, [], ◌∷◌, ◌==◌, ltb, if◌then◌else◌, bit_and, get_or, length,
}
use native.Mathlib.Decide.{dec_lt}
use xinix.Keyboard.{ScanStatus, get_char_for_scancode}
use xinix.ScanTable.Codes.{
  key_scan_release, key_scan_backspace, key_scan_enter, key_scan_tab, key_scan_arrow_left,
  key_scan_arrow_right,
}
use xinix.Console.{Prompt, backspace}
use xinix.Console.Line.{Zipper, IsLine, backspace-IsLine}

-- What an edit does to the text
abbrev pub delete : Zipper → Zipper
delete z = elim z.left [ [] ↦ z | c ∷ left ↦ record z { left = left } ]

abbrev pub go_left : Zipper → Zipper
go_left z = elim z.left [ [] ↦ z | c ∷ left ↦ record { left = left; right = c ∷ z.right } ]

abbrev pub go_right : Zipper → Zipper
go_right z = elim z.right [ [] ↦ z | c ∷ right ↦ record { left = c ∷ z.left; right = right } ]

abbrev pub insert : Option ℕ → Zipper → Zipper
insert none z = z
insert (some ch) z = if ch == 0 then z else record z { left = ch ∷ z.left }

-- A status that the prompt heeds: a key that was pressed
abbrev pub is_press : ScanStatus → Bool
is_press k = not (k.scan_code == 0) && bit_and k.scan_code key_scan_release == 0

abbrev pub is_enter : ScanStatus → Bool
is_enter k = is_press k && k.scan_code == key_scan_enter

abbrev pub edit : ScanStatus → Zipper → Zipper
edit k z =
    if not (is_press k)
    then z
    else if k.scan_code == key_scan_backspace
    then delete z
    else if k.scan_code == key_scan_arrow_left
    then go_left z
    else if k.scan_code == key_scan_arrow_right
    then go_right z
    else if k.scan_code == key_scan_tab
    then z
    else insert (get_char_for_scancode k.scan_code k.modifiers) z

-- A zipper of two lists
abbrev pub cursor : List ℕ → List ℕ → Zipper
cursor left right = record { left = left; right = right }

pub delete-IsLine :
    (left right : List ℕ) (p : Prompt)
    → IsLine (cursor left right) p
    → IsLine (delete (cursor left right)) (backspace p)
unfolding backspace
delete-IsLine [] right p is =
    let start : (p.pos == 0) ≡ true = ground (arith, is.pos_at) in rw start is
delete-IsLine (c ∷ left) right p is = backspace-IsLine c left right p is

pub go_left-IsLine :
    (left right : List ℕ) (p : Prompt)
    → IsLine (cursor left right) p
    → IsLine
        (go_left (cursor left right))
        (if not (p.pos == 0) then record p { pos = p.pos - 1 } else p)
go_left-IsLine [] right p is =
    let start : (p.pos == 0) ≡ true = ground (arith, is.pos_at) in rw start is
go_left-IsLine (c ∷ left) right p is =
    let inner : (p.pos == 0) ≡ false = ground (arith, is.pos_at) in
    let moved : IsLine (cursor left (c ∷ right)) (record p { pos = p.pos - 1 }) = record {
      pos_at = omega (arith, is.pos_at);
      len_at = omega (arith, is.len_at);
      left_at = λ i below.
          let deeper : p.pos - 1 - i ≡ suc (p.pos - 1 - 1 - i) = omega (arith, below) in
          is.left_at i (omega (arith, below)) ∙ ap (λ (k : ℕ). get_or (c ∷ left) k 0) deeper;
      right_at = right_at;
      room = is.room;
      narrow = is.narrow;
      placed = is.placed;
      bounded = is.bounded;
    } in
    rw inner moved
  where
    right_at :
        (i : ℕ)
        → i < suc (length right)
        → p.memory (p.line + (p.pos - 1 + i)) ≡ get_or (c ∷ right) i 0
    right_at zero below =
        let at : p.line + (p.pos - 1 + 0) ≡ p.line + (p.pos - 1) = omega arith in
        let first : p.pos - 1 - (p.pos - 1) ≡ 0 = omega arith in
        ap p.memory at
        ∙ is.left_at (p.pos - 1) (omega (arith, is.pos_at))
        ∙ ap (λ (k : ℕ). get_or (c ∷ left) k 0) first
    right_at (suc i) below =
        let at : p.line + (p.pos - 1 + suc i) ≡ p.line + (p.pos + i) = omega (arith, is.pos_at) in
        ap p.memory at ∙ is.right_at i (omega (arith, below))

pub go_right-IsLine :
    (left right : List ℕ) (p : Prompt)
    → IsLine (cursor left right) p
    → IsLine
        (go_right (cursor left right))
        (if ltb p.pos p.line_len then record p { pos = p.pos + 1 } else p)
go_right-IsLine left [] p is =
    let end : ltb p.pos p.line_len ≡ false = ground (arith, is.pos_at, is.len_at) in rw end is
go_right-IsLine left (c ∷ right) p is =
    let inner : ltb p.pos p.line_len ≡ true = ground (arith, is.pos_at, is.len_at) in
    let moved : IsLine (cursor (c ∷ left) right) (record p { pos = p.pos + 1 }) = record {
      pos_at = omega (arith, is.pos_at);
      len_at = omega (arith, is.len_at);
      left_at = λ i below. elim (dec_lt i p.pos) [
        | yes before ↦
            let deeper : p.pos + 1 - 1 - i ≡ suc (p.pos - 1 - i) = omega arith in
            is.left_at i before ∙ ap (λ (k : ℕ). get_or (c ∷ left) k 0) (sym deeper)
        | no here ↦
            let at : p.line + i ≡ p.line + (p.pos + 0) = omega (arith, below) in
            let first : p.pos + 1 - 1 - i ≡ 0 = omega arith in
            ap p.memory at
            ∙ is.right_at 0 (omega arith)
            ∙ ap (λ (k : ℕ). get_or (c ∷ left) k 0) (sym first)
      ];
      right_at = λ i below.
          let at : p.line + (p.pos + 1 + i) ≡ p.line + (p.pos + suc i) = omega arith in
          ap p.memory at ∙ is.right_at (suc i) (omega (arith, below));
      room = is.room;
      narrow = is.narrow;
      placed = is.placed;
      bounded = is.bounded;
    } in
    rw inner moved
