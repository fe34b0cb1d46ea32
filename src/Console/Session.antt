-- ===== src/Console/Session.antt =====
-- A line typed at the prompt, up to the command that `eval` takes it for.
use xinix.Base.{
  ℕ, suc, ◌+◌, ◌-◌, ◌<◌, ◌≡◌, ◌≢◌, refl, ap, sym, ◌∙◌, arith, inl, inr, Bool-cases, Bool, true,
  false, not, Option, none, some, List, [], ◌∷◌, ◌==◌, if◌then◌else◌, get_or, length, ascii,
}
use mathlib.Core.Path.{subst}
use xinix.Heap.{Heap, malloc}
use xinix.Heap.Alloc.{IsBounded, round_up, aligned_alloc_lem}
use xinix.Bytes.{Memory}
use xinix.Keyboard.{ScanStatus, get_char_for_scancode}
use xinix.ScanTable.Codes.{
  key_scan_backspace, key_scan_tab, key_scan_arrow_left, key_scan_arrow_right,
}
use xinix.Console.{
  Prompt, Typed, edited, entered, no_memory, outside, type_keys, Command, echo, time, crash,
  pcontext, not_found, eval, next_line, start_prompt,
}
use xinix.Console.Line.{Zipper, IsLine}
use xinix.Console.Edits.{delete, go_left, go_right, insert, is_press, edit, is_enter}
use xinix.Console.Typing.{
  edits, ended, StopsAt, Halts, IsUnmapped, FollowsAll, type_keys-FollowsAll,
}
use xinix.Console.Eval.{IsText, is_prefix, is_same, eval_lem}

-- The text of a zipper
abbrev pub close : List ℕ → List ℕ → List ℕ
close [] right = right
close (c ∷ left) right = close left (c ∷ right)

-- No character is the end mark.
abbrev NoMark : List ℕ → Type 0
NoMark [] = Unit {0}
NoMark (c ∷ cs) = (c ≢ 0) × NoMark cs

right-IsText :
    (m : Memory) (a : ℕ) (right : List ℕ)
    → NoMark right
    → ((i : ℕ) → i < length right → m (a + i) ≡ get_or right i 0)
    → m (a + length right) ≡ 0
    → IsText m a right
right-IsText m a [] marks at end = ap m (omega arith) ∙ end
right-IsText m a (c ∷ right) marks at end = (
  ap m (omega arith) ∙ at 0 (omega arith),
  marks.0,
  right-IsText m (a + 1) right marks.1
      (λ i below. ap m (omega arith) ∙ at (suc i) (omega (arith, below)))
      (ap m (omega arith) ∙ end),
)

close-IsText :
    (m : Memory) (a : ℕ) (left right : List ℕ)
    → NoMark left
    → ((i : ℕ) → i < length left → m (a + i) ≡ get_or left (length left - 1 - i) 0)
    → IsText m (a + length left) right
    → IsText m a (close left right)
close-IsText m a [] right marks at is = subst (λ k. IsText m k right) (omega arith) is
close-IsText m a (c ∷ left) right marks at is =
    let first : suc (length left) - 1 - length left ≡ 0 = omega arith in
    close-IsText m a left (c ∷ right) marks.1
      (λ i below.
        let deeper : suc (length left) - 1 - i ≡ suc (length left - 1 - i) = omega (arith, below) in
        at i (omega (arith, below)) ∙ ap (λ (k : ℕ). get_or (c ∷ left) k 0) deeper)
      (
        at (length left) (omega arith) ∙ ap (λ (k : ℕ). get_or (c ∷ left) k 0) first,
        marks.0,
        subst (λ k. IsText m k right) (omega arith) is,
      )

abbrev Unmarked : Zipper → Type 0
Unmarked z = NoMark z.left × NoMark z.right

ended-IsText :
    (z : Zipper) (p : Prompt)
    → IsLine z p
    → Unmarked z
    → IsText (ended p).memory p.line (close z.left z.right)
ended-IsText z p is marks =
    let at = is.pos_at in
    let len = is.len_at in
    close-IsText (ended p).memory p.line z.left z.right marks.0
      (λ i below.
        kept i (omega (arith, at, len))
        ∙ is.left_at i (omega (arith, at))
        ∙ ap (λ (k : ℕ). get_or z.left (k - 1 - i) 0) at)
      (right-IsText (ended p).memory (p.line + length z.left) z.right marks.1
        (λ i below.
          let place : p.line + length z.left + i ≡ p.line + (p.pos + i) = omega (arith, at) in
          ap (ended p).memory place
          ∙ kept (p.pos + i) (omega (arith, at, len))
          ∙ is.right_at i below)
        (ap (ended p).memory (omega (arith, at, len)) ∙ mark))
  where
    kept : (i : ℕ) → i < p.line_len → (ended p).memory (p.line + i) ≡ p.memory (p.line + i)
    kept i below = ground arith

    mark : (ended p).memory (p.line + p.line_len) ≡ 0
    mark = ground arith

if-Unmarked : (b : Bool) (x y : Zipper) → Unmarked x → Unmarked y → Unmarked (if b then x else y)
if-Unmarked true x y first second = first
if-Unmarked false x y first second = second

abbrev cursor : List ℕ → List ℕ → Zipper
cursor left right = record { left = left; right = right }

delete-Unmarked :
    (left right : List ℕ) → Unmarked (cursor left right) → Unmarked (delete (cursor left right))
delete-Unmarked [] right marks = marks
delete-Unmarked (c ∷ left) right marks = (marks.0.1, marks.1)

go_left-Unmarked :
    (left right : List ℕ) → Unmarked (cursor left right) → Unmarked (go_left (cursor left right))
go_left-Unmarked [] right marks = marks
go_left-Unmarked (c ∷ left) right marks = (marks.0.1, (marks.0.0, marks.1))

go_right-Unmarked :
    (left right : List ℕ) → Unmarked (cursor left right) → Unmarked (go_right (cursor left right))
go_right-Unmarked left [] marks = marks
go_right-Unmarked left (c ∷ right) marks = ((marks.1.0, marks.0), marks.1.1)

insert-Unmarked : (o : Option ℕ) (z : Zipper) → Unmarked z → Unmarked (insert o z)
insert-Unmarked none z marks = marks
insert-Unmarked (some ch) z marks = elim (Bool-cases (ch == 0)) [
  | inl mark ↦ rw mark marks
  | inr other ↦ rw other ((ground (arith, other), marks.0), marks.1)
]

edit-Unmarked : (k : ScanStatus) (z : Zipper) → Unmarked z → Unmarked (edit k z)
edit-Unmarked k z marks =
    let typed = insert (get_char_for_scancode k.scan_code k.modifiers) z in
    let tabbed = if k.scan_code == key_scan_tab then z else typed in
    let right = if k.scan_code == key_scan_arrow_right then go_right z else tabbed in
    let left = if k.scan_code == key_scan_arrow_left then go_left z else right in
    let back = if k.scan_code == key_scan_backspace then delete z else left in
    let typed_in = insert-Unmarked (get_char_for_scancode k.scan_code k.modifiers) z marks in
    let tabbed_in = if-Unmarked (k.scan_code == key_scan_tab) z typed marks typed_in in
    let right_in =
      if-Unmarked (k.scan_code == key_scan_arrow_right) (go_right z) tabbed
        (go_right-Unmarked z.left z.right marks) tabbed_in in
    let left_in =
      if-Unmarked (k.scan_code == key_scan_arrow_left) (go_left z) right
        (go_left-Unmarked z.left z.right marks) right_in in
    let back_in =
      if-Unmarked (k.scan_code == key_scan_backspace) (delete z) left
        (delete-Unmarked z.left z.right marks) left_in in
    if-Unmarked (not (is_press k)) z back marks back_in

edits-Unmarked : (ks : List ScanStatus) (z : Zipper) → Unmarked z → Unmarked (edits ks z).0
edits-Unmarked [] z marks = marks
edits-Unmarked (k ∷ ks) z marks = elim (Bool-cases (is_enter k)) [
  | inl enter ↦ rw enter marks
  | inr other ↦ rw other (edits-Unmarked ks (edit k z) (edit-Unmarked k z marks))
]

-- What the text of a line asks for; an echo prints from behind the first word on.
abbrev pub command_for : ℕ → List ℕ → Command
command_for line text =
    if is_prefix (ascii "echo ") text
    then echo (line + 5)
    else if is_same (ascii "time") text
    then time
    else if is_same (ascii "crash") text
    then crash
    else if is_same (ascii "pcontext") text
    then pcontext
    else not_found

abbrev pub empty : Zipper
empty = record { left = []; right = [] }

abbrev text_of : Zipper → List ℕ
text_of z = close z.left z.right

-- What keys typed at a prompt with an empty line come to
abbrev pub Runs : List ScanStatus → Prompt → Typed → Type 0
Runs ks p (edited q) = ((edits ks empty).1 ≡ false) × IsLine (edits ks empty).0 q
Runs ks p (entered q) =
    ((edits ks empty).1 ≡ true)
    × IsText q.memory q.line (text_of (edits ks empty).0)
    × (eval q.memory q.line ≡ command_for q.line (text_of (edits ks empty).0))
    × IsLine empty (next_line q)
Runs ks p no_memory = StopsAt Halts ks empty p
Runs ks p outside = StopsAt IsUnmapped ks empty p

next_line-IsLine : (z : Zipper) (p : Prompt) → IsLine z p → IsLine empty (next_line (ended p))
unfolding next_line
next_line-IsLine z p is = record {
  pos_at = refl;
  len_at = refl;
  left_at = λ i below. absurd (omega (arith, below));
  right_at = λ i below. absurd (omega (arith, below));
  room = omega (arith, is.room);
  narrow = is.narrow;
  placed = is.placed;
  bounded = is.bounded;
}

FollowsAll-Runs :
    (ks : List ScanStatus) (p : Prompt) (t : Typed) → FollowsAll ks empty p t → Runs ks p t
FollowsAll-Runs ks p (edited q) all = all
FollowsAll-Runs ks p (entered q) (enter, (r, is, same)) =
    let z = (edits ks empty).0 in
    let is_text = ended-IsText z r is (edits-Unmarked ks empty (tt, tt)) in
    subst (λ x. Runs ks p (entered x)) (sym same)
      (
        enter,
        is_text,
        eval_lem (ended r).memory r.line (text_of z) is_text,
        next_line-IsLine z r is,
      )
FollowsAll-Runs ks p no_memory all = all
FollowsAll-Runs ks p outside all = all

-- For a prompt with an empty line: keys without an Enter leave it showing their text. An Enter ends
-- the line: its bytes are the text of the keys before it, `eval` does what that text asks for, and the
-- next line starts empty. Otherwise the loop came to a key, with the prompt showing the text of the keys
-- before it, that has no character in the map, or that types one at a line that is full and for which
-- the heap has no block of twice its size, or an int no room for that size.
pub type_keys-Runs :
    (ks : List ScanStatus) (p : Prompt) → IsLine empty p → Runs ks p (type_keys ks p)
type_keys-Runs ks p is = FollowsAll-Runs ks p (type_keys ks p) (type_keys-FollowsAll ks empty p is)

-- The outcome of `malloc(32)`
abbrev pub Starts : Heap → Option Prompt → Type 0
Starts h none = h.limit < round_up h.ptr 4 + 32
Starts h (some p) = IsLine empty p

-- On a heap whose addresses are in range: `run_prompt` starts with an empty line, unless the heap has
-- no block of 32 bytes.
pub start_prompt-IsLine : (h : Heap) (m : Memory) → IsBounded h → Starts h (start_prompt h m)
unfolding start_prompt malloc
start_prompt-IsLine h m bounded =
    elim (aligned_alloc_lem h 4 32 bounded (omega arith) (omega arith)) [
      | inr (more, fails) ↦ rw (Starts, fails) more
      | inl (room, given) ↦
          let a = round_up h.ptr 4 in
          let heap : Heap = (malloc h 32).1 in
          let end : heap.ptr ≡ a + 32 = ap (λ (r : Option ℕ × Heap). r.1.ptr) given in
          let limit : heap.limit ≡ h.limit = ap (λ (r : Option ℕ × Heap). r.1.limit) given in
          let line : IsLine empty (record {
            heap = heap;
            memory = m;
            line = a;
            line_capacity = 32;
            pos = 0;
            line_len = 0;
          }) =
            record {
              pos_at = refl;
              len_at = refl;
              left_at = λ i below. absurd (omega (arith, below));
              right_at = λ i below. absurd (omega (arith, below));
              room = omega arith;
              narrow = omega arith;
              placed = omega (arith, end);
              bounded = record {
                ptr_in = omega (arith, end, room, bounded.limit_in);
                limit_in = omega (arith, limit, bounded.limit_in);
              };
            } in
          rw (Starts, given) line
    ]
