-- ===== src/Console.antt =====
-- The prompt of the kernel, `run_prompt` and `eval` of kernel/src/common/main.c, over the modelled
-- keyboard, heap and byte routines; what is drawn on the screen is left out.
pub mod Line
pub mod Edits
pub mod Typing
pub mod Eval
pub mod Session
mod Examples
use xinix.Base.{
  ℕ, ◌+◌, ◌-◌, ◌*◌, ◌/◌, ◌%◌, ◌^◌, Bool, true, false, not, ◌&&◌, Option, none, some, List, [], ◌∷◌,
  ◌==◌, ltb, if◌then◌else◌, bit_and, sub64, ascii, ◌++◌,
}
use xinix.Bytes.{Memory, update, memcpy, memmove}
use xinix.Heap.{Heap, malloc}
use xinix.Keyboard.{ScanStatus, get_char_for_scancode}
use xinix.ScanTable.Codes.{
  key_scan_release, key_scan_backspace, key_scan_enter, key_scan_tab, key_scan_arrow_left,
  key_scan_arrow_right,
}

-- The locals of `run_prompt` with the heap and the memory; `line` is the address of the buffer.
pub record Prompt : Type 0 where
  pub heap : Heap
  pub memory : Memory
  pub line : ℕ
  pub line_capacity : ℕ
  pub pos : ℕ
  pub line_len : ℕ

-- `malloc(32)` is not tested: `none` stands for writing through a null pointer.
pub start_prompt : Heap → Memory → Option Prompt
start_prompt h m =
    let (line, heap) = malloc h 32 in
    elim line [
      | none ↦ none
      | some a ↦
          some (record {
            heap = heap;
            memory = m;
            line = a;
            line_capacity = 32;
            pos = 0;
            line_len = 0;
          })
    ]

-- What a key does: an edit, the end of the line, the halt without memory, or a character code read
-- outside the character map
pub data Typed : Type 0 where
  edited entered : Prompt → Typed
  no_memory outside : Typed

pub backspace : Prompt → Prompt
backspace p =
    if not (p.pos == 0)
    then record p {
      memory = memmove (p.line + (p.pos - 1)) (p.line + p.pos) (sub64 p.line_len p.pos) p.memory;
      pos = p.pos - 1;
      line_len = p.line_len - 1;
    }
    else p

-- A buffer of twice the size, when the character and the end mark do not both fit; `none` is the halt
-- without memory, or the overflow of the capacity, an int.
pub grow : Prompt → Option Prompt
grow p =
    let (new_line, heap) = malloc p.heap (p.line_capacity * 2) in
    let grown = λ (a : ℕ). record p {
      heap = heap;
      memory = memcpy a p.line p.line_capacity p.memory;
      line = a;
      line_capacity = p.line_capacity * 2;
    } in
    if p.line_len + 1 == p.line_capacity
    then (if ltb (p.line_capacity * 2) (2 ^ 31)
        then elim new_line [ none ↦ none | some a ↦ some (grown a) ]
        else none)
    else some p

pub put_char : ℕ → Prompt → Prompt
put_char ch p =
    let opened =
      memmove (p.line + (p.pos + 1)) (p.line + p.pos) (sub64 p.line_len p.pos) p.memory in
    record p {
      memory = update opened (p.line + p.pos) ch;
      pos = p.pos + 1;
      line_len = p.line_len + 1;
    }

pub insert_char : ℕ → Prompt → Typed
insert_char ch p = elim (grow p) [ none ↦ no_memory | some q ↦ edited (put_char ch q) ]

-- One turn of the inner loop, for a status that was polled; a line that ends gets its end mark.
pub type_key : ScanStatus → Prompt → Typed
type_key k p =
    if k.scan_code == 0
    then edited p
    else if not (bit_and k.scan_code key_scan_release == 0)
    then edited p
    else if k.scan_code == key_scan_backspace
    then edited (backspace p)
    else if k.scan_code == key_scan_enter
    then entered (record p { memory = update p.memory (p.line + p.line_len) 0 })
    else if k.scan_code == key_scan_arrow_left
    then edited (if not (p.pos == 0) then record p { pos = p.pos - 1 } else p)
    else if k.scan_code == key_scan_arrow_right
    then edited (if ltb p.pos p.line_len then record p { pos = p.pos + 1 } else p)
    else if k.scan_code == key_scan_tab
    then edited p
    else elim (get_char_for_scancode k.scan_code k.modifiers) [
      | none ↦ outside
      | some ch ↦ if not (ch == 0) then insert_char ch p else edited p
    ]

-- The inner loop over the keys that are polled
pub type_keys : List ScanStatus → Prompt → Typed
type_keys [] p = edited p
type_keys (k ∷ ks) p = elim (type_key k p) [
  | edited q ↦ type_keys ks q
  | entered q ↦ entered q
  | no_memory ↦ no_memory
  | outside ↦ outside
]

-- `line_len = 0; pos = 0;` after a line was evaluated
pub next_line : Prompt → Prompt
next_line p = record p { pos = 0; line_len = 0 }

-- What `eval` does: print the text from an address on, print the time, halt, raise an interrupt, or say
-- that it does not know the command.
pub data Command : Type 0 where
  echo : ℕ → Command
  time crash pcontext not_found : Command

-- `memcmp(line, text, n) == 0`, with the bytes of the text
pub starts_with : Memory → ℕ → List ℕ → Bool
starts_with m line [] = true
starts_with m line (c ∷ text) = m line == c && starts_with m (line + 1) text

pub eval : Memory → ℕ → Command
eval m line =
    if starts_with m line (ascii "echo ")
    then echo (line + 5)
    else if starts_with m line (ascii "time" ++ (0 ∷ []))
    then time
    else if starts_with m line (ascii "crash" ++ (0 ∷ []))
    then crash
    else if starts_with m line (ascii "pcontext" ++ (0 ∷ []))
    then pcontext
    else not_found
