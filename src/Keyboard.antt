-- ===== src/Keyboard.antt =====
-- kernel/src/common/keyboard.c: scan bytes to key events, the modifiers, and the event queue.
-- The globals and the static `scan_state` are one record. `none` is an access outside an array.
-- Console messages are left out; `push_event` is the list `events`, newest last.
pub mod Fifo
pub mod Pending
pub mod Decode
mod Examples
use xinix.Base.{
  ℕ, ◌+◌, ◌%◌, Bool, ◌||◌, true, false, Option, none, some, List, [], ◌∷◌, ◌++◌, ◌==◌, ltb,
  if◌then◌else◌, bit_and, bit_or, get_elem?, set, replicate, ascii,
}
use xinix.ScanTable.{
  ScanState, scan_init, scan_e0, scan_unknown, scan_error, Transition, init_table, e0_table,
}
use xinix.ScanTable.Codes.{
  key_scan_shift_left, key_scan_shift_right, key_scan_control_left, key_scan_control_right,
  key_scan_alt_left, key_scan_alt_right, key_scan_value_mask, key_scan_release,
}

-- `kbd_modifiers_t`
pub record Modifiers : Type 0 where
  pub shift : Bool
  pub ctrl : Bool
  pub alt : Bool

-- `kbd_scan_status_t`
pub record ScanStatus : Type 0 where
  pub scan_code : ℕ
  pub modifiers : Modifiers

pub record Keyboard : Type 0 where
  pub scan_state : ScanState
  pub queue_head : ℕ
  pub queue_tail : ℕ
  pub queue : List ScanStatus
  pub modifiers : Modifiers
  pub events : List ℕ

abbrev pub queue_len : ℕ
queue_len = 256

-- kernel/include/event.h
abbrev event_key : ℕ
event_key = 0x0100_0000

abbrev pub no_modifiers : Modifiers
no_modifiers = record { shift = false; ctrl = false; alt = false }

abbrev pub no_key : ScanStatus
no_key = record { scan_code = 0; modifiers = no_modifiers }

-- The globals as the kernel image has them.
abbrev pub power_on : Keyboard
power_on = record {
  scan_state = scan_init;
  queue_head = 0;
  queue_tail = 0;
  queue = replicate queue_len no_key;
  modifiers = no_modifiers;
  events = [];
}

abbrev is_key : ℕ → ℕ → Bool
is_key scan_code key = bit_and scan_code key_scan_value_mask == key

-- The first three tests of `kbd_enqueue`.
pub update_modifiers : Modifiers → ℕ → Modifiers
update_modifiers m scan_code =
    let down = bit_and scan_code key_scan_release == 0 in
    record {
      shift =
          if is_key scan_code key_scan_shift_left || is_key scan_code key_scan_shift_right
          then down
          else m.shift;
      ctrl =
          if is_key scan_code key_scan_control_left || is_key scan_code key_scan_control_right
          then down
          else m.ctrl;
      alt =
          if is_key scan_code key_scan_alt_left || is_key scan_code key_scan_alt_right
          then down
          else m.alt;
    }

-- `kbd_enqueue`. A full queue drops the key; the head is not taken modulo the length.
pub enqueue : Keyboard → ℕ → Option Keyboard
enqueue k scan_code =
    let m = update_modifiers k.modifiers scan_code in
    let status : ScanStatus = record { scan_code = scan_code; modifiers = m } in
    if (k.queue_head + 1) % queue_len == k.queue_tail
    then some (record k { modifiers = m })
    else if ltb k.queue_head queue_len
    then some (record k {
      modifiers = m;
      queue = set k.queue k.queue_head status;
      queue_head = k.queue_head + 1;
    })
    else none

-- `KBD_STATE_MACHINE[scan_state][input]`; there is no row for the two marks.
pub transition : ScanState → ℕ → Option Transition
transition scan_init input = get_elem? init_table input
transition scan_e0 input = get_elem? e0_table input
transition scan_unknown input = none
transition scan_error input = none

follow : ScanState → Keyboard → ℕ → Option Keyboard
follow scan_unknown k scan_code = some (record k { scan_state = scan_init })
follow scan_error k scan_code = some (record k { scan_state = scan_init })
follow next_state k scan_code =
    if scan_code == 0
    then some (record k { scan_state = next_state })
    else enqueue
        (record k {
          scan_state = next_state;
          events = k.events ++ (bit_or event_key scan_code ∷ []);
        })
        scan_code

-- `kbd_process_scancode_byte`
pub process_scancode_byte : Keyboard → ℕ → Option Keyboard
unfolding follow
process_scancode_byte k input = elim (transition k.scan_state input) [
  | none ↦ none
  | some t ↦ follow t.next_state k t.scan_code
]

-- `kbd_poll_key`
pub poll_key : Keyboard → Option (ScanStatus × Keyboard)
poll_key k =
    if k.queue_head == k.queue_tail
    then some (no_key, k)
    else elim (get_elem? k.queue k.queue_tail) [
      | none ↦ none
      | some status ↦ some (status, record k { queue_tail = k.queue_tail + 1 })
    ]

-- `SCANCODE_TO_CHAR_MAP_UNSHIFTED` and `SCANCODE_TO_CHAR_MAP_SHIFTED`: the entries that the source
-- writes, in the order of the key ascii, and zeros up to `NUM_KEY_SCAN_CODES`.
abbrev pub num_key_scan_codes : ℕ
num_key_scan_codes = 195

-- The seven keys from the left Alt to the right Control write nothing, Enter writes a new line,
-- four more write nothing, then come the space and the tab.
abbrev char_map : List ℕ → List ℕ → List ℕ
char_map signs letters =
    (0 ∷ signs)
    ++ (0 ∷ 0 ∷ 0 ∷ letters)
    ++ replicate 7 0
    ++ (10 ∷ replicate 4 0)
    ++ (32 ∷ 9 ∷ replicate 130 0)

pub unshifted_map : List ℕ
unshifted_map = char_map (ascii "`\\[],0123456789=") (ascii "abcdefghijklmnopqrstuvwxyz-.';/")

pub shifted_map : List ℕ
shifted_map = char_map (ascii "~|{}<)!@#$%^&*(+") (ascii "ABCDEFGHIJKLMNOPQRSTUVWXYZ_>\":?")

-- `kbd_get_char_for_scancode`
pub get_char_for_scancode : ℕ → Modifiers → Option ℕ
get_char_for_scancode scan_code m =
    if m.shift then get_elem? shifted_map scan_code else get_elem? unshifted_map scan_code
