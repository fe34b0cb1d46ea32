-- ===== src/ScanTable.antt =====
-- `KBD_STATE_MACHINE` of kernel/src/common/keyboard.c: what each byte from the controller means
-- in each state of the scan.
pub mod Codes
use xinix.Base.{ℕ, List, [], ◌∷◌, ◌++◌, bit_or}
use Codes.{
  key_scan_backquote, key_scan_backslash, key_scan_bracket_left, key_scan_bracket_right,
  key_scan_comma,
}
use Codes.{key_scan_0, key_scan_1, key_scan_2, key_scan_3, key_scan_4}
use Codes.{key_scan_5, key_scan_6, key_scan_7, key_scan_8, key_scan_9}
use Codes.{key_scan_equal, key_scan_a, key_scan_b, key_scan_c, key_scan_d}
use Codes.{key_scan_e, key_scan_f, key_scan_g, key_scan_h, key_scan_i}
use Codes.{key_scan_j, key_scan_k, key_scan_l, key_scan_m, key_scan_n}
use Codes.{key_scan_o, key_scan_p, key_scan_q, key_scan_r, key_scan_s}
use Codes.{key_scan_t, key_scan_u, key_scan_v, key_scan_w, key_scan_x}
use Codes.{key_scan_y, key_scan_z, key_scan_minus, key_scan_period, key_scan_quote}
use Codes.{
  key_scan_semicolon, key_scan_slash, key_scan_alt_left, key_scan_backspace, key_scan_caps_lock,
}
use Codes.{
  key_scan_control_left, key_scan_enter, key_scan_shift_left, key_scan_shift_right, key_scan_space,
}
use Codes.{
  key_scan_tab, key_scan_arrow_down, key_scan_arrow_left, key_scan_arrow_right, key_scan_arrow_up,
}
use Codes.{
  key_scan_num_lock, key_scan_numpad0, key_scan_numpad1, key_scan_numpad2, key_scan_numpad3,
}
use Codes.{key_scan_numpad4, key_scan_numpad5, key_scan_numpad6, key_scan_numpad7, key_scan_numpad8}
use Codes.{
  key_scan_numpad9, key_scan_numpad_add, key_scan_numpad_decimal, key_scan_numpad_multiply,
  key_scan_numpad_subtract,
}
use Codes.{key_scan_escape, key_scan_scroll_lock, key_scan_f1, key_scan_f2, key_scan_f3}
use Codes.{key_scan_f4, key_scan_f5, key_scan_f6, key_scan_f7, key_scan_f8}
use Codes.{key_scan_f9, key_scan_f10, key_scan_f11, key_scan_f12, key_scan_release}

-- `kbd_scan_state_t`; the last two only mark a table entry.
pub data ScanState : Type 0 where
  scan_init scan_e0 scan_unknown scan_error : ScanState

pub record Transition : Type 0 where
  pub next_state : ScanState
  pub scan_code : ℕ

-- `KD`, `KU`, `U`, `X` and `B`.
abbrev kd : ℕ → Transition
kd c = record { next_state = scan_init; scan_code = c }

abbrev ku : ℕ → Transition
ku c = record { next_state = scan_init; scan_code = bit_or c key_scan_release }

abbrev u : Transition
u = record { next_state = scan_unknown; scan_code = 0 }

abbrev x : Transition
x = record { next_state = scan_error; scan_code = 0 }

abbrev e0_prefix : Transition
e0_prefix = record { next_state = scan_e0; scan_code = 0 }

-- A line of the table: eight entries.
abbrev row : (a b c d e f g h : Transition) → List Transition
row a b c d e f g h = a ∷ b ∷ c ∷ d ∷ e ∷ f ∷ g ∷ h ∷ []

abbrev unused : List Transition
unused = row u u u u u u u u

-- The row of `KB_SCAN_INIT`.
unfoldable pub init_table : List Transition
init_table =
    row x (kd key_scan_escape) (kd key_scan_1) (kd key_scan_2) (kd key_scan_3) (kd key_scan_4)
      (kd key_scan_5) (kd key_scan_6)
    ++ row (kd key_scan_7) (kd key_scan_8) (kd key_scan_9) (kd key_scan_0) (kd key_scan_minus)
        (kd key_scan_equal) (kd key_scan_backspace) (kd key_scan_tab)
    ++ row (kd key_scan_q) (kd key_scan_w) (kd key_scan_e) (kd key_scan_r) (kd key_scan_t)
        (kd key_scan_y) (kd key_scan_u) (kd key_scan_i)
    ++ row (kd key_scan_o) (kd key_scan_p) (kd key_scan_bracket_left) (kd key_scan_bracket_right)
        (kd key_scan_enter) (kd key_scan_control_left) (kd key_scan_a) (kd key_scan_s)
    ++ row (kd key_scan_d) (kd key_scan_f) (kd key_scan_g) (kd key_scan_h) (kd key_scan_j)
        (kd key_scan_k) (kd key_scan_l) (kd key_scan_semicolon)
    ++ row (kd key_scan_quote) (kd key_scan_backquote) (kd key_scan_shift_left)
        (kd key_scan_backslash) (kd key_scan_z) (kd key_scan_x) (kd key_scan_c) (kd key_scan_v)
    ++ row (kd key_scan_b) (kd key_scan_n) (kd key_scan_m) (kd key_scan_comma) (kd key_scan_period)
        (kd key_scan_slash) (kd key_scan_shift_right) (kd key_scan_numpad_multiply)
    ++ row (kd key_scan_alt_left) (kd key_scan_space) (kd key_scan_caps_lock) (kd key_scan_f1)
        (kd key_scan_f2) (kd key_scan_f3) (kd key_scan_f4) (kd key_scan_f5)
    ++ row (kd key_scan_f6) (kd key_scan_f7) (kd key_scan_f8) (kd key_scan_f9) (kd key_scan_f10)
        (kd key_scan_num_lock) (kd key_scan_scroll_lock) (kd key_scan_numpad7)
    ++ row (kd key_scan_numpad8) (kd key_scan_numpad9) (kd key_scan_numpad_subtract)
        (kd key_scan_numpad4) (kd key_scan_numpad5) (kd key_scan_numpad6) (kd key_scan_numpad_add)
        (kd key_scan_numpad1)
    ++ row (kd key_scan_numpad2) (kd key_scan_numpad3) (kd key_scan_numpad0)
        (kd key_scan_numpad_decimal) (kd key_scan_o) u u (kd key_scan_f11)
    ++ row (kd key_scan_f12) u u u u u u u
    ++ unused
    ++ unused
    ++ unused
    ++ unused
    ++ row x (ku key_scan_escape) (ku key_scan_1) (ku key_scan_2) (ku key_scan_3) (ku key_scan_4)
        (ku key_scan_5) (ku key_scan_6)
    ++ row (ku key_scan_7) (ku key_scan_8) (ku key_scan_9) (ku key_scan_0) (ku key_scan_minus)
        (ku key_scan_equal) (ku key_scan_backspace) (ku key_scan_tab)
    ++ row (ku key_scan_q) (ku key_scan_w) (ku key_scan_e) (ku key_scan_r) (ku key_scan_t)
        (ku key_scan_y) (ku key_scan_u) (ku key_scan_i)
    ++ row (ku key_scan_o) (ku key_scan_p) (ku key_scan_bracket_left) (ku key_scan_bracket_right)
        (ku key_scan_enter) (ku key_scan_control_left) (ku key_scan_a) (ku key_scan_s)
    ++ row (ku key_scan_d) (ku key_scan_f) (ku key_scan_g) (ku key_scan_h) (ku key_scan_j)
        (ku key_scan_k) (ku key_scan_l) (ku key_scan_semicolon)
    ++ row (ku key_scan_quote) (ku key_scan_backquote) (ku key_scan_shift_left)
        (ku key_scan_backslash) (ku key_scan_z) (ku key_scan_x) (ku key_scan_c) (ku key_scan_v)
    ++ row (ku key_scan_b) (ku key_scan_n) (ku key_scan_m) (ku key_scan_comma) (ku key_scan_period)
        (ku key_scan_slash) (ku key_scan_shift_right) (ku key_scan_numpad_multiply)
    ++ row (ku key_scan_alt_left) (ku key_scan_space) (ku key_scan_caps_lock) (ku key_scan_f1)
        (ku key_scan_f2) (ku key_scan_f3) (ku key_scan_f4) (ku key_scan_f5)
    ++ row (ku key_scan_f6) (ku key_scan_f7) (ku key_scan_f8) (ku key_scan_f9) (ku key_scan_f10)
        (ku key_scan_num_lock) (ku key_scan_scroll_lock) (ku key_scan_numpad7)
    ++ row (ku key_scan_numpad8) (ku key_scan_numpad9) (ku key_scan_numpad_subtract)
        (ku key_scan_numpad4) (ku key_scan_numpad5) (ku key_scan_numpad6) (ku key_scan_numpad_add)
        (ku key_scan_numpad1)
    ++ row (ku key_scan_numpad2) (ku key_scan_numpad3) (ku key_scan_numpad0)
        (ku key_scan_numpad_decimal) (ku key_scan_o) u u (ku key_scan_f11)
    ++ row (ku key_scan_f12) u u u u u u u
    ++ row e0_prefix u u u u u u u
    ++ unused
    ++ unused
    ++ unused

-- The row of `KB_SCAN_E0`.
unfoldable pub e0_table : List Transition
e0_table =
    unused
    ++ unused
    ++ unused
    ++ unused
    ++ unused
    ++ unused
    ++ unused
    ++ unused
    ++ unused
    ++ row (kd key_scan_arrow_up) u u (kd key_scan_arrow_left) u (kd key_scan_arrow_right) u u
    ++ row (kd key_scan_arrow_down) u u u u u u u
    ++ unused
    ++ unused
    ++ unused
    ++ unused
    ++ unused
    ++ unused
    ++ unused
    ++ unused
    ++ unused
    ++ unused
    ++ unused
    ++ unused
    ++ unused
    ++ unused
    ++ row (ku key_scan_arrow_up) u u (ku key_scan_arrow_left) u (ku key_scan_arrow_right) u u
    ++ row (ku key_scan_arrow_down) u u u u u u u
    ++ unused
    ++ unused
    ++ unused
    ++ unused
    ++ unused
