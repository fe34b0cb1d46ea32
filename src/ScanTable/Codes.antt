-- ===== src/ScanTable/Codes.antt =====
-- The key ascii of kernel/include/keyboard.h that the scan tables and the queue name.
use Prim.Native.Nat.{ℕ}

abbrev pub key_scan_backquote : ℕ
key_scan_backquote = 1

abbrev pub key_scan_backslash : ℕ
key_scan_backslash = 2

abbrev pub key_scan_bracket_left : ℕ
key_scan_bracket_left = 3

abbrev pub key_scan_bracket_right : ℕ
key_scan_bracket_right = 4

abbrev pub key_scan_comma : ℕ
key_scan_comma = 5

abbrev pub key_scan_0 : ℕ
key_scan_0 = 6

abbrev pub key_scan_1 : ℕ
key_scan_1 = 7

abbrev pub key_scan_2 : ℕ
key_scan_2 = 8

abbrev pub key_scan_3 : ℕ
key_scan_3 = 9

abbrev pub key_scan_4 : ℕ
key_scan_4 = 10

abbrev pub key_scan_5 : ℕ
key_scan_5 = 11

abbrev pub key_scan_6 : ℕ
key_scan_6 = 12

abbrev pub key_scan_7 : ℕ
key_scan_7 = 13

abbrev pub key_scan_8 : ℕ
key_scan_8 = 14

abbrev pub key_scan_9 : ℕ
key_scan_9 = 15

abbrev pub key_scan_equal : ℕ
key_scan_equal = 16

abbrev pub key_scan_a : ℕ
key_scan_a = 20

abbrev pub key_scan_b : ℕ
key_scan_b = 21

abbrev pub key_scan_c : ℕ
key_scan_c = 22

abbrev pub key_scan_d : ℕ
key_scan_d = 23

abbrev pub key_scan_e : ℕ
key_scan_e = 24

abbrev pub key_scan_f : ℕ
key_scan_f = 25

abbrev pub key_scan_g : ℕ
key_scan_g = 26

abbrev pub key_scan_h : ℕ
key_scan_h = 27

abbrev pub key_scan_i : ℕ
key_scan_i = 28

abbrev pub key_scan_j : ℕ
key_scan_j = 29

abbrev pub key_scan_k : ℕ
key_scan_k = 30

abbrev pub key_scan_l : ℕ
key_scan_l = 31

abbrev pub key_scan_m : ℕ
key_scan_m = 32

abbrev pub key_scan_n : ℕ
key_scan_n = 33

abbrev pub key_scan_o : ℕ
key_scan_o = 34

abbrev pub key_scan_p : ℕ
key_scan_p = 35

abbrev pub key_scan_q : ℕ
key_scan_q = 36

abbrev pub key_scan_r : ℕ
key_scan_r = 37

abbrev pub key_scan_s : ℕ
key_scan_s = 38

abbrev pub key_scan_t : ℕ
key_scan_t = 39

abbrev pub key_scan_u : ℕ
key_scan_u = 40

abbrev pub key_scan_v : ℕ
key_scan_v = 41

abbrev pub key_scan_w : ℕ
key_scan_w = 42

abbrev pub key_scan_x : ℕ
key_scan_x = 43

abbrev pub key_scan_y : ℕ
key_scan_y = 44

abbrev pub key_scan_z : ℕ
key_scan_z = 45

abbrev pub key_scan_minus : ℕ
key_scan_minus = 46

abbrev pub key_scan_period : ℕ
key_scan_period = 47

abbrev pub key_scan_quote : ℕ
key_scan_quote = 48

abbrev pub key_scan_semicolon : ℕ
key_scan_semicolon = 49

abbrev pub key_scan_slash : ℕ
key_scan_slash = 50

abbrev pub key_scan_alt_left : ℕ
key_scan_alt_left = 51

abbrev pub key_scan_alt_right : ℕ
key_scan_alt_right = 52

abbrev pub key_scan_backspace : ℕ
key_scan_backspace = 53

abbrev pub key_scan_caps_lock : ℕ
key_scan_caps_lock = 54

abbrev pub key_scan_control_left : ℕ
key_scan_control_left = 56

abbrev pub key_scan_control_right : ℕ
key_scan_control_right = 57

abbrev pub key_scan_enter : ℕ
key_scan_enter = 58

abbrev pub key_scan_shift_left : ℕ
key_scan_shift_left = 61

abbrev pub key_scan_shift_right : ℕ
key_scan_shift_right = 62

abbrev pub key_scan_space : ℕ
key_scan_space = 63

abbrev pub key_scan_tab : ℕ
key_scan_tab = 64

abbrev pub key_scan_arrow_down : ℕ
key_scan_arrow_down = 80

abbrev pub key_scan_arrow_left : ℕ
key_scan_arrow_left = 81

abbrev pub key_scan_arrow_right : ℕ
key_scan_arrow_right = 82

abbrev pub key_scan_arrow_up : ℕ
key_scan_arrow_up = 83

abbrev pub key_scan_num_lock : ℕ
key_scan_num_lock = 84

abbrev pub key_scan_numpad0 : ℕ
key_scan_numpad0 = 85

abbrev pub key_scan_numpad1 : ℕ
key_scan_numpad1 = 86

abbrev pub key_scan_numpad2 : ℕ
key_scan_numpad2 = 87

abbrev pub key_scan_numpad3 : ℕ
key_scan_numpad3 = 88

abbrev pub key_scan_numpad4 : ℕ
key_scan_numpad4 = 89

abbrev pub key_scan_numpad5 : ℕ
key_scan_numpad5 = 90

abbrev pub key_scan_numpad6 : ℕ
key_scan_numpad6 = 91

abbrev pub key_scan_numpad7 : ℕ
key_scan_numpad7 = 92

abbrev pub key_scan_numpad8 : ℕ
key_scan_numpad8 = 93

abbrev pub key_scan_numpad9 : ℕ
key_scan_numpad9 = 94

abbrev pub key_scan_numpad_add : ℕ
key_scan_numpad_add = 95

abbrev pub key_scan_numpad_decimal : ℕ
key_scan_numpad_decimal = 100

abbrev pub key_scan_numpad_multiply : ℕ
key_scan_numpad_multiply = 110

abbrev pub key_scan_numpad_subtract : ℕ
key_scan_numpad_subtract = 114

abbrev pub key_scan_escape : ℕ
key_scan_escape = 115

abbrev pub key_scan_scroll_lock : ℕ
key_scan_scroll_lock = 119

abbrev pub key_scan_f1 : ℕ
key_scan_f1 = 160

abbrev pub key_scan_f2 : ℕ
key_scan_f2 = 161

abbrev pub key_scan_f3 : ℕ
key_scan_f3 = 162

abbrev pub key_scan_f4 : ℕ
key_scan_f4 = 163

abbrev pub key_scan_f5 : ℕ
key_scan_f5 = 164

abbrev pub key_scan_f6 : ℕ
key_scan_f6 = 165

abbrev pub key_scan_f7 : ℕ
key_scan_f7 = 166

abbrev pub key_scan_f8 : ℕ
key_scan_f8 = 167

abbrev pub key_scan_f9 : ℕ
key_scan_f9 = 168

abbrev pub key_scan_f10 : ℕ
key_scan_f10 = 169

abbrev pub key_scan_f11 : ℕ
key_scan_f11 = 170

abbrev pub key_scan_f12 : ℕ
key_scan_f12 = 171

abbrev pub key_scan_value_mask : ℕ
key_scan_value_mask = 0x7fff

abbrev pub key_scan_release : ℕ
key_scan_release = 0x8000
