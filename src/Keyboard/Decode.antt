-- ===== src/Keyboard/Decode.antt =====
-- What the tables of kernel/src/common/keyboard.c decode: releases against presses, distinct
-- keys, and the characters of keys.
use xinix.Base.{
  ℕ, zero, suc, ◌+◌, ◌<◌, ◌≡◌, refl, sym, ap, ◌∙◌, true, none, some, List, [], ◌∷◌, map, arith,
  ◌==◌, ltb, if◌then◌else◌, ◌&&◌, ◌||◌, ◌≢◌, ◌⊎◌, inl, inr, length, get_or, get_elem?-eq-get_or,
  get_elem?-eq-none, Bool-cases, get_elem?, take, drop, holds_below, holds_below_lem,
}
use xinix.ScanTable.{
  ScanState, scan_init, scan_e0, scan_unknown, scan_error, Transition, init_table, e0_table,
}
use xinix.ScanTable.Codes.{key_scan_release}
use xinix.Keyboard.{unshifted_map, shifted_map, Modifiers, transition, get_char_for_scancode}
use mathlib.Core.Option

-- The transition of a key's release: the same key with the release mark.
abbrev pub released : Transition → Transition
released t = record t { scan_code = if t.scan_code == 0 then 0 else t.scan_code + key_scan_release }

module _ {ℓ} {A : Type ℓ} where
  get_elem?-drop : (xs : List A) (n i : ℕ) → get_elem? (drop n xs) i ≡ get_elem? xs (n + i)
  get_elem?-drop xs zero i = ap (get_elem? xs) (omega arith)
  get_elem?-drop [] (suc n) i = refl
  get_elem?-drop (x ∷ xs) (suc n) i =
      get_elem?-drop xs n i ∙ ap (get_elem? (x ∷ xs)) {x = suc (n + i)} (omega arith)

  get_elem?-take : (xs : List A) (n i : ℕ) → i < n → get_elem? (take n xs) i ≡ get_elem? xs i
  get_elem?-take xs zero i h = elim h [ ]
  get_elem?-take [] (suc n) i h = refl
  get_elem?-take (x ∷ xs) (suc n) zero h = refl
  get_elem?-take (x ∷ xs) (suc n) (suc i) h = get_elem?-take xs n i (omega arith)

  get_elem?-map {κ} :
      {B : Type κ} (f : A → B) (xs : List A) (i : ℕ)
      → get_elem? (map f xs) i ≡ Option.map f (get_elem? xs i)
  get_elem?-map f [] i = refl
  get_elem?-map f (x ∷ xs) zero = refl
  get_elem?-map f (x ∷ xs) (suc i) = get_elem?-map f xs i

init_release : take 96 (drop 128 init_table) ≡ map released (take 96 init_table)
unfolding init_table
init_release = refl

e0_release : take 128 (drop 128 e0_table) ≡ map released (take 128 e0_table)
unfolding e0_table
e0_release = refl

halves :
    (xs : List Transition) (n b : ℕ)
    → take n (drop 128 xs) ≡ map released (take n xs)
    → b < n
    → get_elem? xs (128 + b) ≡ Option.map released (get_elem? xs b)
halves xs n b e lt =
    sym (get_elem?-drop xs 128 b)
    ∙ sym (get_elem?-take (drop 128 xs) n b lt)
    ∙ ap (λ ys. get_elem? ys b) e
    ∙ get_elem?-map released (take n xs) b
    ∙ ap (Option.map released) (get_elem?-take xs n b lt)

-- A byte with the top bit set means the release of the key that the byte without it presses: of
-- the 96 bytes that mean keys in the initial state, and of all 128 after the prefix E0.
pub transition_release :
    (b : ℕ)
    → (b < 96 → transition scan_init (128 + b) ≡ Option.map released (transition scan_init b))
      × (b < 128 → transition scan_e0 (128 + b) ≡ Option.map released (transition scan_e0 b))
unfolding transition
transition_release b = (halves init_table 96 b init_release, halves e0_table 128 b e0_release)

-- The code of a table's entry, 0 where there is none.
code_at : List Transition → ℕ → ℕ
code_at xs b = elim (get_elem? xs b) [ none ↦ 0 | some t ↦ t.scan_code ]

code_at-some :
    (xs : List Transition) (b : ℕ) {t : Transition}
    → get_elem? xs b ≡ some t
    → code_at xs b ≡ t.scan_code
unfolding code_at
code_at-some xs b e = ground arith

-- The first position of a code.
position : ℕ → ℕ → List Transition → ℕ
position code i [] = i
position code i (t ∷ ts) = if t.scan_code == code then i else position code (suc i) ts

position_table :
    holds_below
      (λ b. code_at init_table b == 0 || position (code_at init_table b) 0 init_table == b)
      84
    ≡ true
unfolding holds_below code_at position init_table
position_table = refl

position_of :
    (b : ℕ) → b < 84 → code_at init_table b ≢ 0 → position (code_at init_table b) 0 init_table ≡ b
position_of b lt ne = ground (arith, holds_below_lem _ 84 {v = b} lt position_table)

-- The bytes below 0x54 that mean keys mean different keys.
pub transition_injective :
    (b c : ℕ) (t u : Transition)
    → b < 0x54
    → c < 0x54
    → transition scan_init b ≡ some t
    → transition scan_init c ≡ some u
    → t.scan_code ≡ u.scan_code
    → 0 < t.scan_code
    → b ≡ c
unfolding transition
transition_injective b c t u hb hc eb ec same pos =
    let tb : code_at init_table b ≡ t.scan_code = code_at-some init_table b eb in
    let uc : code_at init_table c ≡ u.scan_code = code_at-some init_table c ec in
    sym (position_of b hb (omega arith))
    ∙ ap (λ n. position n 0 init_table) (tb ∙ same ∙ sym uc)
    ∙ position_of c hc (omega arith)

press_table :
    holds_below (λ b. ltb (code_at init_table b) 195 && ltb (code_at e0_table b) 195) 128 ≡ true
unfolding holds_below code_at init_table e0_table
press_table = refl

length-maps : (length unshifted_map ≡ 195) × (length shifted_map ≡ 195)
unfolding unshifted_map shifted_map
length-maps = (refl, refl)

get_char_in_range :
    (code : ℕ) (m : Modifiers) → code < 195 → (ch : ℕ) × (get_char_for_scancode code m ≡ some ch)
unfolding get_char_for_scancode
get_char_in_range code m h = elim (Bool-cases m.shift) [
  | inl e ↦ (
    get_or shifted_map code 0,
    rw e (get_elem?-eq-get_or shifted_map code 0 (omega (arith, length-maps))),
  )
  | inr e ↦ (
    get_or unshifted_map code 0,
    rw e (get_elem?-eq-get_or unshifted_map code 0 (omega (arith, length-maps))),
  )
]

get_char_release :
    (code : ℕ) (m : Modifiers) → get_char_for_scancode (code + key_scan_release) m ≡ none
unfolding get_char_for_scancode
get_char_release code m = elim (Bool-cases m.shift) [
  | inl e ↦
      rw e (get_elem?-eq-none shifted_map (code + key_scan_release) (omega (arith, length-maps)))
  | inr e ↦
      rw e (get_elem?-eq-none unshifted_map (code + key_scan_release) (omega (arith, length-maps)))
]

press_codes :
    (s : ScanState) (b : ℕ) (t : Transition)
    → (s ≡ scan_init) ⊎ (s ≡ scan_e0)
    → b < 128
    → transition s b ≡ some t
    → t.scan_code < 195
unfolding transition
press_codes scan_init b t sc lt e =
    ground (arith, holds_below_lem _ 128 {v = b} lt press_table, code_at-some init_table b e)
press_codes scan_e0 b t sc lt e =
    ground (arith, holds_below_lem _ 128 {v = b} lt press_table, code_at-some e0_table b e)
press_codes scan_unknown b t sc lt e = ground arith
press_codes scan_error b t sc lt e = ground arith

-- The character of a key press is looked up inside the character map, whatever byte pressed the
-- key and in either state of the scan; that of a release is looked up outside.
pub get_char_press :
    (s : ScanState) (b : ℕ) (t : Transition) (m : Modifiers)
    → (s ≡ scan_init) ⊎ (s ≡ scan_e0)
    → b < 128
    → transition s b ≡ some t
    → ((ch : ℕ) × (get_char_for_scancode t.scan_code m ≡ some ch))
      × (get_char_for_scancode (t.scan_code + key_scan_release) m ≡ none)
get_char_press s b t m sc lt e =
    (get_char_in_range t.scan_code m (press_codes s b t sc lt e), get_char_release t.scan_code m)
