-- ===== src/Console/Typing.antt =====
-- The keys typed at the prompt, one after the other, against the text with its cursor.
use xinix.Base.{
  ℕ, ◌+◌, ◌*◌, ◌^◌, ◌≤◌, ◌<◌, ◌≡◌, ◌⊎◌, refl, sym, arith, inl, inr, Bool-cases, Bool, true, false,
  not, Option, none, some, List, [], ◌∷◌, ◌==◌, ltb, if◌then◌else◌, bit_and,
}
use mathlib.Core.Path.{subst}
use xinix.Bytes.{update}
use xinix.Heap.{malloc}
use xinix.Heap.Alloc.{IsBounded, round_up, aligned_alloc_lem}
use xinix.Keyboard.{ScanStatus, get_char_for_scancode}
use xinix.ScanTable.Codes.{
  key_scan_release, key_scan_backspace, key_scan_enter, key_scan_tab, key_scan_arrow_left,
  key_scan_arrow_right,
}
use xinix.Console.{
  Prompt, Typed, edited, entered, no_memory, outside, grow, put_char, insert_char, type_key,
  type_keys,
}
use xinix.Console.Line.{Zipper, IsLine, put_char-IsLine, grow-IsLine}
use xinix.Console.Edits.{insert, is_enter, edit, delete-IsLine, go_left-IsLine, go_right-IsLine}

-- The end mark behind the line
abbrev pub ended : Prompt → Prompt
ended p = record p { memory = update p.memory (p.line + p.line_len) 0 }

-- The line is full, and the heap has no block of twice its size or that size is no int.
abbrev pub IsStuck : Prompt → Type 0
IsStuck p =
    (p.line_len + 1 ≡ p.line_capacity)
    × ((2 ^ 31 ≤ p.line_capacity * 2)
        ⊎ (p.heap.limit < round_up p.heap.ptr 4 + p.line_capacity * 2))

-- The key types a character.
abbrev pub Types : ScanStatus → Zipper → Type 0
Types k z = (ch : ℕ) × (edit k z ≡ record z { left = ch ∷ z.left })

-- What a key comes to at a prompt: an edit of the text; at Enter the prompt with the end mark; or, when
-- it types a character and this line is full, a halt for lack of memory. A code outside the character
-- map is none that is typed.
abbrev pub Follows : ScanStatus → Zipper → Prompt → Typed → Type 0
Follows k z p (edited q) = (is_enter k ≡ false) × IsLine (edit k z) q
Follows k z p (entered q) = (is_enter k ≡ true) × (q ≡ ended p)
Follows k z p no_memory = (is_enter k ≡ false) × IsStuck p × Types k z
Follows k z p outside = get_char_for_scancode k.scan_code k.modifiers ≡ none

some_not_none : {x : Prompt} → some x ≡ none → ⊥
some_not_none e = cc

grow-IsStuck :
    (p : Prompt) → IsBounded p.heap → p.line_capacity < 2 ^ 31 → grow p ≡ none → IsStuck p
unfolding grow malloc
grow-IsStuck p bounded narrow e = elim (Bool-cases (p.line_len + 1 == p.line_capacity)) [
  | inr fits ↦ absurd (some_not_none (rw fits at e))
  | inl full ↦
      let at_end : p.line_len + 1 ≡ p.line_capacity = ground (arith, full) in
      elim (Bool-cases (ltb (p.line_capacity * 2) (2 ^ 31))) [
        | inr wide ↦ (at_end, inl (ground (arith, wide)))
        | inl small ↦
            elim (aligned_alloc_lem p.heap 4 (p.line_capacity * 2) bounded (omega arith)
              (omega arith)) [
                | inr (more, fails) ↦ (at_end, inr more)
                | inl (room, given) ↦ absurd (some_not_none (rw (full, small, given) at e))
              ]
      ]
]

-- What inserting a character comes to
abbrev Inserted : ℕ → Zipper → Prompt → Typed → Type 0
Inserted ch z p (edited q) = IsLine (record z { left = ch ∷ z.left }) q
Inserted ch z p (entered q) = ⊥
Inserted ch z p no_memory = IsStuck p
Inserted ch z p outside = ⊥

grown-Inserted :
    (ch : ℕ) (z : Zipper) (p : Prompt) (o : Option Prompt)
    → IsLine z p
    → grow p ≡ o
    → Inserted ch z p (elim o [ none ↦ no_memory | some q ↦ edited (put_char ch q) ])
grown-Inserted ch z p none is full = grow-IsStuck p is.bounded is.narrow full
grown-Inserted ch z p (some q) is grown =
    let (kept, fits) = grow-IsLine z p q is grown in put_char-IsLine ch z q kept fits

insert_char-Inserted :
    (ch : ℕ) (z : Zipper) (p : Prompt) → IsLine z p → Inserted ch z p (insert_char ch p)
unfolding insert_char
insert_char-Inserted ch z p is = grown-Inserted ch z p (grow p) is refl

-- A status and the tests of the code, in their order
module _ (k : ScanStatus) (z : Zipper) (p : Prompt) (is : IsLine z p) where
  edited_lem :
      {q : Prompt} {after : Zipper}
      → is_enter k ≡ false
      → edit k z ≡ after
      → IsLine after q
      → Follows k z p (edited q)
  edited_lem {q} enter same kept = (enter, subst (λ x. IsLine x q) (sym same) kept)

  inserted_lem :
      (ch : ℕ) (t : Typed)
      → is_enter k ≡ false
      → edit k z ≡ record z { left = ch ∷ z.left }
      → Inserted ch z p t
      → Follows k z p t
  inserted_lem ch (edited q) enter same kept = edited_lem enter same kept
  inserted_lem ch (entered q) enter same impossible = absurd impossible
  inserted_lem ch no_memory enter same stuck = (enter, stuck, (ch, same))
  inserted_lem ch outside enter same impossible = absurd impossible

  char_lem :
      (o : Option ℕ)
      → get_char_for_scancode k.scan_code k.modifiers ≡ o
      → is_enter k ≡ false
      → edit k z ≡ insert o z
      → Follows k z p (elim o [
        | none ↦ outside
        | some ch ↦ if not (ch == 0) then insert_char ch p else edited p
      ])
  char_lem none found enter same = found
  char_lem (some ch) found enter same = elim (Bool-cases (ch == 0)) [
    | inl mark ↦ rw mark (edited_lem enter (rw mark at same) is)
    | inr other ↦ rw other (
        inserted_lem ch (insert_char ch p) enter (rw other at same)
          (insert_char-Inserted ch z p is))
  ]

  pub type_key-Follows : Follows k z p (type_key k p)
  unfolding type_key
  type_key-Follows = elim (Bool-cases (k.scan_code == 0)) [
    | inl idle ↦ rw idle (edited_lem (rw (is_enter, idle) refl) (rw (edit, idle) refl) is)
    | inr e0 ↦ elim (Bool-cases (bit_and k.scan_code key_scan_release == 0)) [
      | inr up ↦ rw (e0, up) (edited_lem (rw (is_enter, e0, up) refl) (rw (edit, e0, up) refl) is)
      | inl e1 ↦ elim (Bool-cases (k.scan_code == key_scan_enter)) [
        | inl e2 ↦
            let e3 : (k.scan_code == key_scan_backspace) ≡ false = ground (arith, e2) in
            rw (e0, e1, e2, e3) (rw (is_enter, e0, e1, e2) refl, refl)
        | inr e2 ↦
            let enter : is_enter k ≡ false = rw (is_enter, e0, e1, e2) refl in
            elim (Bool-cases (k.scan_code == key_scan_backspace)) [
              | inl e3 ↦
                  rw (e0, e1, e3)
                    (edited_lem enter (rw (edit, e0, e1, e3) refl)
                      (delete-IsLine z.left z.right p is))
              | inr e3 ↦ elim (Bool-cases (k.scan_code == key_scan_arrow_left)) [
                | inl e4 ↦
                    rw (e0, e1, e2, e3, e4)
                      (edited_lem enter (rw (edit, e0, e1, e3, e4) refl)
                        (go_left-IsLine z.left z.right p is))
                | inr e4 ↦ elim (Bool-cases (k.scan_code == key_scan_arrow_right)) [
                  | inl e5 ↦
                      rw (e0, e1, e2, e3, e4, e5)
                        (edited_lem enter (rw (edit, e0, e1, e3, e4, e5) refl)
                          (go_right-IsLine z.left z.right p is))
                  | inr e5 ↦ elim (Bool-cases (k.scan_code == key_scan_tab)) [
                    | inl e6 ↦
                        rw (e0, e1, e2, e3, e4, e5, e6)
                          (edited_lem enter (rw (edit, e0, e1, e3, e4, e5, e6) refl) is)
                    | inr e6 ↦
                        rw (e0, e1, e2, e3, e4, e5, e6)
                          (char_lem (get_char_for_scancode k.scan_code k.modifiers) refl enter
                            (rw (edit, e0, e1, e3, e4, e5, e6) refl))
                  ]
                ]
              ]
            ]
      ]
    ]
  ]

-- The text and cursor after the keys up to an Enter, and whether there was one
abbrev pub edits : List ScanStatus → Zipper → Zipper × Bool
edits [] z = (z, false)
edits (k ∷ ks) z = if is_enter k then (z, true) else edits ks (edit k z)

-- The loop stops at one of the keys: those before it are none that ends the line, and leave the prompt
-- with the text with their edits; of the key and that prompt `Stop` holds.
abbrev pub StopsAt :
    (ScanStatus → Zipper → Prompt → Type 0) → List ScanStatus → Zipper → Prompt → Type 0
StopsAt Stop [] z p = ⊥
StopsAt Stop (k ∷ ks) z p =
    (IsLine z p × Stop k z p)
    ⊎ ((is_enter k ≡ false)
        × (q : Prompt) × (type_key k p ≡ edited q)
        × StopsAt Stop ks (edit k z) q)

-- The key types a character, and the line is full and cannot grow.
abbrev pub Halts : ScanStatus → Zipper → Prompt → Type 0
Halts k z p = IsStuck p × Types k z

-- The key has no character in the map.
abbrev pub IsUnmapped : ScanStatus → Zipper → Prompt → Type 0
IsUnmapped k z p = get_char_for_scancode k.scan_code k.modifiers ≡ none

-- What a sequence of keys comes to at a prompt
abbrev pub FollowsAll : List ScanStatus → Zipper → Prompt → Typed → Type 0
FollowsAll ks z p (edited q) = ((edits ks z).1 ≡ false) × IsLine (edits ks z).0 q
FollowsAll ks z p (entered q) =
    ((edits ks z).1 ≡ true) × ((r : Prompt) × IsLine (edits ks z).0 r × (q ≡ ended r))
FollowsAll ks z p no_memory = StopsAt Halts ks z p
FollowsAll ks z p outside = StopsAt IsUnmapped ks z p

-- Keys after one that was no Enter
after_edit :
    (k : ScanStatus) (ks : List ScanStatus) (z : Zipper) (p q : Prompt) (t : Typed)
    → is_enter k ≡ false
    → type_key k p ≡ edited q
    → FollowsAll ks (edit k z) q t
    → FollowsAll (k ∷ ks) z p t
after_edit k ks z p q (edited r) enter ran all = rw enter all
after_edit k ks z p q (entered r) enter ran all = rw enter all
after_edit k ks z p q no_memory enter ran all = inr (enter, q, ran, all)
after_edit k ks z p q outside enter ran all = inr (enter, q, ran, all)

next_key :
    (k : ScanStatus) (ks : List ScanStatus) (z : Zipper) (p : Prompt) (t : Typed)
    → IsLine z p
    → type_key k p ≡ t
    → ((q : Prompt) → IsLine (edit k z) q → FollowsAll ks (edit k z) q (type_keys ks q))
    → Follows k z p t
    → FollowsAll (k ∷ ks) z p (elim t [
      | edited q ↦ type_keys ks q
      | entered q ↦ entered q
      | no_memory ↦ no_memory
      | outside ↦ outside
    ])
next_key k ks z p (edited q) is ran more here =
    after_edit k ks z p q (type_keys ks q) here.0 ran (more q here.1)
next_key k ks z p (entered q) is ran more here = rw here.0 (refl, (p, is, here.1))
next_key k ks z p no_memory is ran more here = inl (is, (here.1, here.2))
next_key k ks z p outside is ran more here = inl (is, here)

-- For a prompt that shows a text: after any keys it shows the text with their edits, or, if there was
-- an Enter, the text edited up to it with the end mark behind it; unless it comes to a key that has
-- no character in the map, or that types one where the line is full by then and the heap has no block
-- of double its size or an int no room.
pub type_keys-FollowsAll :
    (ks : List ScanStatus) (z : Zipper) (p : Prompt)
    → IsLine z p
    → FollowsAll ks z p (type_keys ks p)
unfolding type_keys
type_keys-FollowsAll [] z p is = (refl, is)
type_keys-FollowsAll (k ∷ ks) z p is =
    next_key k ks z p (type_key k p) is refl (λ q kept. type_keys-FollowsAll ks (edit k z) q kept)
      (type_key-Follows k z p is)
