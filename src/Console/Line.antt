-- ===== src/Console/Line.antt =====
-- The line editor against a text with a cursor in it.
use xinix.Base.{
  ℕ, suc, ◌+◌, ◌-◌, ◌*◌, ◌^◌, ◌≤◌, ◌<◌, ◌≡◌, ap, sym, ◌∙◌, arith, inl, inr, Bool-cases, false,
  Option, none, some, List, ◌∷◌, ◌==◌, ltb, sub64, get_or, length,
}
use mathlib.Core.Path.{subst}
use native.Mathlib.Decide.{dec_lt}
use xinix.Bytes.{Memory, update, memcpy, memmove}
use xinix.Bytes.Copy.{memmove_lem, memcpy_lem}
use xinix.Heap.{Heap, malloc}
use xinix.Heap.Alloc.{IsBounded, round_up, round_up_bounds, aligned_alloc_lem}
use xinix.Console.{Prompt, backspace, grow, put_char}

-- The characters before the cursor, the last one first, and those from the cursor on
pub record Zipper : Type 0 where
  pub left : List ℕ
  pub right : List ℕ

-- The prompt shows the text of a zipper: the bytes of the buffer are its characters, there is room
-- for the end mark, and the buffer lies below what the heap still gives out.
pub record IsLine (z : Zipper) (p : Prompt) : Type 0 where
  pub pos_at : p.pos ≡ length z.left
  pub len_at : p.line_len ≡ length z.left + length z.right
  pub left_at : (i : ℕ) → i < p.pos → p.memory (p.line + i) ≡ get_or z.left (p.pos - 1 - i) 0
  pub right_at : (i : ℕ) → i < length z.right → p.memory (p.line + (p.pos + i)) ≡ get_or z.right i 0
  pub room : p.line_len < p.line_capacity
  pub narrow : p.line_capacity < 2 ^ 31
  pub placed : p.line + p.line_capacity ≤ p.heap.ptr
  pub bounded : IsBounded p.heap

-- The bytes after a gap of one was opened at the cursor and filled, and after one was closed
module _ (line pos n ch : ℕ) (m : Memory) where
  filled : Memory
  filled = update (memmove (line + (pos + 1)) (line + pos) n m) (line + pos) ch

  filled_before : (i : ℕ) → i < pos → filled (line + i) ≡ m (line + i)
  unfolding filled
  filled_before i below = ground (arith, memmove_lem (line + (pos + 1)) (line + pos) n m (line + i))

  filled_here : filled (line + pos) ≡ ch
  unfolding filled
  filled_here = ground arith

  filled_after : (i : ℕ) → i < n → filled (line + (pos + 1 + i)) ≡ m (line + (pos + i))
  unfolding filled
  filled_after i below =
      let from : line + pos + (line + (pos + 1 + i) - (line + (pos + 1))) ≡ line + (pos + i) =
        omega arith in
      let moved_byte : memmove (line + (pos + 1)) (line + pos) n m (line + (pos + 1 + i))
          ≡ m (line + (pos + i)) =
        memmove_lem (line + (pos + 1)) (line + pos) n m (line + (pos + 1 + i))
        ∙ ground (arith, ap m from) in
      ground (arith, moved_byte)

  closed_before :
      (i : ℕ) → i < pos - 1 → memmove (line + (pos - 1)) (line + pos) n m (line + i) ≡ m (line + i)
  closed_before i below = memmove_lem (line + (pos - 1)) (line + pos) n m (line + i) ∙ ground arith

  closed_after :
      (i : ℕ)
      → 0 < pos
      → i < n
      → memmove (line + (pos - 1)) (line + pos) n m (line + (pos - 1 + i)) ≡ m (line + (pos + i))
  closed_after i inner below =
      let from : line + pos + (line + (pos - 1 + i) - (line + (pos - 1))) ≡ line + (pos + i) =
        omega arith in
      memmove_lem (line + (pos - 1)) (line + pos) n m (line + (pos - 1 + i))
      ∙ ground (arith, ap m from)

pub put_char-IsLine :
    (ch : ℕ) (z : Zipper) (p : Prompt)
    → IsLine z p
    → p.line_len + 1 < p.line_capacity
    → IsLine (record { left = ch ∷ z.left; right = z.right }) (put_char ch p)
unfolding put_char filled
put_char-IsLine ch z p is fits =
    let pos_at = is.pos_at in
    let len_at = is.len_at in
    let n : sub64 p.line_len p.pos ≡ length z.right =
      omega (arith, pos_at, len_at, is.narrow, is.room) in
    record {
      pos_at = omega (arith, pos_at);
      len_at = omega (arith, len_at);
      left_at = λ i below. elim (dec_lt i p.pos) [
        | yes before ↦
            let deeper : p.pos + 1 - 1 - i ≡ suc (p.pos - 1 - i) = omega arith in
            filled_before p.line p.pos (sub64 p.line_len p.pos) ch p.memory i before
            ∙ is.left_at i before
            ∙ ap (λ (k : ℕ). get_or (ch ∷ z.left) k 0) (sym deeper)
        | no here ↦
            let at : i ≡ p.pos = omega (arith, below) in
            let first : p.pos + 1 - 1 - i ≡ 0 = omega arith in
            ap (λ (k : ℕ). filled p.line p.pos (sub64 p.line_len p.pos) ch p.memory (p.line + k)) at
            ∙ filled_here p.line p.pos (sub64 p.line_len p.pos) ch p.memory
            ∙ ap (λ (k : ℕ). get_or (ch ∷ z.left) k 0) (sym first)
      ];
      right_at = λ i below.
          filled_after p.line p.pos (sub64 p.line_len p.pos) ch p.memory i (omega (arith, n))
          ∙ is.right_at i below;
      room = omega (arith, fits);
      narrow = is.narrow;
      placed = is.placed;
      bounded = is.bounded;
    }

pub backspace-IsLine :
    (c : ℕ) (left right : List ℕ) (p : Prompt)
    → IsLine (record { left = c ∷ left; right = right }) p
    → IsLine (record { left = left; right = right }) (backspace p)
unfolding backspace
backspace-IsLine c left right p is =
    let pos_at = is.pos_at in
    let len_at = is.len_at in
    let n : sub64 p.line_len p.pos ≡ length right =
      omega (arith, pos_at, len_at, is.narrow, is.room) in
    let inner : (p.pos == 0) ≡ false = ground (arith, pos_at) in
    let kept : IsLine (record { left = left; right = right })
        (record p {
          memory =
              memmove (p.line + (p.pos - 1)) (p.line + p.pos) (sub64 p.line_len p.pos) p.memory;
          pos = p.pos - 1;
          line_len = p.line_len - 1;
        }) =
      record {
        pos_at = omega (arith, pos_at);
        len_at = omega (arith, len_at);
        left_at = λ i below.
            let deeper : p.pos - 1 - i ≡ suc (p.pos - 1 - 1 - i) = omega (arith, below) in
            closed_before p.line p.pos (sub64 p.line_len p.pos) 0 p.memory i below
            ∙ is.left_at i (omega (arith, below))
            ∙ ap (λ (k : ℕ). get_or (c ∷ left) k 0) deeper;
        right_at = λ i below.
            closed_after p.line p.pos (sub64 p.line_len p.pos) 0 p.memory i (omega (arith, pos_at))
              (omega (arith, n))
            ∙ is.right_at i below;
        room = omega (arith, is.room);
        narrow = is.narrow;
        placed = is.placed;
        bounded = is.bounded;
      } in
    rw inner kept

-- The buffer copied to a block of twice its size at `a`, behind what the heap gave out before
grown-IsLine :
    (z : Zipper) (p : Prompt) (heap : Heap) (a : ℕ)
    → IsLine z p
    → p.heap.ptr ≤ a
    → heap.ptr ≡ a + p.line_capacity * 2
    → p.line_capacity * 2 < 2 ^ 31
    → IsBounded heap
    → IsLine z (record p {
      heap = heap;
      memory = memcpy a p.line p.line_capacity p.memory;
      line = a;
      line_capacity = p.line_capacity * 2;
    })
grown-IsLine z p heap a is above end small bounded =
    let pos_at = is.pos_at in
    let len_at = is.len_at in
    let placed = is.placed in
    let copied : (i : ℕ)
        → i < p.line_capacity
        → memcpy a p.line p.line_capacity p.memory (a + i) ≡ p.memory (p.line + i) =
      λ i below.
        let from : p.line + (a + i - a) ≡ p.line + i = omega arith in
        memcpy_lem a p.line p.line_capacity p.memory (a + i) (inr (omega (arith, placed)))
        ∙ ground (arith, ap p.memory from) in
    record {
      pos_at = pos_at;
      len_at = len_at;
      left_at = λ i below. copied i (omega (arith, is.room)) ∙ is.left_at i below;
      right_at = λ i below. copied (p.pos + i) (omega (arith, is.room)) ∙ is.right_at i below;
      room = omega (arith, is.room);
      narrow = small;
      placed = omega (arith, end);
      bounded = bounded;
    }

some_eq : {x y : Prompt} → some x ≡ some y → x ≡ y
some_eq e = cc

not_none : {x : Prompt} → none ≡ some x → ⊥
not_none e = cc

pub grow-IsLine :
    (z : Zipper) (p q : Prompt)
    → IsLine z p
    → grow p ≡ some q
    → IsLine z q × (q.line_len + 1 < q.line_capacity)
unfolding grow malloc
grow-IsLine z p q is e = elim (Bool-cases (p.line_len + 1 == p.line_capacity)) [
  | inr fits ↦
      let same : p ≡ q = some_eq (rw fits at e) in
      subst (λ x. IsLine z x × (x.line_len + 1 < x.line_capacity)) same
        (is, ground (arith, fits, is.room))
  | inl full ↦ elim (Bool-cases (ltb (p.line_capacity * 2) (2 ^ 31))) [
    | inr wide ↦ absurd (not_none (rw (full, wide) at e))
    | inl narrow ↦
        let small : p.line_capacity * 2 < 2 ^ 31 = ground (arith, narrow) in
        let a = round_up p.heap.ptr 4 in
        elim (aligned_alloc_lem p.heap 4 (p.line_capacity * 2) is.bounded (omega arith)
          (omega arith)) [
            | inr (more, fails) ↦ absurd (not_none (rw (full, narrow, fails) at e))
            | inl (room, given) ↦
                let heap : Heap = (malloc p.heap (p.line_capacity * 2)).1 in
                let end : heap.ptr ≡ a + p.line_capacity * 2 =
                  ap (λ (r : Option ℕ × Heap). r.1.ptr) given in
                let limit : heap.limit ≡ p.heap.limit =
                  ap (λ (r : Option ℕ × Heap). r.1.limit) given in
                let same = some_eq (rw (full, narrow, given) at e) in
                subst (λ x. IsLine z x × (x.line_len + 1 < x.line_capacity)) same
                  (
                    grown-IsLine z p heap a is (round_up_bounds p.heap.ptr 4).0 end small (record {
                      ptr_in = omega (arith, end, room, is.bounded.limit_in);
                      limit_in = omega (arith, limit, is.bounded.limit_in);
                    }),
                    ground (arith, full, is.room),
                  )
          ]
  ]
]
