-- ===== src/Stdio/Chunks.antt =====
-- Writing in pieces of 64 bytes against writing at once.
use xinix.Base.{
  ℕ, zero, suc, ◌+◌, ◌-◌, ◌*◌, ◌^◌, ◌≤◌, ◌<◌, ◌≡◌, refl, sym, ap, ◌∙◌, arith, Bool-cases, inl, inr,
  true, false, List, [], ◌∷◌, ◌++◌, ltb, length, take, replicate, length-replicate, length-append,
}
use xinix.Stdio.{Printing, write_string_file, write_checked, write_chunks}
use native.Mathlib.Decide.{dec_le}
use mathlib.Core.List.{append_assoc}

take-append_more :
    {A : Type 0} (xs ys : List A) (n : ℕ) → take (length xs + n) (xs ++ ys) ≡ xs ++ take n ys
take-append_more [] ys n = ap (λ m. take m ys) (omega arith)
take-append_more (x ∷ xs) ys n =
    ap (λ m. take m (x ∷ (xs ++ ys))) {x = suc (length xs) + n} {y = suc (length xs + n)}
      (omega arith)
    ∙ ap (λ t. x ∷ t) (take-append_more xs ys n)

take-append_less :
    {A : Type 0} (xs ys : List A) (n : ℕ) → n ≤ length xs → take n (xs ++ ys) ≡ take n xs
take-append_less xs ys zero h = refl
take-append_less [] ys (suc n) h = absurd (omega arith)
take-append_less (x ∷ xs) ys (suc n) h = ap (λ t. x ∷ t) (take-append_less xs ys n (omega arith))

take_all : {A : Type 0} (xs : List A) → take (length xs) xs ≡ xs
take_all [] = refl
take_all (x ∷ xs) = ap (λ t. x ∷ t) (take_all xs)

-- A write that fits
pub write_checked_fits :
    (bytes : List ℕ) (p : Printing)
    → p.returned ≡ false
    → length bytes ≤ p.stream.remaining
    → p.bytes_printed + length bytes < 2 ^ 64
    → write_checked bytes p ≡ record {
      bytes_printed = p.bytes_printed + length bytes;
      stream = record {
        contents = p.stream.contents ++ bytes;
        remaining = p.stream.remaining - length bytes;
      };
      returned = false;
    }
unfolding write_checked write_string_file
write_checked_fits bytes p going room count = ground (arith, take_all bytes)

-- and one that does not
pub write_checked_short :
    (bytes : List ℕ) (p : Printing)
    → p.returned ≡ false
    → p.stream.remaining < length bytes
    → p.bytes_printed + length bytes < 2 ^ 64
    → write_checked bytes p ≡ record {
      bytes_printed = p.bytes_printed + p.stream.remaining;
      stream = record {
        contents = p.stream.contents ++ take p.stream.remaining bytes;
        remaining = 0;
      };
      returned = true;
    }
unfolding write_checked write_string_file
write_checked_short bytes p going room count = ground arith

pub write_checked_returned :
    (bytes : List ℕ) (p : Printing) → p.returned ≡ true → write_checked bytes p ≡ p
unfolding write_checked
write_checked_returned bytes p stopped = rw stopped

over : (xs ys : List ℕ) (n : ℕ) → length xs ≤ n → take n (xs ++ ys) ≡ xs ++ take (n - length xs) ys
over xs ys n h =
    ap (λ m. take m (xs ++ ys)) {x = n} {y = length xs + (n - length xs)} (omega arith)
    ∙ take-append_more xs ys (n - length xs)

-- Two writes in turn are one write.
pub write_checked-append :
    (xs ys : List ℕ) (p : Printing)
    → p.bytes_printed + length xs + length ys < 2 ^ 64
    → write_checked ys (write_checked xs p) ≡ write_checked (xs ++ ys) p
write_checked-append xs ys p count =
    let whole = length-append xs ys in
    elim (Bool-cases p.returned) [
      | inl stopped ↦
          rw (write_checked_returned xs p stopped, write_checked_returned ys p stopped)
            (sym (write_checked_returned (xs ++ ys) p stopped))
      | inr going ↦ elim (dec_le (length xs) p.stream.remaining) [
        | no short ↦
            rw
              (
                write_checked_short xs p going (omega arith) (omega arith),
                write_checked_short (xs ++ ys) p going (omega arith) (omega arith),
                take-append_less xs ys p.stream.remaining (omega arith),
              )
              (write_checked_returned ys _ refl)
        | yes room ↦ elim (dec_le (length xs + length ys) p.stream.remaining) [
          | yes all ↦
              rw
                (
                  write_checked_fits xs p going room (omega arith),
                  write_checked_fits (xs ++ ys) p going (omega arith) (omega arith),
                )
                (write_checked_fits ys _ refl (omega arith) count
                  ∙ ground (arith, append_assoc p.stream.contents xs ys, whole))
          | no some_left ↦
              rw
                (
                  write_checked_fits xs p going room (omega arith),
                  write_checked_short (xs ++ ys) p going (omega arith) (omega arith),
                )
                (write_checked_short ys _ refl (omega arith) count
                  ∙ ground (
                    arith,
                    append_assoc p.stream.contents xs (take (p.stream.remaining - length xs) ys),
                    over xs ys p.stream.remaining room,
                  ))
        ]
      ]
    ]

pub write_checked_count :
    (bytes : List ℕ) (p : Printing)
    → (write_checked bytes p).bytes_printed ≤ p.bytes_printed + length bytes
unfolding write_checked write_string_file
write_checked_count bytes p = ground arith

replicate-add : (m n b : ℕ) → replicate (m + n) b ≡ replicate m b ++ replicate n b
replicate-add zero n b = ap (λ k. replicate k b) (omega arith)
replicate-add (suc m) n b =
    ap (λ k. replicate k b) {x = suc m + n} {y = suc (m + n)} (omega arith)
    ∙ ap (λ t. b ∷ t) (replicate-add m n b)

-- The pieces add up to one write of all the bytes.
pub write_chunks_lem :
    (fuel count b : ℕ) (p : Printing)
    → count ≤ 64 * fuel + 64
    → p.bytes_printed + count < 2 ^ 64
    → write_chunks fuel count b p ≡ write_checked (replicate count b) p
unfolding write_chunks
write_chunks_lem zero count b p fuelled fits = refl
write_chunks_lem (suc fuel) count b p fuelled fits = elim (dec_le count 64) [
  | yes small ↦ ground arith
  | no large ↦
      let first = write_checked_count (replicate 64 b) p in
      let sixty_four = length-replicate 64 b in
      let others = length-replicate (count - 64) b in
      let above : ltb 64 count ≡ true = ground (arith, large) in
      rw above (
        write_chunks_lem fuel (count - 64) b (write_checked (replicate 64 b) p)
          (omega (arith, large)) (omega (arith, first, sixty_four, large))
        ∙ write_checked-append (replicate 64 b) (replicate (count - 64) b) p
            (omega (arith, sixty_four, others, large))
        ∙ ap (λ t. write_checked t p)
            (sym (replicate-add 64 (count - 64) b)
              ∙ ap (λ k. replicate k b) {y = count} (omega (arith, large))))
]
