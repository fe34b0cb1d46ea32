-- ===== src/Console/Eval.antt =====
-- `eval` against the text of the line.
use xinix.Base.{
  ℕ, ◌+◌, ◌≡◌, ◌≢◌, refl, ap, arith, Bool, true, false, ◌&&◌, List, [], ◌∷◌, ◌==◌, if◌then◌else◌,
  ascii, ◌++◌,
}
use xinix.Bytes.{Memory}
use xinix.Console.{echo, time, crash, pcontext, not_found, starts_with, eval}

-- The bytes of a text lie at an address, with the end mark behind them.
abbrev pub IsText : Memory → ℕ → List ℕ → Type 0
IsText m a [] = m a ≡ 0
IsText m a (c ∷ text) = (m a ≡ c) × (c ≢ 0) × IsText m (a + 1) text

abbrev pub is_prefix : List ℕ → List ℕ → Bool
is_prefix [] text = true
is_prefix (x ∷ xs) [] = false
is_prefix (x ∷ xs) (c ∷ text) = c == x && is_prefix xs text

abbrev pub is_same : List ℕ → List ℕ → Bool
is_same [] [] = true
is_same [] (c ∷ text) = false
is_same (x ∷ xs) [] = false
is_same (x ∷ xs) (c ∷ text) = c == x && is_same xs text

abbrev NoMark : List ℕ → Type 0
NoMark [] = Unit {0}
NoMark (x ∷ xs) = (x ≢ 0) × NoMark xs

starts_with-prefix :
    (m : Memory) (a : ℕ) (xs text : List ℕ)
    → NoMark xs
    → IsText m a text
    → starts_with m a xs ≡ is_prefix xs text
unfolding starts_with
starts_with-prefix m a [] text marks is = refl
starts_with-prefix m a (x ∷ xs) [] marks is = ground (arith, marks.0)
starts_with-prefix m a (x ∷ xs) (c ∷ text) marks is =
    rw (is.0, starts_with)
      (ap (λ (b : Bool). c == x && b) (starts_with-prefix m (a + 1) xs text marks.1 is.2))

starts_with-same :
    (m : Memory) (a : ℕ) (xs text : List ℕ)
    → NoMark xs
    → IsText m a text
    → starts_with m a (xs ++ (0 ∷ [])) ≡ is_same xs text
unfolding starts_with
starts_with-same m a [] [] marks is = ground arith
starts_with-same m a [] (c ∷ text) marks is = ground arith
starts_with-same m a (x ∷ xs) [] marks is = ground (arith, marks.0)
starts_with-same m a (x ∷ xs) (c ∷ text) marks is =
    rw (is.0, starts_with)
      (ap (λ (b : Bool). c == x && b) (starts_with-same m (a + 1) xs text marks.1 is.2))

-- For a text that lies at the line, `eval` echoes what follows if it begins with the word echo and a
-- space, and otherwise knows exactly the three texts time, crash and pcontext.
pub eval_lem :
    (m : Memory) (line : ℕ) (text : List ℕ)
    → IsText m line text
    → eval m line ≡ (
        if is_prefix (ascii "echo ") text
        then echo (line + 5)
        else if is_same (ascii "time") text
        then time
        else if is_same (ascii "crash") text
        then crash
        else if is_same (ascii "pcontext") text
        then pcontext
        else not_found)
unfolding eval
eval_lem m line text is =
    rw
      (
        starts_with-prefix m line (ascii "echo ") text (omega arith) is,
        starts_with-same m line (ascii "time") text (omega arith) is,
        starts_with-same m line (ascii "crash") text (omega arith) is,
        starts_with-same m line (ascii "pcontext") text (omega arith) is,
      )
      refl
