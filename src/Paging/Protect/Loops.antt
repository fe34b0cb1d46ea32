-- ===== src/Paging/Protect/Loops.antt =====
-- The loops over addresses of `vprotect`: how an address goes on, and what a loop keeps.
use xinix.Base.{
  ℕ, zero, suc, ◌+◌, ◌-◌, ◌*◌, ◌/◌, ◌^◌, ◌≤◌, ◌<◌, ◌≡◌, refl, sym, ap, ◌∙◌, arith, Bool, true, ◌&&◌,
  inl, inr, Option, some, ◌==◌, ltb, Bool-cases, bit_and, u64,
}
use xinix.Base.Bits.{bit_and_clear}
use xinix.Paging.Protect.{for_addr, update_entry}
use xinix.Paging.Protect.Bits.{kept_bits}

-- Every entry is as before but for bit 5 and NX.
abbrev pub Kept : (ℕ → ℕ) → (ℕ → ℕ) → Type 0
Kept m after = (a : ℕ) → bit_and (after a) kept_bits ≡ bit_and (m a) kept_bits

pub Kept-trans : (m n o : ℕ → ℕ) → Kept m n → Kept n o → Kept m o
Kept-trans m n o first second a = second a ∙ first a

pub update_entry-Kept :
    (p : ℕ) (f : ℕ → ℕ) (m : ℕ → ℕ)
    → ((e : ℕ) → bit_and (f e) kept_bits ≡ bit_and e kept_bits)
    → Kept m (update_entry p f m)
update_entry-Kept p f m same a = elim (Bool-cases (a == p)) [
  | inl here ↦
      let at_p : a ≡ p = ground (arith, here) in
      rw here (same (m p) ∙ ap (λ (k : ℕ). bit_and (m k) kept_bits) (sym at_p))
  | inr away ↦ rw away refl
]

pub both_below : (a l b : ℕ) → (ltb a l && ltb a b) ≡ true → (a < l) × (a < b)
both_below a l b more = ground (arith, more)

-- The next multiple of a power of two
pub next_lem :
    (k w a : ℕ)
    → 2 ^ (k + w) ≡ 2 ^ 64
    → a + 2 ^ k < 2 ^ 64
    → bit_and (u64 (a + 2 ^ k)) (2 ^ (k + w) - 2 ^ k) ≡ (a + 2 ^ k) / 2 ^ k * 2 ^ k
next_lem k w a width room =
    let word : u64 (a + 2 ^ k) ≡ a + 2 ^ k = omega (arith, room) in
    ap (λ (x : ℕ). bit_and x (2 ^ (k + w) - 2 ^ k)) word
    ∙ bit_and_clear k w (a + 2 ^ k) (omega (arith, width, room))

-- A loop from `low` on, whose addresses have the number `far`, none of them above `top`
module _ (size mask low top : ℕ) (far : ℕ → ℕ) (more : ℕ → Bool)
    (body : ℕ → (ℕ → ℕ) → Option (ℕ → ℕ)) (inside : (a : ℕ) → more a ≡ true → far a ≤ top)
    (onward : (a : ℕ)
      → more a ≡ true
      → (far (bit_and (u64 (a + size)) mask) ≡ suc (far a)) × (a ≤ bit_and (u64 (a + size)) mask))
    (turn : (a : ℕ) (m : ℕ → ℕ)
      → low ≤ a
      → more a ≡ true
      → (after : ℕ → ℕ) × (body a m ≡ some after) × Kept m after) where
  -- It ends within as many rounds as there are numbers left, and one more, and keeps what each turn
  -- keeps.
  pub for_addr_lem :
      (n a : ℕ) (m : ℕ → ℕ)
      → low ≤ a
      → top < far a + n
      → (after : ℕ → ℕ) × (for_addr (suc n) size mask more body a m ≡ some after) × Kept m after
  unfolding for_addr
  for_addr_lem zero a m above close = elim (Bool-cases (more a)) [
    | inl goes ↦ absurd (omega (arith, close, inside a goes))
    | inr stops ↦ (m, rw (for_addr, stops) refl, λ x. refl)
  ]
  for_addr_lem (suc n) a m above close = elim (Bool-cases (more a)) [
    | inl goes ↦
        let (middle, runs, same) = turn a m above goes in
        let (counted, rises) = onward a goes in
        let (after, rest, same') =
          for_addr_lem n (bit_and (u64 (a + size)) mask) middle (omega (arith, above, rises))
            (omega (arith, close, counted)) in
        (after, rw (for_addr, goes, runs, rest) refl, Kept-trans m middle after same same')
    | inr stops ↦ (m, rw (for_addr, stops) refl, λ x. refl)
  ]
