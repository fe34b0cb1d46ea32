-- ===== src/Sha2.antt =====
-- The compression of common/include/sha2.h, the macro SHA2_DEF for both widths.
pub mod Tables
pub mod Unchanged
use xinix.Base.{
  ℕ, zero, suc, ◌+◌, ◌-◌, ◌*◌, ◌/◌, ◌%◌, ◌^◌, Bool, true, false, List, [], ◌∷◌, ◌==◌, if◌then◌else◌,
  bit_and, bit_xor, sub64, get_or,
}
use xinix.Keccack.{for_range, write, rotate_right}

-- What the macro is given: N, the rounds and their constants
pub record Width : Type 0 where
  pub bits : ℕ
  pub rounds : ℕ
  pub constants : List ℕ

-- The locals of the loop; `w` is the array of 16 words, with the word that lies behind it.
pub record Locals : Type 0 where
  pub a : ℕ
  pub b : ℕ
  pub c : ℕ
  pub d : ℕ
  pub e : ℕ
  pub f : ℕ
  pub g : ℕ
  pub h : ℕ
  pub w : ℕ → ℕ

-- Word `k` of the block after `stdx_from_be`, on a little-endian machine
pub be_word : Width → (ℕ → ℕ) → ℕ → ℕ
be_word v buf k =
    let bytes = v.bits / 8 in for_range bytes 0 (λ n x. x * 256 + buf (bytes * k + n)) 0

-- A round. `_w[(_n - 7) & 16]` is the word 0 or the word behind the array.
pub sha2_round : Width → ℕ → Locals → Locals
sha2_round v n s =
    let word = λ (x : ℕ). x % 2 ^ v.bits in
    let rot = rotate_right v.bits in
    let w15 = s.w (bit_and (sub64 n 15) 15) in
    let w2 = s.w (bit_and (sub64 n 2) 15) in
    let s0 = bit_xor (bit_xor (rot w15 7) (rot w15 18)) (rot w15 3) in
    let s1 = bit_xor (bit_xor (rot w2 17) (rot w2 19)) (rot w2 10) in
    let big1 = bit_xor (bit_xor (rot s.e 6) (rot s.e 11)) (rot s.e 25) in
    let ch = bit_xor (bit_and s.e s.f) (bit_and (2 ^ v.bits - 1 - s.e) s.g) in
    let temp1 = word (s.h + big1 + ch + get_or v.constants n 0 + s.w (bit_and n 15)) in
    let big0 = bit_xor (bit_xor (rot s.a 2) (rot s.a 13)) (rot s.a 22) in
    let maj = bit_xor (bit_xor (bit_and s.a s.b) (bit_and s.a s.c)) (bit_and s.b s.c) in
    let temp2 = word (big0 + maj) in
    record {
      a = word (temp1 + temp2);
      b = s.a;
      c = s.b;
      d = s.c;
      e = word (s.d + temp1);
      f = s.e;
      g = s.f;
      h = s.g;
      w =
          write s.w (bit_and n 15)
            (word (s.w (bit_and n 15) + s0 + s.w (bit_and (sub64 n 7) 16) + s1));
    }

-- The locals after the loop, from the state, the block and the word behind the array
pub sha2_rounds : Width → (ℕ → ℕ) → (ℕ → ℕ) → ℕ → Locals
sha2_rounds v state buf beyond = for_range v.rounds 0 (sha2_round v) (record {
  a = state 0;
  b = state 1;
  c = state 2;
  d = state 3;
  e = state 4;
  f = state 5;
  g = state 6;
  h = state 7;
  w = λ k. if k == 16 then beyond else be_word v buf k;
})

-- The state after `sha2_update`: nothing in the body writes `_state`, and the locals are dropped.
unfoldable pub sha2_update : Width → (ℕ → ℕ) → (ℕ → ℕ) → ℕ → ℕ → ℕ
sha2_update v state buf beyond = let dropped = sha2_rounds v state buf beyond in state
