-- ===== src/Uuid/Layout.antt =====
-- The fields of the identifiers that are made.
use xinix.Base.{
  ap₂, Bool-cases, Option-cases, inl, inr, ◌||◌, ℕ, ◌+◌, ◌-◌, ◌*◌, ◌/◌, ◌%◌, ◌^◌, ◌≤◌, ◌<◌, ◌≡◌,
  refl, ap, ◌∙◌, arith, Option, none, some, List, ltb, leb, bit_and, bit_or, not64, u64, ◌<<<◌,
  get_or,
}
use xinix.Base.Bits.{bit_and_split, bit_and_low, bit_or_high, bit_or_fields, bit_or_fields'}
use xinix.Clock.{Duration, RtcState, read_global_rtc}
use xinix.Uuid.{
  Uuid, Buffer, WordBuffer, Generated, made, err_generic, panic, uuid_genv4, unix_millis, uuid_at,
  uuid_genv7,
}

-- A word with the version 4 in the place of its bits 12 to 15
version_bits :
    (hi : ℕ)
    → hi < 2 ^ 64
    → bit_or (bit_and hi (not64 0xF000)) (4 <<< 12)
      ≡ hi / 2 ^ 16 * 2 ^ 16 + 4 * 2 ^ 12 + hi % 2 ^ 12
version_bits hi word =
    let high = hi / 2 ^ 16 in
    let low = hi % 2 ^ 16 in
    let parts : hi ≡ high * 2 ^ 16 + low = omega arith in
    let kept_high : bit_and high (2 ^ 48 - 1) ≡ high = bit_and_low 48 high ∙ omega (arith, word) in
    let kept_low : bit_and low (2 ^ 12 - 1) ≡ hi % 2 ^ 12 = bit_and_low 12 low ∙ omega arith in
    let cleared : bit_and hi (not64 0xF000) ≡ high * 2 ^ 16 + hi % 2 ^ 12 =
      ap (λ (k : ℕ). bit_and k (not64 0xF000)) parts
      ∙ bit_and_split 16 high (2 ^ 48 - 1) low (2 ^ 12 - 1) (omega arith) (omega arith)
      ∙ omega (arith, kept_high, kept_low) in
    let sum = high * 2 ^ 16 + hi % 2 ^ 12 in
    let above : sum / 2 ^ 12 ≡ high * 2 ^ 4 = omega arith in
    let digit : bit_or (sum / 2 ^ 12) 4 ≡ high * 2 ^ 4 + 4 =
      ap (λ (k : ℕ). bit_or k 4) above ∙ bit_or_fields 4 high 4 (omega arith) in
    ap (λ (k : ℕ). bit_or k (4 * 2 ^ 12)) cleared ∙ bit_or_high 12 sum 4 ∙ omega (arith, digit)

variant_bits :
    (lo : ℕ)
    → bit_or (bit_and lo (not64 0xC000_0000_0000_0000)) (2 <<< 62) ≡ 2 * 2 ^ 62 + lo % 2 ^ 62
variant_bits lo =
    ap (λ (k : ℕ). bit_or k (2 * 2 ^ 62)) (bit_and_low 62 lo)
    ∙ bit_or_fields' 62 2 (lo % 2 ^ 62) (omega arith)

variant_top :
    (r : ℕ) → bit_or (2 <<< 62) (bit_and r 0x3FFF_FFFF_FFFF_FFFF) ≡ 2 * 2 ^ 62 + r % 2 ^ 62
variant_top r =
    ap (bit_or (2 * 2 ^ 62)) (bit_and_low 62 r) ∙ bit_or_fields 62 2 (r % 2 ^ 62) (omega arith)

time_bits :
    (time r : ℕ)
    → time < 2 ^ 48
    → bit_or (bit_or (u64 (time <<< 16)) (7 <<< 12)) (bit_and r 0xFFF)
      ≡ time * 2 ^ 16 + 7 * 2 ^ 12 + r % 2 ^ 12
time_bits time r small =
    let shifted : u64 (time <<< 16) ≡ time * 2 ^ 16 = ground (arith, small) in
    let version : bit_or (u64 (time <<< 16)) (7 <<< 12) ≡ (time * 2 ^ 4 + 7) * 2 ^ 12 =
      ap (λ (k : ℕ). bit_or k 0x7000) shifted
      ∙ bit_or_fields 16 time 0x7000 (omega arith)
      ∙ omega arith in
    ap₂ bit_or version (bit_and_low 12 r)
    ∙ bit_or_fields 12 (time * 2 ^ 4 + 7) (r % 2 ^ 12) (omega arith)
    ∙ omega arith

-- An identifier of version 4: the version in bits 12 to 15 of the high word, the variant in the top two
-- bits of the low one, and every other bit from a given identifier
abbrev pub HasVersion4 : Uuid → Uuid → Type 0
HasVersion4 from u =
    (u.uuid_hi ≡ from.uuid_hi / 2 ^ 16 * 2 ^ 16 + 4 * 2 ^ 12 + from.uuid_hi % 2 ^ 12)
    × (u.uuid_lo ≡ 2 * 2 ^ 62 + from.uuid_lo % 2 ^ 62)

abbrev pub Makes4 : Uuid → Option (List ℕ) → Generated → Type 0
Makes4 from none g = g ≡ err_generic
Makes4 from (some bytes) g = (u : Uuid) × (g ≡ made u) × HasVersion4 from u

-- `uuid_genv4` fails only with the generator; otherwise every bit but those of the version and the
-- variant is the one that stood on the stack before, whatever bytes the generator gave.
pub uuid_genv4_lem :
    (random : Option (List ℕ)) (stack : Buffer)
    → stack.res.uuid_hi < 2 ^ 64
    → Makes4 stack.res random (uuid_genv4 random stack)
unfolding uuid_genv4
uuid_genv4_lem none stack word = refl
uuid_genv4_lem (some bytes) stack word = (
  record {
    uuid_lo = bit_or (bit_and stack.res.uuid_lo (not64 0xC000_0000_0000_0000)) (2 <<< 62);
    uuid_hi = bit_or (bit_and stack.res.uuid_hi (not64 0xF000)) (4 <<< 12);
  },
  refl,
  (version_bits stack.res.uuid_hi word, variant_bits stack.res.uuid_lo),
)

-- An identifier of version 7 of a millisecond: the time in the upper 48 bits of the high word, the
-- version below it, and the rest from the two words of the stack
abbrev pub HasVersion7 : ℕ → List ℕ → Uuid → Type 0
HasVersion7 time words u =
    (u.uuid_hi ≡ time * 2 ^ 16 + 7 * 2 ^ 12 + get_or words 0 0 % 2 ^ 12)
    × (u.uuid_lo ≡ 2 * 2 ^ 62 + get_or words 1 0 % 2 ^ 62)

abbrev pub Makes7 : ℕ → List ℕ → Generated → Type 0
Makes7 time words (made u) = (time < 2 ^ 48) × HasVersion7 time words u
Makes7 time words err_generic = 2 ^ 48 ≤ time
Makes7 time words panic = ⊥

uuid_at-Makes7 : (time : ℕ) (b : WordBuffer) → Makes7 time b.res (uuid_at time b)
unfolding uuid_at
uuid_at-Makes7 time b = elim (Bool-cases (leb (2 ^ 63) time || ltb 0xFFFF_FFFF_FFFF time)) [
  | inl late ↦ rw (Makes7, late) (ground (arith, late))
  | inr early ↦
      let small : time < 2 ^ 48 = ground (arith, early) in
      rw (Makes7, early)
        (small, (time_bits time (get_or b.res 0 0) small, variant_top (get_or b.res 1 0)))
]

-- What `uuid_genv7` gives for what the generator and the clock gave
abbrev pub Gives7 : Option (List ℕ) → Option Duration → List ℕ → Generated → Type 0
Gives7 none clock words g = g ≡ err_generic
Gives7 (some bytes) none words g = g ≡ panic
Gives7 (some bytes) (some dur) words g = Makes7 (unix_millis dur) words g

-- `uuid_genv7` fails with the generator, panics with the clock, and fails from the millisecond 2^48 on;
-- otherwise the time stands above the version, the variant in the top bits of the low word, and every
-- other bit is the one that stood in the two words of the stack, whatever bytes the generator gave.
pub uuid_genv7_lem :
    (random : Option (List ℕ)) (clock : RtcState) (boottime : ℕ) (stack : WordBuffer)
    → Gives7 random
        (read_global_rtc clock boottime)
        stack.res
        (uuid_genv7 random clock boottime stack)
unfolding uuid_genv7
uuid_genv7_lem none clock boottime stack = refl
uuid_genv7_lem (some bytes) clock boottime stack =
    elim (Option-cases (read_global_rtc clock boottime)) [
      | inl late ↦ rw (Gives7, uuid_genv7, late) refl
      | inr (dur, now) ↦
          rw (Gives7, uuid_genv7, now)
            (uuid_at-Makes7 (unix_millis dur) (record stack { buf = bytes }))
    ]
