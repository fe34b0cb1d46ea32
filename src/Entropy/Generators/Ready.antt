-- ===== src/Entropy/Generators/Ready.antt =====
-- The generators between calls.
use xinix.Base.{
  ◌+◌, replicate, bit_or, ℕ, ◌≤◌, ◌<◌, ◌≡◌, refl, ap, ◌∙◌, arith, inl, inr, true, Bool-cases,
  Option-cases, Option, some, List, ◌++◌, ◌==◌, leb, if◌then◌else◌,
}
use xinix.Random.Outputs.{rand_poll_total, rand_ingest-ticks}
use xinix.Random.{RandomGenerator, Garbage, rand_ingest}
use xinix.Entropy.{Ring, poll_ebuf}
use xinix.Entropy.Events.{IsRing, poll_ebuf_lem}
use xinix.Entropy.Generators.{
  Machine, rand_slow_get_entropy, reseed_kgen, random_kglobal_gen, user_entropy, random_global_gen,
  random_global_ingest, xor_bytes, word_bytes, reseed_urand_gen, reseed_user, random_kglobal_ingest,
}

poll_total :
    (r : Ring) → IsRing r → (v : ℕ) × (r1 : Ring) × (poll_ebuf r ≡ some (v, r1)) × IsRing r1
poll_total r is = elim (poll_ebuf_lem r is) [
  | inl (idle, same) ↦ (0, r, same, is)
  | inr (v, r1, waits, e, kept) ↦ (v, r1, e, kept)
]

-- How often a generator was polled, after it was reseeded if it had to be
abbrev pub kept : ℕ → ℕ → ℕ
kept limit ticks = if leb limit ticks then 0 else ticks

-- The count of the context's generator, which is polled when the thread's one is overdue
abbrev pub kernel_ticks : ℕ → ℕ → ℕ
kernel_ticks kernel user = if leb 128 user then kept 16 kernel + 1 else kernel

module _ {S : Type 0} (backing : S → Option (List ℕ) × S) (garbage : S → Garbage) where
  -- The lock is free, no generator went longer without fresh entropy than it may, the ring is valid.
  pub record IsReady (m : Machine backing garbage) : Type 0 where
    pub free : m.kgen_lock ≡ 0
    pub kernel_due : m.kgen.ticks_since_ingest ≤ 16
    pub user_due : m.urand_gen.ticks_since_ingest ≤ 128
    pub whole : IsRing m.ring

  -- Entropy was taken: nothing but the ring and the processor's state changed.
  abbrev Fed : Machine backing garbage → Machine backing garbage → Type 0
  Fed m n =
      (n.kgen_lock ≡ m.kgen_lock) × (n.kgen ≡ m.kgen) × (n.urand_gen ≡ m.urand_gen) × IsRing n.ring

  slow_total :
      (m : Machine backing garbage)
      → IsRing m.ring
      → (buf : List ℕ) × (n : Machine backing garbage) × (rand_slow_get_entropy backing garbage m
          ≡ some (buf, n))
        × Fed m n
  unfolding rand_slow_get_entropy
  slow_total m is = elim (Option-cases (backing m.hidden).0) [
    | inl fails ↦ (
      replicate 16 0,
      record m { hidden = (backing m.hidden).1 },
      rw (rand_slow_get_entropy, fails) refl,
      (refl, refl, refl, is),
    )
    | inr (output, given) ↦
        let (v, ring1, first, is1) = poll_total m.ring is in
        let (w, ring2, second, is2) = poll_total ring1 is1 in
        (
          xor_bytes output (word_bytes 8 v ++ word_bytes 8 w),
          record m { hidden = (backing m.hidden).1; ring = ring2 },
          rw (rand_slow_get_entropy, given, first, second) refl,
          (refl, refl, refl, is2),
        )
  ]

  -- A reseeded generator of the context, the rest but the ring as before
  abbrev KernelFed : ℕ → Machine backing garbage → Machine backing garbage → Type 0
  KernelFed limit m n =
      (n.kgen_lock ≡ m.kgen_lock)
      × (n.kgen.ticks_since_ingest ≡ kept limit m.kgen.ticks_since_ingest)
      × (n.urand_gen ≡ m.urand_gen)
      × IsRing n.ring

  kgen_reseeded :
      (limit : ℕ) (m : Machine backing garbage)
      → 0 < limit
      → IsRing m.ring
      → (n : Machine backing garbage) × ((if leb limit m.kgen.ticks_since_ingest
            then reseed_kgen backing garbage m
            else some m)
          ≡ some n)
        × KernelFed limit m n
  unfolding reseed_kgen
  kgen_reseeded limit m some_limit is = elim (Bool-cases (leb limit m.kgen.ticks_since_ingest)) [
    | inr early ↦ (m, rw early refl, (refl, rw early refl, refl, is))
    | inl due ↦
        let (buf, n, given, (lock, gen, user, ring)) = slow_total m is in
        let fed = rand_ingest (garbage n.hidden) n.kgen buf in
        (
          record n { kgen = fed },
          rw (due, reseed_kgen, given) refl,
          (lock, rand_ingest-ticks (garbage n.hidden) n.kgen buf ∙ rw due refl, user, ring),
        )
  ]

  -- The context's generator gives bytes, and is ready again.
  pub kglobal_gen_total :
      (m : Machine backing garbage)
      → IsReady m
      → (out : List ℕ) × (n : Machine backing garbage) × (random_kglobal_gen backing garbage m
          ≡ some (some out, n))
        × IsReady n
        × (n.urand_gen ≡ m.urand_gen)
        × (n.kgen.ticks_since_ingest ≡ kept 16 m.kgen.ticks_since_ingest + 1)
  unfolding random_kglobal_gen
  kglobal_gen_total m is =
      let unlocked : (m.kgen_lock == 0) ≡ true = ground (arith, is.free) in
      let locked = record m { kgen_lock = bit_or m.kgen_lock 1 } in
      let (n, fed, (lock, below, user, ring)) = kgen_reseeded 16 locked (omega arith) is.whole in
      let (out, gen, given, tick) = rand_poll_total (garbage n.hidden) n.kgen in
      let few : kept 16 m.kgen.ticks_since_ingest < 16 = ground arith in
      let counted : gen.ticks_since_ingest ≡ kept 16 m.kgen.ticks_since_ingest + 1 =
        omega (arith, tick, below, few) in
      (
        out,
        record n { kgen = gen; kgen_lock = 0 },
        rw (random_kglobal_gen, unlocked, fed, given) refl,
        record {
          free = refl;
          kernel_due = omega (arith, counted, few);
          user_due =
              omega (arith, ap (λ (g : RandomGenerator). g.ticks_since_ingest) user, is.user_due);
          whole = ring;
        },
        user,
        counted,
      )

  -- Every part is ready, and the generators were polled as often as the counts say.
  abbrev Fresh : Machine backing garbage → Machine backing garbage → Type 0
  Fresh m n =
      IsReady n
      × (n.urand_gen.ticks_since_ingest ≡ kept 128 m.urand_gen.ticks_since_ingest)
      × (n.kgen.ticks_since_ingest
          ≡ kernel_ticks m.kgen.ticks_since_ingest m.urand_gen.ticks_since_ingest)

  user_reseeded :
      (m : Machine backing garbage)
      → IsReady m
      → (n : Machine backing garbage) × ((if leb 128 m.urand_gen.ticks_since_ingest
            then reseed_user backing garbage m
            else some m)
          ≡ some n)
        × Fresh m n
  unfolding reseed_user user_entropy
  user_reseeded m is = elim (Bool-cases (leb 128 m.urand_gen.ticks_since_ingest)) [
    | inr early ↦ (m, rw early refl, (is, rw early refl, rw early refl))
    | inl due ↦
        let (buf, n, given, ready, user, counted) = kglobal_gen_total m is in
        let fed = rand_ingest (garbage n.hidden) n.urand_gen buf in
        let none_left = rand_ingest-ticks (garbage n.hidden) n.urand_gen buf in
        (
          record n { urand_gen = fed },
          rw (due, reseed_user, user_entropy, given) refl,
          (
            record {
              free = ready.free;
              kernel_due = ready.kernel_due;
              user_due = omega (arith, none_left);
              whole = ready.whole;
            },
            none_left ∙ rw due refl,
            rw due counted,
          ),
        )
  ]

  pub global_gen_total :
      (m : Machine backing garbage)
      → IsReady m
      → (out : List ℕ) × (n : Machine backing garbage) × (random_global_gen backing garbage m
          ≡ some (out, n))
        × IsReady n
        × (n.kgen.ticks_since_ingest
            ≡ kernel_ticks m.kgen.ticks_since_ingest m.urand_gen.ticks_since_ingest)
        × (n.urand_gen.ticks_since_ingest ≡ kept 128 m.urand_gen.ticks_since_ingest + 1)
  unfolding random_global_gen
  global_gen_total m is =
      let (n, fed, (ready, below, kernel)) = user_reseeded m is in
      let (out, gen, given, tick) = rand_poll_total (garbage n.hidden) n.urand_gen in
      let few : kept 128 m.urand_gen.ticks_since_ingest < 128 = ground arith in
      let counted : gen.ticks_since_ingest ≡ kept 128 m.urand_gen.ticks_since_ingest + 1 =
        omega (arith, tick, below, few) in
      (
        out,
        record n { urand_gen = gen },
        rw (random_global_gen, fed, given) refl,
        record {
          free = ready.free;
          kernel_due = ready.kernel_due;
          user_due = omega (arith, counted, few);
          whole = ready.whole;
        },
        kernel,
        counted,
      )

  pub kglobal_ingest_total :
      (bytes : List ℕ) (m : Machine backing garbage)
      → IsReady m
      → (n : Machine backing garbage) × (random_kglobal_ingest backing garbage bytes m ≡ some n)
        × IsReady n
        × (n.kgen.ticks_since_ingest ≡ 0)
        × (n.urand_gen ≡ m.urand_gen)
  unfolding random_kglobal_ingest
  kglobal_ingest_total bytes m is =
      let unlocked : (m.kgen_lock == 0) ≡ true = ground (arith, is.free) in
      let locked = record m { kgen_lock = bit_or m.kgen_lock 1 } in
      let (n, fed, (lock, below, user, ring)) = kgen_reseeded 8 locked (omega arith) is.whole in
      let gen = rand_ingest (garbage n.hidden) n.kgen bytes in
      (
        record n { kgen = gen; kgen_lock = 0 },
        rw (random_kglobal_ingest, unlocked, fed) refl,
        record {
          free = refl;
          kernel_due = omega (arith, rand_ingest-ticks (garbage n.hidden) n.kgen bytes);
          user_due =
              omega (arith, ap (λ (g : RandomGenerator). g.ticks_since_ingest) user, is.user_due);
          whole = ring;
        },
        rand_ingest-ticks (garbage n.hidden) n.kgen bytes,
        user,
      )

  -- The state before the last ingest of `random_global_ingest`
  user_refreshed :
      (m : Machine backing garbage)
      → IsReady m
      → (n : Machine backing garbage) × ((if leb 64 m.urand_gen.ticks_since_ingest
            then reseed_urand_gen backing garbage m
            else some m)
          ≡ some n)
        × IsReady n
        × (n.kgen ≡ m.kgen)
  unfolding reseed_urand_gen
  user_refreshed m is = elim (Bool-cases (leb 64 m.urand_gen.ticks_since_ingest)) [
    | inr early ↦ (m, rw early refl, is, refl)
    | inl due ↦
        let (buf, n, given, (lock, gen, user, ring)) = slow_total m is.whole in
        (
          record n { urand_gen = rand_ingest (garbage n.hidden) n.urand_gen buf },
          rw (due, reseed_urand_gen, given) refl,
          record {
            free = lock ∙ is.free;
            kernel_due =
                omega
                  (arith, ap (λ (g : RandomGenerator). g.ticks_since_ingest) gen, is.kernel_due);
            user_due = omega (arith, rand_ingest-ticks (garbage n.hidden) n.urand_gen buf);
            whole = ring;
          },
          gen,
        )
  ]

  pub global_ingest_total :
      (bytes : List ℕ) (m : Machine backing garbage)
      → IsReady m
      → (n : Machine backing garbage) × (random_global_ingest backing garbage bytes m ≡ some n)
        × IsReady n
        × (n.kgen ≡ m.kgen)
        × (n.urand_gen.ticks_since_ingest ≡ 0)
  unfolding random_global_ingest
  global_ingest_total bytes m is =
      let (n, fed, ready, kernel) = user_refreshed m is in
      let gen = rand_ingest (garbage n.hidden) n.urand_gen bytes in
      (
        record n { urand_gen = gen },
        rw (random_global_ingest, fed) refl,
        record {
          free = ready.free;
          kernel_due = ready.kernel_due;
          user_due = omega (arith, rand_ingest-ticks (garbage n.hidden) n.urand_gen bytes);
          whole = ready.whole;
        },
        kernel,
        rand_ingest-ticks (garbage n.hidden) n.urand_gen bytes,
      )
