-- ===== src/Entropy/Events.antt =====
-- The ring of events against a queue of at most 1023 events.
use xinix.Base.{
  ℕ, zero, suc, ◌+◌, ◌-◌, ◌%◌, ◌<◌, ◌≡◌, ◌⊎◌, inl, inr, ap, ap₂, ◌∙◌, arith, Bool-cases, some, List,
  [], ◌∷◌, ◌++◌, ◌==◌, bit_and, sub64, set, get_or, length, length-set, get_or-set_self,
  get_or-set_ne,
}
use xinix.Base.Bits.{bit_and_low}
use xinix.Entropy.{Ring, ring_mask, total_event, push_event, poll_loop, poll_ebuf}

-- `n` entries from an index on, around the ring
pub window : List ℕ → ℕ → ℕ → List ℕ
window buffer i zero = []
window buffer i (suc n) = get_or buffer i 0 ∷ window buffer ((i + 1) % 1024) n

abbrev pub count : Ring → ℕ
count r = (r.write_head + 1024 - r.read_head) % 1024

-- The events that wait, the oldest first
abbrev pub pending : Ring → List ℕ
pending r = window r.entropy_buffer r.read_head (count r)

pub record IsRing (r : Ring) : Type 0 where
  pub whole : length r.entropy_buffer ≡ 1024
  pub read_in : r.read_head < 1024
  pub write_in : r.write_head < 1024

mask_lem : (a : ℕ) → bit_and a ring_mask ≡ a % 1024
mask_lem a = bit_and_low 10 a

-- A write behind the window is no part of it, and it makes the window longer by one.
window-set :
    (buffer : List ℕ) (i n v : ℕ)
    → length buffer ≡ 1024
    → i < 1024
    → n < 1024
    → window (set buffer ((i + n) % 1024) v) i (suc n) ≡ window buffer i n ++ v ∷ []
unfolding window
window-set buffer i zero v whole small few =
    ap (λ x. x ∷ [])
      (ap (λ j. get_or (set buffer j v) i 0) {y = i} (omega arith)
        ∙ get_or-set_self buffer i v 0 (omega (arith, whole)))
window-set buffer i (suc n) v whole small few =
    let j = (i + suc n) % 1024 in
    let next = (i + 1) % 1024 in
    let same : j ≡ (next + n) % 1024 = omega arith in
    ap₂ (λ x xs. x ∷ xs) (get_or-set_ne buffer j i v 0 (λ e. absurd (omega (arith, e))))
      (ap (λ k. window (set buffer k v) next (suc n)) same
        ∙ window-set buffer next n v whole (omega arith) (omega arith))

-- A poll gives 0 and changes nothing when no event waits; otherwise it gives and removes the oldest.
pub poll_ebuf_lem :
    (r : Ring)
    → IsRing r
    → ((pending r ≡ []) × (poll_ebuf r ≡ some (0, r)))
      ⊎ ((v : ℕ) × (r1 : Ring) × (pending r ≡ v ∷ pending r1)
          × (poll_ebuf r ≡ some (v, r1))
          × IsRing r1)
unfolding poll_ebuf poll_loop window
poll_ebuf_lem r v = elim (Bool-cases (r.read_head == r.write_head)) [
  | inl empty ↦ inl (
    ap (window r.entropy_buffer r.read_head) {y = 0} (ground (arith, empty)),
    ground (arith, empty),
  )
  | inr some_wait ↦ inr (
    get_or r.entropy_buffer r.read_head 0,
    record r { read_head = (r.read_head + 1) % 1024 },
    ap (window r.entropy_buffer r.read_head)
        {y = suc ((r.write_head + 1024 - (r.read_head + 1) % 1024) % 1024)}
        (ground (arith, some_wait)),
    ground (
      arith,
      some_wait,
      mask_lem r.read_head,
      mask_lem (r.read_head + 1),
      ap (λ j. get_or r.entropy_buffer j 0) {x = bit_and r.read_head ring_mask} {y = r.read_head}
          (omega (arith, mask_lem r.read_head)),
    ),
    record { whole = v.whole; read_in = omega arith; write_in = v.write_in },
  )
]

-- An event is put behind those that wait, unless 1023 wait: then it is dropped.
pub push_event_lem :
    (r : Ring) (r_event time : ℕ)
    → IsRing r
    → ((count r ≡ 1023) × (push_event r r_event time ≡ r))
      ⊎ ((count r < 1023)
          × (pending (push_event r r_event time) ≡ pending r ++ total_event r_event time ∷ [])
          × IsRing (push_event r r_event time))
unfolding push_event
push_event_lem r r_event time v =
    let before = mask_lem (sub64 r.read_head 1) in
    let here : bit_and r.write_head ring_mask ≡ (r.read_head + count r) % 1024 =
      mask_lem r.write_head ∙ omega arith in
    let next = mask_lem (r.write_head + 1) in
    elim (Bool-cases (r.write_head == bit_and (sub64 r.read_head 1) ring_mask)) [
      | inl full ↦ inl (ground (arith, full, before), ground (arith, full))
      | inr room ↦
          let few : count r < 1023 = ground (arith, room, before) in
          inr (
            few,
            rw (room, here, next)
                (ap
                    (window
                      (set r.entropy_buffer ((r.read_head + count r) % 1024)
                        (total_event r_event time))
                      r.read_head)
                    {y = suc (count r)} (omega (arith, few))
                  ∙ window-set r.entropy_buffer r.read_head (count r) (total_event r_event time)
                      v.whole v.read_in (omega (arith, few))),
            rw (room, next)
                (record {
                  whole =
                      length-set r.entropy_buffer (bit_and r.write_head ring_mask)
                        (total_event r_event time)
                      ∙ v.whole;
                  read_in = v.read_in;
                  write_in = omega arith;
                }),
          )
    ]
