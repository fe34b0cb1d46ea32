-- ===== src/Keyboard/Pending.antt =====
-- kernel/src/common/keyboard.c without its array: the state of the scan, the modifiers and an
-- unbounded list of the keys that wait. `run_refines` says for how long the code behaves so.
use xinix.Base.{
  suc, ℕ, ◌+◌, ◌≤◌, ◌<◌, ◌≡◌, refl, ap, ◌∙◌, ◌⊎◌, inl, inr, Option, none, some, List, [], ◌∷◌, ◌++◌,
  arith, ◌==◌, if◌then◌else◌, length, get_or, get_elem?-eq-get_or, Bool-cases, bit_or,
}
use xinix.ScanTable.{
  ScanState, scan_init, scan_e0, scan_unknown, scan_error, Transition, init_table, e0_table,
}
use xinix.Keyboard.{
  Keyboard, Modifiers, ScanStatus, update_modifiers, event_key, transition, follow,
  process_scancode_byte, poll_key, enqueue,
}
use xinix.Keyboard.Fifo.{
  IsValid, contents, front, enqueued, enqueue_room, enqueued-IsValid, contents-enqueued,
  poll_key_lem,
}

pub record Pending : Type 0 where
  pub scan_state : ScanState
  pub modifiers : Modifiers
  pub keys : List ScanStatus

abbrev pub view : Keyboard → Pending
view k = record { scan_state = k.scan_state; modifiers = k.modifiers; keys = contents k }

-- What the interrupt handler and the console loop do to the keyboard.
pub data Op : Type 0 where
  byte : ℕ → Op
  poll : Op

-- A code that is not 0 is a key, which goes to the back with the modifiers after it.
abbrev pub press : ScanState → Pending → ℕ → Pending
press next p code =
    let m = update_modifiers p.modifiers code in
    if code == 0 then record p { scan_state = next } else record {
      scan_state = next;
      modifiers = m;
      keys = p.keys ++ (record { scan_code = code; modifiers = m } ∷ []);
    }

-- The marks of the table, for a byte without a meaning, start the scan anew.
on_code : ScanState → Pending → ℕ → Pending
on_code scan_init p code = press scan_init p code
on_code scan_e0 p code = press scan_e0 p code
on_code scan_unknown p code = record p { scan_state = scan_init }
on_code scan_error p code = record p { scan_state = scan_init }

unfoldable pub on_byte : Pending → ℕ → Pending
unfolding on_code
on_byte p input = elim (transition p.scan_state input) [
  | none ↦ p
  | some t ↦ on_code t.next_state p t.scan_code
]

unfoldable pub run_pending : Pending → List Op → List ScanStatus × Pending
run_pending p [] = ([], p)
run_pending p (byte b ∷ ops) = run_pending (on_byte p b) ops
run_pending p (poll ∷ ops) =
    let (out, p') = run_pending (record p { keys = (front p.keys).1 }) ops in
    ((front p.keys).0 ∷ out, p')

-- The code, over the same operations: what the polls return, and the state.
pub run : Keyboard → List Op → Option (List ScanStatus × Keyboard)
run k [] = some ([], k)
run k (byte b ∷ ops) = elim (process_scancode_byte k b) [ none ↦ none | some k' ↦ run k' ops ]
run k (poll ∷ ops) = elim (poll_key k) [
  | none ↦ none
  | some (s, k') ↦ elim (run k' ops) [ none ↦ none | some (out, l) ↦ some (s ∷ out, l) ]
]

-- The states that `scan_state` can hold: those with a row.
abbrev pub IsScanning : ScanState → Type 0
IsScanning s = (s ≡ scan_init) ⊎ (s ≡ scan_e0)

abbrev pub AreBytes : List Op → Type 0
AreBytes [] = Unit {0}
AreBytes (byte b ∷ ops) = (b < 256) × AreBytes ops
AreBytes (poll ∷ ops) = AreBytes ops

-- How many bytes arrive
abbrev pub bytes_in : List Op → ℕ
bytes_in [] = 0
bytes_in (byte b ∷ ops) = suc (bytes_in ops)
bytes_in (poll ∷ ops) = bytes_in ops

length-init_table : length init_table ≡ 256
unfolding init_table
length-init_table = refl

length-e0_table : length e0_table ≡ 256
unfolding e0_table
length-e0_table = refl

transition_total :
    (s : ScanState) (b : ℕ) → IsScanning s → b < 256 → (t : Transition) × (transition s b ≡ some t)
unfolding transition
transition_total scan_init b h lt =
    let d : Transition = record { next_state = scan_init; scan_code = 0 } in
    (get_or init_table b d, get_elem?-eq-get_or init_table b d (omega (arith, length-init_table)))
transition_total scan_e0 b h lt =
    let d : Transition = record { next_state = scan_init; scan_code = 0 } in
    (get_or e0_table b d, get_elem?-eq-get_or e0_table b d (omega (arith, length-e0_table)))
transition_total scan_unknown b h lt = ground arith
transition_total scan_error b h lt = ground arith

-- What one step of the code keeps, and what it shows.
pub record Follows (k : Keyboard) (p : Pending) (r : Option Keyboard) : Type 0 where
  pub after : Keyboard
  pub returns : r ≡ some after
  pub valid : IsValid after
  pub scanning : IsScanning after.scan_state
  pub shows : view after ≡ p
  pub grows : after.queue_head ≤ k.queue_head + 1

press-Follows :
    (next : ScanState) (k : Keyboard) (code : ℕ)
    → IsScanning next
    → IsValid k
    → k.queue_head < 255
    → Follows k (press next (view k) code) (
        if code == 0
        then some (record k { scan_state = next })
        else enqueue
            (record k { scan_state = next; events = k.events ++ (bit_or event_key code ∷ []) })
            code)
press-Follows next k code sc v room = elim (Bool-cases (code == 0)) [
  | inl e ↦ rw e (record {
    after = record k { scan_state = next };
    returns = refl;
    valid = ground arith;
    scanning = sc;
    shows = refl;
    grows = omega arith;
  })
  | inr e ↦
      let j : Keyboard = record k {
        scan_state = next;
        events = k.events ++ (bit_or event_key code ∷ []);
      } in
      let w : IsValid j = record { storage = v.storage; ordered = v.ordered; within = v.within } in
      rw e (record {
        after = enqueued j code;
        returns = enqueue_room j code room v.ordered;
        valid = enqueued-IsValid j code w room;
        scanning = sc;
        shows = λ i. record {
          scan_state = next;
          modifiers = update_modifiers k.modifiers code;
          keys = contents-enqueued j code w room i;
        };
        grows = omega arith;
      })
]

follow-Follows :
    (next : ScanState) (k : Keyboard) (code : ℕ)
    → IsValid k
    → k.queue_head < 255
    → Follows k (on_code next (view k) code) (follow next k code)
unfolding follow on_code
follow-Follows scan_init k code v room = press-Follows scan_init k code (inl refl) v room
follow-Follows scan_e0 k code v room = press-Follows scan_e0 k code (inr refl) v room
follow-Follows scan_unknown k code v room = record {
  after = record k { scan_state = scan_init };
  returns = refl;
  valid = ground arith;
  scanning = inl refl;
  shows = refl;
  grows = omega arith;
}
follow-Follows scan_error k code v room = record {
  after = record k { scan_state = scan_init };
  returns = refl;
  valid = ground arith;
  scanning = inl refl;
  shows = refl;
  grows = omega arith;
}

process-Follows :
    (k : Keyboard) (b : ℕ)
    → IsValid k
    → IsScanning k.scan_state
    → b < 256
    → k.queue_head < 255
    → Follows k (on_byte (view k) b) (process_scancode_byte k b)
unfolding process_scancode_byte on_byte
process-Follows k b v sc lt room =
    let (t, e) = transition_total k.scan_state b sc lt in
    rw (e, process_scancode_byte, on_byte) (follow-Follows t.next_state k t.scan_code v room)

run-byte :
    (k k' : Keyboard) (b : ℕ) (ops : List Op)
    → process_scancode_byte k b ≡ some k'
    → run k (byte b ∷ ops) ≡ run k' ops
unfolding run
run-byte k k' b ops e = rw (e, run)

run-poll :
    (k k' : Keyboard) (ops : List Op) (s : ScanStatus)
    → poll_key k ≡ some (s, k')
    → run k (poll ∷ ops) ≡ elim (run k' ops) [ none ↦ none | some (out, l) ↦ some (s ∷ out, l) ]
unfolding run
run-poll k k' ops s e = rw (e, run)

-- From a valid state with at most 255 places taken by its head and the bytes that arrive, however many
-- polls there are, no access leaves the array, and the polls return what they return from an unbounded first-in first-out queue; the
-- scan state, the modifiers and the waiting keys at the end are those of that queue too.
pub run_refines :
    (ops : List Op) (k : Keyboard)
    → IsValid k
    → IsScanning k.scan_state
    → AreBytes ops
    → k.queue_head + bytes_in ops ≤ 255
    → (k' : Keyboard) × (run k ops ≡ some ((run_pending (view k) ops).0, k'))
      × (view k' ≡ (run_pending (view k) ops).1)
unfolding run run_pending
run_refines [] k v sc bs room = (k, refl, refl)
run_refines (byte b ∷ ops) k v sc bs room =
    let f = process-Follows k b v sc bs.0 (omega arith) in
    let (k', e, shown) = run_refines ops f.after f.valid f.scanning bs.1 (omega (arith, f.grows)) in
    (
      k',
      run-byte k f.after b ops f.returns ∙ e ∙ ap (λ q. some ((run_pending q ops).0, k')) f.shows,
      shown ∙ ap (λ q. (run_pending q ops).1) f.shows,
    )
run_refines (poll ∷ ops) k v sc bs room =
    let (j, e, left, w, h, m, s) = poll_key_lem k v in
    let shows : view j ≡ record (view k) { keys = (front (contents k)).1 } =
      λ i. record { scan_state = s i; modifiers = m i; keys = left i } in
    let (k', e', shown) = run_refines ops j w (rw s sc) bs (omega (arith, h, room)) in
    (
      k',
      run-poll k j ops (front (contents k)).0 e
          ∙ rw e' (ap (λ q. some ((front (contents k)).0 ∷ (run_pending q ops).0, k')) shows),
      shown ∙ ap (λ q. (run_pending q ops).1) shows,
    )
