-- ===== src/Keyboard/Fifo.antt =====
-- The key queue of kernel/src/common/keyboard.c as a first-in first-out list.
use xinix.Base.{
  ℕ, zero, suc, ◌+◌, ◌-◌, ◌≤◌, ◌<◌, ◌≡◌, ◌≢◌, refl, ap, ◌∙◌, ◌↔◌, inl, inr, none, some, List, [],
  ◌∷◌, ◌++◌, arith, ◌==◌, Bool-cases, length, get_elem?, set, take, drop, length-set, length-drop,
  get_or, get_elem?-eq-get_or, ==_iff,
}
use xinix.Keyboard.{Keyboard, ScanStatus, queue_len, no_key, update_modifiers, enqueue, poll_key}

-- The array has its size, and the two indices bound a stretch of it.
pub record IsValid (k : Keyboard) : Type 0 where
  pub storage : length k.queue ≡ queue_len
  pub ordered : k.queue_tail ≤ k.queue_head
  pub within : k.queue_head ≤ queue_len

-- The keys that wait, oldest first.
abbrev pub contents : Keyboard → List ScanStatus
contents k = take (k.queue_head - k.queue_tail) (drop k.queue_tail k.queue)

module _ {ℓ} {A : Type ℓ} where
  take-set :
      (xs : List A) (n : ℕ) (v : A)
      → n < length xs
      → take (suc n) (set xs n v) ≡ take n xs ++ (v ∷ [])
  take-set [] n v h = elim h [ ]
  take-set (x ∷ xs) zero v h = refl
  take-set (x ∷ xs) (suc n) v h = ap (λ ys. x ∷ ys) (take-set xs n v (omega arith))

  drop-set :
      (xs : List A) (t i : ℕ) (v : A) → t ≤ i → drop t (set xs i v) ≡ set (drop t xs) (i - t) v
  drop-set xs zero i v h = ap (λ n. set xs n v) (omega arith)
  drop-set [] (suc t) i v h = refl
  drop-set (x ∷ xs) (suc t) zero v h = elim h [ ]
  drop-set (x ∷ xs) (suc t) (suc i) v h =
      drop-set xs t i v (omega arith) ∙ ap (λ n. set (drop t xs) n v) (omega arith)

  take-drop-get :
      (xs : List A) (t n : ℕ) (v : A)
      → get_elem? xs t ≡ some v
      → take (suc n) (drop t xs) ≡ v ∷ take n (drop (suc t) xs)
  take-drop-get [] t n v h = cc
  take-drop-get (x ∷ xs) zero n v h = cc
  take-drop-get (x ∷ xs) (suc t) n v h = take-drop-get xs t n v h

  -- What waits between the indices, after a write at the head and a read at the tail.
  window-set :
      (xs : List A) (t h : ℕ) (v : A)
      → t ≤ h
      → h < length xs
      → take (h + 1 - t) (drop t (set xs h v)) ≡ take (h - t) (drop t xs) ++ (v ∷ [])
  window-set xs t h v le lt =
      ap (λ n. take n (drop t (set xs h v))) {y = suc (h - t)} (omega arith)
      ∙ ap (take (suc (h - t))) (drop-set xs t h v le)
      ∙ take-set (drop t xs) (h - t) v (omega (arith, length-drop t xs))

  window-get :
      (xs : List A) (t h : ℕ) (v : A)
      → t < h
      → get_elem? xs t ≡ some v
      → take (h - t) (drop t xs) ≡ v ∷ take (h - (t + 1)) (drop (t + 1) xs)
  window-get xs t h v lt e =
      ap (λ n. take n (drop t xs)) {y = suc (h - (t + 1))} (omega arith)
      ∙ take-drop-get xs t (h - (t + 1)) v e
      ∙ ap (λ n. v ∷ take (h - (t + 1)) (drop n xs)) {x = suc t} (omega arith)

  window_empty : (xs : List A) (t h : ℕ) → h ≡ t → take (h - t) (drop t xs) ≡ []
  window_empty xs t h e = ap (λ n. take n (drop t xs)) {y = 0} (omega arith)

-- The entry that `kbd_enqueue` makes for a code.
abbrev pub entry : Keyboard → ℕ → ScanStatus
entry k code = record { scan_code = code; modifiers = update_modifiers k.modifiers code }

-- What `kbd_enqueue` leaves, where it has room.
abbrev pub enqueued : Keyboard → ℕ → Keyboard
enqueued k code = record k {
  modifiers = update_modifiers k.modifiers code;
  queue = set k.queue k.queue_head (entry k code);
  queue_head = k.queue_head + 1;
}

pub enqueue_room :
    (k : Keyboard) (code : ℕ)
    → k.queue_head < 255
    → k.queue_tail ≤ k.queue_head
    → enqueue k code ≡ some (enqueued k code)
unfolding enqueue
enqueue_room k code room le = ground arith

pub enqueued-IsValid :
    (k : Keyboard) (code : ℕ) → IsValid k → k.queue_head < 255 → IsValid (enqueued k code)
enqueued-IsValid k code v room = ground (arith, length-set k.queue k.queue_head (entry k code))

pub contents-enqueued :
    (k : Keyboard) (code : ℕ)
    → IsValid k
    → k.queue_head < 255
    → contents (enqueued k code) ≡ contents k ++ (entry k code ∷ [])
contents-enqueued k code v room =
    window-set k.queue k.queue_tail k.queue_head (entry k code) v.ordered (omega arith)

-- A key is lost to an access past the end of `queue` exactly when the head stands behind the last
-- slot and the full-queue test does not see it.
pub enqueue_fault_iff :
    (k : Keyboard) (code : ℕ)
    → IsValid k
    → (enqueue k code ≡ none) ↔ ((k.queue_head ≡ 256) × (k.queue_tail ≢ 1))
unfolding enqueue
enqueue_fault_iff k code v = ground arith

-- What `kbd_poll_key` gives and leaves, in the list of waiting keys.
abbrev pub front : List ScanStatus → ScanStatus × List ScanStatus
front [] = (no_key, [])
front (x ∷ xs) = (x, xs)

-- In a valid state `kbd_poll_key` reads inside the array, takes the oldest key (or gives the empty
-- key when none waits) and keeps the state valid; of the rest it changes nothing.
pub poll_key_lem :
    (k : Keyboard)
    → IsValid k
    → (k' : Keyboard) × (poll_key k ≡ some ((front (contents k)).0, k'))
      × (contents k' ≡ (front (contents k)).1)
      × IsValid k'
      × (k'.queue_head ≡ k.queue_head)
      × (k'.modifiers ≡ k.modifiers)
      × (k'.scan_state ≡ k.scan_state)
unfolding poll_key
poll_key_lem k v = elim (Bool-cases (k.queue_head == k.queue_tail)) [
  | inl e ↦
      let none_left : contents k ≡ [] =
        window_empty k.queue k.queue_tail k.queue_head ((==_iff k.queue_head k.queue_tail).0 e) in
      (k, rw (e, none_left) refl, rw (none_left) refl, v, refl, refl, refl)
  | inr e ↦
      let lt : k.queue_tail < k.queue_head = ground arith in
      let x : ScanStatus = get_or k.queue k.queue_tail no_key in
      let at : get_elem? k.queue k.queue_tail ≡ some x =
        get_elem?-eq-get_or k.queue k.queue_tail no_key (omega arith) in
      let split : contents k
          ≡ x ∷ take (k.queue_head - (k.queue_tail + 1)) (drop (k.queue_tail + 1) k.queue) =
        window-get k.queue k.queue_tail k.queue_head x lt at in
      (
        record k { queue_tail = k.queue_tail + 1 },
        rw (e, at, split) refl,
        rw split refl,
        ground arith,
        refl,
        refl,
        refl,
      )
]
