-- ===== src/Keyboard/Examples.antt =====
-- Runs of kernel/src/common/keyboard.c, and its theorems at inputs.
use xinix.Base.{
  ℕ, ◌≡◌, ◌≢◌, ◌↔◌, refl, inl, true, false, none, some, List, [], ◌∷◌, arith, replicate,
}
use xinix.ScanTable.{Transition, scan_init, init_table, e0_table}
use xinix.Keyboard.{
  Keyboard, Modifiers, power_on, no_key, no_modifiers, transition, enqueue, poll_key,
  get_char_for_scancode, update_modifiers, shifted_map,
}
use xinix.Keyboard.Fifo.{IsValid, contents, enqueue_fault_iff, poll_key_lem}
use xinix.Keyboard.Pending.{Op, byte, poll, run, on_byte, run_pending, view, run_refines}

abbrev shifted : Modifiers
shifted = record { shift = true; ctrl = false; alt = false }

-- Shift down, A down, A up, Shift up, then the right arrow behind its prefix.
abbrev typed : List Op
typed = byte 0x2a ∷ byte 0x1e ∷ poll ∷ byte 0x9e ∷ byte 0xaa ∷ byte 0xe0 ∷ byte 0x4d ∷ poll ∷ []

power_on-IsValid : IsValid power_on
power_on-IsValid = record { storage = refl; ordered = omega arith; within = omega arith }

-- The queue after 256 keys of which one was read.
abbrev worn : Keyboard
worn = record power_on { queue_head = 256; queue_tail = 200 }

worn-IsValid : IsValid worn
worn-IsValid = record { storage = refl; ordered = omega arith; within = omega arith }

typed_keys :
    (run_pending (view power_on) typed).0
    ≡ record { scan_code = 61; modifiers = shifted }
      ∷ record { scan_code = 20; modifiers = shifted }
      ∷ []
unfolding run_pending on_byte transition update_modifiers init_table e0_table
typed_keys = refl

enqueue_fault_iff_example : (enqueue worn 20 ≡ none) ↔ (◌≡◌ {A = ℕ} 256 256 × ◌≢◌ {A = ℕ} 200 1)
enqueue_fault_iff_example = enqueue_fault_iff worn 20 worn-IsValid

poll_key_lem_example :
    (k' : Keyboard) × (poll_key worn ≡ some (no_key, k'))
    × (contents k' ≡ replicate 55 no_key)
    × IsValid k'
    × (k'.queue_head ≡ 256)
    × (k'.modifiers ≡ no_modifiers)
    × (k'.scan_state ≡ scan_init)
poll_key_lem_example = poll_key_lem worn worn-IsValid

run_refines_example :
    (k' : Keyboard) × (run power_on typed ≡ some ((run_pending (view power_on) typed).0, k'))
    × (view k' ≡ (run_pending (view power_on) typed).1)
run_refines_example =
    run_refines typed power_on power_on-IsValid (inl refl) (omega arith) (omega arith)

abbrev a_down : Transition
a_down = record { next_state = scan_init; scan_code = 20 }

get_char_A : get_char_for_scancode 20 shifted ≡ some 65
unfolding get_char_for_scancode shifted_map
get_char_A = refl
