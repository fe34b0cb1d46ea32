-- ===== src/Entropy.antt =====
-- The ring of events and the reading of the random devices: kernel/src/common/entropy.c, one call at
-- a time.
pub mod Events
pub mod Device
pub mod Generators
mod Examples
use xinix.Base.{
  ℕ, zero, suc, ◌+◌, ◌-◌, ◌*◌, ◌/◌, ◌%◌, ◌^◌, Option, none, some, List, [], ◌∷◌, ◌++◌, ◌==◌, ltb,
  if◌then◌else◌, bit_and, bit_or, sub64, u64, set, get_or, take, ◌<<<◌,
}

-- `entropy_buffer`, `read_head` and `write_head`
pub record Ring : Type 0 where
  pub entropy_buffer : List ℕ
  pub read_head : ℕ
  pub write_head : ℕ

abbrev pub ring_mask : ℕ
ring_mask = 1023

-- `total_event`, from the event and `__rand_get_event_time`
abbrev pub total_event : ℕ → ℕ → ℕ
total_event r_event time = bit_or (r_event <<< 32) time

pub push_event : Ring → ℕ → ℕ → Ring
push_event r r_event time =
    if r.write_head == bit_and (sub64 r.read_head 1) ring_mask then r else record r {
      entropy_buffer =
          set r.entropy_buffer (bit_and r.write_head ring_mask) (total_event r_event time);
      write_head = bit_and (r.write_head + 1) ring_mask;
    }

-- The loop of `poll_ebuf`, with its local `read_pos`: a round follows a compare-and-exchange that
-- succeeded. `none`: more rounds than allowed for.
pub poll_loop : ℕ → ℕ → Ring → Option (ℕ × Ring)
poll_loop zero read_pos r = none
poll_loop (suc rounds) read_pos r =
    let val = get_or r.entropy_buffer (bit_and read_pos ring_mask) 0 in
    let again =
      poll_loop rounds read_pos (record r { read_head = bit_and (read_pos + 1) ring_mask }) in
    if read_pos == r.write_head
    then some (0, r)
    else if r.read_head == read_pos
    then again
    else some (val, r)

-- Without other callers two rounds are enough.
pub poll_ebuf : Ring → Option (ℕ × Ring)
poll_ebuf r = poll_loop 2 r.read_head r

-- `rd_read`, with the device's generator as a function on its state: 16 bytes or an error.
module _ {S : Type 0} (gen : S → Option (List ℕ × S)) where
  -- `total_read`, the bytes in the buffer, and the state
  pub record Reading : Type 0 where
    pub total_read : ℕ
    pub bytes : List ℕ
    pub state : S

  -- The last, short block
  pub rd_read_rest : ℕ → Reading → Reading
  rd_read_rest sz d =
      if ltb 0 sz
      then elim (gen d.state) [
        | none ↦ d
        | some (rest, s) ↦ record {
          total_read = u64 (d.total_read + 16);
          bytes = d.bytes ++ take sz rest;
          state = s;
        }
      ]
      else d

  -- The loop over whole blocks, and what follows it
  pub rd_read_blocks : ℕ → ℕ → Reading → Reading
  rd_read_blocks zero sz d = rd_read_rest sz d
  rd_read_blocks (suc blocks) sz d = elim (gen d.state) [
    | none ↦ d
    | some (block, s) ↦
        rd_read_blocks blocks sz
          (record { total_read = u64 (d.total_read + 16); bytes = d.bytes ++ block; state = s })
  ]

  pub rd_read : ℕ → S → Reading
  rd_read sz s =
      rd_read_blocks (sz / 16) (sz % 16) (record { total_read = 0; bytes = []; state = s })
