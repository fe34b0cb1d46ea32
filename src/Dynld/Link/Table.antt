-- ===== src/Dynld/Link/Table.antt =====
-- The table of libraries under `dynld_link`.
use xinix.Base.{
  ℕ, ◌+◌, ◌*◌, ◌<◌, ◌≡◌, ◌≢◌, refl, sym, ◌∙◌, arith, Bool, true, false, List, ◌==◌, ltb,
  if◌then◌else◌, bit_and, not64, u64, get_or, length, length-set, get_or-set_self, get_or-set_ne,
}
use xinix.Base.Bits.{bit_and_low, bit_and_field}
use xinix.Dynld.{
  Result, ok, error, stuck, Dyn, DynLibraryEntry, no_library, Tables, Words, store_word,
}
use xinix.Dynld.Link.{
  lock_bit, max_entries, DynldState, read_max_ents, insert_entry, prepare, dynld_link,
}

-- The lock is free, and `n` is the number of entries.
pub record IsFree (n : ℕ) (s : DynldState) : Type 0 where
  pub offset : s.dynld_lock_and_offset ≡ n
  pub within : n < max_entries
  pub places : length s.entries ≡ max_entries

pub IsFree-read_max_ents : {n : ℕ} {s : DynldState} → IsFree n s → read_max_ents s ≡ n
unfolding read_max_ents
IsFree-read_max_ents {n} {s} free =
    omega (arith, free.offset, free.within, bit_and_low 63 s.dynld_lock_and_offset)

-- What a call may do to the table of `n` libraries: at most its entry number `n` is another.
pub record Keeps (n : ℕ) (s t : DynldState) : Type 0 where
  pub free : IsFree n t
  pub at : t.entries_at ≡ s.entries_at
  pub others : (i : ℕ) → i ≢ n → get_or t.entries i no_library ≡ get_or s.entries i no_library

-- The words that an entry's table of offsets gets: its second is the entry, its third is cleared.
abbrev pub with_pltgot : ℕ → DynLibraryEntry → Words → Words
with_pltgot eref ent m =
    if ent.dylib_pltgot == 0
    then m
    else store_word (store_word m (u64 (ent.dylib_pltgot + 8)) eref) (u64 (ent.dylib_pltgot + 16)) 0

insert_entry_lem :
    (n : ℕ) (s : DynldState) (ent : DynLibraryEntry) (m : Words)
    → IsFree n s
    → Keeps n s (insert_entry s ent m).1
      × (get_or (insert_entry s ent m).1.entries n no_library ≡ ent)
      × ((insert_entry s ent m).0
          ≡ ok (s.entries_at + 128 * n, with_pltgot (s.entries_at + 128 * n) ent m))
unfolding insert_entry
insert_entry_lem n s ent m free =
    let offset = free.offset in
    let within = free.within in
    let places = free.places in
    let unlocked : bit_and n lock_bit ≡ 0 = bit_and_field 63 1 n ∙ omega arith in
    let same : bit_and n (not64 lock_bit) ≡ n = bit_and_low 63 n ∙ omega arith in
    let room : (n == max_entries) ≡ false = ground arith in
    let inside : ltb n max_entries ≡ true = ground arith in
    rw (offset, unlocked, same, room, inside, insert_entry)
      (
        record {
          free = record {
            offset = refl;
            within = within;
            places = length-set s.entries n ent ∙ places;
          };
          at = refl;
          others = λ i ne. get_or-set_ne s.entries n i ent no_library (λ e. ne (sym e));
        },
        get_or-set_self s.entries n ent no_library (omega (arith, places)),
        refl,
      )

-- What a link of an entry came to, from the entry that was prepared
abbrev pub Linked :
    ℕ → DynldState → DynldState → Result (DynLibraryEntry × Words) → Result (ℕ × Words) → Type 0
Linked n s t (ok (ent, m)) r =
    (get_or t.entries n no_library ≡ ent)
    × (r ≡ ok (s.entries_at + 128 * n, with_pltgot (s.entries_at + 128 * n) ent m))
Linked n s t (error code) r = (t ≡ s) × (r ≡ error code)
Linked n s t stuck r = (t ≡ s) × (r ≡ stuck)

link_prepared :
    (n : ℕ) (s : DynldState) (p : Result (DynLibraryEntry × Words))
    → IsFree n s
    → let (r, t) = elim p as (λ x. Result (ℕ × Words) × DynldState) [
      | ok (ent, m) ↦ insert_entry s ent m
      | error code ↦ (error code, s)
      | stuck ↦ (stuck, s)
    ] in
      Keeps n s t × Linked n s t p r
link_prepared n s (ok (ent, m)) free =
    let (keeps, entry, result) = insert_entry_lem n s ent m free in (keeps, (entry, result))
link_prepared n s (error code) free =
    (record { free = free; at = refl; others = λ i ne. refl }, (refl, refl))
link_prepared n s stuck free =
    (record { free = free; at = refl; others = λ i ne. refl }, (refl, refl))

-- While the lock is free and the table, of `n` entries so far, has a place left, `dynld_link`, whatever
-- the library, leaves the lock free, the number of entries and every entry but number `n` as they were; a library that is linked becomes entry number `n`, whatever stood there,
-- and its address is returned; one that fails leaves the table as it was.
pub dynld_link-Keeps :
    (n : ℕ) (t : Tables) (base : ℕ) (dyn : List Dyn) (dyn_at file_name : ℕ) (no_relocate : Bool)
    (s : DynldState) (m : Words)
    → IsFree n s
    → Keeps n s (dynld_link t base dyn dyn_at file_name no_relocate s m).1
      × Linked n s
          (dynld_link t base dyn dyn_at file_name no_relocate s m).1
          (prepare t base dyn dyn_at file_name no_relocate m)
          (dynld_link t base dyn dyn_at file_name no_relocate s m).0
unfolding dynld_link
dynld_link-Keeps n t base dyn dyn_at file_name no_relocate s m free =
    link_prepared n s (prepare t base dyn dyn_at file_name no_relocate m) free
