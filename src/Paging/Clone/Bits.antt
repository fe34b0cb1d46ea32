-- ===== src/Paging/Clone/Bits.antt =====
-- The fields of an entry for a new table.
use xinix.Base.{
  ℕ, ◌+◌, ◌-◌, ◌*◌, ◌/◌, ◌%◌, ◌^◌, ◌≤◌, ◌<◌, ◌≡◌, ap, ap₂, ◌∙◌, arith, bit_and, bit_or, sub64, u64,
  ltb, not, ◌&&◌, ◌==◌,
}
use xinix.Base.Bits.{bit_and_split, bit_and_low, bit_and_field, bit_or_high, bit_or_fields}
use xinix.Paging.Clone.{flag_mask, addr_mask, descends, lower_table, clone_entry}

flags_lem : (e : ℕ) → e < 2 ^ 64 → bit_and e flag_mask ≡ e / 2 ^ 63 * 2 ^ 63 + e % 2 ^ 12
flags_lem e word =
    let parts : e ≡ e / 2 ^ 12 * 2 ^ 12 + e % 2 ^ 12 = omega arith in
    let high : bit_and (e / 2 ^ 12) (2 ^ 51) ≡ e / 2 ^ 63 * 2 ^ 51 =
      bit_and_field 51 1 (e / 2 ^ 12) ∙ omega (arith, word) in
    let low : bit_and (e % 2 ^ 12) (2 ^ 12 - 1) ≡ e % 2 ^ 12 =
      bit_and_low 12 (e % 2 ^ 12) ∙ omega arith in
    ap (λ (k : ℕ). bit_and k flag_mask) parts
    ∙ bit_and_split 12 (e / 2 ^ 12) (2 ^ 51) (e % 2 ^ 12) (2 ^ 12 - 1) (omega arith) (omega arith)
    ∙ omega (arith, high, low)

addr_lem : (e : ℕ) → bit_and e addr_mask ≡ e / 2 ^ 12 % 2 ^ 40 * 2 ^ 12
addr_lem e = bit_and_field 12 40 e

-- A new table at `t`, a page in the direct map
module _ (hhdm_off t e : ℕ) (word : e < 2 ^ 64) (mapped : hhdm_off ≤ t)
    (near : t - hhdm_off < 2 ^ 52) (page : (t - hhdm_off) % 2 ^ 12 ≡ 0) (low : t < 2 ^ 64) where
  clone_entry_lem : clone_entry hhdm_off t e ≡ e / 2 ^ 63 * 2 ^ 63 + (t - hhdm_off) + e % 2 ^ 12
  clone_entry_lem =
      let high = e / 2 ^ 63 in
      let q = (t - hhdm_off) / 2 ^ 12 in
      let flags = high * 2 ^ 63 + e % 2 ^ 12 in
      let physical : sub64 t hhdm_off ≡ t - hhdm_off = omega (arith, mapped, low) in
      let address : bit_and (sub64 t hhdm_off) addr_mask ≡ q * 2 ^ 12 =
        ap (λ (k : ℕ). bit_and k addr_mask) physical
        ∙ addr_lem (t - hhdm_off)
        ∙ omega (arith, near) in
      let above : flags / 2 ^ 12 ≡ high * 2 ^ 51 = omega arith in
      let field : bit_or (flags / 2 ^ 12) q ≡ high * 2 ^ 51 + q =
        ap (λ (k : ℕ). bit_or k q) above ∙ bit_or_fields 51 high q (omega (arith, near)) in
      ap₂ bit_or (flags_lem e word) address ∙ bit_or_high 12 flags q ∙ omega (arith, field, page)

  -- It leads to the new table, with the flags of the old entry.
  pub clone_entry-table : lower_table hhdm_off (clone_entry hhdm_off t e) ≡ t
  clone_entry-table =
      let v = clone_entry hhdm_off t e in
      let address : bit_and v addr_mask ≡ t - hhdm_off =
        addr_lem v ∙ omega (arith, clone_entry_lem, near, page, word) in
      ap (λ (k : ℕ). u64 (k + hhdm_off)) address ∙ omega (arith, mapped, low)

  pub clone_entry-flags : bit_and (clone_entry hhdm_off t e) flag_mask ≡ bit_and e flag_mask
  clone_entry-flags =
      let v = clone_entry hhdm_off t e in
      flags_lem v (omega (arith, clone_entry_lem, near, page, word))
      ∙ omega (arith, flags_lem e word, clone_entry_lem, near, page, word)

  pub clone_entry-descends :
      (level : ℕ) → descends level (clone_entry hhdm_off t e) ≡ descends level e
  clone_entry-descends level =
      let v = clone_entry hhdm_off t e in
      let present : bit_and v 1 ≡ bit_and e 1 =
        bit_and_low 1 v ∙ omega (arith, bit_and_low 1 e, clone_entry_lem, page) in
      let huge : bit_and v 0x80 ≡ bit_and e 0x80 =
        bit_and_field 7 1 v ∙ omega (arith, bit_and_field 7 1 e, clone_entry_lem, page) in
      ap₂ (λ (x y : ℕ). not (x == 0) && (ltb 1 level && y == 0)) present huge
