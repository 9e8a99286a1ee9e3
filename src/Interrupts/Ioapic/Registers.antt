-- ===== src/Interrupts/Ioapic/Registers.antt =====
-- Which registers of the controller a redirection entry goes to.
use boreal_os.Base.{
  ℕ, ◌+◌, ◌-◌, ◌*◌, ◌/◌, ◌%◌, ◌^◌, ◌≤◌, ◌<◌, ◌≡◌, ◌≢◌, refl, arith, true, false, leb, Bool-cases,
  ◌⊎◌, inl, inr,
}
use boreal_os.Base.Masks.{bit_and_low}
use boreal_os.Base.Store.{store}
use boreal_os.Interrupts.Ioapic.{
  Ioapic, has_gsi, write_register, set_redirection_entry_internal, set_redirection_entry,
}

-- The redirection entry of an index, as the controller holds it: two registers of 32 bits.
abbrev pub redirection : ℕ → Ioapic → ℕ
redirection index a = a.registers (16 + 2 * index) + a.registers (17 + 2 * index) * 2 ^ 32

-- Entries up to 119: their register numbers fit a byte.
module _ (a : Ioapic) (index entry : ℕ) (inside : index < a.max_redirection_entries)
    (few : a.max_redirection_entries ≤ 120) where
  written :
      (set_redirection_entry_internal index entry a).registers
      ≡ store
          (store a.registers (17 + 2 * index) (entry / 2 ^ 32 % 2 ^ 32))
          (16 + 2 * index)
          (entry % 2 ^ 32)
  unfolding set_redirection_entry_internal write_register
  written =
      let more : leb a.max_redirection_entries index ≡ false = ground arith in
      let low : (16 + index * 2 % 2 ^ 32) % 2 ^ 8 ≡ 16 + 2 * index = omega arith in
      let high : (16 + 2 * index + 1) % 2 ^ 8 ≡ 17 + 2 * index = omega arith in
      let low_byte : (16 + 2 * index) % 2 ^ 8 ≡ 16 + 2 * index = omega arith in
      let high_byte : (17 + 2 * index) % 2 ^ 8 ≡ 17 + 2 * index = omega arith in
      rw
        (
          more,
          low,
          high,
          bit_and_low 8 (16 + 2 * index),
          bit_and_low 8 (17 + 2 * index),
          low_byte,
          high_byte,
          bit_and_low 32 entry,
          bit_and_low 32 (entry / 2 ^ 32),
        )
        refl

  written-same :
      entry < 2 ^ 64 → redirection index (set_redirection_entry_internal index entry a) ≡ entry
  unfolding store
  written-same h = rw written (ground arith)

  written-other :
      (j : ℕ)
      → j ≢ index
      → redirection j (set_redirection_entry_internal index entry a) ≡ redirection j a
  unfolding store
  written-other j ne = rw written (ground arith)

-- For a controller of at most 120 entries whose interrupt numbers do not pass 2^32,
-- `SetRedirectionEntry` of an interrupt it has sets that entry, as a 64-bit number, and no other; of
-- an interrupt it does not have it changes nothing.
pub set_redirection_entry_lem :
    (a : Ioapic) (gsi entry : ℕ)
    → a.max_redirection_entries ≤ 120
    → a.gsi_base + a.max_redirection_entries < 2 ^ 32
    → entry < 2 ^ 64
    → ((a.gsi_base ≤ gsi)
        × (gsi < a.gsi_base + a.max_redirection_entries)
        × (redirection (gsi - a.gsi_base) (set_redirection_entry gsi entry a) ≡ entry)
        × ((j : ℕ)
            → j ≢ gsi - a.gsi_base
            → redirection j (set_redirection_entry gsi entry a) ≡ redirection j a))
      ⊎ ((¬ ((a.gsi_base ≤ gsi) × (gsi < a.gsi_base + a.max_redirection_entries)))
          × (set_redirection_entry gsi entry a ≡ a))
set_redirection_entry_lem a gsi entry few narrow h = elim (Bool-cases (has_gsi gsi a)) [
  | inl has ↦
      let range = has_gsi-true has in
      let inside : gsi - a.gsi_base < a.max_redirection_entries = omega (arith, range.0, range.1) in
      inl (
        range.0,
        range.1,
        unfold set_redirection_entry in
            rw has (written-same a (gsi - a.gsi_base) entry inside few h),
        λ j ne.
            unfold set_redirection_entry in
            rw has (written-other a (gsi - a.gsi_base) entry inside few j ne),
      )
  | inr outside ↦ inr (has_gsi-false outside, unfold set_redirection_entry in rw outside refl)
]
  where
    has_gsi-true :
        has_gsi gsi a ≡ true → (a.gsi_base ≤ gsi) × (gsi < a.gsi_base + a.max_redirection_entries)
    has_gsi-true e = unfold has_gsi in (ground arith, ground arith)

    has_gsi-false :
        has_gsi gsi a ≡ false
        → ¬ ((a.gsi_base ≤ gsi) × (gsi < a.gsi_base + a.max_redirection_entries))
    has_gsi-false e (low, high) = unfold has_gsi in ground arith
