-- ===== src/Interrupts/Lapic/Setup.antt =====
-- `Initialize` masks the entries of the local vector table.
use boreal_os.Base.{ℕ, ◌/◌, ◌^◌, ◌≤◌, ◌≡◌, ◌≢◌, ◌∙◌, ap, bit_or, arith}
use boreal_os.Interrupts.Lapic.{
  Device, Lapic, register_address, write_register, read_register, mask_lvt_entry, minimum_irq_num,
  set_up_registers, lvt_timer_offset, lvt_lint0_offset, lvt_lint1_offset, lvt_error_offset,
}
use boreal_os.Interrupts.Lapic.Register

-- The device keeps what was last written to the word at `b`, and reads leave it.
pub record Keeps {W : Type 0} (dev : Device W) (b : ℕ) : Type 0 where
  pub stored : (v : ℕ) (w : W) → (dev.read b (dev.write b v w)).0 ≡ v
  pub apart : (a v : ℕ) (w : W) → a ≢ b → (dev.read b (dev.write a v w)).0 ≡ (dev.read b w).0
  pub reads : (a : ℕ) (w : W) → (dev.read b (dev.read a w).1).0 ≡ (dev.read b w).0

-- The entries of the local vector table that the controller uses.
pub data LvtEntry : Type 0 where
  timer lint0 lint1 error : LvtEntry

unfoldable pub lvt_offset : LvtEntry → ℕ
lvt_offset timer = lvt_timer_offset
lvt_offset lint0 = lvt_lint0_offset
lvt_offset lint1 = lvt_lint1_offset
lvt_offset error = lvt_error_offset

module _ {W : Type 0} (dev : Device W) (l : Lapic) (r : ℕ)
    (k : Keeps dev (register_address dev l r)) where
  write-apart :
      (reg v : ℕ) (w : W)
      → reg / 4 ≢ r / 4
      → (read_register dev l r (write_register dev l reg v w)).0 ≡ (read_register dev l r w).0
  unfolding read_register write_register register_address
  write-apart reg v w ne = k.apart _ v w (λ e. ne (omega arith))

  mask-apart :
      (reg : ℕ) (w : W)
      → reg / 4 ≢ r / 4
      → (read_register dev l r (mask_lvt_entry dev l reg w)).0 ≡ (read_register dev l r w).0
  unfolding mask_lvt_entry
  mask-apart reg w ne =
      write-apart reg _ _ ne ∙ unfold read_register register_address in k.reads _ w

  mask-here :
      (w : W)
      → (read_register dev l r (mask_lvt_entry dev l r w)).0
        ≡ bit_or (read_register dev l r w).0 (2 ^ 16)
  unfolding mask_lvt_entry read_register write_register register_address
  mask-here w = k.stored _ _

  first-apart :
      (w : W)
      → 200 ≤ r / 4
      → (read_register dev l r (
          write_register dev l Register.spirv
            (bit_or 0xFF (2 ^ 8))
            (write_register dev l Register.tpr 0 w))).0
        ≡ (read_register dev l r w).0
  first-apart w high =
      write-apart Register.spirv _ _ (λ e. omega arith)
      ∙ write-apart Register.tpr _ _ (λ e. omega arith)

  last-apart :
      (w : W)
      → 200 ≤ r / 4
      → (read_register dev l r (
          write_register dev l Register.tpr minimum_irq_num (
            write_register dev l Register.eoi 0 (
              write_register dev l Register.error_status 0
                (write_register dev l Register.error_status 0 w))))).0
        ≡ (read_register dev l r w).0
  last-apart w high =
      write-apart Register.tpr _ _ (λ e. omega arith)
      ∙ write-apart Register.eoi _ _ (λ e. omega arith)
      ∙ write-apart Register.error_status _ _ (λ e. omega arith)
      ∙ write-apart Register.error_status _ _ (λ e. omega arith)

abbrev masked : ℕ → ℕ
masked value = bit_or value (2 ^ 16)

-- After `Initialize` has written the registers, bit 16 of each of the four entries of the local vector
-- table is set, and the entry's other bits are those it had.
pub set_up_registers_lem :
    {W : Type 0} (dev : Device W) (l : Lapic) (lvt : LvtEntry) (w : W)
    → Keeps dev (register_address dev l (lvt_offset lvt))
    → (read_register dev l (lvt_offset lvt) (set_up_registers dev l w)).0
      ≡ bit_or (read_register dev l (lvt_offset lvt) w).0 (2 ^ 16)
unfolding set_up_registers lvt_offset
set_up_registers_lem dev l timer w k =
    last-apart dev l lvt_timer_offset k _ (omega arith)
    ∙ mask-apart dev l lvt_timer_offset k lvt_error_offset _ (λ e. omega arith)
    ∙ mask-apart dev l lvt_timer_offset k lvt_lint1_offset _ (λ e. omega arith)
    ∙ mask-apart dev l lvt_timer_offset k lvt_lint0_offset _ (λ e. omega arith)
    ∙ mask-here dev l lvt_timer_offset k _
    ∙ ap masked (first-apart dev l lvt_timer_offset k w (omega arith))
set_up_registers_lem dev l lint0 w k =
    last-apart dev l lvt_lint0_offset k _ (omega arith)
    ∙ mask-apart dev l lvt_lint0_offset k lvt_error_offset _ (λ e. omega arith)
    ∙ mask-apart dev l lvt_lint0_offset k lvt_lint1_offset _ (λ e. omega arith)
    ∙ mask-here dev l lvt_lint0_offset k _
    ∙ ap masked (
        mask-apart dev l lvt_lint0_offset k lvt_timer_offset _ (λ e. omega arith)
        ∙ first-apart dev l lvt_lint0_offset k w (omega arith))
set_up_registers_lem dev l lint1 w k =
    last-apart dev l lvt_lint1_offset k _ (omega arith)
    ∙ mask-apart dev l lvt_lint1_offset k lvt_error_offset _ (λ e. omega arith)
    ∙ mask-here dev l lvt_lint1_offset k _
    ∙ ap masked (
        mask-apart dev l lvt_lint1_offset k lvt_lint0_offset _ (λ e. omega arith)
        ∙ mask-apart dev l lvt_lint1_offset k lvt_timer_offset _ (λ e. omega arith)
        ∙ first-apart dev l lvt_lint1_offset k w (omega arith))
set_up_registers_lem dev l error w k =
    last-apart dev l lvt_error_offset k _ (omega arith)
    ∙ mask-here dev l lvt_error_offset k _
    ∙ ap masked (
        mask-apart dev l lvt_error_offset k lvt_lint1_offset _ (λ e. omega arith)
        ∙ mask-apart dev l lvt_error_offset k lvt_lint0_offset _ (λ e. omega arith)
        ∙ mask-apart dev l lvt_error_offset k lvt_timer_offset _ (λ e. omega arith)
        ∙ first-apart dev l lvt_error_offset k w (omega arith))
