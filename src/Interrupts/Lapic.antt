-- ===== src/Interrupts/Lapic.antt =====
-- kernel/Interrupts/LAPIC.h and LAPIC.cpp, with the register access of CPU/CPU.cpp. The device and the
-- processor's registers are outside the source: they are operations on a world `W`.
pub mod Command
pub mod Send
pub mod Setup
pub mod Register
use boreal_os.Base.{
  ℕ, zero, suc, ◌+◌, ◌*◌, ◌/◌, ◌%◌, ◌-◌, ◌^◌, Bool, true, false, not, ◌==◌, if◌then◌else◌, bit_and,
  bit_or, u32, Option, none, some, Outcome, ok, panic,
}
use boreal_os.Interrupts.Lapic.Register
use boreal_os.Memory.Paging.{Machine, find_available_kernel_range, map_page, present, read_write}

-- A 32-bit word of the device at an address, and the halves of a model-specific register.
pub record Device (W : Type 0) : Type 0 where
  pub read : ℕ → W → ℕ × W
  pub write : ℕ → ℕ → W → W
  pub rdmsr : ℕ → W → ℕ × ℕ
  pub wrmsr : ℕ → ℕ → ℕ → W → W

-- `_mmioBase` and `SharedLapicVirtualBase`; 0 is the null pointer.
pub record Lapic : Type 0 where
  pub mmio_base : ℕ
  pub shared_base : ℕ

-- The constants of `LAPIC`.
abbrev pub ia32_apic_msr : ℕ
ia32_apic_msr = 0x1B

abbrev pub lvt_timer_offset : ℕ
lvt_timer_offset = 0x320

abbrev pub lvt_lint0_offset : ℕ
lvt_lint0_offset = 0x350

abbrev pub lvt_lint1_offset : ℕ
lvt_lint1_offset = 0x360

abbrev pub lvt_error_offset : ℕ
lvt_error_offset = 0x370

abbrev pub minimum_irq_num : ℕ
minimum_irq_num = 0x00

pub data TimerDivide : Type 0 where
  by1 by2 by4 by8 by16 by32 by64 by128 : TimerDivide

unfoldable pub divide_code : TimerDivide → ℕ
divide_code by1 = 0b1011
divide_code by2 = 0b0000
divide_code by4 = 0b0001
divide_code by8 = 0b0010
divide_code by16 = 0b0011
divide_code by32 = 0b1000
divide_code by64 = 0b1001
divide_code by128 = 0b1010

pub data DestinationShorthand : Type 0 where
  no_shorthand self all_including_self all_excluding_self : DestinationShorthand

unfoldable pub shorthand_code : DestinationShorthand → ℕ
shorthand_code no_shorthand = 0
shorthand_code self = 1
shorthand_code all_including_self = 2
shorthand_code all_excluding_self = 3

-- `DeliveryMode` and `TriggerMode` of IOAPIC.h.
pub data DeliveryMode : Type 0 where
  fixed lowest_priority smi nmi init ext_int : DeliveryMode

unfoldable pub delivery_code : DeliveryMode → ℕ
delivery_code fixed = 0b000
delivery_code lowest_priority = 0b001
delivery_code smi = 0b010
delivery_code nmi = 0b100
delivery_code init = 0b101
delivery_code ext_int = 0b111

pub data TriggerMode : Type 0 where
  edge level : TriggerMode

unfoldable pub trigger_code : TriggerMode → ℕ
trigger_code edge = 0
trigger_code level = 1

-- The word that `SendIPI` writes to `ICR_LOW`.
unfoldable pub command_word : ℕ → DeliveryMode → TriggerMode → DestinationShorthand → ℕ
command_word vector mode trigger kind =
    bit_or
      (bit_or (bit_or (bit_or vector (delivery_code mode * 2 ^ 8)) (2 ^ 14))
        (trigger_code trigger * 2 ^ 15))
      (shorthand_code kind * 2 ^ 18)

unfoldable pub is_not_shorthand : DestinationShorthand → Bool
is_not_shorthand no_shorthand = true
is_not_shorthand self = false
is_not_shorthand all_including_self = false
is_not_shorthand all_excluding_self = false

module _ {W : Type 0} (dev : Device W) where
  -- `CPU::ReadMSR` and `CPU::WriteMSR`
  unfoldable pub read_msr : ℕ → W → ℕ
  read_msr msr w = let (high, low) = dev.rdmsr msr w in bit_or (high * 2 ^ 32) low

  unfoldable pub write_msr : ℕ → ℕ → W → W
  write_msr msr value w = dev.wrmsr msr (value / 2 ^ 32) (u32 value) w

  -- The address of `_mmioBase[reg / sizeof(uint32_t)]`.
  unfoldable pub register_address : Lapic → ℕ → ℕ
  register_address l reg = l.mmio_base + reg / 4 * 4

  unfoldable pub write_register : Lapic → ℕ → ℕ → W → W
  unfolding register_address
  write_register l reg value w = dev.write (register_address l reg) value w

  unfoldable pub read_register : Lapic → ℕ → W → ℕ × W
  unfolding register_address
  read_register l reg w = dev.read (register_address l reg) w

  unfoldable pub mask_lvt_entry : Lapic → ℕ → W → W
  mask_lvt_entry l lvt w =
      let (value, w) = read_register l lvt w in write_register l lvt (bit_or value (2 ^ 16)) w

  unfoldable pub unmask_lvt_entry : Lapic → ℕ → W → W
  unmask_lvt_entry l lvt w =
      let (value, w) = read_register l lvt w in
      write_register l lvt (bit_and value (2 ^ 32 - 1 - 2 ^ 16)) w

  unfoldable pub send_eoi : Lapic → W → W
  send_eoi l w = if l.mmio_base == 0 then w else write_register l Register.eoi 0 w

  unfoldable pub set_lvt_timer : Lapic → ℕ → TimerDivide → Bool → ℕ → W → W
  set_lvt_timer l vector divide periodic count w =
      let w = write_register l Register.divide_config (divide_code divide) w in
      let w =
        write_register l lvt_timer_offset (bit_or vector (if periodic then 2 ^ 17 else 0)) w in
      write_register l Register.initial_count count w

  unfoldable pub get_lvt_count : Lapic → W → ℕ × W
  get_lvt_count l w = read_register l Register.current_count w

  unfoldable pub receive_ipi : Lapic → W → ℕ × W
  receive_ipi l w = let (value, w) = read_register l Register.icr_low w in (value / 2 ^ 24, w)

  -- The delivery status of a value of `ICR_LOW`.
  abbrev pub is_busy : ℕ → Bool
  is_busy value = not (bit_and value (2 ^ 12) == 0)

  -- The loops that wait for the device; `none` says that the fuel ran out.
  unfoldable pub wait_idle : ℕ → Lapic → W → Option W
  wait_idle zero l w = none
  wait_idle (suc fuel) l w = elim (is_busy (read_register l Register.icr_low w).0) [
    | true ↦ wait_idle fuel l (read_register l Register.icr_low w).1
    | false ↦ some (read_register l Register.icr_low w).1
  ]

  -- What is written between the two loops.
  unfoldable pub write_command :
      Lapic → ℕ → ℕ → DeliveryMode → TriggerMode → DestinationShorthand → W → W
  write_command l vector destination mode trigger kind w =
      let w =
        if is_not_shorthand kind
        then write_register l Register.icr_high (u32 (destination * 2 ^ 24)) w
        else w in
      write_register l Register.icr_low (command_word vector mode trigger kind) w

  unfoldable pub send_ipi :
      ℕ → Lapic → ℕ → ℕ → DeliveryMode → TriggerMode → DestinationShorthand → W → Option W
  send_ipi fuel l vector destination mode trigger kind w = elim (wait_idle fuel l w) [
    | none ↦ none
    | some w ↦ wait_idle fuel l (write_command l vector destination mode trigger kind w)
  ]

  unfoldable pub send_ipi_all_excluding_self : ℕ → Lapic → ℕ → W → Option W
  send_ipi_all_excluding_self fuel l vector w =
      send_ipi fuel l vector 0 fixed edge all_excluding_self w

  unfoldable pub send_ipi_self : ℕ → Lapic → ℕ → W → Option W
  send_ipi_self fuel l vector w = send_ipi fuel l vector 0 fixed edge self w

  -- The writes of `Initialize` to the device's registers.
  unfoldable pub set_up_registers : Lapic → W → W
  set_up_registers l w =
      let w = write_register l Register.tpr 0 w in
      let w = write_register l Register.spirv (bit_or 0xFF (2 ^ 8)) w in
      let w = mask_lvt_entry l lvt_timer_offset w in
      let w = mask_lvt_entry l lvt_lint0_offset w in
      let w = mask_lvt_entry l lvt_lint1_offset w in
      let w = mask_lvt_entry l lvt_error_offset w in
      let w = write_register l Register.error_status 0 w in
      let w = write_register l Register.error_status 0 w in
      let w = write_register l Register.eoi 0 w in write_register l Register.tpr minimum_irq_num w

  -- The device's registers are mapped once, for all processors.
  unfoldable pub map_base : ℕ → ℕ → ℕ → ℕ → Lapic → Machine → Option (Outcome (Machine × Lapic))
  map_base fuel kernel_pml4 pml4 physical l m =
      if l.shared_base == 0
      then elim (find_available_kernel_range fuel kernel_pml4 1 m) [
        | none ↦ none
        | some (panic e) ↦ some (panic e)
        | some (ok (start, end)) ↦
            elim (map_page pml4 start physical (bit_or present read_write) m) [
              | panic e ↦ some (panic e)
              | ok m ↦ some (ok (m, record { mmio_base = start; shared_base = start }))
            ]
      ]
      else some (ok (m, record { mmio_base = l.shared_base; shared_base = l.shared_base }))

  unfoldable pub initialize :
      ℕ → ℕ → ℕ → Lapic → Machine → W → Option (Outcome (Machine × Lapic × W))
  initialize fuel kernel_pml4 pml4 l m w =
      let base = read_msr ia32_apic_msr w in
      elim (map_base fuel kernel_pml4 pml4 (bit_and base 0xFFFFF000) l m) [
        | none ↦ none
        | some (panic e) ↦ some (panic e)
        | some (ok (m, l)) ↦
            let w =
              if bit_and base (2 ^ 11) == 0
              then write_msr ia32_apic_msr (bit_or base (2 ^ 11)) w
              else w in
            some (ok (m, l, set_up_registers l w))
      ]
