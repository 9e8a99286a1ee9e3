-- ===== src/Interrupts/Ioapic.antt =====
-- kernel/Interrupts/IOAPIC.h and IOAPIC.cpp: the redirection entries. The controller is outside the
-- source; the state holds what was written to its registers, by register number.
pub mod Layout
pub mod Registers
pub mod Manager
use boreal_os.Base.{
  ℕ, zero, suc, ◌+◌, ◌-◌, ◌*◌, ◌/◌, ◌%◌, ◌^◌, Bool, true, false, ◌&&◌, ltb, leb, ◌==◌,
  if◌then◌else◌, bit_and, bit_or, u8, u32, Outcome, ok, panic, null_mmio_base, Option, none, some,
  List, [], ◌∷◌,
}
use boreal_os.Base.Store.{Store, store}

-- The modes are the numbers of the source's enumerations.
pub record RedirectionEntry : Type 0 where
  pub vector : ℕ
  pub delivery_mode : ℕ
  pub destination_mode : ℕ
  pub polarity : ℕ
  pub trigger_mode : ℕ
  pub masked : Bool
  pub destination : ℕ

unfoldable pub pack : RedirectionEntry → ℕ
pack e =
    let entry = e.vector in
    let entry = bit_or entry (e.delivery_mode * 2 ^ 8) in
    let entry = bit_or entry (e.destination_mode * 2 ^ 11) in
    let entry = bit_or entry (e.polarity * 2 ^ 13) in
    let entry = bit_or entry (e.trigger_mode * 2 ^ 15) in
    let entry = bit_or entry (if e.masked then 2 ^ 16 else 0) in
    bit_or entry (e.destination * 2 ^ 56)

unfoldable pub apply_mps_init_flags : RedirectionEntry → ℕ → RedirectionEntry
apply_mps_init_flags e flags =
    let pol = bit_and flags 0x3 in
    let trig = bit_and (flags / 2 ^ 2) 0x3 in
    record e { polarity = if pol == 3 then 1 else 0; trigger_mode = if trig == 3 then 1 else 0 }

pub record Ioapic : Type 0 where
  pub gsi_base : ℕ
  pub id : ℕ
  pub version : ℕ
  pub max_redirection_entries : ℕ
  pub registers : Store

-- The sum is a `uint32_t`.
unfoldable pub has_gsi : ℕ → Ioapic → Bool
has_gsi gsi a = leb a.gsi_base gsi && ltb gsi (u32 (a.gsi_base + a.max_redirection_entries))

-- The register number is cut to a byte, and its value to 32 bits.
unfoldable pub write_register : ℕ → ℕ → Ioapic → Ioapic
write_register reg value a = record a { registers = store a.registers (bit_and reg 0xFF) value }

unfoldable pub read_register : ℕ → Ioapic → ℕ
read_register reg a = a.registers (bit_and reg 0xFF)

abbrev pub redirection_table_base : ℕ
redirection_table_base = 0x10

unfoldable pub set_redirection_entry_internal : ℕ → ℕ → Ioapic → Ioapic
set_redirection_entry_internal index entry a =
    if leb a.max_redirection_entries index
    then a
    else let reg_low = u8 (redirection_table_base + u32 (index * 2)) in
      let reg_high = u8 (reg_low + 1) in
      write_register reg_low (bit_and entry 0xFFFFFFFF)
        (write_register reg_high (bit_and (entry / 2 ^ 32) 0xFFFFFFFF) a)

unfoldable pub set_redirection_entry : ℕ → ℕ → Ioapic → Ioapic
set_redirection_entry gsi entry a =
    if has_gsi gsi a then set_redirection_entry_internal (gsi - a.gsi_base) entry a else a

-- The loop of `Initialize`: every entry from `i` on is masked.
unfoldable pub mask_loop : ℕ → ℕ → Ioapic → Ioapic
mask_loop zero i a = a
mask_loop (suc left) i a = mask_loop left (i + 1) (set_redirection_entry_internal i (2 ^ 16) a)

-- The fields that `Initialize` sets from the version register.
unfoldable pub announce : ℕ → ℕ → Ioapic → Ioapic
announce gsi_base id a =
    let version = read_register 1 a in
    record a {
      gsi_base = gsi_base;
      id = id;
      version = bit_and version 0xFF;
      max_redirection_entries = bit_and (version / 2 ^ 16) 0xFF + 1;
    }

-- `address` is where the registers are mapped.
unfoldable pub initialize : ℕ → ℕ → ℕ → Ioapic → Outcome Ioapic
initialize address gsi_base id a =
    if address == 0
    then panic null_mmio_base
    else let a = announce gsi_base id a in ok (mask_loop a.max_redirection_entries 0 a)

-- `GetOwningApic`: the first controller that has the interrupt.
unfoldable pub get_owning_apic : ℕ → List Ioapic → Option Ioapic
get_owning_apic gsi [] = none
get_owning_apic gsi (a ∷ rest) = if has_gsi gsi a then some a else get_owning_apic gsi rest
