-- ===== src/Interrupts/Ioapic/Manager.antt =====
-- `IOAPICManager` of kernel/Interrupts/IOAPIC.cpp: the interrupts of the old controller, as the firmware
-- overrides them, and the controllers that the firmware lists.
pub mod Overrides
use boreal_os.Base.{
  ℕ, zero, suc, ◌+◌, ◌*◌, ◌^◌, Bool, true, false, ◌==◌, ltb, if◌then◌else◌, bit_or, Option, none,
  some, Outcome, ok, panic,
}
use boreal_os.Base.Store.{Store}
use boreal_os.Memory.Paging.{Machine, find_available_kernel_range, map_page, present, read_write}
use boreal_os.Firmware.Acpi.{read_u32, find_madt_entry, find_madt_entry_count}
use boreal_os.Firmware.Acpi.Tables.{read_u16}
use boreal_os.Interrupts.Ioapic.{Ioapic}
use boreal_os.Interrupts.Ioapic

-- `MADTEntryType::IOAPIC` and `MADTEntryType::IRQSrcOverride`
abbrev pub io_apic_type : ℕ
io_apic_type = 1

abbrev pub irq_src_override_type : ℕ
irq_src_override_type = 2

abbrev pub max_io_apics : ℕ
max_io_apics = 16

-- `Flags::CacheDisable`
abbrev pub cache_disable : ℕ
cache_disable = 0x10

pub record IrqMapping : Type 0 where
  pub gsi : ℕ
  pub iso_flags : ℕ

abbrev pub Mappings : Type 0
Mappings = ℕ → IrqMapping

unfoldable pub set_mapping : ℕ → IrqMapping → Mappings → Mappings
set_mapping irq mapping irqs = λ i. if irq == i then mapping else irqs i

-- The first loop of `Initialize`.
unfoldable pub identity_loop : ℕ → ℕ → Mappings → Mappings
identity_loop zero i irqs = irqs
identity_loop (suc left) i irqs =
    identity_loop left (i + 1) (set_mapping i (record { gsi = i; iso_flags = 0 }) irqs)

-- What an override entry does; 0 is the null pointer.
unfoldable pub apply_override : ℕ → Store → Mappings → Mappings
apply_override entry m irqs =
    if entry == 0
    then irqs
    else if ltb (m (entry + 3)) 16
    then set_mapping (m (entry + 3))
        (record { gsi = read_u32 (entry + 4) m; iso_flags = read_u16 (entry + 8) m }) irqs
    else irqs

-- The loop over the overrides, with `left` of them to go; `none` says that a walk ran out of fuel.
unfoldable pub override_loop : ℕ → ℕ → ℕ → ℕ → Store → Mappings → Option Mappings
override_loop fuel zero i madt m irqs = some irqs
override_loop fuel (suc left) i madt m irqs =
    elim (find_madt_entry fuel madt irq_src_override_type i m) [
      | none ↦ none
      | some entry ↦ override_loop fuel left (i + 1) madt m (apply_override entry m irqs)
    ]

unfoldable pub get_irq : ℕ → Mappings → IrqMapping
get_irq irq irqs = irqs irq

-- The mapping that `Initialize` builds.
unfoldable pub build_mappings : ℕ → ℕ → Store → Mappings → Option Mappings
build_mappings fuel madt m irqs = elim (find_madt_entry_count fuel madt irq_src_override_type m) [
  | none ↦ none
  | some count ↦ override_loop fuel count 0 madt m (identity_loop 16 0 irqs)
]

-- The controllers by their number, and how many they are.
pub record Manager : Type 0 where
  pub io_apic : ℕ → Ioapic
  pub io_apic_count : ℕ
  pub irq_to_gsi : Mappings

abbrev pub set_io_apic : ℕ → Ioapic → (ℕ → Ioapic) → ℕ → Ioapic
set_io_apic i a apics = λ j. if i == j then a else apics j

-- One controller: its registers are mapped, and it is initialized.
unfoldable pub add_io_apic :
    ℕ → ℕ → ℕ → ℕ → ℕ → Store → Machine → (ℕ → Ioapic) → Option (Outcome (Machine × (ℕ → Ioapic)))
add_io_apic fuel kernel_pml4 pml4 i entry m k apics =
    elim (find_available_kernel_range fuel kernel_pml4 1 k) [
      | none ↦ none
      | some (panic e) ↦ some (panic e)
      | some (ok (start, end)) ↦
          elim (map_page pml4 start (read_u32 (entry + 4) m)
            (bit_or (bit_or present read_write) cache_disable) k) [
              | panic e ↦ some (panic e)
              | ok k ↦
                  elim (Ioapic.initialize start (read_u32 (entry + 8) m) (m (entry + 2))
                    (apics i)) [
                      | panic e ↦ some (panic e)
                      | ok a ↦ some (ok (k, set_io_apic i a apics))
                    ]
            ]
    ]

unfoldable pub io_apic_loop :
    ℕ
    → ℕ
    → ℕ
    → ℕ
    → ℕ
    → ℕ
    → Store
    → Machine
    → (ℕ → Ioapic)
    → Option (Outcome (Machine × (ℕ → Ioapic)))
io_apic_loop fuel kernel_pml4 pml4 zero i madt m k apics = some (ok (k, apics))
io_apic_loop fuel kernel_pml4 pml4 (suc left) i madt m k apics =
    elim (find_madt_entry fuel madt io_apic_type i m) [
      | none ↦ none
      | some entry ↦ elim (entry == 0) [
        | true ↦ io_apic_loop fuel kernel_pml4 pml4 left (i + 1) madt m k apics
        | false ↦ elim (add_io_apic fuel kernel_pml4 pml4 i entry m k apics) [
          | none ↦ none
          | some (panic e) ↦ some (panic e)
          | some (ok (k, apics)) ↦ io_apic_loop fuel kernel_pml4 pml4 left (i + 1) madt m k apics
        ]
      ]
    ]

-- `Initialize` after `DisablePIC`, which only writes to ports.
unfoldable pub initialize :
    ℕ → ℕ → ℕ → ℕ → Store → Machine → Manager → Option (Outcome (Machine × Manager))
initialize fuel kernel_pml4 pml4 madt m k s = elim (build_mappings fuel madt m s.irq_to_gsi) [
  | none ↦ none
  | some irqs ↦ elim (find_madt_entry_count fuel madt io_apic_type m) [
    | none ↦ none
    | some found ↦
        let count = if ltb max_io_apics found then max_io_apics else found in
        elim (io_apic_loop fuel kernel_pml4 pml4 count 0 madt m k s.io_apic) [
          | none ↦ none
          | some (panic e) ↦ some (panic e)
          | some (ok (k, apics)) ↦
              some (ok (k, record { io_apic = apics; io_apic_count = count; irq_to_gsi = irqs }))
        ]
  ]
]
