-- ===== src/Tests/Firmware.antt =====
-- Tables at address 100: every byte that is not part of a length is 2.
use boreal_os.Base.{ℕ, ◌+◌, ◌≤◌, ◌<◌, ◌≡◌, refl, ◌==◌, ◌&&◌, leb, ltb, if◌then◌else◌, arith, some}
use boreal_os.Base.Store.{Store}
use boreal_os.Firmware.Acpi.{read_u32, find_madt_entry_count, find_madt_entry}
use boreal_os.Interrupts.Ioapic.Manager.{Mappings, irq_src_override_type, build_mappings}
use boreal_os.Interrupts.Ioapic.Manager.Overrides.{identity, IsOverridden, build_mappings_lem}
use boreal_os.Firmware.Acpi.Entries.{EntryAt, first_entry, following, Agree, find_madt_entry_lem}

abbrev tables : Store
tables a = if a == 104 then 60 else if leb 105 a && ltb a 108 then 0 else 2

abbrev place : ℕ
place = 100

length_is : read_u32 104 tables ≡ 60
unfolding read_u32
length_is = refl

entry-above : (a : ℕ) → EntryAt tables 144 a → 144 ≤ a
entry-above a first_entry = omega arith
entry-above _ (following {a} e) = omega (arith, entry-above a e)

advances : (a : ℕ) → EntryAt tables 144 a → a < 100 + read_u32 104 tables → 0 < tables (a + 1)
advances a e h = ground (arith, entry-above a e)

find_madt_entry_example :
    Agree
      (find_madt_entry_count 61 100 2 tables)
      0
      (λ index. find_madt_entry 61 100 2 index tables)
      144
      (100 + read_u32 104 tables)
      2
      tables
find_madt_entry_example = find_madt_entry_lem 61 100 2 tables advances (omega (arith, length_is))

abbrev no_mappings : Mappings
no_mappings irq = record { gsi = 0; iso_flags = 0 }

build_mappings_example :
    (n : ℕ) × (t : Mappings) × (find_madt_entry_count 61 100 irq_src_override_type tables ≡ some n)
    × (build_mappings 61 100 tables no_mappings ≡ some t)
    × ((irq : ℕ) → irq < 16 → IsOverridden 61 100 tables 0 n irq (identity irq) (t irq))
build_mappings_example =
    build_mappings_lem 61 100 tables no_mappings advances (omega (arith, length_is))
