-- ===== src/Tests/Redirection.antt =====
-- A controller of 24 entries from interrupt 0 on.
use boreal_os.Base.{ℕ, ◌+◌, ◌-◌, ◌≤◌, ◌<◌, ◌≡◌, ◌≢◌, ◌⊎◌, ◌==◌, if◌then◌else◌, arith, false}
use boreal_os.Base.Fields.{field}
use boreal_os.Interrupts.Ioapic.{RedirectionEntry, Ioapic, pack, set_redirection_entry}
use boreal_os.Interrupts.Ioapic.Layout.{mask_bit, pack_lem}
use boreal_os.Interrupts.Ioapic.Registers.{redirection, set_redirection_entry_lem}

abbrev timer : RedirectionEntry
timer = record {
  vector = 0x40;
  delivery_mode = 0;
  destination_mode = 0;
  polarity = 1;
  trigger_mode = 1;
  masked = false;
  destination = 3;
}

pack_example :
    (field 0 8 (pack timer) ≡ 0x40)
    × (field 8 3 (pack timer) ≡ 0)
    × (field 11 1 (pack timer) ≡ 0)
    × (field 12 1 (pack timer) ≡ 0)
    × (field 13 1 (pack timer) ≡ 1)
    × (field 14 1 (pack timer) ≡ 0)
    × (field 15 1 (pack timer) ≡ 1)
    × (field 16 1 (pack timer) ≡ mask_bit false)
    × (field 56 8 (pack timer) ≡ 3)
pack_example = pack_lem timer (record {
  vector = omega arith;
  delivery = omega arith;
  destination_mode = omega arith;
  polarity = omega arith;
  trigger = omega arith;
  destination = omega arith;
})

-- Register 1 announces 24 entries.
abbrev controller : Ioapic
controller = record {
  gsi_base = 0;
  id = 0;
  version = 0x20;
  max_redirection_entries = 24;
  registers = λ r. if r == 1 then 0x170020 else 0;
}

set_redirection_entry_example :
    ((0 ≤ 2)
      × (2 < 0 + 24)
      × (redirection (2 - 0) (set_redirection_entry 2 0x10040 controller) ≡ 0x10040)
      × ((j : ℕ)
          → j ≢ 2 - 0
          → redirection j (set_redirection_entry 2 0x10040 controller) ≡ redirection j controller))
    ⊎ ((¬ ((0 ≤ 2) × (2 < 0 + 24))) × (set_redirection_entry 2 0x10040 controller ≡ controller))
set_redirection_entry_example =
    set_redirection_entry_lem controller 2 0x10040 (omega arith) (omega arith) (omega arith)

-- Where its registers are mapped.
abbrev mapped : ℕ
mapped = 0xFEC00000
