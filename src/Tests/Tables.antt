-- ===== src/Tests/Tables.antt =====
-- A root pointer at 16, of revision 0, a root table at 64 with one pointer, and an FADT at 200.
use boreal_os.Base.{ℕ, ◌≡◌, refl, false, ◌==◌, if◌then◌else◌, some, ok}
use boreal_os.Base.Store.{Store}
use boreal_os.Utility.Strings.{View, view_eq, strncmp, strncmp_loop}
use boreal_os.Firmware.Acpi.{read_u32, validate_sdt, sum_loop}
use boreal_os.Firmware.Acpi.Tables.{
  Acpi, Signatures, Ports, is_extended, rsdt_address, has_signature, pointer_at, table_at,
  pointer_count, fadt_loop, find_fadt, write_byte_command, find_root, dsdt_of, find_tables,
  initialize, get_table,
}
use boreal_os.Firmware.Acpi.Tables.Nth.{IsNth, get_table_lem}
use boreal_os.Firmware.Acpi.Tables.Found.{IsFound, initialize-IsFound}

abbrev firmware : Store
firmware a =
    if a == 32
    then 64
    else if a == 68
    then 40
    else if a == 73
    then 16
    else if a == 100
    then 200
    else if a == 200
    then 70
    else if a == 201
    then 65
    else if a == 202
    then 67
    else if a == 203
    then 80
    else if a == 204
    then 116
    else if a == 240
    then 77
    else if a == 300
    then 70
    else if a == 301
    then 65
    else if a == 302
    then 67
    else if a == 303
    then 80
    else if a == 310
    then 68
    else if a == 320
    then 82
    else if a == 330
    then 88
    else if a == 340
    then 65
    else 0

abbrev four_at : ℕ → View
four_at a = record { start = a; size = 4 }

abbrev names : Signatures
names = record {
  dsdt_name = four_at 310;
  facp_name = four_at 300;
  rsdt_name = four_at 320;
  xsdt_name = four_at 330;
}

-- The hardware is enabled already.
abbrev ports : Ports ℕ
ports = record { inw = λ port w. (1, w); outb = λ port value w. w }

abbrev tables : Acpi
tables = record { rsdp = 16; rsdt = 64; xsdp = 0; xsdt = 0; fadt = 200; dsdt = 77 }

initializes : initialize ports 1 0 names (some 16) firmware 0 ≡ some (ok (tables, 0))
unfolding initialize find_tables find_root is_extended rsdt_address read_u32 validate_sdt sum_loop
    find_fadt fadt_loop pointer_count table_at pointer_at has_signature view_eq strncmp strncmp_loop
    dsdt_of write_byte_command
initializes = refl

initialize_example : (some 16 ≡ some tables.rsdp) × IsFound 0 names tables firmware
initialize_example = initialize-IsFound ports 1 0 names (some 16) firmware 0 0 tables initializes

is_other :
    (view_eq (four_at 340) (four_at 310) firmware ≡ false)
    × (view_eq (four_at 340) (four_at 300) firmware ≡ false)
    × (view_eq (four_at 340) (four_at 320) firmware ≡ false)
    × (view_eq (four_at 340) (four_at 330) firmware ≡ false)
unfolding view_eq strncmp strncmp_loop
is_other = (refl, refl, refl, refl)

get_table_example :
    let extended = is_extended tables.rsdp firmware in
    let root = if extended then tables.xsdt else tables.rsdt in
    IsNth 0
      (four_at 340)
      extended
      root
      firmware
      0
      (pointer_count extended root firmware)
      0
      (get_table 0 names (four_at 340) 0 tables firmware)
get_table_example =
    get_table_lem 0 names (four_at 340) 0 tables firmware is_other.0 is_other.1 is_other.2
      is_other.3
