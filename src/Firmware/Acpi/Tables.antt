-- ===== src/Firmware/Acpi/Tables.antt =====
-- kernel/Firmware/ACPI.cpp: the look-up of the tables, and `Initialize`. The ports are outside the
-- source: they are operations on a world `W`. Addresses are virtual here, as the pointers of the source
-- are: `higher_half` is the offset of the direct map.
pub mod Nth
pub mod Found
use boreal_os.Base.{
  ℕ, zero, suc, ◌+◌, ◌-◌, ◌*◌, ◌/◌, ◌%◌, ◌^◌, Bool, true, false, not, ◌&&◌, ltb, leb, ◌==◌,
  if◌then◌else◌, bit_and, add64, sub64, Option, none, some, Outcome, ok, panic, no_rsdp,
  invalid_xsdp, invalid_rsdt, invalid_sdt, no_fadt, no_dsdt, ◌>>=◌, List, [], ◌∷◌,
}
use boreal_os.Base.Store.{Store}
use boreal_os.Utility.Strings.{View, view_eq}
use boreal_os.Firmware.Acpi.{read_u32, sdt_header_size, validate_xsdp, validate_sdt}

unfoldable pub read_u16 : ℕ → Store → ℕ
read_u16 a m = m a + m (a + 1) * 2 ^ 8

unfoldable pub read_u64 : ℕ → Store → ℕ
read_u64 a m = read_u32 a m + read_u32 (a + 4) m * 2 ^ 32

-- The pointers of the class.
pub record Acpi : Type 0 where
  pub rsdp : ℕ
  pub rsdt : ℕ
  pub xsdp : ℕ
  pub xsdt : ℕ
  pub fadt : ℕ
  pub dsdt : ℕ

-- The signatures that the source names, wherever the compiler puts them.
pub record Signatures : Type 0 where
  pub dsdt_name : View
  pub facp_name : View
  pub rsdt_name : View
  pub xsdt_name : View

-- `_rsdp->revision > 0`
unfoldable pub is_extended : ℕ → Store → Bool
is_extended rsdp m = ltb 0 (m (rsdp + 15))

-- `RSDTAddress` and `XSDTAddress`
unfoldable pub rsdt_address : ℕ → Store → ℕ
rsdt_address rsdp m = read_u32 (rsdp + 16) m

unfoldable pub xsdt_address : ℕ → Store → ℕ
xsdt_address xsdp m = read_u64 (xsdp + 24) m

-- The first four bytes of a table against a signature.
unfoldable pub has_signature : View → Store → ℕ → Bool
has_signature signature m table = view_eq (record { start = table; size = 4 }) signature m

-- `pointers[i]`, of eight bytes or of four.
unfoldable pub pointer_at : Bool → ℕ → ℕ → Store → ℕ
pointer_at extended table i m =
    if extended
    then read_u64 (table + sdt_header_size + 8 * i) m
    else read_u32 (table + sdt_header_size + 4 * i) m

-- `targetAddr + higherHalf`
unfoldable pub table_at : ℕ → Bool → ℕ → ℕ → Store → ℕ
table_at higher_half extended table i m = add64 (pointer_at extended table i m) higher_half

-- The difference is a `size_t`.
unfoldable pub pointer_count : Bool → ℕ → Store → ℕ
pointer_count extended table m =
    sub64 (read_u32 (table + 4) m) sdt_header_size / (if extended then 8 else 4)

-- The loop of `GetTable`, with `left` pointers to go; 0 is the null pointer.
unfoldable pub table_loop : ℕ → View → Bool → ℕ → ℕ → ℕ → ℕ → Store → ℕ
table_loop higher_half signature extended table zero i index m = 0
table_loop higher_half signature extended table (suc left) i index m =
    elim (has_signature signature m (table_at higher_half extended table i m)) [
      | true ↦ elim (index == 0) [
        | true ↦ table_at higher_half extended table i m
        | false ↦ table_loop higher_half signature extended table left (i + 1) (index - 1) m
      ]
      | false ↦ table_loop higher_half signature extended table left (i + 1) index m
    ]

unfoldable pub get_table : ℕ → Signatures → View → ℕ → Acpi → Store → ℕ
get_table higher_half names signature index a m =
    if view_eq signature names.dsdt_name m
    then a.dsdt
    else if view_eq signature names.facp_name m
    then a.fadt
    else if view_eq signature names.rsdt_name m
    then a.rsdt
    else if view_eq signature names.xsdt_name m
    then a.xsdt
    else if is_extended a.rsdp m
    then table_loop higher_half signature true a.xsdt (pointer_count true a.xsdt m) 0 index m
    else table_loop higher_half signature false a.rsdt (pointer_count false a.rsdt m) 0 index m

-- The loop of `FindFADT`.
unfoldable pub fadt_loop : ℕ → Signatures → Bool → ℕ → ℕ → ℕ → Store → ℕ
fadt_loop higher_half names extended sdt zero entry m = 0
fadt_loop higher_half names extended sdt (suc left) entry m =
    elim (has_signature names.facp_name m (table_at higher_half extended sdt entry m)) [
      | true ↦ table_at higher_half extended sdt entry m
      | false ↦ fadt_loop higher_half names extended sdt left (entry + 1) m
    ]

unfoldable pub find_fadt : ℕ → Signatures → ℕ → ℕ → Store → ℕ
find_fadt higher_half names rsdp sdt m =
    fadt_loop higher_half names (is_extended rsdp m) sdt (pointer_count (is_extended rsdp m) sdt m)
      0 m

pub record Ports (W : Type 0) : Type 0 where
  pub inw : ℕ → W → ℕ × W
  pub outb : ℕ → ℕ → W → W

-- The port numbers are cut to 16 bits.
abbrev pub control_port : ℕ → Store → ℕ
control_port fadt m = read_u32 (fadt + 64) m % 2 ^ 16

abbrev pub command_port : ℕ → Store → ℕ
command_port fadt m = read_u32 (fadt + 48) m % 2 ^ 16

module _ {W : Type 0} (ports : Ports W) where
  -- The loop that waits for the control bit; `none` says that the fuel ran out.
  unfoldable pub wait_enabled : ℕ → ℕ → W → Option W
  wait_enabled zero port w = none
  wait_enabled (suc fuel) port w = elim (bit_and (ports.inw port w).0 1 == 0) [
    | true ↦ wait_enabled fuel port (ports.inw port w).1
    | false ↦ some (ports.inw port w).1
  ]

  unfoldable pub write_byte_command : ℕ → ℕ → ℕ → Store → W → Option W
  write_byte_command fuel command fadt m w =
      let (status, w) = ports.inw (control_port fadt m) w in
      if bit_and status 1 == 0
      then wait_enabled fuel (control_port fadt m) (ports.outb (command_port fadt m) command w)
      else some w

-- The beginning of `Initialize`, up to the validation of the root table: the pointers, and that table.
unfoldable pub find_root : ℕ → Option ℕ → Store → Outcome (Acpi × ℕ)
find_root higher_half none m = panic no_rsdp
find_root higher_half (some rsdp) m =
    if is_extended rsdp m
    then (if not (validate_xsdp rsdp m)
        then panic invalid_xsdp
        else ok (
          record {
            rsdp = rsdp;
            rsdt = 0;
            xsdp = rsdp;
            xsdt = add64 (xsdt_address rsdp m) higher_half;
            fadt = 0;
            dsdt = 0;
          },
          add64 (xsdt_address rsdp m) higher_half,
        ))
    else if not (validate_sdt (add64 (rsdt_address rsdp m) higher_half) m)
    then panic invalid_rsdt
    else ok (
      record {
        rsdp = rsdp;
        rsdt = add64 (rsdt_address rsdp m) higher_half;
        xsdp = 0;
        xsdt = 0;
        fadt = 0;
        dsdt = 0;
      },
      add64 (rsdt_address rsdp m) higher_half,
    )

-- `dsdtPhys`, the address of the DSDT: the extended one if the table has it.
unfoldable pub dsdt_of : ℕ → Store → ℕ
dsdt_of fadt m =
    if leb (140 + 8) (read_u32 (fadt + 4) m) && not (read_u64 (fadt + 140) m == 0)
    then read_u64 (fadt + 140) m
    else read_u32 (fadt + 40) m

unfoldable pub find_tables : ℕ → Signatures → Option ℕ → Store → Outcome Acpi
find_tables higher_half names response m = do
  (a, sdt) ← find_root higher_half response m
  if not (validate_sdt sdt m) then panic invalid_sdt else do
    let fadt = find_fadt higher_half names a.rsdp sdt m
    if fadt == 0 then panic no_fadt else do
      let dsdt = dsdt_of fadt m
      if dsdt == 0
          then panic no_dsdt
          else ok (record a { fadt = fadt; dsdt = add64 dsdt higher_half })

unfoldable pub initialize :
    {W : Type 0} → Ports W → ℕ → ℕ → Signatures → Option ℕ → Store → W → Option (Outcome (Acpi × W))
initialize ports fuel higher_half names response m w =
    elim (find_tables higher_half names response m) [
      | panic e ↦ some (panic e)
      | ok a ↦ elim (write_byte_command ports fuel (m (a.fadt + 52)) a.fadt m w) [
        | none ↦ none
        | some w ↦ some (ok (a, w))
      ]
    ]
