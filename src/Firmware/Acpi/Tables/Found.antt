-- ===== src/Firmware/Acpi/Tables/Found.antt =====
-- What `Initialize` has checked when it returns.
use boreal_os.Base.{
  ℕ, zero, suc, ◌+◌, ◌≡◌, ◌≢◌, refl, ◌∙◌, Bool, true, Bool-cases, inl, inr, arith, if◌then◌else◌,
  add64, Option, none, some, ok, returned_parts,
}
use boreal_os.Base.Store.{Store}
use boreal_os.Firmware.Acpi.{validate_xsdp, validate_sdt}
use boreal_os.Firmware.Acpi.Tables.{
  Acpi, Signatures, is_extended, has_signature, fadt_loop, find_fadt, dsdt_of, find_root,
  find_tables, table_at, Ports, initialize,
}

-- The root table that the pointers lead to.
abbrev pub root_of : Acpi → Store → ℕ
root_of a m = if is_extended a.rsdp m then a.xsdt else a.rsdt

-- The pointers that `Initialize` leaves lead to tables it has checked.
pub record IsFound (higher_half : ℕ) (names : Signatures) (a : Acpi) (m : Store) : Type 0 where
  pub checked : is_extended a.rsdp m ≡ true → validate_xsdp a.rsdp m ≡ true
  pub root : validate_sdt (root_of a m) m ≡ true
  pub fadt : has_signature names.facp_name m a.fadt ≡ true
  pub fadt_there : a.fadt ≢ 0
  pub dsdt : a.dsdt ≡ add64 (dsdt_of a.fadt m) higher_half
  pub dsdt_there : dsdt_of a.fadt m ≢ 0

fadt_loop-HasSignature :
    (higher_half : ℕ) (names : Signatures) (extended : Bool) (sdt left entry : ℕ) (m : Store)
    → fadt_loop higher_half names extended sdt left entry m ≢ 0
    → has_signature names.facp_name m (fadt_loop higher_half names extended sdt left entry m) ≡ true
unfolding fadt_loop
fadt_loop-HasSignature higher_half names extended sdt zero entry m ne = absurd (ne refl)
fadt_loop-HasSignature higher_half names extended sdt (suc left) entry m ne =
    elim (Bool-cases
      (has_signature names.facp_name m (table_at higher_half extended sdt entry m))) [
        | inl hit ↦ rw (fadt_loop, hit) hit
        | inr miss ↦
            let next : fadt_loop higher_half names extended sdt (suc left) entry m
                ≡ fadt_loop higher_half names extended sdt left (entry + 1) m =
              rw (fadt_loop, miss) refl in
            rw next (
              fadt_loop-HasSignature higher_half names extended sdt left (entry + 1) m
                (λ z. ne (next ∙ z)))
      ]

find_root_lem :
    (higher_half : ℕ) (response : Option ℕ) (a : Acpi) (sdt : ℕ) (m : Store)
    → find_root higher_half response m ≡ ok (a, sdt)
    → (response ≡ some a.rsdp)
      × (sdt ≡ root_of a m)
      × (is_extended a.rsdp m ≡ true → validate_xsdp a.rsdp m ≡ true)
unfolding find_root
find_root_lem higher_half none a sdt m e = absurd cc
find_root_lem higher_half (some rsdp) a sdt m e = ground (arith, e)

-- The checks after the root table.
find_tables-checks :
    (higher_half : ℕ) (names : Signatures) (response : Option ℕ) (a b : Acpi) (sdt : ℕ) (m : Store)
    → find_root higher_half response m ≡ ok (b, sdt)
    → find_tables higher_half names response m ≡ ok a
    → (validate_sdt sdt m ≡ true)
      × (find_fadt higher_half names b.rsdp sdt m ≢ 0)
      × (dsdt_of (find_fadt higher_half names b.rsdp sdt m) m ≢ 0)
      × (a ≡ record b {
        fadt = find_fadt higher_half names b.rsdp sdt m;
        dsdt = add64 (dsdt_of (find_fadt higher_half names b.rsdp sdt m) m) higher_half;
      })
unfolding find_tables
find_tables-checks higher_half names response a b sdt m root e = ground (arith, root, e)

root_returned :
    (higher_half : ℕ) (names : Signatures) (response : Option ℕ) (a : Acpi) (m : Store)
    → find_tables higher_half names response m ≡ ok a
    → (r : Acpi × ℕ) × (find_root higher_half response m ≡ ok r)
unfolding find_tables
root_returned higher_half names response a m e =
    let (r, root, _) = returned_parts (find_root higher_half response m) _ {value = a} e in
    (r, root)

find_tables-IsFound :
    (higher_half : ℕ) (names : Signatures) (response : Option ℕ) (a : Acpi) (m : Store)
    → find_tables higher_half names response m ≡ ok a
    → (response ≡ some a.rsdp) × IsFound higher_half names a m
find_tables-IsFound higher_half names response a m e =
    let ((b, sdt), root) = root_returned higher_half names response a m e in
    let (valid, fadt, dsdt, exact) =
      find_tables-checks higher_half names response a b sdt m root e in
    let (given, same, checked) = find_root_lem higher_half response b sdt m root in
    rw exact (
      given,
      record {
        checked = checked;
        root = rw (← same) valid;
        fadt =
            unfold find_fadt in
            fadt_loop-HasSignature higher_half names _ sdt _ 0 m (unfold find_fadt in fadt);
        fadt_there = fadt;
        dsdt = refl;
        dsdt_there = dsdt;
      },
    )

-- The tables come before the command that enables the hardware.
initialize-tables :
    {W : Type 0} (ports : Ports W) (fuel higher_half : ℕ) (names : Signatures) (response : Option ℕ)
    (m : Store) (w w' : W) (a : Acpi)
    → initialize ports fuel higher_half names response m w ≡ some (ok (a, w'))
    → find_tables higher_half names response m ≡ ok a
unfolding initialize
initialize-tables ports fuel higher_half names response m w w' a e = ground (arith, e)

-- When `Initialize` returns, the root pointer was there and, where it is extended, valid; the root table
-- that the pointers lead to is valid, the FADT that was found has its signature, and the DSDT is the one
-- that the FADT names, whose address is not 0.
pub initialize-IsFound :
    {W : Type 0} (ports : Ports W) (fuel higher_half : ℕ) (names : Signatures) (response : Option ℕ)
    (m : Store) (w w' : W) (a : Acpi)
    → initialize ports fuel higher_half names response m w ≡ some (ok (a, w'))
    → (response ≡ some a.rsdp) × IsFound higher_half names a m
initialize-IsFound ports fuel higher_half names response m w w' a e =
    find_tables-IsFound higher_half names response a m
      (initialize-tables ports fuel higher_half names response m w w' a e)
