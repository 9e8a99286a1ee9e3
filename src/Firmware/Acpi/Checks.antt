-- ===== src/Firmware/Acpi/Checks.antt =====
-- A table is accepted if its bytes add up to 0 modulo 256.
use boreal_os.Base.{ℕ, zero, suc, ◌+◌, ◌%◌, ◌^◌, ◌≤◌, ◌≡◌, ◌≢◌, ◌∙◌, ap, true, ◌↔◌, arith}
use boreal_os.Base.Store.{Store}
use boreal_os.Firmware.Acpi.{
  read_u32, sum_loop, rsdp_size, xsdp_size, sdt_header_size, validate_rsdp, validate_xsdp,
  validate_sdt,
}

-- The sum of `n` bytes from `base` on, without a bound.
abbrev pub total : ℕ → ℕ → Store → ℕ
total zero base m = 0
total (suc n) base m = m base + total n (base + 1) m

sum_loop_lem :
    (left i base sum : ℕ) (m : Store)
    → sum_loop left i base (sum % 2 ^ 8) m ≡ (sum + total left (base + i) m) % 2 ^ 8
unfolding sum_loop
sum_loop_lem zero i base sum m = omega arith
sum_loop_lem (suc left) i base sum m =
    let next : base + (i + 1) ≡ base + i + 1 = omega arith in
    sum_loop_lem left (i + 1) base (sum % 2 ^ 8 + m (base + i)) m ∙ rw next (omega arith)

sum_loop-total : (n base : ℕ) (m : Store) → sum_loop n 0 base 0 m ≡ total n base m % 2 ^ 8
sum_loop-total n base m =
    let start : base + 0 ≡ base = omega arith in
    rw start at (sum_loop_lem n 0 base 0 m) ∙ ap (λ s. s % 2 ^ 8) (omega arith)

-- `ValidateSDT` accepts just the tables that are there, whose length covers their header and whose
-- bytes add up to 0 modulo 256.
pub validate_sdt_iff :
    (sdt : ℕ) (m : Store)
    → (validate_sdt sdt m ≡ true) ↔ (
        (sdt ≢ 0)
        × (sdt_header_size ≤ read_u32 (sdt + 4) m)
        × (total (read_u32 (sdt + 4) m) sdt m % 2 ^ 8 ≡ 0))
unfolding validate_sdt
validate_sdt_iff sdt m = rw (sum_loop-total (read_u32 (sdt + 4) m) sdt m) (ground arith)

-- `ValidateXSDP` accepts just the pointers whose first 20 bytes and whose whole length, of at least
-- 36 bytes, each add up to 0 modulo 256.
pub validate_xsdp_iff :
    (xsdp : ℕ) (m : Store)
    → (validate_xsdp xsdp m ≡ true) ↔ (
        (xsdp ≢ 0)
        × (total rsdp_size xsdp m % 2 ^ 8 ≡ 0)
        × (xsdp_size ≤ read_u32 (xsdp + 20) m)
        × (total (read_u32 (xsdp + 20) m) xsdp m % 2 ^ 8 ≡ 0))
unfolding validate_xsdp validate_rsdp
validate_xsdp_iff xsdp m =
    rw (sum_loop-total (read_u32 (xsdp + 20) m) xsdp m, sum_loop-total rsdp_size xsdp m)
      (ground arith)
