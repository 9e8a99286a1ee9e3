-- ===== src/Base/Panics.antt =====
-- What a kernel routine that may call PANIC gives (kernel/Definitions.h). `Core::Panic` does not
-- return: the machine halts, so a panic carries its cause and no state.
use mathlib.Core.Path.{◌≡◌, refl}

pub data Cause : Type 0 where
  page_out_of_bounds invalid_start free_reserved free_unallocated : Cause
  no_memory_map no_hhdm no_bitmap_region failed_test : Cause
  unaligned_virtual unaligned_physical no_table_frame already_mapped not_mapped : Cause
  no_virtual_range no_rsdp invalid_xsdp invalid_rsdt invalid_sdt no_fadt no_dsdt : Cause
  no_pml4_frame no_copy_frame no_reserved_frame null_mmio_base : Cause

pub data Outcome {ℓ} (A : Type ℓ) : Type ℓ where
  ok : A → Outcome A
  panic : Cause → Outcome A

infixl 5 ◌>>=◌
abbrev pub ◌>>=◌ {ℓ κ} : {A : Type ℓ} {B : Type κ} → Outcome A → (A → Outcome B) → Outcome B
ok a >>= f = f a
panic c >>= f = panic c

-- A routine that returns came through each of its calls.
pub returned_parts {ℓ κ} :
    {A : Type ℓ} {B : Type κ} (call : Outcome A) (rest : A → Outcome B) {value : B}
    → (call >>= rest) ≡ ok value
    → (result : A) × (call ≡ ok result) × (rest result ≡ ok value)
returned_parts (ok result) rest h = (result, refl, h)
returned_parts (panic cause) rest h = cc
