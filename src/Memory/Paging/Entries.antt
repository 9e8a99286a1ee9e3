-- ===== src/Memory/Paging/Entries.antt =====
-- The bits of a table entry: an address in bits 12 to 51, flags below and above.
use boreal_os.Base.{
  ℕ, ◌+◌, ◌*◌, ◌/◌, ◌%◌, ◌^◌, ◌<◌, ◌≡◌, refl, sym, ◌∙◌, ap, true, false, not, ◌==◌, bit_and, bit_or,
  arith,
}
use boreal_os.Base.Masks.{
  bit_and_low, bit_and_high, bit_and_split, bit_or_split, bit_or_fields, bit_or-halves, bit_or-zero,
  bit_and-zero, zero-bit_or,
}
use boreal_os.Memory.Pmm.{page_size}
use boreal_os.Memory.Paging.{
  present, pointer_mask, directory_flags, is_present, pml4_index, pdp_index, pd_index, pt_index,
  page_offset,
}

abbrev pub IsFrame : ℕ → Type 0
IsFrame a = (a % page_size ≡ 0) × (a < 2 ^ 52)

-- Flags that keep clear of the address.
pub record IsFlags (flags : ℕ) : Type 0 where
  pub low : flags % 2 ^ 52 < 2 ^ 12

pub is_present-mod : (e : ℕ) → is_present e ≡ not (e % 2 == 0)
unfolding is_present
is_present-mod e = rw (bit_and_low 1 e)

pub is_present-zero : is_present 0 ≡ false
unfolding is_present
is_present-zero = refl

odd_or : (f : ℕ) → bit_or f 1 ≡ f / 2 * 2 + 1
odd_or f = omega (arith, bit_or-halves f 1, bit_or-zero (f / 2))

-- The address of a word `hi * 2^52 + frame + lo`.
masked :
    (hi frame lo : ℕ)
    → IsFrame frame
    → lo < 2 ^ 12
    → bit_and (hi * 2 ^ 52 + (frame + lo)) pointer_mask ≡ frame
masked hi frame lo (aligned, small) h = ground (
  arith,
  bit_and_split 52 hi (frame + lo) 0 pointer_mask,
  bit_and-zero hi,
  bit_and_high 40 12 (frame + lo),
)

-- A frame's address takes small flags by addition.
pub frame-or : (frame lo : ℕ) → IsFrame frame → lo < 2 ^ 12 → bit_or frame lo ≡ frame + lo
frame-or frame lo (aligned, small) h =
    let e : frame / 2 ^ 12 * 2 ^ 12 ≡ frame = omega arith in
    rw e at (bit_or_fields 12 (frame / 2 ^ 12) lo h)

-- The entry that `MapPage` writes for a directory: it is present and holds the table's address.
module _ (frame : ℕ) (h : IsFrame frame) where
  pub directory-present : is_present (bit_or frame directory_flags) ≡ true
  directory-present =
      is_present-mod (bit_or frame directory_flags)
      ∙ ground (arith, frame-or frame directory_flags h (omega arith), h.0)

  pub directory-pointer : bit_and (bit_or frame directory_flags) pointer_mask ≡ frame
  directory-pointer =
      rw (frame-or frame directory_flags h (omega arith))
        (ap (λ a. bit_and a pointer_mask) (omega arith) ∙ masked 0 frame 7 h (omega arith))

-- The entry that it writes for a page.
module _ (frame flags : ℕ) (h : IsFrame frame) (f : IsFlags flags) where
  pub address-pointer : bit_and frame pointer_mask ≡ frame
  address-pointer =
      ap (λ a. bit_and a pointer_mask) (omega arith) ∙ masked 0 frame 0 h (omega arith)

  flags-split : bit_or flags present ≡ flags / 2 ^ 52 * 2 ^ 52 + (flags % 2 ^ 52 / 2 * 2 + 1)
  flags-split = omega (arith, odd_or flags)

  page-sum :
      bit_or frame (bit_or flags present)
      ≡ flags / 2 ^ 52 * 2 ^ 52 + (frame + (flags % 2 ^ 52 / 2 * 2 + 1))
  page-sum =
      let lo = flags % 2 ^ 52 / 2 * 2 + 1 in
      let small : lo < 2 ^ 12 = omega (arith, f.low) in
      let left : 0 * 2 ^ 52 + frame ≡ frame = omega arith in
      rw flags-split (
        ap (λ a. bit_or a (flags / 2 ^ 52 * 2 ^ 52 + lo)) (sym left)
        ∙ bit_or_split 52 0 frame (flags / 2 ^ 52) lo h.1 (omega (arith, small))
        ∙ rw (zero-bit_or (flags / 2 ^ 52), frame-or frame lo h small))

  pub page-present : is_present (bit_or (bit_and frame pointer_mask) (bit_or flags present)) ≡ true
  page-present =
      rw address-pointer
        (is_present-mod (bit_or frame (bit_or flags present)) ∙ ground (arith, page-sum, h.0))

  pub page-pointer :
      bit_and (bit_or (bit_and frame pointer_mask) (bit_or flags present)) pointer_mask ≡ frame
  page-pointer =
      rw (address-pointer, page-sum)
        (masked (flags / 2 ^ 52) frame (flags % 2 ^ 52 / 2 * 2 + 1) h (omega (arith, f.low)))

  pub page-address : (v : ℕ) → bit_or frame (page_offset v) ≡ frame + v % page_size
  unfolding page_offset
  page-address v = rw (bit_and_low 12 v) (frame-or frame (v % 2 ^ 12) h (omega arith))

-- The indices of an address.
pub indices :
    (v : ℕ)
    → (pml4_index v ≡ v / 2 ^ 39 % 512)
      × (pdp_index v ≡ v / 2 ^ 30 % 512)
      × (pd_index v ≡ v / 2 ^ 21 % 512)
      × (pt_index v ≡ v / 2 ^ 12 % 512)
unfolding pml4_index pdp_index pd_index pt_index
indices v = (
  bit_and_low 9 (v / 2 ^ 39),
  bit_and_low 9 (v / 2 ^ 30),
  bit_and_low 9 (v / 2 ^ 21),
  bit_and_low 9 (v / 2 ^ 12),
)
