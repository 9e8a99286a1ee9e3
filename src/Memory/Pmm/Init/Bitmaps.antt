-- ===== src/Memory/Pmm/Init/Bitmaps.antt =====
-- The two bitmaps after all loops of `Initialize`, page by page.
use boreal_os.Base.{
  ℕ, ◌+◌, ◌-◌, ◌/◌, ◌<◌, ◌≡◌, ◌∙◌, true, false, ◌||◌, if◌then◌else◌, List, arith, mul64, add64,
}
use boreal_os.Base.Store.{Store}
use boreal_os.Utility.Math.{align_up}
use boreal_os.Memory.Pmm.{page_size, mark_pages}
use boreal_os.Memory.Pmm.Bitmap.{page_bit, IsBytes}
use boreal_os.Memory.Pmm.Marks.{in_run, mark_pages-IsBytes, page_bit-mark_pages}
use boreal_os.Memory.Pmm.Init.{Region, fill_both, clear_regions, fill_bitmaps}
use boreal_os.Memory.Pmm.Init.Fill.{
  in_regions, AllAligned, fill_both-IsBytes, page_bit-fill_both, zero_bytes-IsBytes,
  page_bit-zero_bytes, page_bit-zero_bytes_apart, clear_regions-IsBytes, page_bit-clear_regions,
}

-- The pages that the code marks for the bitmaps themselves.
abbrev pub own_first : ℕ → ℕ
own_first base = base / page_size

abbrev pub own_count : ℕ → ℕ → ℕ
own_count size base =
    align_up (add64 (own_first base) (mul64 size 2)) page_size / page_size - own_first base

module _ (size base : ℕ) (regions : List Region) (m : Store) (bytes : IsBytes m)
    (aligned : AllAligned regions) where
  abbrev reserved : ℕ
  reserved = base + size

  abbrev filled : Store
  filled = fill_both base reserved size 0 m

  abbrev cleared : Store
  cleared = clear_regions reserved regions filled

  abbrev low : Store
  low = mark_pages reserved 256 0 cleared

  abbrev owned : Store
  owned = mark_pages reserved (own_count size base) (own_first base) low

  filled-IsBytes : IsBytes filled
  filled-IsBytes = fill_both-IsBytes base reserved size m bytes

  cleared-IsBytes : IsBytes cleared
  cleared-IsBytes = clear_regions-IsBytes reserved regions filled filled-IsBytes aligned

  low-IsBytes : IsBytes low
  low-IsBytes = mark_pages-IsBytes reserved 256 0 cleared cleared-IsBytes

  pub fill_bitmaps-IsBytes : IsBytes (fill_bitmaps size base regions m)
  unfolding fill_bitmaps
  fill_bitmaps-IsBytes =
      zero_bytes-IsBytes base size owned
        (mark_pages-IsBytes reserved (own_count size base) (own_first base) low low-IsBytes)

  pub fill_bitmaps-allocated :
      (q : ℕ) → q / 8 < size → page_bit base q (fill_bitmaps size base regions m) ≡ false
  unfolding fill_bitmaps
  fill_bitmaps-allocated q h = page_bit-zero_bytes base size q owned h

  -- The reserved bitmap holds the first MiB, the marked pages, and all pages of no region.
  pub fill_bitmaps-reserved :
      (q : ℕ)
      → page_bit reserved q (fill_bitmaps size base regions m) ≡ (
          if in_run (own_first base) (own_count size base) q || in_run 0 256 q
          then true
          else (if in_regions regions q then false else page_bit reserved q filled))
  unfolding fill_bitmaps
  fill_bitmaps-reserved q =
      page_bit-zero_bytes_apart base size q owned
      ∙ page_bit-mark_pages reserved (own_count size base) (own_first base) q low low-IsBytes
      ∙ ground (
        arith,
        page_bit-mark_pages reserved 256 0 q cleared cleared-IsBytes,
        page_bit-clear_regions reserved q regions filled filled-IsBytes aligned,
      )

  pub filled-reserved : (q : ℕ) → q / 8 < size → page_bit reserved q filled ≡ true
  filled-reserved q h = page_bit-fill_both base size q m h
