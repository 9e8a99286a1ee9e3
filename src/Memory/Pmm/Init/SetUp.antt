-- ===== src/Memory/Pmm/Init/SetUp.antt =====
-- The state that `Initialize` sets up: it is consistent, nothing is allocated, and a page that is
-- not reserved lies in usable memory above the first MiB, clear of the bitmaps.
use boreal_os.Base.{
  ℕ, ◌+◌, ◌*◌, ◌/◌, ◌%◌, ◌^◌, ◌≤◌, ◌<◌, ◌≡◌, ◌≢◌, refl, ◌∙◌, true, false, not, ◌||◌, if◌then◌else◌,
  List, arith, ok, mul64,
}
use boreal_os.Base.Store.{Store}
use boreal_os.Utility.Math.Align.{align_up-eq}
use boreal_os.Memory.Run.{count, count_ext}
use boreal_os.Memory.Pmm.{Pmm, page_size, reserved_at, allocated_at, free_at, IsValid}
use boreal_os.Memory.Pmm.Bitmap.{page_bit, IsBytes}
use boreal_os.Memory.Pmm.Marks.{in_run}
use boreal_os.Memory.Pmm.Init.{
  Entry, Region, valid_regions, end_address, place, fill_both, fill_bitmaps, count_usable,
  bitmap_bytes, set_up,
}
use boreal_os.Memory.Pmm.Init.Fill.{AllAligned, in_regions, count_usable-all}
use boreal_os.Memory.Pmm.Init.Bitmaps.{
  own_first, own_count, fill_bitmaps-IsBytes, fill_bitmaps-allocated, fill_bitmaps-reserved,
  filled-reserved,
}
use boreal_os.Memory.Pmm.Init.Entries.{
  AllRegular, NoOverlap, InUsable, valid_regions-AllWhole, valid_regions-Separate,
  valid_regions-InUsable, end_address-le,
}
use boreal_os.Memory.Pmm.Init.Place.{Clear, IsPlaced, place-IsPlaced, AllWhole-AllAligned}

bitmap_bytes-bounds :
    (es : List Entry)
    → AllRegular es
    → (bitmap_bytes es ≤ 2 ^ 40) × (bitmap_bytes es % page_size ≡ 0)
unfolding bitmap_bytes
bitmap_bytes-bounds es r =
    let top = end_address-le 0 es (omega arith) r in
    let size = (end_address 0 es / page_size + 7) / 8 in
    let up = align_up-eq 52 12 refl size (omega (arith, top)) in
    (omega (arith, top, up), omega (arith, up))

-- The state that a successful set-up gives.
abbrev pub base_of : List Entry → ℕ
base_of es = (place (mul64 (bitmap_bytes es) 2) (valid_regions es)).0

abbrev left_of : List Entry → List Region
left_of es = (place (mul64 (bitmap_bytes es) 2) (valid_regions es)).1

abbrev pub built : List Entry → Store → Pmm
built es m =
    let size = bitmap_bytes es in
    let filled = fill_bitmaps size (base_of es) (left_of es) m in
    record {
      frame_count = mul64 size 8;
      usable_frames = count_usable (base_of es + size) filled (mul64 size 8) 0 0;
      bitmap_size = size;
      allocatable_bitmap = base_of es;
      reserved_bitmap = base_of es + size;
      memory = filled;
    }

set_up-built :
    (es : List Entry) (m : Store) (s : Pmm)
    → set_up es m ≡ ok s
    → (base_of es ≢ 0) × (s ≡ built es m)
unfolding set_up
set_up-built es m s h = ground arith

-- A set-up that finds room for the bitmaps succeeds.
pub set_up-room : (es : List Entry) (m : Store) → base_of es ≢ 0 → set_up es m ≡ ok (built es m)
unfolding set_up
set_up-room es m found = ground arith

module _ (es : List Entry) (m : Store) (bytes : IsBytes m) (regular : AllRegular es)
    (apart : NoOverlap es) (found : base_of es ≢ 0) where
  abbrev size : ℕ
  size = bitmap_bytes es

  placed : IsPlaced (mul64 size 2) (valid_regions es) (base_of es) (left_of es)
  placed =
      place-IsPlaced (mul64 size 2) (omega (arith, (bitmap_bytes-bounds es regular).1))
        (valid_regions es) (valid_regions-AllWhole es regular) (valid_regions-Separate es apart)
        found

  aligned : AllAligned (left_of es)
  aligned = AllWhole-AllAligned (left_of es) placed.whole

  abbrev filled : Store
  filled = fill_both (base_of es) (base_of es + size) size 0 m

  built-reserved :
      (q : ℕ)
      → reserved_at (built es m) q ≡ (
          if in_run (own_first (base_of es)) (own_count size (base_of es)) q || in_run 0 256 q
          then true
          else (if in_regions (left_of es) q then false else page_bit (base_of es + size) q filled))
  unfolding reserved_at
  built-reserved q = fill_bitmaps-reserved size (base_of es) (left_of es) m bytes aligned q

  built-allocated : (q : ℕ) → q / 8 < size → allocated_at (built es m) q ≡ false
  unfolding allocated_at
  built-allocated q h = fill_bitmaps-allocated size (base_of es) (left_of es) m bytes aligned q h

  abbrev frames : ℕ
  frames = mul64 size 8

  page-inside : (q : ℕ) → q < frames → q / 8 < size
  page-inside q lt = omega (arith, (bitmap_bytes-bounds es regular).0)

  built-counted : (built es m).usable_frames ≡ count (free_at (built es m)) (built es m).frame_count
  unfolding reserved_at
  built-counted =
      count_usable-all (base_of es + size) frames (built es m).memory
      ∙ count_ext (λ p. not (page_bit (base_of es + size) p (built es m).memory))
          (free_at (built es m)) frames
          (λ i lt. ground (arith, built-allocated i (page-inside i lt)))

  built-IsValid : IsValid (built es m)
  built-IsValid = record {
    bytes = fill_bitmaps-IsBytes size (base_of es) (left_of es) m bytes aligned;
    frames = omega (arith, (bitmap_bytes-bounds es regular).0);
    adjacent = refl;
    fits = omega (arith, (bitmap_bytes-bounds es regular).0);
    low = λ page lt. ground (arith, built-reserved page);
    counted = built-counted;
  }

  -- A page that is not reserved.
  built-unreserved :
      (q : ℕ)
      → q / 8 < size
      → reserved_at (built es m) q ≡ false
      → (256 ≤ q) × (in_regions (left_of es) q ≡ true)
  built-unreserved q h free =
      ground (
        arith,
        built-reserved q,
        filled-reserved size (base_of es) (left_of es) m bytes aligned q h,
      )

-- What a set-up promises of its state: it is consistent, no page is allocated, and a page that is
-- not reserved lies above the first MiB, whole in a usable entry, and clear of the bitmaps.
pub record IsSetUp (es : List Entry) (s : Pmm) : Type 0 where
  pub valid : IsValid s
  pub unallocated : (q : ℕ) → q < s.frame_count → allocated_at s q ≡ false
  pub above_low : (q : ℕ) → q < s.frame_count → reserved_at s q ≡ false → 256 ≤ q
  pub usable : (q : ℕ) → q < s.frame_count → reserved_at s q ≡ false → InUsable q es
  pub clear :
      (q : ℕ)
      → q < s.frame_count
      → reserved_at s q ≡ false
      → Clear s.allocatable_bitmap (s.bitmap_size * 2) q

built-IsSetUp :
    (es : List Entry) (m : Store)
    → IsBytes m
    → AllRegular es
    → NoOverlap es
    → base_of es ≢ 0
    → IsSetUp es (built es m)
built-IsSetUp es m bytes regular apart found =
    let p = placed es m bytes regular apart found in
    let inside = page-inside es m bytes regular apart found in
    let free = built-unreserved es m bytes regular apart found in
    record {
      valid = built-IsValid es m bytes regular apart found;
      unallocated = λ q lt. built-allocated es m bytes regular apart found q (inside q lt);
      above_low = λ q lt h. (free q (inside q lt) h).0;
      usable = λ q lt h. valid_regions-InUsable q es regular (p.kept q (free q (inside q lt) h).1);
      clear = λ q lt h.
          let c = p.clear q (free q (inside q lt) h).1 in
          omega (arith, c, (bitmap_bytes-bounds es regular).0);
    }

-- On a memory map as the boot protocol promises it, a set-up that does not panic gives a consistent
-- state with no page allocated, in which every page that is not reserved lies above the first MiB,
-- whole in a usable entry, and clear of the memory that holds the two bitmaps.
pub set_up-IsSetUp :
    (es : List Entry) (m : Store) (s : Pmm)
    → IsBytes m
    → AllRegular es
    → NoOverlap es
    → set_up es m ≡ ok s
    → IsSetUp es s
set_up-IsSetUp es m s bytes regular apart h =
    let (found, same) = set_up-built es m s h in
    rw same (built-IsSetUp es m bytes regular apart found)
