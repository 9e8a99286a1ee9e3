-- ===== src/Tests/Pmm.antt =====
-- The frame allocator on a machine of 512 frames, the first 256 of them reserved.
use boreal_os.Base.{
  ℕ, ◌+◌, ◌*◌, ◌/◌, ◌%◌, ◌≤◌, ◌<◌, ◌≡◌, refl, ◌⊎◌, true, ◌&&◌, ltb, leb, if◌then◌else◌, ok, arith,
  List, [], ◌∷◌,
}
use boreal_os.Base.Bits.{set_bit, test_bit, test_bit-full, test_bit-zero}
use boreal_os.Base.Store.{Store, store}
use boreal_os.Memory.Run.{IsRun, count}
use boreal_os.Memory.Pmm.{
  Pmm, mark_pages, page_size, take_run, find_run, is_page_free, is_page_reserved, is_page_allocated,
  extend, allocate_pages, free_pages, reserved_at, allocated_at, free_at, IsValid,
}
use boreal_os.Memory.Frames.{Call, allocate, release, Trace}
use boreal_os.Memory.Pmm.Refine.{view, answers, answers-Trace}
use boreal_os.Memory.Pmm.Bitmap.{page_bit, set_page}
use boreal_os.Memory.Pmm.Alloc.{Granted, Refused, take_run-IsValid, allocate_pages_lem}
use boreal_os.Memory.Pmm.Rounds.{IsReleasable}
use boreal_os.Memory.Pmm.Free.{IsReleased, free_pages-ok, free_pages-only}
use boreal_os.Memory.Pmm.Undo.{taken-IsReleasable, free_pages-allocate_pages}

abbrev bitmaps : Store
bitmaps a = if leb 128 a && ltb a 160 then 0xff else 0

abbrev small : Pmm
small = record {
  frame_count = 512;
  usable_frames = 256;
  bitmap_size = 64;
  allocatable_bitmap = 64;
  reserved_bitmap = 128;
  memory = bitmaps;
}

low_byte : (page : ℕ) → page < 256 → bitmaps (128 + page / 8) ≡ 0xff
low_byte page h = ground arith

small-low : (page : ℕ) → page < 256 → reserved_at small page ≡ true
unfolding reserved_at page_bit
small-low page h = rw (low_byte page h) (test_bit-full (page % 8) (omega arith))

small-IsValid : IsValid small
unfolding reserved_at allocated_at page_bit test_bit count
small-IsValid = record {
  bytes = λ a. ground arith;
  frames = refl;
  adjacent = refl;
  fits = omega arith;
  low = small-low;
  counted = refl;
}

allocate_pages_example :
    Granted small 3 (allocate_pages small 3) ⊎ Refused small 3 (allocate_pages small 3)
allocate_pages_example = allocate_pages_lem small 3 small-IsValid (omega arith)

small-run : IsRun (free_at small) 256 3
unfolding reserved_at allocated_at page_bit
small-run i a b =
    let high : bitmaps (128 + i / 8) ≡ 0 = ground arith in
    let none : bitmaps (64 + i / 8) ≡ 0 = ground arith in rw (high, none, test_bit-zero)

allocates : allocate_pages small 3 ≡ ok (take_run small 3 256, 256 * page_size)
unfolding allocate_pages find_run is_page_free is_page_reserved is_page_allocated extend page_bit
    test_bit
allocates = refl

-- The state after that.
abbrev busy : Pmm
busy = take_run small 3 256

busy-IsValid : IsValid busy
busy-IsValid = take_run-IsValid small small-IsValid 3 256 (omega arith) small-run

free_pages-allocate_pages_example : free_pages busy (256 * page_size) 3 ≡ ok small
free_pages-allocate_pages_example =
    free_pages-allocate_pages small 3 busy (256 * page_size) small-IsValid (omega arith) allocates
      (omega arith)

busy-IsReleasable : (q : ℕ) → 256 ≤ q → q < 256 + 3 → IsReleasable busy q
busy-IsReleasable = taken-IsReleasable small small-IsValid 3 256 (omega arith) small-run

free_pages-ok_example :
    (t : Pmm) × (free_pages busy (256 * page_size) 3 ≡ ok t) × IsReleased busy 3 256 t × IsValid t
free_pages-ok_example = free_pages-ok busy busy-IsValid 3 256 busy-IsReleasable (omega arith)

free_pages-only_example :
    (256 * page_size % page_size ≡ 0)
    × ((q : ℕ)
        → 256 * page_size / page_size ≤ q
        → q < 256 * page_size / page_size + 3
        → IsReleasable busy q)
free_pages-only_example =
    free_pages-only busy (256 * page_size) 3 small busy-IsValid (omega arith)
      free_pages-allocate_pages_example

one_run : IsRun (free_at small) 256 1
unfolding reserved_at allocated_at page_bit
one_run i a b =
    let high : bitmaps (128 + i / 8) ≡ 0 = ground arith in
    let none : bitmaps (64 + i / 8) ≡ 0 = ground arith in rw (high, none, test_bit-zero)

-- The state with frame 256 taken.
abbrev pub one_taken : Pmm
one_taken = take_run small 1 256

pub one_taken-IsValid : IsValid one_taken
one_taken-IsValid = take_run-IsValid small small-IsValid 1 256 (omega arith) one_run

pub one_taken-mark : allocated_at one_taken 256 ≡ true
unfolding allocated_at page_bit take_run mark_pages set_page store test_bit set_bit
one_taken-mark = refl

-- Three frames are asked for and given back, and then given back again, which is a misuse.
abbrev twice : List Call
twice = allocate 3 ∷ release (256 * page_size) 3 ∷ release (256 * page_size) 3 ∷ []

answers-Trace_example : Trace (view small) twice (answers twice small)
answers-Trace_example =
    answers-Trace twice small small-IsValid (tt, (omega arith, (omega arith, tt)))
