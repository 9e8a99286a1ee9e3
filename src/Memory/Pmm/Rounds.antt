-- ===== src/Memory/Pmm/Rounds.antt =====
-- The rounds of `FreePages`: the pages that one accepts, and the loop over them.
use boreal_os.Base.{
  ℕ, zero, suc, ◌+◌, ◌/◌, ◌≤◌, ◌<◌, ◌≡◌, ◌≢◌, refl, sym, ◌∙◌, true, false, ok, returned_parts,
  arith,
}
use native.Mathlib.Decide.{ℕ_discrete}
use boreal_os.Memory.Pmm.{Pmm, free_page, free_loop, reserved_at, allocated_at}
use boreal_os.Memory.Pmm.Bitmap.{
  clear_page, clear_page-IsBytes, page_bit-clear_page, page_bit-clear_page_apart,
}
use boreal_os.Memory.Pmm.Search.{is_page_reserved_lem, is_page_allocated_lem}
use boreal_os.Memory.Pmm.Marks.{clear_pages}

-- A page that `FreePages` accepts.
pub record IsReleasable (s : Pmm) (page : ℕ) : Type 0 where
  pub inside : page / 8 < s.bitmap_size
  pub unreserved : reserved_at s page ≡ false
  pub allocated : allocated_at s page ≡ true

abbrev clear_one : Pmm → ℕ → Pmm
clear_one s page = record s { memory = clear_page s.allocatable_bitmap page s.memory }

abbrev pub clear_run : Pmm → ℕ → ℕ → Pmm
clear_run s pages first = record s {
  memory = clear_pages s.allocatable_bitmap pages first s.memory;
}

-- One round succeeds exactly on such a page.
free_page-ok : (s : Pmm) (page : ℕ) → IsReleasable s page → free_page s page ≡ ok (clear_one s page)
unfolding free_page
free_page-ok s page h = ground (
  arith,
  is_page_reserved_lem s page h.inside,
  is_page_allocated_lem s page h.inside,
  h.inside,
  h.unreserved,
  h.allocated,
)

free_page-only :
    (s t : Pmm) (page : ℕ) → free_page s page ≡ ok t → IsReleasable s page × (t ≡ clear_one s page)
unfolding free_page
free_page-only s t page e =
    ground (arith, is_page_reserved_lem s page, is_page_allocated_lem s page)

-- A round leaves the other pages of the run as they were.
module _ (s : Pmm) (page : ℕ) (bytes : (a : ℕ) → s.memory a < 256)
    (adjacent : s.reserved_bitmap ≡ s.allocatable_bitmap + s.bitmap_size)
    (inside : page / 8 < s.bitmap_size) where
  clear_one-reserved : (q : ℕ) → reserved_at (clear_one s page) q ≡ reserved_at s q
  unfolding reserved_at
  clear_one-reserved q =
      page_bit-clear_page_apart s.allocatable_bitmap s.reserved_bitmap page q s.memory
        (omega (arith, adjacent, inside))

  clear_one-allocated : (q : ℕ) → page ≢ q → allocated_at (clear_one s page) q ≡ allocated_at s q
  unfolding allocated_at
  clear_one-allocated q ne =
      ground (arith, page_bit-clear_page s.allocatable_bitmap page q s.memory bytes)

-- The loop over a run of releasable pages makes every round.
pub free_loop-ok :
    (left page : ℕ) (s : Pmm)
    → ((a : ℕ) → s.memory a < 256)
    → s.reserved_bitmap ≡ s.allocatable_bitmap + s.bitmap_size
    → ((q : ℕ) → page ≤ q → q < page + left → IsReleasable s q)
    → free_loop left page s ≡ ok (clear_run s left page)
unfolding free_loop clear_pages
free_loop-ok zero page s bytes adjacent h = refl
free_loop-ok (suc left) page s bytes adjacent h =
    let now = h page (omega arith) (omega arith) in
    rw (free_page-ok s page now) (
      free_loop-ok left (page + 1) (clear_one s page)
        (clear_page-IsBytes s.allocatable_bitmap page s.memory bytes) adjacent
        (λ q a b.
          let later = h q (omega arith) (omega arith) in
          record {
            inside = later.inside;
            unreserved = clear_one-reserved s page bytes adjacent now.inside q ∙ later.unreserved;
            allocated =
                clear_one-allocated s page bytes adjacent now.inside q (omega arith)
                ∙ later.allocated;
          }))

-- And a loop that succeeds has seen only such pages.
pub free_loop-only :
    (left page : ℕ) (s t : Pmm)
    → ((a : ℕ) → s.memory a < 256)
    → s.reserved_bitmap ≡ s.allocatable_bitmap + s.bitmap_size
    → free_loop left page s ≡ ok t
    → (q : ℕ) → page ≤ q
    → q < page + left
    → IsReleasable s q
unfolding free_loop
free_loop-only zero page s t bytes adjacent e q a b = absurd (omega arith)
free_loop-only (suc left) page s t bytes adjacent e q a b =
    let (s', now, rest) =
      returned_parts (free_page s page) (λ s'. free_loop left (page + 1) s') e in
    let (here, same) = free_page-only s s' page now in
    elim (ℕ_discrete page q) [
      | yes eq ↦ rw (← eq) here
      | no ne ↦
          let later =
            free_loop-only left (page + 1) (clear_one s page) t
              (clear_page-IsBytes s.allocatable_bitmap page s.memory bytes) adjacent
              (rw same at rest) q (omega arith) (omega arith) in
          record {
            inside = later.inside;
            unreserved =
                sym (clear_one-reserved s page bytes adjacent here.inside q) ∙ later.unreserved;
            allocated =
                sym (clear_one-allocated s page bytes adjacent here.inside q ne) ∙ later.allocated;
          }
    ]
