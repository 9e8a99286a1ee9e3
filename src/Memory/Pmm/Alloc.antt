-- ===== src/Memory/Pmm/Alloc.antt =====
-- `AllocatePages`: what it returns, what it changes, and that the allocator stays consistent.
use boreal_os.Base.{
  ℕ, ◌+◌, ◌*◌, ◌≤◌, ◌<◌, ◌≡◌, refl, ◌⊎◌, inl, inr, true, if◌then◌else◌, Outcome, ok, arith,
}
use native.Mathlib.Decide.{dec_lt}
use boreal_os.Memory.Run.{IsRun, count, count-le, count_taken}
use boreal_os.Memory.Pmm.{
  Pmm, Found, find_run, take_run, allocate_pages, reserved_at, allocated_at, free_at, page_size,
  IsValid,
}
use boreal_os.Memory.Pmm.Search.{IsFirst, IsMissing, find_run_lem}
use boreal_os.Memory.Pmm.Marks.{
  in_run, mark_pages-IsBytes, page_bit-mark_pages, page_bit-mark_pages_apart,
}

-- `t` is `s` with the run from `start` taken: its pages are marked as allocated, no other page
-- changes, and as many pages fewer are usable.
pub record IsTaken (s : Pmm) (pages start : ℕ) (t : Pmm) : Type 0 where
  pub marked :
      (q : ℕ) → allocated_at t q ≡ (if in_run start pages q then true else allocated_at s q)
  pub reserved : (q : ℕ) → reserved_at t q ≡ reserved_at s q
  pub usable : t.usable_frames + pages ≡ s.usable_frames

module _ (s : Pmm) (v : IsValid s) (pages start : ℕ) (within : start + pages ≤ s.frame_count)
    (run : IsRun (free_at s) start pages) where
  take_run-marked :
      (q : ℕ)
      → allocated_at (take_run s pages start) q
        ≡ (if in_run start pages q then true else allocated_at s q)
  unfolding take_run allocated_at
  take_run-marked q = page_bit-mark_pages s.allocatable_bitmap pages start q s.memory v.bytes

  take_run-reserved : (q : ℕ) → reserved_at (take_run s pages start) q ≡ reserved_at s q
  unfolding take_run reserved_at
  take_run-reserved q =
      page_bit-mark_pages_apart s.allocatable_bitmap s.reserved_bitmap pages start q s.memory
        (λ p ge lt. omega (arith, v.adjacent, v.frames))

  take_run-count :
      count (free_at (take_run s pages start)) s.frame_count + pages
      ≡ count (free_at s) s.frame_count
  take_run-count =
      count_taken (free_at s) (free_at (take_run s pages start)) start pages s.frame_count
        (λ _. within) run (λ i lt. ground (arith, take_run-marked i, take_run-reserved i, run i))

  take_run-usable : (take_run s pages start).usable_frames + pages ≡ s.usable_frames
  unfolding take_run
  take_run-usable =
      omega (arith, v.counted, v.fits, count-le (free_at s) s.frame_count, take_run-count)

  pub take_run-IsTaken : IsTaken s pages start (take_run s pages start)
  take_run-IsTaken = record {
    marked = take_run-marked;
    reserved = take_run-reserved;
    usable = take_run-usable;
  }

  pub take_run-IsValid : IsValid (take_run s pages start)
  unfolding take_run reserved_at
  take_run-IsValid = record {
    bytes = mark_pages-IsBytes _ pages start s.memory v.bytes;
    frames = v.frames;
    adjacent = v.adjacent;
    fits = v.fits;
    low = λ page lt. rw (take_run-reserved page) (v.low page lt);
    counted = omega (arith, take_run-usable, take_run-count, v.counted);
  }

-- The lowest run of free pages was taken, and its address returned.
pub record Granted (s : Pmm) (pages : ℕ) (o : Outcome (Pmm × ℕ)) : Type 0 where
  pub after : Pmm
  pub start : ℕ
  pub returns : o ≡ ok (after, start * page_size)
  pub exact : after ≡ take_run s pages start
  pub above_low : 256 ≤ start
  pub within : start + pages ≤ s.frame_count
  pub run : IsRun (free_at s) start pages
  pub first : (q : ℕ) → q < start → ¬ IsRun (free_at s) q pages
  pub taken : IsTaken s pages start after
  pub valid : IsValid after

-- No run of free pages is long enough: the answer is address 0 and nothing changes.
pub record Refused (s : Pmm) (pages : ℕ) (o : Outcome (Pmm × ℕ)) : Type 0 where
  pub returns : o ≡ ok (s, 0)
  pub absent : (q : ℕ) → q + pages ≤ s.frame_count → ¬ IsRun (free_at s) q pages

module _ (s : Pmm) (pages : ℕ) (v : IsValid s) (pos : 0 < pages) where
  run-above_low : (start : ℕ) → IsRun (free_at s) start pages → 256 ≤ start
  run-above_low start run = elim (dec_lt start 256) [
    | yes lt ↦ absurd (ground (arith, run start (omega arith) (omega arith), v.low start lt))
    | no ge ↦ omega arith
  ]

  granted :
      (r : Found)
      → IsFirst (free_at s) pages s.frame_count r
      → find_run s pages s.frame_count 0 (record { start = 0; length = 0 }) ≡ ok r
      → Granted s pages (allocate_pages s pages)
  granted r h e = record {
    after = take_run s pages r.start;
    start = r.start;
    returns = returned;
    exact = refl;
    above_low = run-above_low r.start h.run;
    within = h.within;
    run = h.run;
    first = h.first;
    taken = take_run-IsTaken s v pages r.start h.within h.run;
    valid = take_run-IsValid s v pages r.start h.within h.run;
  }
    where
      returned : allocate_pages s pages ≡ ok (take_run s pages r.start, r.start * page_size)
      returned = unfold allocate_pages in ground (arith, e, v.fits, h.full, h.within)

  refused :
      (r : Found)
      → IsMissing (free_at s) pages s.frame_count r
      → find_run s pages s.frame_count 0 (record { start = 0; length = 0 }) ≡ ok r
      → Refused s pages (allocate_pages s pages)
  refused r h e = record { returns = returned; absent = h.absent }
    where
      returned : allocate_pages s pages ≡ ok (s, 0)
      returned = unfold allocate_pages in ground (arith, e, h.short)

  -- In a consistent state a request for at least one page never panics. It is granted with the
  -- lowest run of free pages, above the first MiB, which is then marked and no longer counted, all
  -- other pages being as before; or no run of free pages is long enough, and nothing changes.
  pub allocate_pages_lem :
      Granted s pages (allocate_pages s pages) ⊎ Refused s pages (allocate_pages s pages)
  allocate_pages_lem =
      let (r, e, ends) = find_run_lem s pages pos (omega (arith, v.frames)) in
      elim ends [ inl h ↦ inl (granted r h e) | inr h ↦ inr (refused r h e) ]
