-- ===== src/Memory/Pmm/Free.antt =====
-- `FreePages`: when it succeeds and what it changes.
use boreal_os.Base.{
  ℕ, ◌+◌, ◌-◌, ◌*◌, ◌/◌, ◌%◌, ◌^◌, ◌≤◌, ◌<◌, ◌≡◌, refl, sym, subst, ◌∙◌, false, if◌then◌else◌, ok,
  ◌>>=◌, returned_parts, arith,
}
use boreal_os.Memory.Run.{count, count-le, count_taken}
use boreal_os.Memory.Pmm.{
  Pmm, free_loop, free_pages, reserved_at, allocated_at, free_at, page_size, IsValid,
}
use boreal_os.Memory.Pmm.Marks.{
  in_run, clear_pages-IsBytes, page_bit-clear_pages, page_bit-clear_pages_apart,
}
use boreal_os.Memory.Pmm.Rounds.{IsReleasable, clear_run, free_loop-ok, free_loop-only}

-- At a page's address the loop makes one round for each page, where the end does not wrap.
pub free_pages-loop :
    (s : Pmm) (first pages : ℕ)
    → first + pages < 2 ^ 64
    → free_pages s (first * page_size) pages ≡ (
        free_loop pages first s >>= λ s'.
        ok (record s' { usable_frames = (s'.usable_frames + pages) % 2 ^ 64 }))
unfolding free_pages
free_pages-loop s first pages fits =
    let aligned : first * page_size % page_size ≡ 0 = omega arith in
    let page : first * page_size / page_size ≡ first = omega arith in
    let rounds : (first + pages) % 2 ^ 64 - first ≡ pages = omega arith in
    rw (aligned, page, rounds)

-- `t` is `s` with the run from `first` given back.
pub record IsReleased (s : Pmm) (pages first : ℕ) (t : Pmm) : Type 0 where
  pub cleared :
      (q : ℕ) → allocated_at t q ≡ (if in_run first pages q then false else allocated_at s q)
  pub reserved : (q : ℕ) → reserved_at t q ≡ reserved_at s q
  pub usable : t.usable_frames ≡ s.usable_frames + pages
  pub frames : t.frame_count ≡ s.frame_count

-- The state that `FreePages` leaves.
abbrev pub given_back : Pmm → ℕ → ℕ → Pmm
given_back s pages first = record (clear_run s pages first) {
  usable_frames = (s.usable_frames + pages) % 2 ^ 64;
}

module _ (s : Pmm) (v : IsValid s) (pages first : ℕ)
    (run : (q : ℕ) → first ≤ q → q < first + pages → IsReleasable s q) where
  given_back-cleared :
      (q : ℕ)
      → allocated_at (given_back s pages first) q
        ≡ (if in_run first pages q then false else allocated_at s q)
  unfolding allocated_at
  given_back-cleared q = page_bit-clear_pages s.allocatable_bitmap pages first q s.memory v.bytes

  given_back-reserved : (q : ℕ) → reserved_at (given_back s pages first) q ≡ reserved_at s q
  unfolding reserved_at
  given_back-reserved q =
      page_bit-clear_pages_apart s.allocatable_bitmap s.reserved_bitmap pages first q s.memory
        (λ p a b. omega (arith, v.adjacent, (run p a b).inside))

  within : 0 < pages → first + pages ≤ s.frame_count
  within pos = omega (arith, (run (first + pages - 1) (omega arith) (omega arith)).inside, v.frames)

  given_back-count :
      count (free_at s) s.frame_count + pages
      ≡ count (free_at (given_back s pages first)) s.frame_count
  given_back-count =
      count_taken (free_at (given_back s pages first)) (free_at s) first pages s.frame_count within
        (λ i a b.
          ground (arith, given_back-cleared i, given_back-reserved i, (run i a b).unreserved))
        (λ i lt. ground (
          arith,
          given_back-cleared i,
          given_back-reserved i,
          (λ (a : first ≤ i) (b : i < first + pages). (run i a b).allocated),
        ))

  pub given_back-IsReleased : IsReleased s pages first (given_back s pages first)
  given_back-IsReleased = record {
    cleared = given_back-cleared;
    reserved = given_back-reserved;
    usable = omega (
      arith,
      v.counted,
      v.fits,
      given_back-count,
      count-le (free_at (given_back s pages first)) s.frame_count,
    );
    frames = refl;
  }

  pub given_back-IsValid : IsValid (given_back s pages first)
  given_back-IsValid = record {
    bytes = clear_pages-IsBytes s.allocatable_bitmap pages first s.memory v.bytes;
    frames = v.frames;
    adjacent = v.adjacent;
    fits = v.fits;
    low = λ page lt. given_back-reserved page ∙ v.low page lt;
    counted = omega (arith, given_back-IsReleased.usable, v.counted, given_back-count);
  }

  -- Pages that are inside the bitmap, not reserved and allocated are released: their bits are
  -- cleared, no other page changes, as many pages more are usable, and the state stays consistent.
  pub free_pages-ok :
      first + pages < 2 ^ 64
      → (t : Pmm) × (free_pages s (first * page_size) pages ≡ ok t)
        × IsReleased s pages first t
        × IsValid t
  free_pages-ok fits = (
    given_back s pages first,
    free_pages-loop s first pages fits ∙ rw loop,
    given_back-IsReleased,
    given_back-IsValid,
  )
    where
      loop : free_loop pages first s ≡ ok (clear_run s pages first)
      loop = free_loop-ok pages first s v.bytes v.adjacent run

-- A call of `FreePages` that returns was given a page's address and releasable pages only, where the
-- number of the page after the last one does not pass 2^64.
pub free_pages-only :
    (s : Pmm) (start pages : ℕ) (t : Pmm)
    → IsValid s
    → start / page_size + pages < 2 ^ 64
    → free_pages s start pages ≡ ok t
    → (start % page_size ≡ 0)
      × ((q : ℕ) → start / page_size ≤ q → q < start / page_size + pages → IsReleasable s q)
free_pages-only s start pages t v fits e = (aligned, seen)
  where
    aligned : start % page_size ≡ 0
    aligned = unfold free_pages in ground arith

    same : start / page_size * page_size ≡ start
    same = omega (arith, aligned)

    seen : (q : ℕ) → start / page_size ≤ q → q < start / page_size + pages → IsReleasable s q
    seen =
        let looped = free_pages-loop s (start / page_size) pages fits in
        let looped' = sym looped ∙ subst (λ a. free_pages s a pages ≡ ok t) (sym same) e in
        let (s', ran, _) =
          returned_parts (free_loop pages (start / page_size) s) _ {value = t} looped' in
        free_loop-only pages (start / page_size) s s' v.bytes v.adjacent ran
