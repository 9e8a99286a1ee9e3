-- ===== src/Memory/Pmm/Undo.antt =====
-- `FreePages` undoes `AllocatePages`.
use boreal_os.Base.{
  ℕ, ◌+◌, ◌-◌, ◌*◌, ◌%◌, ◌^◌, ◌≤◌, ◌<◌, ◌≡◌, ◌≢◌, ap, ◌∙◌, inl, inr, false, ok, arith,
}
use boreal_os.Memory.Run.{IsRun, count-le}
use boreal_os.Memory.Pmm.{
  Pmm, mark_pages, take_run, allocate_pages, free_pages, allocated_at, free_at, page_size, IsValid,
}
use boreal_os.Memory.Pmm.Bitmap.{page_bit}
use boreal_os.Memory.Pmm.Marks.{clear_pages, clear_pages-mark_pages}
use boreal_os.Memory.Pmm.Alloc.{take_run-IsTaken, take_run-IsValid, allocate_pages_lem}
use boreal_os.Memory.Pmm.Rounds.{IsReleasable, free_loop-ok}
use boreal_os.Memory.Pmm.Free.{given_back, free_pages-loop}

-- Giving back a run that was just taken restores the state.
module _ (s : Pmm) (v : IsValid s) (pages start : ℕ) (within : start + pages ≤ s.frame_count)
    (run : IsRun (free_at s) start pages) where
  abbrev pub taken : Pmm
  taken = take_run s pages start

  pub taken-IsReleasable : (q : ℕ) → start ≤ q → q < start + pages → IsReleasable taken q
  taken-IsReleasable q a b =
      let t = take_run-IsTaken s v pages start within run in
      record {
        inside = unfold take_run in omega (arith, v.frames);
        unreserved = t.reserved q ∙ ground (arith, run q a b);
        allocated = t.marked q ∙ ground arith;
      }

  restored : given_back taken pages start ≡ s
  unfolding take_run
  restored = λ i. record s { usable_frames = counted i; memory = memory i }
    where
      counted : ((s.usable_frames + 2 ^ 64 - pages) % 2 ^ 64 + pages) % 2 ^ 64 ≡ s.usable_frames
      counted = omega (arith, v.counted, v.fits, count-le (free_at s) s.frame_count)

      unmarked :
          (q : ℕ) → start ≤ q → q < start + pages → page_bit s.allocatable_bitmap q s.memory ≡ false
      unmarked q a b = unfold allocated_at in ground (arith, run q a b)

      memory :
          clear_pages s.allocatable_bitmap pages start
            (mark_pages s.allocatable_bitmap pages start s.memory)
          ≡ s.memory
      memory = clear_pages-mark_pages s.allocatable_bitmap pages start s.memory v.bytes unmarked

  free_pages-take_run : free_pages taken (start * page_size) pages ≡ ok s
  free_pages-take_run =
      let w = take_run-IsValid s v pages start within run in
      let ran = free_loop-ok pages start taken w.bytes w.adjacent taken-IsReleasable in
      free_pages-loop taken start pages (omega (arith, v.fits)) ∙ rw ran (ap ok restored)

-- `FreePages` undoes a successful `AllocatePages`, down to every byte of memory.
pub free_pages-allocate_pages :
    (s : Pmm) (pages : ℕ) (t : Pmm) (address : ℕ)
    → IsValid s
    → 0 < pages
    → allocate_pages s pages ≡ ok (t, address)
    → address ≢ 0
    → free_pages t address pages ≡ ok s
free_pages-allocate_pages s pages t address v pos e ne = elim (allocate_pages_lem s pages v pos) [
  | inl g ↦
      let same : (t ≡ take_run s pages g.start) × (address ≡ g.start * page_size) =
        (cc (e, g.returns, g.exact), cc (e, g.returns)) in
      rw (same.0, same.1) (free_pages-take_run s v pages g.start g.within g.run)
  | inr r ↦ absurd (ne (cc (e, r.returns)))
]
