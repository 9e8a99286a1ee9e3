-- ===== src/Memory/Paging/Range.antt =====
-- The search for a range of virtual addresses: it ends, with the lowest range of pages that are not
-- mapped, or because there is none.
use boreal_os.Base.{
  ℕ, zero, suc, ◌+◌, ◌-◌, ◌*◌, ◌^◌, ◌≤◌, ◌<◌, ◌≡◌, ◌≢◌, refl, ◌∙◌, ap, ap₂, subst, ◌⊎◌, inl, inr,
  Bool, true, false, not, ltb, ◌==◌, Bool-cases, add64, sub64, mul64, arith, Option, some, Outcome,
  ok, panic, no_virtual_range, ==_ne,
}
use native.Mathlib.Decide.{ℕ_discrete}
use boreal_os.Memory.Run.{IsRun}
use boreal_os.Memory.Pmm.{page_size, Found, extend}
use boreal_os.Memory.Pmm.Search.{
  IsFirst, Searching, Searching-blocked, Searching-extend, Searching-IsFirst, extend-length,
}
use boreal_os.Memory.Paging.{Machine, is_mapped, find_range_loop, find_available_range}

-- The page at an index from the beginning of the search.
abbrev pub page_at : ℕ → ℕ → ℕ
page_at start i = start + i * page_size

-- The pages of the search that are not mapped.
abbrev pub is_available : ℕ → ℕ → Machine → ℕ → Bool
is_available pml4 start m i = not (is_mapped pml4 (page_at start i) m)

-- How the search over `total` pages ends: with the lowest run of `pages` pages that are not mapped, or
-- with a panic where there is no such run.
abbrev pub Ranged : ℕ → ℕ → ℕ → ℕ → Machine → Option (Outcome (ℕ × ℕ)) → Type 0
Ranged pml4 start total pages m o =
    ((r : Found) × (o ≡ some (ok (page_at start r.start, page_at start (r.start + pages))))
      × IsFirst (is_available pml4 start m) pages total r)
    ⊎ ((o ≡ some (panic no_virtual_range))
        × ((q : ℕ) → q + pages ≤ total → ¬ IsRun (is_available pml4 start m) q pages))

-- The run counter of the code as a run that ends below `page`.
abbrev behind : ℕ → ℕ → Found
behind page run = record { start = page - run; length = run }

abbrev found_at : ℕ → ℕ → Found
found_at a b = record { start = a; length = b }

module _ (pml4 start total pages : ℕ) (m : Machine) (fits : page_at start total < 2 ^ 64) where
  next_page :
      (page : ℕ) → page < total → add64 (page_at start page) page_size ≡ page_at start (page + 1)
  next_page page lt = ground arith

  loop-past :
      (fuel page run : ℕ)
      → page ≡ total
      → find_range_loop (suc fuel) pml4 (page_at start total) pages (page_at start page) run m
        ≡ some (panic no_virtual_range)
  unfolding find_range_loop
  loop-past fuel page run e =
      let past : ltb (page_at start page) (page_at start total) ≡ false = ground arith in
      rw (find_range_loop, past) refl

  loop-mapped :
      (fuel page run : ℕ)
      → page < total
      → is_mapped pml4 (page_at start page) m ≡ true
      → find_range_loop (suc fuel) pml4 (page_at start total) pages (page_at start page) run m
        ≡ find_range_loop fuel pml4 (page_at start total) pages (page_at start (page + 1)) 0 m
  unfolding find_range_loop
  loop-mapped fuel page run lt e =
      let more : ltb (page_at start page) (page_at start total) ≡ true = ground arith in
      rw (find_range_loop, more, e)
        (ap (λ a. find_range_loop fuel pml4 (page_at start total) pages a 0 m) (next_page page lt))

  loop-more :
      (fuel page run : ℕ)
      → page < total
      → is_mapped pml4 (page_at start page) m ≡ false
      → run + 1 ≢ pages
      → find_range_loop (suc fuel) pml4 (page_at start total) pages (page_at start page) run m
        ≡ find_range_loop fuel pml4
            (page_at start total)
            pages
            (page_at start (page + 1))
            (run + 1)
            m
  unfolding find_range_loop
  loop-more fuel page run lt e ne =
      let more : ltb (page_at start page) (page_at start total) ≡ true = ground arith in
      let short : (run + 1 == pages) ≡ false = ==_ne (run + 1) pages ne in
      rw (find_range_loop, more, e, short)
        (ap (λ a. find_range_loop fuel pml4 (page_at start total) pages a (run + 1) m)
          (next_page page lt))

  loop-full :
      (fuel page run : ℕ)
      → page < total
      → run ≤ page
      → is_mapped pml4 (page_at start page) m ≡ false
      → run + 1 ≡ pages
      → find_range_loop (suc fuel) pml4 (page_at start total) pages (page_at start page) run m
        ≡ some (ok (page_at start (page - run), page_at start (page - run + pages)))
  unfolding find_range_loop
  loop-full fuel page run lt le e full =
      let more : ltb (page_at start page) (page_at start total) ≡ true = ground arith in
      let enough : (run + 1 == pages) ≡ true = ground arith in
      let first : sub64 (page_at start page) (mul64 (pages - 1) page_size)
          ≡ page_at start (page - run) =
        ground arith in
      let last : add64 (page_at start (page - run)) (mul64 pages page_size)
          ≡ page_at start (page - run + pages) =
        ground arith in
      rw (find_range_loop, more, e, enough, first, last) refl

  abbrev available : ℕ → Bool
  available = is_available pml4 start m

  Searching-start :
      (page a b : ℕ)
      → Searching available pages page (record { start = a; length = 0 })
      → Searching available pages page (record { start = b; length = 0 })
  Searching-start page a b h = record {
    short = h.short;
    behind = h.behind;
    placed = λ ne. absurd (ne refl);
    tail = h.tail;
    edge = h.edge;
    absent = h.absent;
  }

  extend-behind :
      (page run : ℕ) → run ≤ page → extend page (behind page run) ≡ behind (page + 1) (run + 1)
  unfolding extend
  extend-behind page zero le = ap₂ found_at (omega arith) (omega arith)
  extend-behind page (suc run) le =
      let some_run : (suc run == 0) ≡ false = ground arith in
      rw some_run (ap₂ found_at (omega arith) (omega arith))

  loop_lem :
      (fuel left page run : ℕ)
      → page + left ≡ total
      → left < fuel
      → Searching available pages page (behind page run)
      → Ranged pml4 start total pages m
          (find_range_loop fuel pml4 (page_at start total) pages (page_at start page) run m)
  loop_lem zero left page run e enough h = absurd (omega arith)
  loop_lem (suc fuel) zero page run e enough h =
      inr (loop-past fuel page run (omega arith), λ q le. h.absent q (omega arith))
  loop_lem (suc fuel) (suc left) page run e enough h =
      elim (Bool-cases (is_mapped pml4 (page_at start page) m)) [
        | inl mapped ↦ rw (loop-mapped fuel page run (omega arith) mapped) (
            loop_lem fuel left (page + 1) 0 (omega arith) (omega arith)
              (Searching-start (page + 1) _ _ (Searching-blocked h (rw mapped refl))))
        | inr unmapped ↦ elim (ℕ_discrete (run + 1) pages) [
          | yes full ↦
              let r = behind (page + 1) (run + 1) in
              let same : page + 1 - (run + 1) ≡ page - run = omega arith in
              let first =
                subst (λ r. IsFirst available pages total r) (extend-behind page run h.behind)
                  (Searching-IsFirst h total (omega arith) (rw unmapped refl)
                    (omega (arith, extend-length page (behind page run)))) in
              inl (
                r,
                loop-full fuel page run (omega arith) h.behind unmapped full ∙ rw same refl,
                first,
              )
          | no more ↦ rw (loop-more fuel page run (omega arith) unmapped more) (
              loop_lem fuel left (page + 1) (run + 1) (omega arith) (omega arith) (
                subst (λ r. Searching available pages (page + 1) r)
                  (extend-behind page run h.behind)
                  (Searching-extend h (rw unmapped refl)
                    (omega (arith, extend-length page (behind page run), h.short)))))
        ]
      ]

-- `FindAvailableVirtualAddressRange` ends, given fuel for the pages of the search and one round more, for
-- a search over whole pages that does not wrap around. It returns the lowest range of as many pages as
-- asked for of which none is mapped, or panics, and then there is no such range.
pub find_available_range_lem :
    (fuel pml4 start total pages : ℕ) (m : Machine)
    → 0 < pages
    → page_at start total < 2 ^ 64
    → total < fuel
    → Ranged pml4 start total pages m
        (find_available_range fuel pml4 start (page_at start total) pages m)
unfolding find_available_range
find_available_range_lem fuel pml4 start total pages m pos fits enough =
    let first : page_at start 0 ≡ start = omega arith in
    subst
      (λ a.
        Ranged pml4 start total pages m
          (find_range_loop fuel pml4 (page_at start total) pages a 0 m))
      first
      (loop_lem pml4 start total pages m fits fuel total 0 0 (omega arith) enough (record {
        short = pos;
        behind = omega arith;
        placed = λ ne. absurd (ne refl);
        tail = λ i a b. absurd (omega arith);
        edge = λ i e. absurd (omega arith);
        absent = λ q a run. absurd (omega arith);
      }))
