-- ===== src/Memory/Pmm/Search.antt =====
-- The search loop of `AllocatePages`: it never leaves the bitmap, and it finds the lowest run.
use boreal_os.Base.{
  ℕ, zero, suc, ◌+◌, ◌-◌, ◌*◌, ◌/◌, ◌≤◌, ◌<◌, ◌≡◌, refl, ◌⊎◌, inl, inr, Bool, true, false, arith,
  Bool-cases, Outcome, ok, ◌≢◌,
}
use native.Mathlib.Decide.{dec_lt, ℕ_discrete}
use boreal_os.Memory.Run.{IsRun}
use boreal_os.Memory.Pmm.{
  Pmm, is_page_reserved, is_page_allocated, is_page_free, Found, extend, find_run, reserved_at,
  allocated_at, free_at,
}

module _ (s : Pmm) (page : ℕ) (inside : page / 8 < s.bitmap_size) where
  pub is_page_reserved_lem : is_page_reserved s page ≡ ok (reserved_at s page)
  unfolding is_page_reserved reserved_at
  is_page_reserved_lem = ground arith

  pub is_page_allocated_lem : is_page_allocated s page ≡ ok (allocated_at s page)
  unfolding is_page_allocated allocated_at
  is_page_allocated_lem = ground arith

  pub is_page_free_lem : is_page_free s page ≡ ok (free_at s page)
  unfolding is_page_free
  is_page_free_lem = ground (arith, is_page_reserved_lem, is_page_allocated_lem)

-- `r` is the lowest run of `pages` pages that pass the test, and it ends by `total`.
pub record IsFirst (f : ℕ → Bool) (pages total : ℕ) (r : Found) : Type 0 where
  pub full : r.length ≡ pages
  pub within : r.start + pages ≤ total
  pub run : IsRun f r.start pages
  pub first : (q : ℕ) → q < r.start → ¬ IsRun f q pages

-- There is no run of `pages` pages below `total`, and `r` is shorter.
pub record IsMissing (f : ℕ → Bool) (pages total : ℕ) (r : Found) : Type 0 where
  pub short : r.length < pages
  pub absent : (q : ℕ) → q + pages ≤ total → ¬ IsRun f q pages

-- Between two rounds: the pages just below `page` that pass, and what is known of those before.
pub record Searching (f : ℕ → Bool) (pages page : ℕ) (r : Found) : Type 0 where
  pub short : r.length < pages
  pub behind : r.length ≤ page
  pub placed : r.length ≢ 0 → r.start + r.length ≡ page
  pub tail : (i : ℕ) → page ≤ i + r.length → i < page → f i ≡ true
  pub edge : (i : ℕ) → i + r.length + 1 ≡ page → f i ≡ false
  pub absent : (q : ℕ) → q + pages ≤ page → ¬ IsRun f q pages

pub extend-length : (page : ℕ) (r : Found) → (extend page r).length ≡ r.length + 1
unfolding extend
extend-length page r = ground arith

pub extend-start :
    (page : ℕ) (r : Found)
    → (r.length ≢ 0 → r.start + r.length ≡ page)
    → (extend page r).start + r.length ≡ page
unfolding extend
extend-start page r h = ground arith

module _ {f : ℕ → Bool} {pages page : ℕ} {r : Found} (h : Searching f pages page r) where
  -- A run that ends at `page` is ruled out by the page before the tail, or is the tail.
  run_below : (q : ℕ) → q + pages ≤ page + 1 → r.length + 1 < pages → ¬ IsRun f q pages
  run_below q a short run = elim (dec_lt (q + pages) (page + 1)) [
    | yes lt ↦ h.absent q (omega arith) run
    | no ge ↦ cc (
      run (page - r.length - 1) (omega arith) (omega arith),
      h.edge (page - r.length - 1) (omega arith),
    )
  ]

  pub Searching-blocked : f page ≡ false → Searching f pages (page + 1) (record r { length = 0 })
  Searching-blocked blocked = record {
    short = omega (arith, h.short);
    behind = omega arith;
    placed = λ ne. absurd (ne refl);
    tail = λ i a b. absurd (omega arith);
    edge = λ i e. let e' : i ≡ page = omega arith in rw e' blocked;
    absent = λ q a run. elim (dec_lt (q + pages) (page + 1)) [
      | yes lt ↦ h.absent q (omega arith) run
      | no ge ↦ cc (run page (omega arith) (omega (arith, h.short)), blocked)
    ];
  }

  pub Searching-extend :
      f page ≡ true → (extend page r).length < pages → Searching f pages (page + 1) (extend page r)
  Searching-extend free short = record {
    short = short;
    behind = omega (arith, extend-length page r, h.behind);
    placed = λ _. omega (arith, extend-length page r, extend-start page r h.placed);
    tail = λ i a b. elim (ℕ_discrete i page) [
      | yes e ↦ rw e free
      | no ne ↦ h.tail i (omega (arith, extend-length page r)) (omega arith)
    ];
    edge = λ i e. h.edge i (omega (arith, extend-length page r));
    absent = λ q a run. run_below q a (omega (arith, extend-length page r)) run;
  }

  pub Searching-IsFirst :
      (total : ℕ)
      → page < total
      → f page ≡ true
      → (extend page r).length ≡ pages
      → IsFirst f pages total (extend page r)
  Searching-IsFirst total lt free full =
      let e = extend-length page r in
      let at = extend-start page r h.placed in
      record {
        full = full;
        within = omega arith;
        run = λ i a b. elim (ℕ_discrete i page) [
          | yes same ↦ rw same free
          | no ne ↦ h.tail i (omega arith) (omega arith)
        ];
        first = λ q before run. h.absent q (omega arith) run;
      }

-- One round of the loop, on each of its branches.
module _ (s : Pmm) (pages left page : ℕ) (r : Found) (inside : page / 8 < s.bitmap_size) where
  find_run_blocked :
      free_at s page ≡ false
      → find_run s pages (suc left) page r
        ≡ find_run s pages left (page + 1) (record r { length = 0 })
  unfolding find_run
  find_run_blocked blocked = rw (is_page_free_lem s page inside, blocked)

  find_run_full :
      free_at s page ≡ true
      → (extend page r).length ≡ pages
      → find_run s pages (suc left) page r ≡ ok (extend page r)
  unfolding find_run
  find_run_full free full = ground (arith, is_page_free_lem s page inside)

  find_run_more :
      free_at s page ≡ true
      → (extend page r).length ≢ pages
      → find_run s pages (suc left) page r ≡ find_run s pages left (page + 1) (extend page r)
  unfolding find_run
  find_run_more free more = ground (arith, is_page_free_lem s page inside)

-- How the search over the first `total` pages ends: with the lowest run, or with none at all.
abbrev pub Searched : Pmm → ℕ → ℕ → Outcome Found → Type 0
Searched s pages total o =
    (r : Found) × (o ≡ ok r)
    × (IsFirst (free_at s) pages total r ⊎ IsMissing (free_at s) pages total r)

module _ (s : Pmm) (pages total : ℕ) (fits : total ≤ s.bitmap_size * 8) where
  find_run-from :
      (left page : ℕ) (r : Found)
      → page + left ≡ total
      → Searching (free_at s) pages page r
      → Searched s pages total (find_run s pages left page r)
  find_run-from zero page r e h = (
    r,
    unfold find_run in refl,
    inr (record { short = h.short; absent = λ q a. h.absent q (omega arith) }),
  )
  find_run-from (suc left) page r e h =
      let inside : page / 8 < s.bitmap_size = omega arith in
      elim (Bool-cases (free_at s page)) [
        | inl free ↦ elim (ℕ_discrete (extend page r).length pages) [
          | yes full ↦ (
            extend page r,
            find_run_full s pages left page r inside free full,
            inl (Searching-IsFirst h total (omega arith) free full),
          )
          | no more ↦ rw (find_run_more s pages left page r inside free more) (
              find_run-from left (page + 1) (extend page r) (omega arith)
                (Searching-extend h free (omega (arith, extend-length page r, h.short))))
        ]
        | inr blocked ↦ rw (find_run_blocked s pages left page r inside blocked) (
            find_run-from left (page + 1) (record r { length = 0 }) (omega arith)
              (Searching-blocked h blocked))
      ]

-- The search of `AllocatePages` never panics; it finds the lowest run of free pages, or there is
-- none.
pub find_run_lem :
    (s : Pmm) (pages : ℕ)
    → 0 < pages
    → s.frame_count ≤ s.bitmap_size * 8
    → Searched s pages s.frame_count
        (find_run s pages s.frame_count 0 (record { start = 0; length = 0 }))
find_run_lem s pages pos fits =
    find_run-from s pages s.frame_count fits s.frame_count 0 _ (omega arith) (record {
      short = pos;
      behind = omega arith;
      placed = λ ne. absurd (ne refl);
      tail = λ i a b. absurd (omega arith);
      edge = λ i e. absurd (omega arith);
      absent = λ q a run. absurd (omega arith);
    })
