-- ===== src/Memory/Pmm/Marks.antt =====
-- The loops that mark and clear the pages of a run, bit by bit.
use boreal_os.Base.{
  ℕ, zero, suc, ◌+◌, ◌/◌, ◌≤◌, ◌<◌, ◌≡◌, ◌≢◌, refl, ◌∙◌, ap, Bool, true, false, ltb, leb, ◌&&◌,
  if◌then◌else◌, arith,
}
use boreal_os.Base.Store.{Store}
use boreal_os.Memory.Pmm.{mark_pages}
use boreal_os.Memory.Pmm.Bitmap.{
  page_bit, set_page, clear_page, IsBytes, set_page-IsBytes, clear_page-IsBytes, page_bit-set_page,
  page_bit-clear_page, page_bit-set_page_apart, page_bit-clear_page_apart, clear_page-set_page_comm,
  clear_page-set_page,
}

-- What the loop of `FreePages` does to memory when none of its checks fails.
unfoldable pub clear_pages : ℕ → ℕ → ℕ → Store → Store
clear_pages base zero page m = m
clear_pages base (suc left) page m = clear_pages base left (page + 1) (clear_page base page m)

abbrev pub in_run : ℕ → ℕ → ℕ → Bool
in_run first pages q = leb first q && ltb q (first + pages)

pub mark_pages-IsBytes :
    (base left page : ℕ) (m : Store) → IsBytes m → IsBytes (mark_pages base left page m)
unfolding mark_pages
mark_pages-IsBytes base zero page m h = h
mark_pages-IsBytes base (suc left) page m h =
    mark_pages-IsBytes base left (page + 1) _ (set_page-IsBytes base page m h)

pub clear_pages-IsBytes :
    (base left page : ℕ) (m : Store) → IsBytes m → IsBytes (clear_pages base left page m)
unfolding clear_pages
clear_pages-IsBytes base zero page m h = h
clear_pages-IsBytes base (suc left) page m h =
    clear_pages-IsBytes base left (page + 1) _ (clear_page-IsBytes base page m h)

pub page_bit-mark_pages :
    (base left page q : ℕ) (m : Store)
    → IsBytes m
    → page_bit base q (mark_pages base left page m)
      ≡ (if in_run page left q then true else page_bit base q m)
unfolding mark_pages
page_bit-mark_pages base zero page q m h = ground arith
page_bit-mark_pages base (suc left) page q m h = ground (
  arith,
  page_bit-mark_pages base left (page + 1) q (set_page base page m)
      (set_page-IsBytes base page m h),
  page_bit-set_page base page q m h,
)

pub page_bit-clear_pages :
    (base left page q : ℕ) (m : Store)
    → IsBytes m
    → page_bit base q (clear_pages base left page m)
      ≡ (if in_run page left q then false else page_bit base q m)
unfolding clear_pages
page_bit-clear_pages base zero page q m h = ground arith
page_bit-clear_pages base (suc left) page q m h = ground (
  arith,
  page_bit-clear_pages base left (page + 1) q (clear_page base page m)
      (clear_page-IsBytes base page m h),
  page_bit-clear_page base page q m h,
)

-- A bitmap whose bytes lie apart from those of the run keeps its bits.
pub page_bit-mark_pages_apart :
    (base other left page q : ℕ) (m : Store)
    → ((p : ℕ) → page ≤ p → p < page + left → base + p / 8 ≢ other + q / 8)
    → page_bit other q (mark_pages base left page m) ≡ page_bit other q m
unfolding mark_pages
page_bit-mark_pages_apart base other zero page q m h = refl
page_bit-mark_pages_apart base other (suc left) page q m h =
    page_bit-mark_pages_apart base other left (page + 1) q _
      (λ p ge lt. h p (omega arith) (omega arith))
    ∙ page_bit-set_page_apart base other page q m (h page (omega arith) (omega arith))

pub page_bit-clear_pages_apart :
    (base other left page q : ℕ) (m : Store)
    → ((p : ℕ) → page ≤ p → p < page + left → base + p / 8 ≢ other + q / 8)
    → page_bit other q (clear_pages base left page m) ≡ page_bit other q m
unfolding clear_pages
page_bit-clear_pages_apart base other zero page q m h = refl
page_bit-clear_pages_apart base other (suc left) page q m h =
    page_bit-clear_pages_apart base other left (page + 1) q _
      (λ p ge lt. h p (omega arith) (omega arith))
    ∙ page_bit-clear_page_apart base other page q m (h page (omega arith) (omega arith))

-- A page outside a run is cleared before or after the run is marked.
clear_page-mark_pages :
    (base left page q : ℕ) (m : Store)
    → IsBytes m
    → q < page
    → clear_page base q (mark_pages base left page m)
      ≡ mark_pages base left page (clear_page base q m)
unfolding mark_pages
clear_page-mark_pages base zero page q m h lt = refl
clear_page-mark_pages base (suc left) page q m h lt =
    clear_page-mark_pages base left (page + 1) q (set_page base page m)
      (set_page-IsBytes base page m h) (omega arith)
    ∙ ap (mark_pages base left (page + 1)) (clear_page-set_page_comm base page q m h (omega arith))

-- Marking a run of clear bits and clearing it again gives the memory back.
pub clear_pages-mark_pages :
    (base left page : ℕ) (m : Store)
    → IsBytes m
    → ((q : ℕ) → page ≤ q → q < page + left → page_bit base q m ≡ false)
    → clear_pages base left page (mark_pages base left page m) ≡ m
unfolding mark_pages clear_pages
clear_pages-mark_pages base zero page m h clear = refl
clear_pages-mark_pages base (suc left) page m h clear =
    ap (clear_pages base left (page + 1)) (
      clear_page-mark_pages base left (page + 1) page (set_page base page m)
        (set_page-IsBytes base page m h) (omega arith)
      ∙ ap (mark_pages base left (page + 1))
          (clear_page-set_page base page m h (clear page (omega arith) (omega arith))))
    ∙ clear_pages-mark_pages base left (page + 1) m h (λ q a b. clear q (omega arith) (omega arith))
