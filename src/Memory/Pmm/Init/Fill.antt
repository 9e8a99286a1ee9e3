-- ===== src/Memory/Pmm/Init/Fill.antt =====
-- What the loops of `Initialize` leave in memory, byte by byte and page by page.
use boreal_os.Base.{
  ℕ, zero, suc, ◌+◌, ◌-◌, ◌*◌, ◌/◌, ◌%◌, ◌<◌, ◌≡◌, refl, ap, subst, ◌∙◌, Bool, true, false, not,
  ◌&&◌, ◌||◌, ltb, leb, if◌then◌else◌, List, [], ◌∷◌, arith,
}
use boreal_os.Base.Bits.{test_bit-zero, test_bit-full}
use boreal_os.Base.Store.{Store, store}
use boreal_os.Memory.Run.{count}
use boreal_os.Memory.Pmm.{page_size}
use boreal_os.Memory.Pmm.Bitmap.{page_bit, IsBytes}
use boreal_os.Memory.Pmm.Marks.{in_run, clear_pages, clear_pages-IsBytes, page_bit-clear_pages}
use boreal_os.Memory.Pmm.Init.{
  Region, region_start, region_end, fill_both, clear_addresses, clear_regions, zero_bytes,
  count_usable,
}

fill_both-at :
    (allocatable reserved left i a : ℕ) (m : Store)
    → fill_both allocatable reserved left i m a
      ≡ (if in_run (allocatable + i) left a || in_run (reserved + i) left a then 0xff else m a)
unfolding fill_both store
fill_both-at allocatable reserved zero i a m = ground arith
fill_both-at allocatable reserved (suc left) i a m = ground (
  arith,
  fill_both-at allocatable reserved left (i + 1) a
      (store (store m (allocatable + i) 0xff) (reserved + i) 0xff),
)

pub fill_both-IsBytes :
    (allocatable reserved left : ℕ) (m : Store)
    → IsBytes m
    → IsBytes (fill_both allocatable reserved left 0 m)
fill_both-IsBytes allocatable reserved left m h a =
    ground (arith, fill_both-at allocatable reserved left 0 a m, h a)

-- Every page that the bitmaps cover is reserved after the fill.
pub page_bit-fill_both :
    (base size page : ℕ) (m : Store)
    → page / 8 < size
    → page_bit (base + size) page (fill_both base (base + size) size 0 m) ≡ true
unfolding page_bit
page_bit-fill_both base size page m h =
    let full : fill_both base (base + size) size 0 m (base + size + page / 8) ≡ 0xff =
      ground (arith, fill_both-at base (base + size) size 0 (base + size + page / 8) m) in
    rw full (test_bit-full (page % 8) (omega arith))

zero_bytes-at :
    (base left i a : ℕ) (m : Store)
    → zero_bytes base left i m a ≡ (if in_run (base + i) left a then 0 else m a)
unfolding zero_bytes store
zero_bytes-at base zero i a m = ground arith
zero_bytes-at base (suc left) i a m =
    ground (arith, zero_bytes-at base left (i + 1) a (store m (base + i) 0))

pub zero_bytes-IsBytes :
    (base left : ℕ) (m : Store) → IsBytes m → IsBytes (zero_bytes base left 0 m)
zero_bytes-IsBytes base left m h a = ground (arith, zero_bytes-at base left 0 a m, h a)

pub page_bit-zero_bytes :
    (base size page : ℕ) (m : Store)
    → page / 8 < size
    → page_bit base page (zero_bytes base size 0 m) ≡ false
unfolding page_bit
page_bit-zero_bytes base size page m h =
    let cleared : zero_bytes base size 0 m (base + page / 8) ≡ 0 =
      ground (arith, zero_bytes-at base size 0 (base + page / 8) m) in
    rw cleared (test_bit-zero (page % 8))

pub page_bit-zero_bytes_apart :
    (base size page : ℕ) (m : Store)
    → page_bit (base + size) page (zero_bytes base size 0 m) ≡ page_bit (base + size) page m
unfolding page_bit
page_bit-zero_bytes_apart base size page m =
    let kept : zero_bytes base size 0 m (base + size + page / 8) ≡ m (base + size + page / 8) =
      ground (arith, zero_bytes-at base size 0 (base + size + page / 8) m) in
    rw kept

-- From a page's address, the loop over addresses is the loop over pages.
clear_addresses-pages :
    (reserved left page : ℕ) (m : Store)
    → clear_addresses reserved left (page * page_size) m ≡ clear_pages reserved left page m
unfolding clear_addresses clear_pages
clear_addresses-pages reserved zero page m = refl
clear_addresses-pages reserved (suc left) page m =
    let here : page * page_size / page_size ≡ page = omega arith in
    let next : page * page_size + page_size ≡ (page + 1) * page_size = omega arith in
    rw (here, next) (clear_addresses-pages reserved left (page + 1) _)

-- The pages of a region, and of any region in a list.
abbrev pub in_region : Region → ℕ → Bool
in_region r page = leb (region_start r) (page * page_size) && ltb (page * page_size) (region_end r)

abbrev pub in_regions : List Region → ℕ → Bool
in_regions [] page = false
in_regions (r ∷ rs) page = in_region r page || in_regions rs page

-- The bounds of a region's pages are page addresses.
abbrev pub IsAligned : Region → Type 0
IsAligned r = (region_start r % page_size ≡ 0) × (region_end r % page_size ≡ 0)

abbrev pub AllAligned : List Region → Type 0
AllAligned [] = Unit
AllAligned (r ∷ rs) = IsAligned r × AllAligned rs

abbrev rounds : Region → ℕ
rounds r = (region_end r - region_start r + (page_size - 1)) / page_size

page_bit-clear_region :
    (reserved page : ℕ) (r : Region) (m : Store)
    → IsBytes m
    → IsAligned r
    → page_bit reserved page (clear_addresses reserved (rounds r) (region_start r) m)
      ≡ (if in_region r page then false else page_bit reserved page m)
page_bit-clear_region reserved page r m h (starts, ends) =
    let start = region_start r in
    let aligned : start ≡ start / page_size * page_size = omega arith in
    let pages = clear_addresses-pages reserved (rounds r) (start / page_size) m in
    ap (λ a. page_bit reserved page (clear_addresses reserved (rounds r) a m)) aligned
    ∙ ap (page_bit reserved page) pages
    ∙ page_bit-clear_pages reserved (rounds r) (start / page_size) page m h
    ∙ ground arith

clear_region-IsBytes :
    (reserved left : ℕ) (r : Region) (m : Store)
    → IsBytes m
    → IsAligned r
    → IsBytes (clear_addresses reserved left (region_start r) m)
clear_region-IsBytes reserved left r m h (starts, _) =
    let start = region_start r in
    let aligned : start / page_size * page_size ≡ start = omega arith in
    subst (λ a. IsBytes (clear_addresses reserved left a m)) aligned
      (rw (clear_addresses-pages reserved left (start / page_size) m)
        (clear_pages-IsBytes reserved left (start / page_size) m h))

pub clear_regions-IsBytes :
    (reserved : ℕ) (rs : List Region) (m : Store)
    → IsBytes m
    → AllAligned rs
    → IsBytes (clear_regions reserved rs m)
unfolding clear_regions
clear_regions-IsBytes reserved [] m h all = h
clear_regions-IsBytes reserved (r ∷ rs) m h (one, all) =
    clear_regions-IsBytes reserved rs _ (clear_region-IsBytes reserved (rounds r) r m h one) all

-- Exactly the pages of the regions are cleared.
pub page_bit-clear_regions :
    (reserved page : ℕ) (rs : List Region) (m : Store)
    → IsBytes m
    → AllAligned rs
    → page_bit reserved page (clear_regions reserved rs m)
      ≡ (if in_regions rs page then false else page_bit reserved page m)
unfolding clear_regions
page_bit-clear_regions reserved page [] m h all = refl
page_bit-clear_regions reserved page (r ∷ rs) m h (one, all) =
    page_bit-clear_regions reserved page rs _ (clear_region-IsBytes reserved (rounds r) r m h one)
      all
    ∙ ground (arith, page_bit-clear_region reserved page r m h one)

count_step :
    (reserved i : ℕ) (m : Store)
    → (if page_bit reserved i m
        then count (λ p. not (page_bit reserved p m)) i
        else count (λ p. not (page_bit reserved p m)) i + 1)
      ≡ count (λ p. not (page_bit reserved p m)) (suc i)
unfolding count
count_step reserved i m = ground arith

-- The counting loop continues the count of the pages before `i`.
count_usable-count :
    (reserved left i : ℕ) (m : Store)
    → count_usable reserved m left i (count (λ p. not (page_bit reserved p m)) i)
      ≡ count (λ p. not (page_bit reserved p m)) (i + left)
unfolding count_usable
count_usable-count reserved zero i m = let e : i + 0 ≡ i = omega arith in rw e
count_usable-count reserved (suc left) i m =
    let e : i + suc left ≡ suc i + left = omega arith in
    let next : i + 1 ≡ suc i = omega arith in
    rw (e, next)
      (ap (count_usable reserved m left (suc i)) (count_step reserved i m)
        ∙ count_usable-count reserved left (suc i) m)

pub count_usable-all :
    (reserved frames : ℕ) (m : Store)
    → count_usable reserved m frames 0 0 ≡ count (λ p. not (page_bit reserved p m)) frames
unfolding count
count_usable-all reserved frames m =
    let e : 0 + frames ≡ frames = omega arith in rw e at (count_usable-count reserved frames 0 m)
