-- ===== src/Memory/Run.antt =====
-- Runs of pages that satisfy a test, and how many pages satisfy it: the vocabulary in which the
-- frame allocator is specified.
use boreal_os.Base.{
  ℕ, zero, suc, ◌+◌, ◌≤◌, ◌<◌, ◌≡◌, refl, Bool, true, false, arith, if◌then◌else◌, ◌==◌, ap, ltb,
  leb, ◌&&◌,
}
use native.Mathlib.Decide.{ℕ_discrete}

-- Every page from `first` on, `count` of them, passes the test.
abbrev pub IsRun : (ℕ → Bool) → ℕ → ℕ → Type 0
IsRun f first count = (i : ℕ) → first ≤ i → i < first + count → f i ≡ true

-- The number of pages below a bound that pass the test.
unfoldable pub count : (ℕ → Bool) → ℕ → ℕ
count f zero = 0
count f (suc n) = count f n + (if f n then 1 else 0)

pub count-le : (f : ℕ → Bool) (n : ℕ) → count f n ≤ n
unfolding count
count-le f zero = omega arith
count-le f (suc n) = ground (arith, count-le f n)

pub count_ext : (f g : ℕ → Bool) (n : ℕ) → ((i : ℕ) → i < n → f i ≡ g i) → count f n ≡ count g n
unfolding count
count_ext f g zero h = refl
count_ext f g (suc n) h =
    ground (arith, count_ext f g n (λ i lt. h i (omega arith)), h n (omega arith))

-- One page that passed the test and does so no more.
pub count_drop :
    (f g : ℕ → Bool) (p n : ℕ)
    → p < n
    → f p ≡ true
    → ((i : ℕ) → g i ≡ (if p == i then false else f i))
    → count g n + 1 ≡ count f n
unfolding count
count_drop f g p zero lt fp h = absurd (omega arith)
count_drop f g p (suc n) lt fp h = elim (ℕ_discrete p n) [
  | yes e ↦ ground (arith, count_ext g f n (λ i lt. ground (arith, h i)), h n, ap f e)
  | no ne ↦ ground (arith, count_drop f g p n (omega arith) fp h, h n)
]

-- `f` with a run of pages taken out.
abbrev pub without : (ℕ → Bool) → ℕ → ℕ → ℕ → Bool
without f first pages i = if leb first i && ltb i (first + pages) then false else f i

-- Taking a run out lowers the count by its length.
count-without :
    (f : ℕ → Bool) (first pages total : ℕ)
    → (0 < pages → first + pages ≤ total)
    → IsRun f first pages
    → count (without f first pages) total + pages ≡ count f total
count-without f first zero total fits run =
    omega (arith, count_ext (without f first 0) f total (λ i lt. ground arith))
count-without f first (suc n) total fits run =
    let below = fits (omega arith) in
    omega (
      arith,
      count_drop (without f first n) (without f first (suc n)) (first + n) total (omega arith)
          (ground (arith, run (first + n))) (λ i. ground arith),
      count-without f first n total (λ _. omega arith) (λ i a b. run i a (omega arith)),
    )

pub count_taken :
    (f g : ℕ → Bool) (first pages total : ℕ)
    → (0 < pages → first + pages ≤ total)
    → IsRun f first pages
    → ((i : ℕ) → i < total → g i ≡ without f first pages i)
    → count g total + pages ≡ count f total
count_taken f g first pages total fits run h =
    omega (
      arith,
      count-without f first pages total fits run,
      count_ext g (without f first pages) total h,
    )
