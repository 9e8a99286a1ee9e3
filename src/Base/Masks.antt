-- ===== src/Base/Masks.antt =====
-- `&` and `|` of words of any width: they act on the high and the low digits apart, so masks and
-- disjoint fields become arithmetic.
use Prim.Native.Nat.{digits, min, max, bit_and-bitwise, bit_or-bitwise}
use Prim.Native.Nat.{ℕ, zero, suc, ◌+◌, ◌-◌, ◌*◌, ◌/◌, ◌%◌, ◌^◌, ◌≤◌, ◌<◌, bit_and, bit_or}
use mathlib.Core.Path.{◌≡◌, refl, ap, ◌∙◌}
use native.Mathlib.Nat.{pow-suc, one-le-pow, le_refl, div-lt_iff_lt-mul}
use native.Mathlib.Omega.{arith}

-- One unit of fuel more than the digits of the first number changes nothing.
digits_spare :
    (z : ℕ → ℕ) (f : ℕ → ℕ → ℕ) (fuel a b : ℕ)
    → a ≤ fuel
    → digits z f (suc fuel) a b ≡ digits z f fuel a b
digits_spare z f zero zero b h = refl
digits_spare z f zero (suc a) b h = elim h [ ]
digits_spare z f (suc fuel) zero b h = refl
digits_spare z f (suc fuel) (suc a) b h =
    ap (λ d. d * 2 + f (suc a % 2) (b % 2))
      (digits_spare z f fuel (suc a / 2) (b / 2) (omega arith))

digits_enough :
    (z : ℕ → ℕ) (f : ℕ → ℕ → ℕ) (spare fuel a b : ℕ)
    → a ≤ fuel
    → digits z f (spare + fuel) a b ≡ digits z f fuel a b
digits_enough z f zero fuel a b h = let e : 0 + fuel ≡ fuel = omega arith in rw e
digits_enough z f (suc spare) fuel a b h =
    let e : suc spare + fuel ≡ suc (spare + fuel) = omega arith in
    rw e (digits_spare z f (spare + fuel) a b (omega arith) ∙ digits_enough z f spare fuel a b h)

digits-halves :
    (z : ℕ → ℕ) (f : ℕ → ℕ → ℕ) (a b : ℕ)
    → digits z f (suc a) (suc a) b
      ≡ digits z f (suc a / 2) (suc a / 2) (b / 2) * 2 + f (suc a % 2) (b % 2)
digits-halves z f a b =
    let e : a - suc a / 2 + suc a / 2 ≡ a = omega arith in
    ap (λ d. d * 2 + f (suc a % 2) (b % 2))
      (rw e at (digits_enough z f (a - suc a / 2) (suc a / 2) (suc a / 2) (b / 2) (le_refl _)))

pub bit_and-halves : (a b : ℕ) → bit_and a b ≡ bit_and (a / 2) (b / 2) * 2 + min (a % 2) (b % 2)
bit_and-halves zero b = simp bit_and-bitwise (omega arith)
bit_and-halves (suc a) b = simp bit_and-bitwise (digits-halves (λ _. 0) min a b)

pub bit_or-halves : (a b : ℕ) → bit_or a b ≡ bit_or (a / 2) (b / 2) * 2 + max (a % 2) (b % 2)
bit_or-halves zero b = simp bit_or-bitwise (omega arith)
bit_or-halves (suc a) b = simp bit_or-bitwise (digits-halves (λ y. y) max a b)

pub zero-bit_and : (b : ℕ) → bit_and 0 b ≡ 0
zero-bit_and b = rw (bit_and-bitwise 0 b)

pub zero-bit_or : (b : ℕ) → bit_or 0 b ≡ b
zero-bit_or b = rw (bit_or-bitwise 0 b)

-- A bound on the first number serves for the inductions below.
and_zero_below : (n a : ℕ) → a ≤ n → bit_and a 0 ≡ 0
and_zero_below zero a h = let e : a ≡ 0 = omega arith in rw e (zero-bit_and 0)
and_zero_below (suc n) zero h = zero-bit_and 0
and_zero_below (suc n) (suc a) h =
    omega (arith, bit_and-halves (suc a) 0, and_zero_below n (suc a / 2) (omega arith))

pub bit_and-zero : (a : ℕ) → bit_and a 0 ≡ 0
bit_and-zero a = and_zero_below a a (le_refl a)

or_zero_below : (n a : ℕ) → a ≤ n → bit_or a 0 ≡ a
or_zero_below zero a h = let e : a ≡ 0 = omega arith in rw e (zero-bit_or 0)
or_zero_below (suc n) zero h = zero-bit_or 0
or_zero_below (suc n) (suc a) h =
    omega (arith, bit_or-halves (suc a) 0, or_zero_below n (suc a / 2) (omega arith))

pub bit_or-zero : (a : ℕ) → bit_or a 0 ≡ a
bit_or-zero a = or_zero_below a a (le_refl a)

double : (q k : ℕ) → q * 2 ^ suc k ≡ 2 * (q * 2 ^ k)
double q k = omega (arith, ap (λ (t : ℕ). q * t) (pow-suc 2 k))

-- `&` of two numbers that are each split at digit `k`.
pub bit_and_split :
    (k q r p t : ℕ)
    → r < 2 ^ k
    → t < 2 ^ k
    → bit_and (q * 2 ^ k + r) (p * 2 ^ k + t) ≡ bit_and q p * 2 ^ k + bit_and r t
bit_and_split zero q r p t hr ht =
    let e : r ≡ 0 = omega arith in
    let e' : t ≡ 0 = omega arith in rw (e, e', zero-bit_and) (ground arith)
bit_and_split (suc k) q r p t hr ht = ground (
  arith,
  bit_and-halves (q * 2 ^ suc k + r) (p * 2 ^ suc k + t),
  bit_and-halves r t,
  double q k,
  double p k,
  double (bit_and q p) k,
  pow-suc 2 k,
  bit_and_split k q (r / 2) p (t / 2) (omega (arith, pow-suc 2 k)) (omega (arith, pow-suc 2 k)),
)

pub bit_or_split :
    (k q r p t : ℕ)
    → r < 2 ^ k
    → t < 2 ^ k
    → bit_or (q * 2 ^ k + r) (p * 2 ^ k + t) ≡ bit_or q p * 2 ^ k + bit_or r t
bit_or_split zero q r p t hr ht =
    let e : r ≡ 0 = omega arith in
    let e' : t ≡ 0 = omega arith in rw (e, e', zero-bit_or) (ground arith)
bit_or_split (suc k) q r p t hr ht = ground (
  arith,
  bit_or-halves (q * 2 ^ suc k + r) (p * 2 ^ suc k + t),
  bit_or-halves r t,
  double q k,
  double p k,
  double (bit_or q p) k,
  pow-suc 2 k,
  bit_or_split k q (r / 2) p (t / 2) (omega (arith, pow-suc 2 k)) (omega (arith, pow-suc 2 k)),
)

-- A number that fits the mask of `k` low ones is kept.
pub bit_and_ones : (k a : ℕ) → a < 2 ^ k → bit_and a (2 ^ k - 1) ≡ a
bit_and_ones zero a h = let e : a ≡ 0 = omega arith in rw e (zero-bit_and (2 ^ 0 - 1))
bit_and_ones (suc k) a h = ground (
  arith,
  bit_and-halves a (2 ^ suc k - 1),
  pow-suc 2 k,
  one-le-pow k 2,
  bit_and_ones k (a / 2) (omega (arith, pow-suc 2 k)),
)

-- `a & (2^k - 1)` is the remainder.
pub bit_and_low : (k a : ℕ) → bit_and a (2 ^ k - 1) ≡ a % 2 ^ k
bit_and_low k a = ground (
  arith,
  one-le-pow k 2,
  bit_and_split k (a / 2 ^ k) (a % 2 ^ k) 0 (2 ^ k - 1),
  bit_and-zero (a / 2 ^ k),
  bit_and_ones k (a % 2 ^ k),
)

-- `a & ~(2^k - 1)` on `k + w` bits.
pub bit_and_high :
    (w k a : ℕ) → a < 2 ^ w * 2 ^ k → bit_and a ((2 ^ w - 1) * 2 ^ k) ≡ a / 2 ^ k * 2 ^ k
bit_and_high w k a h = ground (
  arith,
  one-le-pow k 2,
  bit_and_split k (a / 2 ^ k) (a % 2 ^ k) (2 ^ w - 1) 0,
  bit_and-zero (a % 2 ^ k),
  bit_and_ones w (a / 2 ^ k) ((div-lt_iff_lt-mul (omega (arith, one-le-pow k 2))).1 h),
)

-- `|` of fields that do not meet is a sum.
pub bit_or_fields : (k q r : ℕ) → r < 2 ^ k → bit_or (q * 2 ^ k) r ≡ q * 2 ^ k + r
bit_or_fields k q r h =
    ground (arith, one-le-pow k 2, bit_or_split k q 0 0 r, bit_or-zero q, zero-bit_or r)
