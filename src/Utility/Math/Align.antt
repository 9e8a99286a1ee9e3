-- ===== src/Utility/Math/Align.antt =====
-- Alignment to a power of two.
use boreal_os.Base.{
  ℕ, zero, suc, ◌+◌, ◌-◌, ◌*◌, ◌/◌, ◌%◌, ◌^◌, ◌≤◌, ◌<◌, ◌≡◌, sym, ap, ◌∙◌, arith, sub64, not64,
  add64,
}
use native.Mathlib.Nat.{
  pow-suc, one-le-pow, div-add-mod, mod-lt, mul-le-mul_right, div-lt_iff_lt-mul, mul-mod_left,
  le-div_iff_mul-le, div-mul-le_self,
}
use boreal_os.Base.Masks.{bit_and_high}
use boreal_os.Utility.Math.{align_up, align_down}

pow-add : (w k : ℕ) → 2 ^ (w + k) ≡ 2 ^ w * 2 ^ k
pow-add zero k = let e : 0 + k ≡ k = omega arith in rw e (omega arith)
pow-add (suc w) k =
    let e : suc w + k ≡ suc (w + k) = omega arith in
    rw e (omega (arith, pow-suc 2 (w + k), pow-add w k, ap (λ (t : ℕ). t * 2 ^ k) (pow-suc 2 w)))

minus_one-mul : (a b : ℕ) → 1 ≤ a → (a - 1) * b + b ≡ a * b
minus_one-mul zero b h = absurd (omega arith)
minus_one-mul (suc a) b h = let e : suc a - 1 ≡ a = omega arith in rw e (omega arith)

module _ (v d : ℕ) (pos : 0 < d) where
  ceil-above : v ≤ (v + d - 1) / d * d
  ceil-above = omega (arith, div-add-mod (v + d - 1) d, mod-lt (v + d - 1) pos)

  ceil-least : (m : ℕ) → v ≤ m * d → (v + d - 1) / d * d ≤ m * d
  ceil-least m h =
      let below : (v + d - 1) / d < suc m = (div-lt_iff_lt-mul pos).1 (omega arith) in
      mul-le-mul_right d (omega arith)

  floor-below : v / d * d ≤ v
  floor-below = div-mul-le_self v d

  floor-greatest : (m : ℕ) → m * d ≤ v → m * d ≤ v / d * d
  floor-greatest m h = mul-le-mul_right d ((le-div_iff_mul-le pos).1 h)

module _ (w k : ℕ) (width : w + k ≡ 64) where
  whole : 2 ^ w * 2 ^ k ≡ 2 ^ 64
  whole = sym (pow-add w k) ∙ ap (λ n. 2 ^ n) width

  mask : not64 (sub64 (2 ^ k) 1) ≡ (2 ^ w - 1) * 2 ^ k
  mask = omega (
    arith,
    one-le-pow w 2,
    one-le-pow k 2,
    whole,
    minus_one-mul (2 ^ w) (2 ^ k) (omega (arith, one-le-pow w 2)),
  )

  -- Aligning down to `2^k` cuts the low digits off.
  pub align_down-eq :
      (value : ℕ) → value < 2 ^ 64 → align_down value (2 ^ k) ≡ value / 2 ^ k * 2 ^ k
  unfolding align_down
  align_down-eq value h = rw mask (bit_and_high w k value (rw whole h))

  pub align_up-eq :
      (value : ℕ)
      → value + 2 ^ k ≤ 2 ^ 64
      → align_up value (2 ^ k) ≡ (value + 2 ^ k - 1) / 2 ^ k * 2 ^ k
  unfolding align_up
  align_up-eq value h =
      let e : sub64 (add64 value (2 ^ k)) 1 ≡ value + 2 ^ k - 1 = omega (arith, one-le-pow k 2) in
      rw (e, mask) (bit_and_high w k (value + 2 ^ k - 1) (rw whole (omega (arith, one-le-pow k 2))))

  -- `AlignUp` gives the least multiple of a power of two that is not below the value, and
  -- `AlignDown` the greatest that is not above it, where the value is far enough from 2^64.
  pub align_bounds :
      (value : ℕ)
      → value + 2 ^ k ≤ 2 ^ 64
      → (value ≤ align_up value (2 ^ k))
        × ((m : ℕ) → value ≤ m * 2 ^ k → align_up value (2 ^ k) ≤ m * 2 ^ k)
        × (align_up value (2 ^ k) % 2 ^ k ≡ 0)
        × (align_down value (2 ^ k) ≤ value)
        × ((m : ℕ) → m * 2 ^ k ≤ value → m * 2 ^ k ≤ align_down value (2 ^ k))
        × (align_down value (2 ^ k) % 2 ^ k ≡ 0)
  align_bounds value h =
      let pos : 0 < 2 ^ k = one-le-pow k 2 (omega arith) in
      rw (align_up-eq value h, align_down-eq value (omega (arith, one-le-pow k 2)))
        (
          ceil-above value (2 ^ k) pos,
          ceil-least value (2 ^ k) pos,
          mul-mod_left ((value + 2 ^ k - 1) / 2 ^ k) (2 ^ k),
          floor-below value (2 ^ k) pos,
          floor-greatest value (2 ^ k) pos,
          mul-mod_left (value / 2 ^ k) (2 ^ k),
        )
