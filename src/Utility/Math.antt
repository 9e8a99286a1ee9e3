-- ===== src/Utility/Math.antt =====
-- kernel/Utility/Math.h at `uint64_t`.
pub mod Align
use boreal_os.Base.{
  ℕ, zero, suc, ◌+◌, ◌-◌, ◌*◌, ◌/◌, ◌%◌, ◌^◌, ltb, if◌then◌else◌, ◌==◌, bit_and, add64, sub64,
  mul64, not64,
}

unfoldable pub min : ℕ → ℕ → ℕ
min a b = if ltb a b then a else b

unfoldable pub max : ℕ → ℕ → ℕ
max a b = if ltb b a then a else b

unfoldable pub clamp : ℕ → ℕ → ℕ → ℕ
unfolding min max
clamp value lo hi = max lo (min hi value)

-- The loop of `Pow`, with `left` rounds to go.
unfoldable pub pow_loop : ℕ → ℕ → ℕ → ℕ
pow_loop zero base result = result
pow_loop (suc left) base result = pow_loop left base (mul64 result base)

-- An unsigned exponent is never below 0.
unfoldable pub pow : ℕ → ℕ → ℕ
pow base exponent = if exponent == 0 then 1 else pow_loop exponent base 1

-- `(value + alignment - 1) & ~(alignment - 1)`
unfoldable pub align_up : ℕ → ℕ → ℕ
align_up value alignment = bit_and (sub64 (add64 value alignment) 1) (not64 (sub64 alignment 1))

-- `value & ~(alignment - 1)`
unfoldable pub align_down : ℕ → ℕ → ℕ
align_down value alignment = bit_and value (not64 (sub64 alignment 1))
