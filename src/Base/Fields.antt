-- ===== src/Base/Fields.antt =====
-- Bit fields of a machine word, put together with `|` and read by shifting and cutting.
use Prim.Native.Nat.{ℕ, ◌+◌, ◌*◌, ◌/◌, ◌%◌, ◌^◌, ◌<◌, bit_or}
use mathlib.Core.Path.{◌≡◌}
use native.Mathlib.Omega.{arith}
use boreal_os.Base.Masks.{bit_or_split, zero-bit_or, bit_or-zero}

-- The `width` bits of `word` from bit `low` on.
abbrev pub field : ℕ → ℕ → ℕ → ℕ
field low width word = word / 2 ^ low % 2 ^ width

-- `low | (high << n)`, where `low` has at most `n` bits.
pub or_above :
    (n low high : ℕ) → low < 2 ^ n → 0 < 2 ^ n → bit_or low (high * 2 ^ n) ≡ low + high * 2 ^ n
or_above n low high h pos =
    ground (arith, bit_or_split n 0 low high 0, zero-bit_or high, bit_or-zero low)
