-- ===== src/Utility/Formatter/Digits.antt =====
-- One digit written and read back, and the bases for which that is done.
use boreal_os.Base.{
  ℕ, ◌+◌, ◌-◌, ◌*◌, ◌/◌, ◌%◌, ◌^◌, ◌≤◌, ◌<◌, ◌≡◌, ap, ◌∙◌, false, ltb, leb, some, [], ◌∷◌, arith,
  add64, mul64,
}
use boreal_os.Utility.Formatter.{digit, digit_value, write_char, accept}

pub digit_value-digit : (d : ℕ) → d < 16 → digit_value (digit d) ≡ some d
unfolding digit_value digit
digit_value-digit d h = ground arith

pub write_char-digit : (d : ℕ) → d < 16 → write_char (digit d) ≡ digit d ∷ []
unfolding write_char digit
write_char-digit d h = ground arith

pub record IsBase (base : ℕ) : Type 0 where
  pub few : base ≤ 16
  pub split : (v : ℕ) → v / base * base + v % base ≡ v
  pub below : (v : ℕ) → v % base < base
  pub room : (v : ℕ) → v < 2 ^ 64 → v / base ≤ (2 ^ 64 - 1 - v % base) / base
  pub shrink : (v n : ℕ) → v < 2 * n → v / base < n
  pub smaller : (v : ℕ) → v / base ≤ v

pub decimal : IsBase 10
decimal = record {
  few = omega arith;
  split = λ v. omega arith;
  below = λ v. omega arith;
  room = λ v h. omega arith;
  shrink = λ v n h. omega arith;
  smaller = λ v. omega arith;
}

pub hexadecimal : IsBase 16
hexadecimal = record {
  few = omega arith;
  split = λ v. omega arith;
  below = λ v. omega arith;
  room = λ v h. omega arith;
  shrink = λ v n h. omega arith;
  smaller = λ v. omega arith;
}

-- The value, put together in 64 bits.
add_back :
    {base : ℕ} → IsBase base → (v : ℕ) → v < 2 ^ 64 → add64 (mul64 (v / base) base) (v % base) ≡ v
add_back {base} b v h =
    let whole : v / base * base ≤ v = omega (arith, b.split v) in omega (arith, b.split v)

-- The last digit is read onto the value of the others.
pub accept-digit :
    {base : ℕ}
    → IsBase base
    → (v : ℕ) → v < 2 ^ 64
    → accept base (v / base) (digit_value (digit (v % base))) ≡ some v
unfolding accept
accept-digit {base} b v h =
    let lt = b.below v in
    let no_digit : leb base (v % base) ≡ false = ground (arith, lt) in
    let fits : ltb ((2 ^ 64 - 1 - v % base) / base) (v / base) ≡ false =
      ground (arith, b.room v h) in
    ap (accept base (v / base)) (digit_value-digit (v % base) (omega (arith, lt, b.few)))
    ∙ rw (no_digit, fits) (ap some (add_back b v h))
