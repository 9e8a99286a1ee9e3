-- ===== src/Utility/Formatter/RoundTrip.antt =====
-- What is written is parsed back.
use boreal_os.Base.{
  ℕ, zero, suc, ◌+◌, ◌-◌, ◌/◌, ◌%◌, ◌^◌, ◌≤◌, ◌<◌, ◌≡◌, ◌≢◌, refl, sym, subst, ◌||◌, ◌∙◌, ap, inl,
  inr, true, false, ltb, leb, ◌==◌, ==_ne, Option-cases, none, some, List, [], ◌∷◌, ◌++◌, arith,
}
use native.Mathlib.Decide.{ℕ_discrete, dec_lt}
use boreal_os.Utility.Formatter.{
  digit, digit_value, write_char, accept, digits_loop, write_reverse, write_unsigned, parse_loop,
  parse_integer, write_signed, write_pointer, is_hex, parse_uint64, apply_sign, parse_int64,
}
use boreal_os.Utility.Formatter.Digits.{
  IsBase, decimal, hexadecimal, write_char-digit, accept-digit,
}

none-some : (s : ℕ) → ¬ (none ≡ some s)
none-some s e = cc

parse_loop-some :
    (c : ℕ) (cs : List ℕ) (base r s : ℕ)
    → accept base r (digit_value c) ≡ some s
    → parse_loop (c ∷ cs) base r ≡ parse_loop cs base s
unfolding parse_loop
parse_loop-some c cs base r s e = rw (e, parse_loop) refl

parse_loop-none :
    (c : ℕ) (cs : List ℕ) (base r : ℕ)
    → accept base r (digit_value c) ≡ none
    → parse_loop (c ∷ cs) base r ≡ none
unfolding parse_loop
parse_loop-none c cs base r e = rw (e, parse_loop) refl

-- A list is parsed from the left.
parse_loop-append :
    (xs ys : List ℕ) (base r s : ℕ)
    → parse_loop xs base r ≡ some s
    → parse_loop (xs ++ ys) base r ≡ parse_loop ys base s
parse_loop-append [] ys base r s e =
    let same : r ≡ s = (unfold parse_loop in cc) in ap (parse_loop ys base) same
parse_loop-append (x ∷ xs) ys base r s e = elim (Option-cases (accept base r (digit_value x))) [
  | inl no_digit ↦ absurd (none-some s (sym (parse_loop-none x xs base r no_digit) ∙ e))
  | inr (t, step) ↦
      parse_loop-some x (xs ++ ys) base r t step
      ∙ parse_loop-append xs ys base t s (sym (parse_loop-some x xs base r t step) ∙ e)
]

digits_step :
    {base : ℕ}
    → IsBase base
    → (fuel v : ℕ) → v ≢ 0
    → write_reverse (digits_loop (suc fuel) v base)
      ≡ write_reverse (digits_loop fuel (v / base) base) ++ (digit (v % base) ∷ [])
unfolding digits_loop write_reverse
digits_step {base} b fuel v ne =
    let more : (v == 0) ≡ false = ==_ne v 0 ne in
    rw more (
      ap (λ cs. write_reverse (digits_loop fuel (v / base) base) ++ cs)
        (write_char-digit (v % base) (omega (arith, b.below v, b.few))))

-- The digits of a value, read back, give the value: enough rounds were run to write them all.
parse_loop-digits_loop :
    {base : ℕ}
    → IsBase base
    → (fuel v : ℕ) → v < 2 ^ fuel
    → v < 2 ^ 64
    → parse_loop (write_reverse (digits_loop fuel v base)) base 0 ≡ some v
parse_loop-digits_loop b zero v lt h =
    let e : v ≡ 0 = omega arith in unfold digits_loop write_reverse parse_loop in ap some (sym e)
parse_loop-digits_loop {base} b (suc fuel) v lt h = elim (ℕ_discrete v 0) [
  | yes e ↦ unfold digits_loop write_reverse parse_loop in rw e refl
  | no ne ↦
      let d = b.below v in
      let rest =
        parse_loop-digits_loop b fuel (v / base) (b.shrink v (2 ^ fuel) (omega arith))
          (omega (arith, b.smaller v)) in
      ap (λ cs. parse_loop cs base 0) (digits_step b fuel v ne)
      ∙ parse_loop-append (write_reverse (digits_loop fuel (v / base) base)) (digit (v % base) ∷ [])
          base 0 (v / base) rest
      ∙ parse_loop-some (digit (v % base)) [] base (v / base) v (accept-digit b v h)
      ∙ unfold parse_loop in refl
]

parse_integer-append :
    (xs : List ℕ) (c base : ℕ)
    → parse_integer (xs ++ (c ∷ [])) base ≡ parse_loop (xs ++ (c ∷ [])) base 0
unfolding parse_integer
parse_integer-append [] c base = refl
parse_integer-append (x ∷ xs) c base = refl

accept-zero : {base : ℕ} → IsBase base → accept base 0 (digit_value 48) ≡ some 0
accept-zero {base} b =
    let positive : 0 < base = omega (arith, b.below 0) in
    let no_digit : leb base 0 ≡ false = ground arith in
    let fits : ltb ((2 ^ 64 - 1 - 0) / base) 0 ≡ false = ground arith in
    unfold accept digit_value in rw (no_digit, fits) (ap some (omega arith))

parse_integer-zero : {base : ℕ} → IsBase base → parse_integer (48 ∷ []) base ≡ some 0
parse_integer-zero {base} b =
    unfold parse_integer in
    parse_loop-some 48 [] base 0 0 (accept-zero b) ∙ unfold parse_loop in refl

-- `ParseInteger` reads back what `WriteUnsigned` writes: every value below 2^64, in base 10 and in
-- base 16.
pub parse_integer-write_unsigned :
    {base : ℕ}
    → IsBase base
    → (v : ℕ) → v < 2 ^ 64
    → parse_integer (write_unsigned v base) base ≡ some v
parse_integer-write_unsigned {base} b v h = elim (ℕ_discrete v 0) [
  | yes e ↦ unfold write_unsigned write_char in rw e (parse_integer-zero b)
  | no ne ↦
      let more : (v == 0) ≡ false = ==_ne v 0 ne in
      let step = digits_step b 63 v ne in
      unfold write_unsigned in
      rw more (
        ap (λ cs. parse_integer cs base) step
        ∙ parse_integer-append (write_reverse (digits_loop 63 (v / base) base)) (digit (v % base))
            base
        ∙ ap (λ cs. parse_loop cs base 0) (sym step)
        ∙ parse_loop-digits_loop b 64 v h h)
]

-- `Parse` of a `uint64_t` reads back a written pointer.
pub parse_uint64-write_pointer : (a : ℕ) → a < 2 ^ 64 → parse_uint64 (write_pointer a) ≡ some a
unfolding parse_uint64 write_pointer is_hex
parse_uint64-write_pointer a h = parse_integer-write_unsigned hexadecimal a h

-- Characters '0' to '9' alone.
abbrev AllDecimal : List ℕ → Type 0
AllDecimal [] = Unit
AllDecimal (c ∷ cs) = ((48 ≤ c) × (c ≤ 57)) × AllDecimal cs

append-AllDecimal : (xs ys : List ℕ) → AllDecimal xs → AllDecimal ys → AllDecimal (xs ++ ys)
append-AllDecimal [] ys h g = g
append-AllDecimal (x ∷ xs) ys (d, h) g = (d, append-AllDecimal xs ys h g)

digit-decimal : (d : ℕ) → d < 10 → (48 ≤ digit d) × (digit d ≤ 57)
unfolding digit
digit-decimal d h = ground arith

digits_loop-AllDecimal : (fuel v : ℕ) → AllDecimal (write_reverse (digits_loop fuel v 10))
digits_loop-AllDecimal zero v = unfold digits_loop write_reverse in tt
digits_loop-AllDecimal (suc fuel) v = elim (ℕ_discrete v 0) [
  | yes e ↦ unfold digits_loop write_reverse in rw e tt
  | no ne ↦ subst AllDecimal (sym (digits_step decimal fuel v ne)) (
      append-AllDecimal _ _ (digits_loop-AllDecimal fuel (v / 10))
        (digit-decimal (v % 10) (omega arith), tt))
]

write_unsigned-AllDecimal : (v : ℕ) → AllDecimal (write_unsigned v 10)
write_unsigned-AllDecimal v = elim (ℕ_discrete v 0) [
  | yes e ↦ unfold write_unsigned write_char in rw e ((omega arith, omega arith), tt)
  | no ne ↦
      let more : (v == 0) ≡ false = ==_ne v 0 ne in
      unfold write_unsigned in rw more (digits_loop-AllDecimal 64 v)
]

is_hex-AllDecimal : (cs : List ℕ) → AllDecimal cs → is_hex cs ≡ false
unfolding is_hex
is_hex-AllDecimal [] h = refl
is_hex-AllDecimal (a ∷ []) h = refl
is_hex-AllDecimal (a ∷ b ∷ cs) (ha, (hb, h)) = ground arith

-- `Parse` of a `uint64_t` reads back a number written in base 10: no such text looks like base 16.
pub parse_uint64-write_unsigned : (v : ℕ) → v < 2 ^ 64 → parse_uint64 (write_unsigned v 10) ≡ some v
parse_uint64-write_unsigned v h =
    let plain = is_hex-AllDecimal (write_unsigned v 10) (write_unsigned-AllDecimal v) in
    unfold parse_uint64 in rw plain (parse_integer-write_unsigned decimal v h)

-- A text that starts with a digit has no sign.
parse_int64-AllDecimal :
    (cs : List ℕ) (v : ℕ)
    → AllDecimal cs
    → parse_integer cs 10 ≡ some v
    → parse_int64 cs ≡ apply_sign false (some v)
parse_int64-AllDecimal [] v h e = absurd (none-some v (unfold parse_integer in e))
parse_int64-AllDecimal (c ∷ cs) v (d, h) e =
    let plain : ((c == 45) || (c == 43)) ≡ false = ground arith in
    unfold parse_int64 in rw plain (ap (apply_sign false) e)

-- `Parse` of an `int64_t` reads back what `WriteSigned` writes, for every 64-bit two's complement
-- number.
pub parse_int64-write_signed :
    (bits : ℕ) → bits < 2 ^ 64 → parse_int64 (write_signed bits) ≡ some bits
parse_int64-write_signed bits h = elim (dec_lt bits (2 ^ 63)) [
  | yes lt ↦
      let plus : leb (2 ^ 63) bits ≡ false = ground arith in
      unfold write_signed in
      rw plus (
        parse_int64-AllDecimal (write_unsigned bits 10) bits (write_unsigned-AllDecimal bits)
          (parse_integer-write_unsigned decimal bits h)
        ∙ unfold apply_sign in ground arith)
  | no ge ↦
      let minus : leb (2 ^ 63) bits ≡ true = ground arith in
      unfold write_signed parse_int64 in
      rw minus (
        ap (apply_sign true)
          (parse_integer-write_unsigned decimal ((0 + 2 ^ 64 - bits) % 2 ^ 64) (omega arith))
        ∙ unfold apply_sign in ground arith)
]
