-- ===== src/Utility/Formatter.antt =====
-- kernel/Utility/Formatter.cpp: numbers are written in a base and parsed back. A writer's output is
-- the list of its characters.
pub mod Digits
pub mod RoundTrip
pub mod Format
use boreal_os.Base.{
  ℕ, zero, suc, ◌+◌, ◌-◌, ◌*◌, ◌/◌, ◌%◌, ◌^◌, ◌<◌, Bool, true, false, ◌&&◌, ◌||◌, ltb, leb, ◌==◌,
  if◌then◌else◌, Option, none, some, List, [], ◌∷◌, ◌++◌, add64, mul64, sub64, length, u64,
}

-- `digits[value]` for a value below 16: '0' to '9', then 'A' to 'F'.
unfoldable pub digit : ℕ → ℕ
digit value = if ltb value 10 then 48 + value else 55 + value

-- `DigitValue`, with `none` for -1. A character is its code.
unfoldable pub digit_value : ℕ → Option ℕ
digit_value c =
    if leb 48 c && leb c 57
    then some (c - 48)
    else if leb 97 c && leb c 102
    then some (10 + (c - 97))
    else if leb 65 c && leb c 70
    then some (10 + (c - 65))
    else none

-- `WriteChar`: what is not printable is written as '?'. The difference is an `int`, so a code below
-- 32 passes the first test only if it is a negative number at most 94.
unfoldable pub write_char : ℕ → List ℕ
write_char c = if leb c 126 then c ∷ [] else 63 ∷ []

-- The first loop of `WriteUnsigned`, on fuel: `tmp[0 .. n)`, the lowest digit first.
unfoldable pub digits_loop : ℕ → ℕ → ℕ → List ℕ
digits_loop zero value base = []
digits_loop (suc fuel) value base =
    if value == 0 then [] else digit (value % base) ∷ digits_loop fuel (value / base) base

-- The second loop: `tmp` from its end.
unfoldable pub write_reverse : List ℕ → List ℕ
write_reverse [] = []
write_reverse (c ∷ cs) = write_reverse cs ++ write_char c

-- 64 rounds empty any value below 2^64.
unfoldable pub write_unsigned : ℕ → ℕ → List ℕ
write_unsigned value base =
    if value == 0 then write_char 48 else write_reverse (digits_loop 64 value base)

-- A round of `ParseInteger`: the result with one more digit, or `none` for a character that is no
-- digit of the base and for a number too large.
unfoldable pub accept : ℕ → ℕ → Option ℕ → Option ℕ
accept base result none = none
accept base result (some d) =
    if leb base d
    then none
    else if ltb ((2 ^ 64 - 1 - d) / base) result
    then none
    else some (add64 (mul64 result base) d)

unfoldable pub parse_loop : List ℕ → ℕ → ℕ → Option ℕ
parse_loop [] base result = some result
parse_loop (c ∷ cs) base result = elim (accept base result (digit_value c)) [
  | none ↦ none
  | some r ↦ parse_loop cs base r
]

-- `ParseInteger`, with `none` for `false`.
unfoldable pub parse_integer : List ℕ → ℕ → Option ℕ
parse_integer [] base = none
parse_integer (c ∷ cs) base = parse_loop (c ∷ cs) base 0

-- `WriteSigned` of the number whose 64-bit two's complement is `bits`.
unfoldable pub write_signed : ℕ → List ℕ
write_signed bits =
    if leb (2 ^ 63) bits then 45 ∷ write_unsigned (sub64 0 bits) 10 else write_unsigned bits 10

-- `WriteValue` of a pointer: "0x" and the address in base 16.
unfoldable pub write_pointer : ℕ → List ℕ
write_pointer address = 48 ∷ 120 ∷ write_unsigned address 16

-- `src` starts with "0x" or "0X".
unfoldable pub is_hex : List ℕ → Bool
is_hex [] = false
is_hex (a ∷ []) = false
is_hex (a ∷ b ∷ cs) = a == 48 && (b == 120 || b == 88)

abbrev pub drop : ℕ → List ℕ → List ℕ
drop zero cs = cs
drop (suc n) [] = []
drop (suc n) (c ∷ cs) = drop n cs

-- `Parse` of a `uint64_t`.
unfoldable pub parse_uint64 : List ℕ → Option ℕ
parse_uint64 src = if is_hex src then parse_integer (drop 2 src) 16 else parse_integer src 10

-- The magnitude is checked against the range, and negated in 64 bits.
unfoldable pub apply_sign : Bool → Option ℕ → Option ℕ
apply_sign negative none = none
apply_sign negative (some mag) =
    let limit = if negative then 2 ^ 63 else 2 ^ 63 - 1 in
    if ltb limit mag then none else if negative then some (sub64 0 mag) else some mag

-- `Parse` of an `int64_t`, which the result holds in two's complement.
unfoldable pub parse_int64 : List ℕ → Option ℕ
parse_int64 [] = none
parse_int64 (c ∷ cs) =
    if c == 45 || c == 43
    then apply_sign (c == 45) (parse_integer cs 10)
    else apply_sign false (parse_integer (c ∷ cs) 10)

-- `src == text`, for a text without a zero byte.
unfoldable pub equal_text : List ℕ → List ℕ → Bool
equal_text [] [] = true
equal_text [] (d ∷ ds) = false
equal_text (c ∷ cs) [] = false
equal_text (c ∷ cs) (d ∷ ds) = c == d && equal_text cs ds

-- "true"
abbrev pub true_text : List ℕ
true_text = 116 ∷ 114 ∷ 117 ∷ 101 ∷ []

-- "false"
abbrev pub false_text : List ℕ
false_text = 102 ∷ 97 ∷ 108 ∷ 115 ∷ 101 ∷ []

-- `Parse` of a `bool`.
unfoldable pub parse_bool : List ℕ → Option Bool
unfolding equal_text
parse_bool src =
    if equal_text src []
    then none
    else if equal_text src (49 ∷ [])
    then some true
    else if equal_text src (48 ∷ [])
    then some false
    else if equal_text src true_text
    then some true
    else if equal_text src false_text
    then some false
    else none

-- `WriteValue` of a `bool`.
unfoldable pub write_bool : Bool → List ℕ
write_bool value = if value then true_text else false_text
