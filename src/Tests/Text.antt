-- ===== src/Tests/Text.antt =====
-- Numbers written and parsed back.
use boreal_os.Base.{ℕ, List, [], ◌∷◌, ◌++◌, length, ◌≡◌, some, arith}
use boreal_os.Utility.Formatter.Format.{holes_loop, write_args}
use boreal_os.Utility.Formatter.Format.Fill.{Pieces, arguments, template, filled, format_lem}
use boreal_os.Utility.Formatter.{write_unsigned, write_signed, parse_integer, parse_int64}
use boreal_os.Utility.Formatter.Digits.{hexadecimal}
use boreal_os.Utility.Formatter.RoundTrip.{parse_integer-write_unsigned, parse_int64-write_signed}

parse_integer_example : parse_integer (write_unsigned 0xBEEF 16) 16 ≡ some 0xBEEF
parse_integer_example = parse_integer-write_unsigned hexadecimal 0xBEEF (omega arith)

-- The least `int64_t`.
parse_int64_example : parse_int64 (write_signed 0x8000000000000000) ≡ some 0x8000000000000000
parse_int64_example = parse_int64-write_signed 0x8000000000000000 (omega arith)

-- "x={}, y={}" with "1" and "20".
abbrev pieces : Pieces
pieces = ((49 ∷ []), (44 ∷ 32 ∷ 121 ∷ 61 ∷ [])) ∷ ((50 ∷ 48 ∷ []), []) ∷ []

abbrev front : List ℕ
front = 120 ∷ 61 ∷ []

format_example :
    (holes_loop 20 (front ++ template pieces) 0 ≡ some (length (arguments pieces)))
    × (write_args 20 (arguments pieces) (front ++ template pieces) ≡ some (front ++ filled pieces))
format_example =
    format_lem 20 front pieces (omega arith, (omega arith, tt))
      ((omega arith, (omega arith, (omega arith, (omega arith, tt)))), (tt, tt)) (omega arith)
