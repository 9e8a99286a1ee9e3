-- ===== src/Utility/Formatter/Format.antt =====
-- kernel/Utility/Formatter.h: the count of the holes of a format string, and `WriteArgs`. A format string
-- is the list of its characters up to its end; an argument is what `WriteValue` writes of it.
pub mod Fill
use boreal_os.Base.{
  ℕ, zero, suc, ◌+◌, Bool, true, false, ◌&&◌, ◌==◌, Option, none, some, List, [], ◌∷◌, ◌++◌,
}
use boreal_os.Utility.Formatter.{drop}

-- `str[i]`; the character at the end is 0.
abbrev pub char_at : ℕ → List ℕ → ℕ
char_at i [] = 0
char_at zero (c ∷ cs) = c
char_at (suc i) (c ∷ cs) = char_at i cs

abbrev pub left_brace : ℕ
left_brace = 123

abbrev pub right_brace : ℕ
right_brace = 125

unfoldable pub is_hole : List ℕ → Bool
is_hole str = char_at 0 str == left_brace && char_at 1 str == right_brace

-- The escape as `FormatString` reads it.
unfoldable pub is_counted_escape : List ℕ → Bool
is_counted_escape str =
    char_at 0 str == left_brace
    && (char_at 1 str == left_brace
        && (char_at 2 str == right_brace && char_at 3 str == right_brace))

-- The escape as `WriteArgs` reads it.
unfoldable pub is_written_escape : List ℕ → Bool
is_written_escape str =
    char_at 0 str == left_brace
    && (char_at 1 str == left_brace
        && (char_at 3 str == right_brace && char_at 4 str == right_brace))

-- The loop of `FormatString`; `none` says that the fuel ran out.
unfoldable pub holes_loop : ℕ → List ℕ → ℕ → Option ℕ
holes_loop zero str count = none
holes_loop (suc fuel) [] count = some count
holes_loop (suc fuel) (c ∷ cs) count = elim (is_hole (c ∷ cs)) [
  | true ↦ holes_loop fuel (drop 2 (c ∷ cs)) (count + 1)
  | false ↦ elim (is_counted_escape (c ∷ cs)) [
    | true ↦ holes_loop fuel (drop 4 (c ∷ cs)) count
    | false ↦ holes_loop fuel cs count
  ]
]

abbrev pub write_before : List ℕ → Option (List ℕ) → Option (List ℕ)
write_before text none = none
write_before text (some rest) = some (text ++ rest)

-- `WriteArgs`. At an escape the first argument is passed over.
unfoldable pub write_args : ℕ → List (List ℕ) → List ℕ → Option (List ℕ)
write_args fuel [] str = some str
write_args zero (a ∷ args) str = none
write_args (suc fuel) (a ∷ args) [] = some []
write_args (suc fuel) (a ∷ args) (c ∷ cs) = elim (is_hole (c ∷ cs)) [
  | true ↦ write_before a (write_args fuel args (drop 2 (c ∷ cs)))
  | false ↦ elim (is_written_escape (c ∷ cs)) [
    | true ↦ write_before (left_brace ∷ right_brace ∷ []) (write_args fuel args (drop 5 (c ∷ cs)))
    | false ↦ write_before (c ∷ []) (write_args fuel (a ∷ args) cs)
  ]
]
