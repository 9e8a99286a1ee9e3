-- ===== src/Utility/Strings.antt =====
-- kernel/Utility/cstring.cpp and StringView.h. A pointer is an address of memory, whose bytes are
-- numbers below 256; the null pointer is 0.
pub mod Compare
pub mod Search
use boreal_os.Base.{
  ℕ, zero, suc, ◌+◌, ◌-◌, ◌^◌, Bool, true, false, not, ◌&&◌, leb, ltb, ◌==◌, if◌then◌else◌, Option,
  none, some, add64, sub64,
}
use boreal_os.Base.Int.{ℤ, pos, negsuc, sub_ℕ}
use boreal_os.Base.Store.{Store, store}

-- A loop without a bound in the source takes fuel; `none` says that it ran out.
unfoldable pub strlen_loop : ℕ → ℕ → ℕ → Store → Option ℕ
strlen_loop zero str count m = none
strlen_loop (suc fuel) str count m = elim (m str == 0) [
  | true ↦ some count
  | false ↦ strlen_loop fuel (str + 1) (count + 1) m
]

unfoldable pub strlen : ℕ → ℕ → Store → Option ℕ
strlen fuel str m = strlen_loop fuel str 0 m

unfoldable pub strcmp : ℕ → ℕ → ℕ → Store → Option ℤ
strcmp zero s1 s2 m = none
strcmp (suc fuel) s1 s2 m = elim (not (m s1 == 0) && m s1 == m s2) [
  | true ↦ strcmp fuel (s1 + 1) (s2 + 1) m
  | false ↦ some (sub_ℕ (m s1) (m s2))
]

unfoldable pub strncmp_loop : ℕ → ℕ → ℕ → ℕ → Store → ℤ
strncmp_loop zero i s1 s2 m = pos 0
strncmp_loop (suc left) i s1 s2 m = elim (m (s1 + i) == m (s2 + i)) [
  | false ↦ sub_ℕ (m (s1 + i)) (m (s2 + i))
  | true ↦ elim (m (s1 + i) == 0) [ true ↦ pos 0 | false ↦ strncmp_loop left (i + 1) s1 s2 m ]
]

unfoldable pub strncmp : ℕ → ℕ → ℕ → Store → ℤ
strncmp s1 s2 n m = strncmp_loop n 0 s1 s2 m

-- `c` is the byte of a character.
unfoldable pub strchr : ℕ → ℕ → ℕ → Store → Option ℕ
strchr zero s c m = none
strchr (suc fuel) s c m = elim (m s == 0) [
  | true ↦ some 0
  | false ↦ elim (m s == c) [ true ↦ some s | false ↦ strchr fuel (s + 1) c m ]
]

-- The inner loop of `strstr`: where the needle's pointer stops.
unfoldable pub match_loop : ℕ → ℕ → ℕ → Store → Option ℕ
match_loop zero h n m = none
match_loop (suc fuel) h n m = elim (not (m h == 0) && (not (m n == 0) && m h == m n)) [
  | true ↦ match_loop fuel (h + 1) (n + 1) m
  | false ↦ some n
]

unfoldable pub strstr_loop : ℕ → ℕ → ℕ → Store → Option ℕ
strstr_loop zero haystack needle m = none
strstr_loop (suc fuel) haystack needle m = elim (m haystack == 0) [
  | true ↦ some 0
  | false ↦ elim (m haystack == m needle) [
    | false ↦ strstr_loop fuel (haystack + 1) needle m
    | true ↦ elim (match_loop fuel haystack needle m) [
      | none ↦ none
      | some n ↦ elim (m n == 0) [
        | true ↦ some haystack
        | false ↦ strstr_loop fuel (haystack + 1) needle m
      ]
    ]
  ]
]

unfoldable pub strstr : ℕ → ℕ → ℕ → Store → Option ℕ
strstr fuel haystack needle m =
    if m needle == 0 then some haystack else strstr_loop fuel haystack needle m

-- The second loop of `strncpy`.
unfoldable pub pad_loop : ℕ → ℕ → ℕ → Store → Store
pad_loop zero i dest m = m
pad_loop (suc left) i dest m = pad_loop left (i + 1) dest (store m (dest + i) 0)

unfoldable pub strncpy_loop : ℕ → ℕ → ℕ → ℕ → Store → Store
strncpy_loop zero i dest src m = m
strncpy_loop (suc left) i dest src m = elim (m (src + i) == 0) [
  | true ↦ pad_loop (suc left) i dest m
  | false ↦ strncpy_loop left (i + 1) dest src (store m (dest + i) (m (src + i)))
]

unfoldable pub strncpy : ℕ → ℕ → ℕ → Store → Store
strncpy dest src n m = strncpy_loop n 0 dest src m

-- `StringView`
pub record View : Type 0 where
  pub start : ℕ
  pub size : ℕ

abbrev pub npos : ℕ
npos = 2 ^ 64 - 1

abbrev pub is_zero : ℤ → Bool
is_zero (pos n) = n == 0
is_zero (negsuc n) = false

unfoldable pub view_eq : View → View → Store → Bool
view_eq v w m = if not (v.size == w.size) then false else is_zero (strncmp v.start w.start v.size m)

unfoldable pub compare_view : View → ℕ → Store → ℤ
compare_view v path m = strncmp v.start path v.size m

-- The length is taken as given, also past the end.
unfoldable pub substring : View → ℕ → ℕ → View
substring v start length =
    if leb v.size start
    then record { start = v.start + v.size; size = 0 }
    else record { start = v.start + start; size = length }

unfoldable pub substring_from : View → ℕ → View
substring_from v start = substring v start (sub64 v.size start)

unfoldable pub count_loop : ℕ → ℕ → ℕ → View → View → Store → Option ℕ
count_loop zero i count v needle m = none
count_loop (suc fuel) i count v needle m = elim (ltb i v.size) [
  | false ↦ some count
  | true ↦ elim (is_zero (strncmp (v.start + i) needle.start needle.size m)) [
    | true ↦ count_loop fuel (add64 (add64 i (sub64 needle.size 1)) 1) (count + 1) v needle m
    | false ↦ count_loop fuel (i + 1) count v needle m
  ]
]

unfoldable pub count_of : ℕ → View → View → Store → Option ℕ
count_of fuel v needle m = count_loop fuel 0 0 v needle m

-- `bound` is `_size - needle._size`, which wraps where the needle is the longer one: the loop then reads
-- past the text, and with `npos` for a bound it never ends.
unfoldable pub index_loop : ℕ → ℕ → ℕ → View → View → Store → Option ℕ
index_loop zero i bound v needle m = none
index_loop (suc fuel) i bound v needle m = elim (leb i bound) [
  | false ↦ some npos
  | true ↦ elim (is_zero (strncmp (v.start + i) needle.start needle.size m)) [
    | true ↦ some i
    | false ↦ index_loop fuel (add64 i 1) bound v needle m
  ]
]

unfoldable pub index_of : ℕ → View → View → Store → Option ℕ
index_of fuel v needle m = index_loop fuel 0 (sub64 v.size needle.size) v needle m
