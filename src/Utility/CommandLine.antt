-- ===== src/Utility/CommandLine.antt =====
-- kernel/Utility/CommandLineExtractor.h and CommandLineExtractor.cpp. The views of the arguments point
-- into the command line, which lies in memory.
pub mod Split
pub mod Lookup
pub mod Returns
pub mod Unique
use boreal_os.Base.{
  ℕ, zero, suc, ◌+◌, ◌-◌, ◌^◌, Bool, true, false, not, ◌&&◌, ltb, leb, ◌==◌, if◌then◌else◌, Option,
  none, some, add64, sub64, List, [], ◌∷◌,
}
use boreal_os.Base.Store.{Store}
use boreal_os.Utility.Strings.{View, npos, view_eq, substring, substring_from, index_of, count_of}
use boreal_os.Utility.Formatter.{parse_bool, parse_uint64, parse_int64}

-- The constant views " ", "\"", "=" and "" of the source, wherever the compiler puts them.
pub record Constants : Type 0 where
  pub space : View
  pub quote : View
  pub equals : View
  pub empty : View

-- `out`, the array of the arguments.
abbrev pub Args : Type 0
Args = ℕ → View

unfoldable pub set_argument : ℕ → View → Args → Args
set_argument count v out = λ i. if count == i then v else out i

pub record Splitter : Type 0 where
  pub pos : ℕ
  pub previous_pos : ℕ
  pub count : ℕ
  pub quotes : Bool
  pub out : Args

-- `src.Substring(pos, 1) == c`
unfoldable pub stands : View → View → ℕ → Store → Bool
stands c src pos m = view_eq (substring src pos c.size) c m

-- The inner loop, which passes over further spaces.
unfoldable pub skip_spaces : ℕ → View → View → ℕ → Store → Option ℕ
skip_spaces zero space src pos m = none
skip_spaces (suc fuel) space src pos m = elim (stands space src pos m) [
  | true ↦ skip_spaces fuel space src (pos + 1) m
  | false ↦ some pos
]

-- The end of an argument at a space outside of quotes.
unfoldable pub end_argument : ℕ → Constants → View → Splitter → Store → Option Splitter
end_argument fuel c src s m =
    if stands c.space src s.pos m && not s.quotes
    then elim (skip_spaces fuel c.space src (s.pos + 1) m) [
      | none ↦ none
      | some pos ↦ some (record s {
        pos = pos;
        previous_pos = s.pos + 1;
        count = s.count + 1;
        out =
            set_argument s.count (substring src s.previous_pos (sub64 s.pos s.previous_pos)) s.out;
      })
    ]
    else some s

-- The rest of a round: a quotation mark, and one position on.
unfoldable pub pass_character : Constants → View → Splitter → Store → Splitter
pass_character c src s m = record s {
  pos = s.pos + 1;
  quotes = if stands c.quote src s.pos m then not s.quotes else s.quotes;
}

unfoldable pub split_loop : ℕ → Constants → View → Splitter → Store → Option Splitter
split_loop zero c src s m = none
split_loop (suc fuel) c src s m = elim (leb s.pos src.size) [
  | false ↦ some s
  | true ↦ elim (s.pos == src.size) [
    | true ↦ some (record s {
      out = set_argument s.count (substring src s.previous_pos (sub64 s.pos s.previous_pos)) s.out;
    })
    | false ↦ elim (end_argument fuel c src s m) [
      | none ↦ none
      | some s' ↦ split_loop fuel c src (pass_character c src s' m) m
    ]
  ]
]

-- The number of arguments, and the array they were written to.
unfoldable pub split_arguments : ℕ → Constants → View → Args → Store → Option (ℕ × Args)
split_arguments fuel c src out m =
    elim (split_loop fuel c src
      (record { pos = 0; previous_pos = 0; count = 0; quotes = false; out = out }) m) [
        | none ↦ none
        | some s ↦ some (s.count + 1, s.out)
      ]

-- The characters of a view.
unfoldable pub bytes_loop : ℕ → ℕ → Store → List ℕ
bytes_loop zero a m = []
bytes_loop (suc left) a m = m a ∷ bytes_loop left (a + 1) m

unfoldable pub bytes_of : View → Store → List ℕ
unfolding bytes_loop
bytes_of v m = bytes_loop v.size v.start m

-- What comes after a call that may run out of fuel.
abbrev pub with_result {ℓ κ} : {A : Type ℓ} {B : Type κ} → Option A → (A → Option B) → Option B
with_result none f = none
with_result (some a) f = f a

-- `arg.Substring(0, arg.IndexOf("="))` and `arg.Substring(arg.IndexOf("=") + 1)`
unfoldable pub identifier_of : ℕ → Constants → View → Store → Option View
identifier_of fuel c arg m =
    with_result (index_of fuel arg c.equals m) λ i. some (substring arg 0 i)

unfoldable pub value_of : ℕ → Constants → View → Store → Option View
value_of fuel c arg m =
    with_result (index_of fuel arg c.equals m) λ i. some (substring_from arg (add64 i 1))

-- What `GetValue` does with one argument: it returns, or goes on.
pub data Verdict (A : Type 0) : Type 0 where
  decided : Option A → Verdict A
  pass : Verdict A

unfoldable pub examine_bool : ℕ → Constants → View → View → Store → Option (Verdict Bool)
examine_bool fuel c identifier arg m =
    if view_eq arg identifier m
    then some (decided (some true))
    else with_result (identifier_of fuel c arg m) λ ident.
      if not (view_eq ident identifier m)
      then some pass
      else with_result (count_of fuel arg c.equals m) λ count.
        if ltb 0 count
        then (with_result (value_of fuel c arg m)
            λ value. some (decided (parse_bool (bytes_of value m))))
        else some pass

-- The numbers of either sign: `parse` is `Formatter::Parse`.
unfoldable pub examine_number :
    (List ℕ → Option ℕ) → ℕ → Constants → View → View → Store → Option (Verdict ℕ)
examine_number parse fuel c identifier arg m = with_result (index_of fuel arg c.equals m) λ i.
    if i == npos
    then some pass
    else with_result (identifier_of fuel c arg m) λ ident.
      if not (view_eq ident identifier m)
      then some pass
      else with_result (count_of fuel arg c.equals m) λ count.
        if ltb 0 count
        then (with_result (value_of fuel c arg m)
            λ value. some (decided (parse (bytes_of value m))))
        else some pass

-- The quotes of a value are taken off.
unfoldable pub strip_quotes : Constants → View → Store → View
strip_quotes c value m =
    if view_eq (substring value 0 1) c.quote m
    then substring value 1 (sub64 value.size 2)
    else value

unfoldable pub examine_string : ℕ → Constants → View → View → Store → Option (Verdict View)
examine_string fuel c identifier arg m = with_result (index_of fuel arg c.equals m) λ i.
    if i == npos
    then some pass
    else with_result (identifier_of fuel c arg m) λ ident.
      if not (view_eq ident identifier m)
      then some pass
      else with_result (value_of fuel c arg m) λ value.
        let value = strip_quotes c value m in
        if ltb 0 value.size then some (decided (some value)) else some (decided none)

-- The loop over the arguments, with `left` of them to go.
unfoldable pub lookup_loop :
    {A : Type 0} → (View → Option (Verdict A)) → Option A → ℕ → ℕ → Args → Option (Option A)
lookup_loop examine missing zero i args = some missing
lookup_loop examine missing (suc left) i args = elim (examine (args i)) [
  | none ↦ none
  | some (decided answer) ↦ some answer
  | some pass ↦ lookup_loop examine missing left (i + 1) args
]

-- `GetValue`: `command_line` is `none` where there is none.
unfoldable pub get_value :
    {A : Type 0}
    → (View → Option (Verdict A))
    → Option A
    → ℕ
    → Constants
    → Option View
    → Store
    → Option (Option A)
get_value examine missing fuel c none m = some none
get_value examine missing fuel c (some line) m =
    elim (split_arguments fuel c line (λ i. c.empty) m) [
      | none ↦ none
      | some (count, args) ↦ lookup_loop examine missing count 0 args
    ]

unfoldable pub get_bool : ℕ → Constants → View → Option View → Store → Option (Option Bool)
get_bool fuel c identifier line m =
    get_value (λ arg. examine_bool fuel c identifier arg m) (some false) fuel c line m

unfoldable pub get_uint64 : ℕ → Constants → View → Option View → Store → Option (Option ℕ)
get_uint64 fuel c identifier line m =
    get_value (λ arg. examine_number parse_uint64 fuel c identifier arg m) none fuel c line m

-- The number is in two's complement.
unfoldable pub get_int64 : ℕ → Constants → View → Option View → Store → Option (Option ℕ)
get_int64 fuel c identifier line m =
    get_value (λ arg. examine_number parse_int64 fuel c identifier arg m) none fuel c line m

unfoldable pub get_string : ℕ → Constants → View → Option View → Store → Option (Option View)
get_string fuel c identifier line m =
    get_value (λ arg. examine_string fuel c identifier arg m) none fuel c line m
