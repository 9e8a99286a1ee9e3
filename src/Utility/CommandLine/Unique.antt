-- ===== src/Utility/CommandLine/Unique.antt =====
-- `Initialize` of kernel/Utility/CommandLineExtractor.cpp: identifiers that stand twice are reported. A
-- report is the identifier; the null response of the boot loader is `none`, and the source then
-- dereferences it, so there is no result.
use boreal_os.Base.{
  ℕ, zero, suc, ◌+◌, Bool, true, false, ltb, if◌then◌else◌, Option, none, some, List, [], ◌∷◌, ◌++◌,
}
use boreal_os.Base.Store.{Store}
use boreal_os.Utility.Strings.{View, view_eq, count_of, strlen}
use boreal_os.Utility.CommandLine.{Constants, Args, identifier_of, split_arguments}

-- The array of the identifiers seen, in order.
unfoldable pub has_identifier : View → List View → Store → Bool
has_identifier identifier [] m = false
has_identifier identifier (v ∷ seen) m =
    if view_eq v identifier m then true else has_identifier identifier seen m

unfoldable pub argument_identifier : ℕ → Constants → View → Store → Option View
argument_identifier fuel c arg m = elim (count_of fuel arg c.equals m) [
  | none ↦ none
  | some count ↦ if ltb 0 count then identifier_of fuel c arg m else some arg
]

-- The identifiers entered and those reported.
pub record Census : Type 0 where
  pub unique : List View
  pub reported : List View

unfoldable pub enter_identifier : View → Census → Store → Census
enter_identifier identifier s m =
    if has_identifier identifier s.unique m
    then record s { reported = s.reported ++ (identifier ∷ []) }
    else record s { unique = s.unique ++ (identifier ∷ []) }

unfoldable pub census_loop : ℕ → Constants → ℕ → ℕ → Args → Census → Store → Option Census
census_loop fuel c zero i args s m = some s
census_loop fuel c (suc left) i args s m = elim (argument_identifier fuel c (args i) m) [
  | none ↦ none
  | some identifier ↦ census_loop fuel c left (i + 1) args (enter_identifier identifier s m) m
]

-- `_hasCommandLine`, which is true in the end whatever the line holds, and the census.
unfoldable pub initialize : ℕ → Constants → Option ℕ → Store → Option (Bool × Census)
initialize fuel c none m = none
initialize fuel c (some cmdline) m = elim (strlen fuel cmdline m) [
  | none ↦ none
  | some size ↦
      let line : View = record { start = cmdline; size = size } in
      elim (split_arguments fuel c line (λ i. c.empty) m) [
        | none ↦ none
        | some (count, args) ↦
            elim (census_loop fuel c count 0 args (record { unique = []; reported = [] }) m) [
              | none ↦ none
              | some s ↦ some (true, s)
            ]
      ]
]
