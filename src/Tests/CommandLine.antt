-- ===== src/Tests/CommandLine.antt =====
-- The command line "a=1 b=0 c", with the constant views of the source after it.
use boreal_os.Base.{
  ℕ, ◌+◌, ◌≤◌, ◌<◌, ◌≡◌, refl, Bool, true, false, arith, Option, some, List, [], ◌∷◌, ◌⊎◌, ◌↔◌,
  zero, suc,
}
use boreal_os.Base.Store.{Store}
use boreal_os.Utility.Strings.{View, view_eq, index_of, substring, strncmp, strncmp_loop}
use boreal_os.Utility.Strings.Compare.{view_eq_iff}
use boreal_os.Utility.Strings.Search.{IsFirst, index_of-IsFirst}
use boreal_os.Utility.CommandLine.{
  Constants, Args, set_argument, stands, skip_spaces, end_argument, pass_character, split_loop,
  split_arguments, get_bool, examine_bool,
}
use boreal_os.Utility.CommandLine.Split.{Inside, split_arguments_lem}
use boreal_os.Utility.CommandLine.Lookup.{IsAnswer}
use boreal_os.Utility.CommandLine.Returns.{get_bool-returns}

abbrev text : List ℕ → Store
text [] k = 0
text (b ∷ rest) zero = b
text (b ∷ rest) (suc k) = text rest k

-- `a=1 b=0 c`, then a space, a quotation mark and an equals sign.
abbrev boot : Store
boot = text (97 ∷ 61 ∷ 49 ∷ 32 ∷ 98 ∷ 61 ∷ 48 ∷ 32 ∷ 99 ∷ 0 ∷ 32 ∷ 34 ∷ 61 ∷ 0 ∷ [])

abbrev line : View
line = record { start = 0; size = 9 }

abbrev constants : Constants
constants = record {
  space = record { start = 10; size = 1 };
  quote = record { start = 11; size = 1 };
  equals = record { start = 12; size = 1 };
  empty = record { start = 13; size = 0 };
}

-- The name "b".
abbrev name : View
name = record { start = 4; size = 1 }

abbrev none_yet : Args
none_yet i = record { start = 13; size = 0 }

-- The text "b=0" of the line, and the name in front of it.
abbrev setting : View
setting = record { start = 4; size = 3 }

view_eq_example :
    (view_eq name (record { start = 4; size = 1 }) boot ≡ true)
    ↔ ((name.size ≡ name.size) × ((k : ℕ) → k < 1 → boot (4 + k) ≡ boot (4 + k)))
view_eq_example =
    view_eq_iff name (record { start = 4; size = 1 }) boot
      (λ k h. let here : k ≡ 0 = omega arith in rw here (λ e. absurd (omega arith)))

index_of_example :
    (r : ℕ) × (index_of 4 setting constants.equals boot ≡ some r)
    × IsFirst setting constants.equals boot 0 3 r
index_of_example =
    index_of-IsFirst 4 setting constants.equals boot (omega arith) (omega arith) (omega arith)

split_arguments_example :
    (n : ℕ) × (args : Args) × (split_arguments 11 constants line none_yet boot ≡ some (n, args))
    × (n ≤ 10)
    × ((i : ℕ) → i < n → (args i ≡ none_yet i) ⊎ Inside line (args i))
    × ((i : ℕ) → n ≤ i → args i ≡ none_yet i)
split_arguments_example =
    split_arguments_lem 11 constants line none_yet boot (omega arith) (omega arith) (omega arith)

-- The arguments of the line: a=1, b=0 and c.
abbrev arguments : Args
arguments =
    set_argument 2 (record { start = 8; size = 1 })
      (set_argument 1 (record { start = 4; size = 3 })
        (set_argument 0 (record { start = 0; size = 3 }) (λ i. constants.empty)))

splits : split_arguments 11 constants line (λ i. constants.empty) boot ≡ some (3, arguments)
unfolding split_arguments split_loop end_argument skip_spaces pass_character stands set_argument
    view_eq substring strncmp strncmp_loop
splits = refl

arguments-filled : (i : ℕ) → i < 3 → 0 < (arguments i).size
unfolding set_argument
arguments-filled i h = ground arith

get_bool_example :
    (r : Option Bool) × (get_bool 11 constants name (some line) boot ≡ some r)
    × IsAnswer (λ arg. examine_bool 11 constants name arg boot) (some false) arguments 0 3 r
get_bool_example =
    get_bool-returns 11 constants name line boot 3 arguments (omega arith) refl refl (omega arith)
      (omega arith) splits arguments-filled
