-- ===== src/Utility/CommandLine/Returns.antt =====
-- `GetValue` of each type returns: what it does with one argument always does.
use boreal_os.Base.{
  ℕ, ◌+◌, ◌<◌, ◌≡◌, refl, Bool, true, false, not, ltb, ◌==◌, arith, ◌^◌, Option, none, some,
  if◌then◌else◌, List,
}
use boreal_os.Base.Store.{Store}
use boreal_os.Utility.Strings.{View, npos, index_of, view_eq, count_of}
use boreal_os.Utility.CommandLine.{
  Constants, Args, Verdict, identifier_of, examine_string, examine_bool, examine_number,
  with_result, value_of, strip_quotes, get_bool, get_uint64, get_int64, get_string, split_arguments,
}
use boreal_os.Utility.Strings.Search.{index_of-IsFirst}
use boreal_os.Utility.Formatter.{parse_uint64, parse_int64}
use boreal_os.Utility.CommandLine.Lookup.{count_loop-returns, IsAnswer, get_value-returns}

if-returns :
    {A : Type 0} {x y : Option A} (b : Bool)
    → (v : A) × (x ≡ some v)
    → (v : A) × (y ≡ some v)
    → (v : A) × ((if b then x else y) ≡ some v)
if-returns true p q = p
if-returns false p q = q

with_result-returns :
    {A B : Type 0} (x : Option A) (f : A → Option B)
    → (v : A) × (x ≡ some v)
    → ((v : A) → (w : B) × (f v ≡ some w))
    → (w : B) × (with_result x f ≡ some w)
with_result-returns x f (v, e) h = rw e (h v)

-- The searches in an argument that is not empty, for a needle of one character.
module _ (fuel : ℕ) (c : Constants) (arg : View) (m : Store) (one : c.equals.size ≡ 1)
    (filled : 0 < arg.size) (narrow : arg.size < 2 ^ 64) (enough : arg.size < fuel) where
  index_of-returns : (i : ℕ) × (index_of fuel arg c.equals m ≡ some i)
  index_of-returns =
      let (i, e, first) = index_of-IsFirst fuel arg c.equals m (omega arith) narrow (omega arith) in
      (i, e)

  identifier_of-returns : (v : View) × (identifier_of fuel c arg m ≡ some v)
  unfolding identifier_of
  identifier_of-returns = with_result-returns _ _ index_of-returns (λ i. (_, refl))

  value_of-returns : (v : View) × (value_of fuel c arg m ≡ some v)
  unfolding value_of
  value_of-returns = with_result-returns _ _ index_of-returns (λ i. (_, refl))

  count_of-returns : (n : ℕ) × (count_of fuel arg c.equals m ≡ some n)
  unfolding count_of
  count_of-returns =
      count_loop-returns fuel 0 0 arg c.equals m one narrow (omega arith) (omega arith)

  examine_bool-returns :
      (identifier : View) → (v : Verdict Bool) × (examine_bool fuel c identifier arg m ≡ some v)
  unfolding examine_bool
  examine_bool-returns identifier =
      if-returns (view_eq arg identifier m) (_, refl)
        (with_result-returns _ _ identifier_of-returns λ ident.
          if-returns (not (view_eq ident identifier m)) (_, refl)
            (with_result-returns _ _ count_of-returns λ count.
              if-returns (ltb 0 count) (with_result-returns _ _ value_of-returns λ value. (_, refl))
                (_, refl)))

  examine_number-returns :
      (parse : List ℕ → Option ℕ) (identifier : View)
      → (v : Verdict ℕ) × (examine_number parse fuel c identifier arg m ≡ some v)
  unfolding examine_number
  examine_number-returns parse identifier = with_result-returns _ _ index_of-returns λ i.
      if-returns (i == npos) (_, refl)
        (with_result-returns _ _ identifier_of-returns λ ident.
          if-returns (not (view_eq ident identifier m)) (_, refl)
            (with_result-returns _ _ count_of-returns λ count.
              if-returns (ltb 0 count) (with_result-returns _ _ value_of-returns λ value. (_, refl))
                (_, refl)))

  examine_string-returns :
      (identifier : View) → (v : Verdict View) × (examine_string fuel c identifier arg m ≡ some v)
  unfolding examine_string
  examine_string-returns identifier = with_result-returns _ _ index_of-returns λ i.
      if-returns (i == npos) (_, refl)
        (with_result-returns _ _ identifier_of-returns λ ident.
          if-returns (not (view_eq ident identifier m)) (_, refl)
            (with_result-returns _ _ value_of-returns
              λ value. if-returns (ltb 0 (strip_quotes c value m).size) (_, refl) (_, refl)))

-- `GetValue` of a Boolean returns on every command line none of whose arguments is empty, given fuel for
-- its size and two rounds more, where the constant views have the sizes they have in the source. Its
-- answer is that of the first argument of the line that decides, and `false` when none does.
pub get_bool-returns :
    (fuel : ℕ) (c : Constants) (identifier line : View) (m : Store) (n : ℕ) (args : Args)
    → 0 < c.space.size
    → c.equals.size ≡ 1
    → c.empty.size ≡ 0
    → line.size + 1 < 2 ^ 64
    → line.size + 1 < fuel
    → split_arguments fuel c line (λ i. c.empty) m ≡ some (n, args)
    → ((i : ℕ) → i < n → 0 < (args i).size)
    → (r : Option Bool) × (get_bool fuel c identifier (some line) m ≡ some r)
      × IsAnswer (λ arg. examine_bool fuel c identifier arg m) (some false) args 0 n r
unfolding get_bool
get_bool-returns fuel c identifier line m n args one equals nil narrow enough split all_filled =
    get_value-returns _ (some false) fuel c line m one nil narrow enough n args split all_filled
      λ arg filled le.
        examine_bool-returns fuel c arg m equals filled (omega arith) (omega arith) identifier

-- `GetValue` of an unsigned number returns in the same way; its answer is that of the first argument of
-- the line that decides, and none when none does.
pub get_uint64-returns :
    (fuel : ℕ) (c : Constants) (identifier line : View) (m : Store) (n : ℕ) (args : Args)
    → 0 < c.space.size
    → c.equals.size ≡ 1
    → c.empty.size ≡ 0
    → line.size + 1 < 2 ^ 64
    → line.size + 1 < fuel
    → split_arguments fuel c line (λ i. c.empty) m ≡ some (n, args)
    → ((i : ℕ) → i < n → 0 < (args i).size)
    → (r : Option ℕ) × (get_uint64 fuel c identifier (some line) m ≡ some r)
      × IsAnswer (λ arg. examine_number parse_uint64 fuel c identifier arg m) none args 0 n r
unfolding get_uint64
get_uint64-returns fuel c identifier line m n args one equals nil narrow enough split all_filled =
    get_value-returns _ none fuel c line m one nil narrow enough n args split all_filled
      λ arg filled le.
        examine_number-returns fuel c arg m equals filled (omega arith) (omega arith) parse_uint64
          identifier

-- `GetValue` of a signed number returns in the same way; its answer is that of the first argument of
-- the line that decides, and none when none does.
pub get_int64-returns :
    (fuel : ℕ) (c : Constants) (identifier line : View) (m : Store) (n : ℕ) (args : Args)
    → 0 < c.space.size
    → c.equals.size ≡ 1
    → c.empty.size ≡ 0
    → line.size + 1 < 2 ^ 64
    → line.size + 1 < fuel
    → split_arguments fuel c line (λ i. c.empty) m ≡ some (n, args)
    → ((i : ℕ) → i < n → 0 < (args i).size)
    → (r : Option ℕ) × (get_int64 fuel c identifier (some line) m ≡ some r)
      × IsAnswer (λ arg. examine_number parse_int64 fuel c identifier arg m) none args 0 n r
unfolding get_int64
get_int64-returns fuel c identifier line m n args one equals nil narrow enough split all_filled =
    get_value-returns _ none fuel c line m one nil narrow enough n args split all_filled
      λ arg filled le.
        examine_number-returns fuel c arg m equals filled (omega arith) (omega arith) parse_int64
          identifier

-- `GetValue` of a text returns in the same way; its answer is that of the first argument of
-- the line that decides, and none when none does.
pub get_string-returns :
    (fuel : ℕ) (c : Constants) (identifier line : View) (m : Store) (n : ℕ) (args : Args)
    → 0 < c.space.size
    → c.equals.size ≡ 1
    → c.empty.size ≡ 0
    → line.size + 1 < 2 ^ 64
    → line.size + 1 < fuel
    → split_arguments fuel c line (λ i. c.empty) m ≡ some (n, args)
    → ((i : ℕ) → i < n → 0 < (args i).size)
    → (r : Option View) × (get_string fuel c identifier (some line) m ≡ some r)
      × IsAnswer (λ arg. examine_string fuel c identifier arg m) none args 0 n r
unfolding get_string
get_string-returns fuel c identifier line m n args one equals nil narrow enough split all_filled =
    get_value-returns _ none fuel c line m one nil narrow enough n args split all_filled
      λ arg filled le.
        examine_string-returns fuel c arg m equals filled (omega arith) (omega arith) identifier
