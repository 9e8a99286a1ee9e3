-- ===== src/Utility/CommandLine/Lookup.antt =====
-- `GetValue` returns: the first argument that decides gives the answer.
use boreal_os.Base.{
  ℕ, zero, suc, ◌+◌, ◌≤◌, ◌<◌, ◌≡◌, refl, sym, ◌∙◌, ap, subst, true, ltb, Bool-cases, arith, ◌⊎◌,
  inl, inr, ◌^◌, sub64, add64, Option, some,
}
use native.Mathlib.Decide.{ℕ_discrete}
use boreal_os.Base.Store.{Store}
use boreal_os.Utility.Strings.{View, count_loop, is_zero, strncmp}
use boreal_os.Utility.CommandLine.{
  Constants, Args, Verdict, decided, pass, lookup_loop, get_value, split_arguments,
}
use boreal_os.Utility.CommandLine.Split.{Inside, split_arguments_lem}

count_loop-hit :
    (fuel i count : ℕ) (v needle : View) (m : Store)
    → ltb i v.size ≡ true
    → is_zero (strncmp (v.start + i) needle.start needle.size m) ≡ true
    → count_loop (suc fuel) i count v needle m
      ≡ count_loop fuel (add64 (add64 i (sub64 needle.size 1)) 1) (count + 1) v needle m
unfolding count_loop
count_loop-hit fuel i count v needle m more hit = rw (count_loop, more, hit) refl

-- A needle of one character is counted in as many rounds as the text has characters, and one.
pub count_loop-returns :
    (fuel i count : ℕ) (v needle : View) (m : Store)
    → needle.size ≡ 1
    → v.size < 2 ^ 64
    → v.size < i + fuel
    → i ≤ v.size
    → (r : ℕ) × (count_loop fuel i count v needle m ≡ some r)
unfolding count_loop
count_loop-returns zero i count v needle m one narrow enough le = absurd (omega arith)
count_loop-returns (suc fuel) i count v needle m one narrow enough le =
    elim (Bool-cases (ltb i v.size)) [
      | inr past ↦ (count, rw (count_loop, past) refl)
      | inl more ↦ elim (Bool-cases (is_zero (strncmp (v.start + i) needle.start needle.size m))) [
        | inr miss ↦
            let (r, e) =
              count_loop-returns fuel (i + 1) count v needle m one narrow (omega arith)
                (ground arith) in
            (r, rw (count_loop, more, miss) e)
        | inl hit ↦
            let next : add64 (add64 i (sub64 needle.size 1)) 1 ≡ i + 1 = ground arith in
            let (r, e) =
              count_loop-returns fuel (i + 1) (count + 1) v needle m one narrow (omega arith)
                (ground arith) in
            (
              r,
              count_loop-hit fuel i count v needle m more hit
                  ∙ ap (λ j. count_loop fuel j (count + 1) v needle m) next
                  ∙ e,
            )
      ]
    ]

module _ {A : Type 0} (examine : View → Option (Verdict A)) (missing : Option A) (args : Args) where
  -- The answer of the first argument from `i` up to `n` that decides, or that for no such argument.
  abbrev pub IsAnswer : ℕ → ℕ → Option A → Type 0
  IsAnswer i n r =
      ((k : ℕ) × (i ≤ k)
        × (k < n)
        × (examine (args k) ≡ some (decided r))
        × ((j : ℕ) → i ≤ j → j < k → examine (args j) ≡ some pass))
      ⊎ ((r ≡ missing) × ((j : ℕ) → i ≤ j → j < n → examine (args j) ≡ some pass))

  IsAnswer-later :
      (i n : ℕ) (r : Option A)
      → examine (args i) ≡ some pass
      → IsAnswer (i + 1) n r
      → IsAnswer i n r
  IsAnswer-later i n r e (inl (k, a, b, d, before)) = inl (
    k,
    omega arith,
    b,
    d,
    λ j c f. elim (ℕ_discrete j i) [ yes here ↦ rw here e | no ne ↦ before j (omega arith) f ],
  )
  IsAnswer-later i n r e (inr (f, before)) = inr (
    f,
    λ j c d. elim (ℕ_discrete j i) [ yes here ↦ rw here e | no ne ↦ before j (omega arith) d ],
  )

  lookup_loop-pass :
      (left i : ℕ)
      → examine (args i) ≡ some pass
      → lookup_loop examine missing (suc left) i args
        ≡ lookup_loop examine missing left (i + 1) args
  unfolding lookup_loop
  lookup_loop-pass left i e = rw (lookup_loop, e) refl

  lookup_loop-decided :
      (left i : ℕ) (r : Option A)
      → examine (args i) ≡ some (decided r)
      → (lookup_loop examine missing (suc left) i args ≡ some r) × IsAnswer i (i + suc left) r
  unfolding lookup_loop
  lookup_loop-decided left i r e = (
    rw (lookup_loop, e) refl,
    inl (i, omega arith, omega arith, e, λ j a b. absurd (omega arith)),
  )

  lookup_loop_lem :
      (left i : ℕ)
      → ((j : ℕ) → j < i + left → (v : Verdict A) × (examine (args j) ≡ some v))
      → (r : Option A) × (lookup_loop examine missing left i args ≡ some r)
        × IsAnswer i (i + left) r
  lookup_loop_lem zero i total =
      (missing, unfold lookup_loop in refl, inr (refl, λ j a b. absurd (omega arith)))
  lookup_loop_lem (suc left) i total =
      continue (lookup_loop_lem left (i + 1) (λ j lt. total j (omega arith)))
        (total i (omega arith))
    where
      continue :
          ((r : Option A) × (lookup_loop examine missing left (i + 1) args ≡ some r)
            × IsAnswer (i + 1) (i + 1 + left) r)
          → (v : Verdict A) × (examine (args i) ≡ some v)
          → (r : Option A) × (lookup_loop examine missing (suc left) i args ≡ some r)
            × IsAnswer i (i + suc left) r
      continue rest (decided r, e) = let (f, g) = lookup_loop-decided left i r e in (r, f, g)
      continue (r, run, answer) (pass, e) =
          let to_the_end : i + 1 + left ≡ i + suc left = omega arith in
          (
            r,
            lookup_loop-pass left i e ∙ run,
            IsAnswer-later i (i + suc left) r e
                (subst (λ n. IsAnswer (i + 1) n r) to_the_end answer),
          )

zero_add : (n : ℕ) → 0 + n ≡ n
zero_add n = omega arith

-- An argument that does not leave the command line, or is empty, is short.
short :
    (c : Constants) (src v : View)
    → c.empty.size ≡ 0
    → (v ≡ c.empty) ⊎ Inside src v
    → v.size ≤ src.size
short c src v nil (inl e) = rw (e, nil) (omega arith)
short c src v nil (inr inside) = omega (arith, inside.from, inside.to)

get_value-split :
    {A : Type 0} (examine : View → Option (Verdict A)) (missing : Option A) (fuel : ℕ)
    (c : Constants) (line : View) (m : Store) (n : ℕ) (args : Args)
    → split_arguments fuel c line (λ i. c.empty) m ≡ some (n, args)
    → get_value examine missing fuel c (some line) m ≡ lookup_loop examine missing n 0 args
unfolding get_value
get_value-split examine missing fuel c line m n args e = rw (get_value, e) refl

same_parts : (a b : ℕ × Args) → some a ≡ some b → a ≡ b
same_parts a b e = cc

split-Inside :
    (fuel : ℕ) (c : Constants) (line : View) (m : Store)
    → 0 < c.space.size
    → line.size + 1 < 2 ^ 64
    → line.size + 1 < fuel
    → (n : ℕ) (args : Args) → split_arguments fuel c line (λ i. c.empty) m ≡ some (n, args)
    → (i : ℕ) → i < n
    → (args i ≡ c.empty) ⊎ Inside line (args i)
split-Inside fuel c line m one narrow enough n args split =
    let (n', args', split', few, inside, outside) =
      split_arguments_lem fuel c line (λ i. c.empty) m one narrow enough in
    subst (λ p. (i : ℕ) → i < p.0 → (p.1 i ≡ c.empty) ⊎ Inside line (p.1 i))
      (same_parts (n', args') (n, args) (sym split' ∙ split)) inside

-- `GetValue` on a command line that splits into `args` returns, when what it does with an argument that
-- is no longer than the line and not empty returns, and none of them is empty.
pub get_value-returns :
    {A : Type 0} (examine : View → Option (Verdict A)) (missing : Option A) (fuel : ℕ)
    (c : Constants) (line : View) (m : Store)
    → 0 < c.space.size
    → c.empty.size ≡ 0
    → line.size + 1 < 2 ^ 64
    → line.size + 1 < fuel
    → (n : ℕ) (args : Args) → split_arguments fuel c line (λ i. c.empty) m ≡ some (n, args)
    → ((i : ℕ) → i < n → 0 < (args i).size)
    → ((arg : View)
        → 0 < arg.size
        → arg.size ≤ line.size
        → (v : Verdict A) × (examine arg ≡ some v))
    → (r : Option A) × (get_value examine missing fuel c (some line) m ≡ some r)
      × IsAnswer examine missing args 0 n r
get_value-returns examine missing fuel c line m one nil narrow enough n args split filled total =
    let inside = split-Inside fuel c line m one narrow enough n args split in
    let (r, run, answer) = lookup_loop_lem examine missing args n 0 (λ j lt.
      let low = subst (λ k. j < k) (zero_add n) lt in
      total (args j) (filled j low) (short c line (args j) nil (inside j low))) in
    (
      r,
      get_value-split examine missing fuel c line m n args split ∙ run,
      subst (λ k. IsAnswer examine missing args 0 k r) (zero_add n) answer,
    )
