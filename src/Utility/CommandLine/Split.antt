-- ===== src/Utility/CommandLine/Split.antt =====
-- `SplitArguments` ends, and writes no argument past the count it returns and none that leaves the
-- command line.
use boreal_os.Base.{
  ℕ, zero, suc, ◌+◌, ◌≤◌, ◌<◌, ◌≡◌, refl, true, false, not, ◌&&◌, leb, ◌==◌, Bool-cases, arith, ◌⊎◌,
  inl, inr, ◌^◌, sub64, some,
}
use native.Mathlib.Decide.{dec_lt}
use boreal_os.Base.Store.{Store}
use boreal_os.Utility.Strings.{View, view_eq, substring}
use boreal_os.Utility.CommandLine.{
  Constants, Args, set_argument, Splitter, stands, skip_spaces, end_argument, pass_character,
  split_loop, split_arguments,
}

-- A view that does not leave another.
pub record Inside (src v : View) : Type 0 where
  pub from : src.start ≤ v.start
  pub to : v.start + v.size ≤ src.start + src.size

substring-Inside :
    (src : View) (first last : ℕ)
    → first ≤ last
    → last ≤ src.size
    → last < 2 ^ 64
    → Inside src (substring src first (sub64 last first))
unfolding substring
substring-Inside src first last a b c = ground arith

stands-lt :
    (c src : View) (pos : ℕ) (m : Store) → 0 < c.size → stands c src pos m ≡ true → pos < src.size
unfolding stands view_eq substring
stands-lt c src pos m one e = ground arith

skip_spaces_lem :
    (fuel : ℕ) (space src : View) (pos : ℕ) (m : Store)
    → 0 < space.size
    → pos ≤ src.size
    → src.size < pos + fuel
    → (p : ℕ) × (skip_spaces fuel space src pos m ≡ some p) × (pos ≤ p) × (p ≤ src.size)
unfolding skip_spaces
skip_spaces_lem zero space src pos m one a enough = absurd (omega arith)
skip_spaces_lem (suc fuel) space src pos m one a enough =
    elim (Bool-cases (stands space src pos m)) [
      | inr stop ↦ (pos, rw (skip_spaces, stop) refl, omega arith, a)
      | inl more ↦
          let lt = stands-lt space src pos m one more in
          let (p, e, b, d) =
            skip_spaces_lem fuel space src (pos + 1) m one (omega arith) (omega arith) in
          (p, rw (skip_spaces, more) e, omega arith, d)
    ]

module _ (c : Constants) (src : View) (out : Args) (m : Store) (one : 0 < c.space.size)
    (narrow : src.size + 1 < 2 ^ 64) where
  -- The arguments written so far lie inside the command line, and the others are as they were.
  abbrev pub Written : ℕ → Args → Type 0
  Written count now =
      ((i : ℕ) → i < count → (now i ≡ out i) ⊎ Inside src (now i))
      × ((i : ℕ) → count ≤ i → now i ≡ out i)

  record IsRunning (s : Splitter) : Type 0 where
    behind : s.previous_pos ≤ s.pos
    within : s.previous_pos ≤ src.size
    few : s.count ≤ s.previous_pos
    written : Written s.count s.out

  set_argument-Written :
      (s : Splitter)
      → IsRunning s
      → s.pos ≤ src.size
      → Written
          (s.count + 1)
          (set_argument s.count (substring src s.previous_pos (sub64 s.pos s.previous_pos)) s.out)
  unfolding set_argument
  set_argument-Written s r le = (inside, outside)
    where
      inside :
          (i : ℕ)
          → i < s.count + 1
          → (set_argument s.count
                (substring src s.previous_pos (sub64 s.pos s.previous_pos))
                s.out
                i
              ≡ out i)
            ⊎ Inside src (
                set_argument s.count
                  (substring src s.previous_pos (sub64 s.pos s.previous_pos))
                  s.out
                  i)
      inside i h = elim (Bool-cases (s.count == i)) [
        | inl e ↦ rw e (inr (substring-Inside src s.previous_pos s.pos r.behind le (omega arith)))
        | inr ne ↦ rw ne (r.written.0 i (ground arith))
      ]

      outside :
          (i : ℕ)
          → s.count + 1 ≤ i
          → set_argument s.count (substring src s.previous_pos (sub64 s.pos s.previous_pos)) s.out i
            ≡ out i
      outside i h =
          let miss : (s.count == i) ≡ false = ground arith in rw miss (r.written.1 i (omega arith))

  Written-weaken : (count : ℕ) (now : Args) → Written count now → Written (count + 1) now
  Written-weaken count now (inside, outside) = (
    λ i h. elim (dec_lt i count) [ yes lt ↦ inside i lt | no ge ↦ inl (outside i (omega arith)) ],
    λ i h. outside i (omega arith),
  )

  end_argument_lem :
      (fuel : ℕ) (s : Splitter)
      → IsRunning s
      → s.pos < src.size
      → src.size < s.pos + fuel
      → (t : Splitter) × (end_argument fuel c src s m ≡ some t)
        × IsRunning t
        × (s.pos ≤ t.pos)
        × (t.pos ≤ src.size)
  unfolding end_argument
  end_argument_lem fuel s r lt enough =
      elim (Bool-cases (stands c.space src s.pos m && not s.quotes)) [
        | inr plain ↦ (s, rw plain refl, r, omega arith, omega arith)
        | inl ends ↦
            let (p, e, a, b) =
              skip_spaces_lem fuel c.space src (s.pos + 1) m one (omega arith) (omega arith) in
            (
              record s {
                pos = p;
                previous_pos = s.pos + 1;
                count = s.count + 1;
                out =
                    set_argument s.count (substring src s.previous_pos (sub64 s.pos s.previous_pos))
                      s.out;
              },
              rw (ends, e) refl,
              record {
                behind = a;
                within = omega arith;
                few = omega (arith, r.few, r.behind);
                written = set_argument-Written s r (omega arith);
              },
              omega arith,
              b,
            )
      ]

  pass-IsRunning : (s : Splitter) → IsRunning s → IsRunning (pass_character c src s m)
  unfolding pass_character
  pass-IsRunning s r = record {
    behind = omega (arith, r.behind);
    within = r.within;
    few = r.few;
    written = r.written;
  }

  pos-pass : (s : Splitter) → (pass_character c src s m).pos ≡ s.pos + 1
  unfolding pass_character
  pos-pass s = refl

  split_loop_lem :
      (fuel : ℕ) (s : Splitter)
      → IsRunning s
      → s.pos ≤ src.size + 1
      → src.size + 1 < s.pos + fuel
      → (t : Splitter) × (split_loop fuel c src s m ≡ some t)
        × (t.count ≤ src.size)
        × Written (t.count + 1) t.out
  unfolding split_loop
  split_loop_lem zero s r le enough = absurd (omega arith)
  split_loop_lem (suc fuel) s r le enough = elim (Bool-cases (leb s.pos src.size)) [
    | inr past ↦ (
      s,
      rw (split_loop, past) refl,
      omega (arith, r.few, r.within),
      Written-weaken s.count s.out r.written,
    )
    | inl inside ↦ elim (Bool-cases (s.pos == src.size)) [
      | inl last ↦ (
        record s {
          out =
              set_argument s.count (substring src s.previous_pos (sub64 s.pos s.previous_pos))
                s.out;
        },
        rw (split_loop, inside, last) refl,
        omega (arith, r.few, r.within),
        set_argument-Written s r (ground arith),
      )
      | inr more ↦
          let lt : s.pos < src.size = ground arith in
          let (t, e, running, a, b) = end_argument_lem fuel s r lt (omega arith) in
          let next = pos-pass t in
          let (u, f, few, written) =
            split_loop_lem fuel (pass_character c src t m) (pass-IsRunning t running)
              (omega (arith, next)) (omega (arith, next)) in
          (u, rw (split_loop, inside, more, e) f, few, written)
    ]
  ]

-- `SplitArguments` of a command line ends, given fuel for its size and two rounds more. It returns at
-- most one argument more than the line has characters; the array is written only below the number that
-- is returned, and what is written there lies inside the line.
pub split_arguments_lem :
    (fuel : ℕ) (c : Constants) (src : View) (out : Args) (m : Store)
    → 0 < c.space.size
    → src.size + 1 < 2 ^ 64
    → src.size + 1 < fuel
    → (n : ℕ) × (args : Args) × (split_arguments fuel c src out m ≡ some (n, args))
      × (n ≤ src.size + 1)
      × ((i : ℕ) → i < n → (args i ≡ out i) ⊎ Inside src (args i))
      × ((i : ℕ) → n ≤ i → args i ≡ out i)
unfolding split_arguments
split_arguments_lem fuel c src out m one narrow enough =
    let (t, e, few, written) =
      split_loop_lem c src out m one narrow fuel
        (record { pos = 0; previous_pos = 0; count = 0; quotes = false; out = out })
        (record {
          behind = omega arith;
          within = omega arith;
          few = omega arith;
          written = ((λ i h. absurd (omega arith)), λ i h. refl);
        })
        (omega arith) (omega arith) in
    (t.count + 1, t.out, rw (split_arguments, e) refl, omega arith, written.0, written.1)
