-- ===== src/Utility/Formatter/Format/Fill.antt =====
-- A format string without escapes is filled with its arguments in order.
use boreal_os.Base.{
  ℕ, zero, suc, ◌+◌, ◌<◌, ◌≡◌, ◌≢◌, refl, ◌∙◌, ap, false, ==_ne, some, List, [], ◌∷◌, ◌++◌, length,
  arith,
}
use boreal_os.Utility.Formatter.Format.{
  left_brace, right_brace, is_hole, is_counted_escape, is_written_escape, holes_loop, write_before,
  write_args,
}

-- Text in which no character is a left brace.
abbrev pub IsPlain : List ℕ → Type 0
IsPlain [] = Unit
IsPlain (c ∷ cs) = (c ≢ left_brace) × IsPlain cs

-- What follows the first hole of a format string: an argument, and the text behind its hole.
abbrev pub Pieces : Type 0
Pieces = List (List ℕ × List ℕ)

abbrev pub ArePlain : Pieces → Type 0
ArePlain [] = Unit
ArePlain ((a, text) ∷ ps) = IsPlain text × ArePlain ps

abbrev pub arguments : Pieces → List (List ℕ)
arguments [] = []
arguments ((a, text) ∷ ps) = a ∷ arguments ps

-- The format string, and the text that is to be written.
abbrev pub template : Pieces → List ℕ
template [] = []
template ((a, text) ∷ ps) = left_brace ∷ right_brace ∷ (text ++ template ps)

abbrev pub filled : Pieces → List ℕ
filled [] = []
filled ((a, text) ∷ ps) = a ++ (text ++ filled ps)

module _ (c : ℕ) (cs : List ℕ) (plain : c ≢ left_brace) where
  is_hole-plain : is_hole (c ∷ cs) ≡ false
  unfolding is_hole
  is_hole-plain = rw (==_ne c left_brace plain) refl

  is_counted_escape-plain : is_counted_escape (c ∷ cs) ≡ false
  unfolding is_counted_escape
  is_counted_escape-plain = rw (==_ne c left_brace plain) refl

  is_written_escape-plain : is_written_escape (c ∷ cs) ≡ false
  unfolding is_written_escape
  is_written_escape-plain = rw (==_ne c left_brace plain) refl

  write_args-plain :
      (fuel : ℕ) (a : List ℕ) (args : List (List ℕ))
      → write_args (suc fuel) (a ∷ args) (c ∷ cs)
        ≡ write_before (c ∷ []) (write_args fuel (a ∷ args) cs)
  unfolding write_args
  write_args-plain fuel a args = rw (write_args, is_hole-plain, is_written_escape-plain) refl

  holes_loop-plain :
      (fuel count : ℕ) → holes_loop (suc fuel) (c ∷ cs) count ≡ holes_loop fuel cs count
  unfolding holes_loop
  holes_loop-plain fuel count = rw (holes_loop, is_hole-plain, is_counted_escape-plain) refl

write_args-hole :
    (fuel : ℕ) (a : List ℕ) (args : List (List ℕ)) (rest : List ℕ)
    → write_args (suc fuel) (a ∷ args) (left_brace ∷ right_brace ∷ rest)
      ≡ write_before a (write_args fuel args rest)
unfolding write_args is_hole
write_args-hole fuel a args rest = refl

holes_loop-hole :
    (fuel count : ℕ) (rest : List ℕ)
    → holes_loop (suc fuel) (left_brace ∷ right_brace ∷ rest) count
      ≡ holes_loop fuel rest (count + 1)
unfolding holes_loop is_hole
holes_loop-hole fuel count rest = refl

-- `WriteArgs` writes the arguments in the place of the holes.
write_args_lem :
    (fuel : ℕ) (text : List ℕ) (ps : Pieces)
    → IsPlain text
    → ArePlain ps
    → length (text ++ template ps) < fuel
    → write_args fuel (arguments ps) (text ++ template ps) ≡ some (text ++ filled ps)
write_args_lem fuel text [] plain all enough = unfold write_args in refl
write_args_lem zero text ((a, next) ∷ ps) plain all enough = absurd (omega arith)
write_args_lem (suc fuel) [] ((a, next) ∷ ps) plain (here, all) enough =
    write_args-hole fuel a (arguments ps) (next ++ template ps)
    ∙ ap (write_before a) (write_args_lem fuel next ps here all (omega (arith, enough)))
write_args_lem (suc fuel) (c ∷ cs) ((a, next) ∷ ps) (first, plain) all enough =
    write_args-plain c (cs ++ template ((a, next) ∷ ps)) first fuel a (arguments ps)
    ∙ ap (write_before (c ∷ []))
        (write_args_lem fuel cs ((a, next) ∷ ps) plain all (omega (arith, enough)))

-- `FormatString` counts as many holes as there are arguments.
holes_loop_lem :
    (fuel count : ℕ) (text : List ℕ) (ps : Pieces)
    → IsPlain text
    → ArePlain ps
    → length (text ++ template ps) < fuel
    → holes_loop fuel (text ++ template ps) count ≡ some (count + length (arguments ps))
holes_loop_lem zero count text ps plain all enough = absurd (omega arith)
holes_loop_lem (suc fuel) count [] [] plain all enough = unfold holes_loop in ap some (omega arith)
holes_loop_lem (suc fuel) count [] ((a, next) ∷ ps) plain (here, all) enough =
    holes_loop-hole fuel count (next ++ template ps)
    ∙ holes_loop_lem fuel (count + 1) next ps here all (omega (arith, enough))
    ∙ ap some (omega arith)
holes_loop_lem (suc fuel) count (c ∷ cs) ps (first, plain) all enough =
    holes_loop-plain c (cs ++ template ps) first fuel count
    ∙ holes_loop_lem fuel count cs ps plain all (omega (arith, enough))

-- For a format string of holes and texts without left braces, and given fuel for its length and one round more,
-- `FormatString` counts as many holes as there are arguments, and `WriteArgs` writes the texts with the
-- arguments in the place of the holes, in order.
pub format_lem :
    (fuel : ℕ) (text : List ℕ) (ps : Pieces)
    → IsPlain text
    → ArePlain ps
    → length (text ++ template ps) < fuel
    → (holes_loop fuel (text ++ template ps) 0 ≡ some (length (arguments ps)))
      × (write_args fuel (arguments ps) (text ++ template ps) ≡ some (text ++ filled ps))
format_lem fuel text ps plain all enough =
    let none_yet : 0 + length (arguments ps) ≡ length (arguments ps) = omega arith in
    (
      holes_loop_lem fuel 0 text ps plain all enough ∙ ap some none_yet,
      write_args_lem fuel text ps plain all enough,
    )
