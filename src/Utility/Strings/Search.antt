-- ===== src/Utility/Strings/Search.antt =====
-- `IndexOf` finds the first occurrence.
use boreal_os.Base.{
  ℕ, zero, suc, ◌+◌, ◌-◌, ◌≤◌, ◌<◌, ◌≡◌, refl, ◌∙◌, ap, some, leb, add64, Bool, true, false,
  Bool-cases, arith, ◌⊎◌, inl, inr, ◌^◌, sub64,
}
use native.Mathlib.Decide.{ℕ_discrete}
use boreal_os.Base.Store.{Store}
use boreal_os.Utility.Strings.{strncmp, strncmp_loop, View, is_zero, npos, index_loop, index_of}

-- The needle is found at an index of the text.
abbrev pub occurs : View → View → Store → ℕ → Bool
occurs v needle m i = is_zero (strncmp (v.start + i) needle.start needle.size m)

-- The first index from `first` up to `last` at which the needle is found, or `npos`.
abbrev pub IsFirst : View → View → Store → ℕ → ℕ → ℕ → Type 0
IsFirst v needle m first last r =
    ((first ≤ r)
      × (r < last)
      × (occurs v needle m r ≡ true)
      × ((j : ℕ) → first ≤ j → j < r → occurs v needle m j ≡ false))
    ⊎ ((r ≡ npos) × ((j : ℕ) → first ≤ j → j < last → occurs v needle m j ≡ false))

module _ (v needle : View) (m : Store) where
  index-past :
      (fuel i bound : ℕ)
      → leb i bound ≡ false
      → index_loop (suc fuel) i bound v needle m ≡ some npos
  unfolding index_loop
  index-past fuel i bound e = rw (index_loop, e) refl

  index-here :
      (fuel i bound : ℕ)
      → leb i bound ≡ true
      → occurs v needle m i ≡ true
      → index_loop (suc fuel) i bound v needle m ≡ some i
  unfolding index_loop
  index-here fuel i bound in_text e = rw (index_loop, in_text, e) refl

  index-later :
      (fuel i bound : ℕ)
      → leb i bound ≡ true
      → occurs v needle m i ≡ false
      → index_loop (suc fuel) i bound v needle m ≡ index_loop fuel (add64 i 1) bound v needle m
  unfolding index_loop
  index-later fuel i bound in_text e = rw (index_loop, in_text, e) refl

  -- One more index in front, at which the needle is not found.
  IsFirst-later :
      (i last r : ℕ)
      → occurs v needle m i ≡ false
      → IsFirst v needle m (i + 1) last r
      → IsFirst v needle m i last r
  IsFirst-later i last r miss (inl (a, b, hit, none)) =
      inl (omega arith, b, hit, λ j c d. extend j c (none j) d)
    where
      extend :
          (j : ℕ)
          → i ≤ j
          → (i + 1 ≤ j → j < r → occurs v needle m j ≡ false)
          → j < r
          → occurs v needle m j ≡ false
      extend j c later d = elim (ℕ_discrete j i) [
        | yes here ↦ rw here miss
        | no ne ↦ later (omega arith) d
      ]
  IsFirst-later i last r miss (inr (e, none)) = inr (
    e,
    λ j c d. elim (ℕ_discrete j i) [ yes here ↦ rw here miss | no ne ↦ none j (omega arith) d ],
  )

  -- The loop with `left` indices to go.
  index_loop-IsFirst :
      (left fuel i bound : ℕ)
      → i + left ≡ bound + 1
      → left < fuel
      → bound < npos
      → (r : ℕ) × (index_loop fuel i bound v needle m ≡ some r) × IsFirst v needle m i (bound + 1) r
  index_loop-IsFirst left zero i bound e enough narrow = absurd (omega arith)
  index_loop-IsFirst zero (suc fuel) i bound e enough narrow =
      (npos, index-past fuel i bound (ground arith), inr (refl, λ j a b. absurd (omega arith)))
  index_loop-IsFirst (suc left) (suc fuel) i bound e enough narrow =
      let in_text : leb i bound ≡ true = ground arith in
      elim (Bool-cases (occurs v needle m i)) [
        | inl hit ↦ (
          i,
          index-here fuel i bound in_text hit,
          inl (omega arith, omega arith, hit, λ j a b. absurd (omega arith)),
        )
        | inr miss ↦
            let next : add64 i 1 ≡ i + 1 = omega arith in
            let (r, run, first) =
              index_loop-IsFirst left fuel (i + 1) bound (omega arith) (omega arith) narrow in
            (
              r,
              index-later fuel i bound in_text miss
                  ∙ ap (λ k. index_loop fuel k bound v needle m) next
                  ∙ run,
              IsFirst-later i (bound + 1) r miss first,
            )
      ]

  empty-occurs : (i : ℕ) → needle.size ≡ 0 → occurs v needle m i ≡ true
  empty-occurs i e = rw e (unfold strncmp strncmp_loop in refl)

-- `IndexOf` returns, given fuel for the indices at which the needle may stand and one round more: the
-- first index at which the needle is found, or `npos` where there is none, for a needle that is not
-- longer than the text.
pub index_of-IsFirst :
    (fuel : ℕ) (v needle : View) (m : Store)
    → needle.size ≤ v.size
    → v.size < 2 ^ 64
    → v.size - needle.size + 1 < fuel
    → (r : ℕ) × (index_of fuel v needle m ≡ some r)
      × IsFirst v needle m 0 (v.size - needle.size + 1) r
unfolding index_of
index_of-IsFirst zero v needle m h small enough = absurd (omega arith)
index_of-IsFirst (suc fuel) v needle m h small enough =
    let rounds : sub64 v.size needle.size ≡ v.size - needle.size = omega arith in
    rw rounds (elim (ℕ_discrete needle.size 0) [
      | no ne ↦
          index_loop-IsFirst v needle m (v.size - needle.size + 1) (suc fuel) 0
            (v.size - needle.size) (omega arith) enough (omega (arith, ne))
      | yes empty ↦
          let hit = empty-occurs v needle m 0 empty in
          (
            0,
            index-here v needle m fuel 0 (v.size - needle.size) (ground arith) hit,
            inl (omega arith, omega arith, hit, λ j a b. absurd (omega arith)),
          )
    ])
