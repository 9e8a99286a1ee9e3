-- ===== src/Utility/Strings/Compare.antt =====
-- What a comparison that gives 0 says of the two texts.
use boreal_os.Base.{
  false≢true, ℕ, zero, suc, ◌+◌, ◌≤◌, ◌<◌, ◌≡◌, ◌≢◌, ◌↔◌, refl, sym, subst, ◌∙◌, true, false, ◌==◌,
  ==_iff, Bool-cases, arith, inl, inr,
}
use native.Mathlib.Decide.{ℕ_discrete}
use boreal_os.Base.Int.{ℤ, pos, negsuc, sub_ℕ, sub_ℕ_zero}
use boreal_os.Base.Store.{Store}
use boreal_os.Utility.Strings.{strncmp_loop, strncmp, View, is_zero, view_eq}

-- From index `i` up to `n`, the bytes are the same as far as no byte before is 0.
abbrev pub SameText : ℕ → ℕ → ℕ → ℕ → Store → Type 0
SameText i n s1 s2 m =
    (k : ℕ) → i ≤ k → k < n → ((j : ℕ) → i ≤ j → j < k → m (s1 + j) ≢ 0) → m (s1 + k) ≡ m (s2 + k)

-- One round of the loop.
module _ (left i s1 s2 : ℕ) (m : Store) where
  strncmp-differ :
      (m (s1 + i) == m (s2 + i)) ≡ false
      → strncmp_loop (suc left) i s1 s2 m ≡ sub_ℕ (m (s1 + i)) (m (s2 + i))
  unfolding strncmp_loop
  strncmp-differ d = rw (strncmp_loop, d) refl

  strncmp-stop :
      (m (s1 + i) == m (s2 + i)) ≡ true
      → (m (s1 + i) == 0) ≡ true
      → strncmp_loop (suc left) i s1 s2 m ≡ pos 0
  unfolding strncmp_loop
  strncmp-stop e z = rw (strncmp_loop, e, z) refl

  strncmp-go :
      (m (s1 + i) == m (s2 + i)) ≡ true
      → (m (s1 + i) == 0) ≡ false
      → strncmp_loop (suc left) i s1 s2 m ≡ strncmp_loop left (i + 1) s1 s2 m
  unfolding strncmp_loop
  strncmp-go e z = rw (strncmp_loop, e, z) refl

==_false : (a b : ℕ) → (a == b) ≡ false → a ≢ b
==_false a b h = ground arith

strncmp_loop-same :
    (left i s1 s2 : ℕ) (m : Store)
    → strncmp_loop left i s1 s2 m ≡ pos 0
    → SameText i (i + left) s1 s2 m
strncmp_loop-same zero i s1 s2 m e k a b h = absurd (omega arith)
strncmp_loop-same (suc left) i s1 s2 m e k a b h = elim (Bool-cases (m (s1 + i) == m (s2 + i))) [
  | inr differ ↦
      let z = sym (strncmp-differ left i s1 s2 m differ) ∙ e in
      ground (arith, differ, (sub_ℕ_zero (m (s1 + i)) (m (s2 + i))).0 z)
  | inl same ↦ elim (ℕ_discrete k i) [
    | yes here ↦ rw here ((==_iff _ _).0 same)
    | no ne ↦
        let more : (m (s1 + i) == 0) ≡ false = ground (arith, h i) in
        strncmp_loop-same left (i + 1) s1 s2 m (sym (strncmp-go left i s1 s2 m same more) ∙ e) k
          (omega arith) (omega arith) (λ j c d. h j (omega arith) d)
  ]
]

strncmp_loop-zero :
    (left i s1 s2 : ℕ) (m : Store)
    → SameText i (i + left) s1 s2 m
    → strncmp_loop left i s1 s2 m ≡ pos 0
strncmp_loop-zero zero i s1 s2 m same = unfold strncmp_loop in refl
strncmp_loop-zero (suc left) i s1 s2 m same =
    let first : m (s1 + i) ≡ m (s2 + i) =
      same i (omega arith) (omega arith) (λ j a b. absurd (omega arith)) in
    let e : (m (s1 + i) == m (s2 + i)) ≡ true = ground (arith, first) in
    elim (Bool-cases (m (s1 + i) == 0)) [
      | inl stop ↦ strncmp-stop left i s1 s2 m e stop
      | inr more ↦
          strncmp-go left i s1 s2 m e more
          ∙ strncmp_loop-zero left (i + 1) s1 s2 m (λ k a b h.
            same k (omega arith) (omega arith) (λ j c d. elim (ℕ_discrete j i) [
              | yes here ↦ rw here (λ z. ==_false (m (s1 + i)) 0 more z)
              | no ne ↦ h j (omega arith) d
            ]))
    ]

-- `strncmp` gives 0 just if the two texts are the same in the first `n` bytes, as far as none before is
-- their end.
pub strncmp-zero_iff :
    (s1 s2 n : ℕ) (m : Store) → (strncmp s1 s2 n m ≡ pos 0) ↔ SameText 0 n s1 s2 m
unfolding strncmp
strncmp-zero_iff s1 s2 n m =
    let bound : 0 + n ≡ n = omega arith in
    (
      λ e. subst (λ b. SameText 0 b s1 s2 m) bound (strncmp_loop-same n 0 s1 s2 m e),
      λ h. strncmp_loop-zero n 0 s1 s2 m (subst (λ b. SameText 0 b s1 s2 m) (sym bound) h),
    )

pub is_zero_iff : (z : ℤ) → (is_zero z ≡ true) ↔ (z ≡ pos 0)
is_zero_iff (pos n) = ground arith
is_zero_iff (negsuc n) = ground arith

-- Two views of which the first holds no end of text are equal just if they have the same size and the
-- same bytes.
pub view_eq_iff :
    (v w : View) (m : Store)
    → ((k : ℕ) → k < v.size → m (v.start + k) ≢ 0)
    → (view_eq v w m ≡ true)
      ↔ ((v.size ≡ w.size) × ((k : ℕ) → k < v.size → m (v.start + k) ≡ m (w.start + k)))
view_eq_iff v w m full = elim (Bool-cases (v.size == w.size)) [
  | inr differ ↦
      unfold view_eq in
      rw differ ((λ e. absurd (false≢true e)), λ h. absurd (==_false v.size w.size differ h.0))
  | inl same ↦
      unfold view_eq in
      rw same (
        λ z.
            let text = (strncmp-zero_iff v.start w.start v.size m).0 ((is_zero_iff _).0 z) in
            ((==_iff _ _).0 same, λ k h. text k (omega arith) h (λ j a b. full j (omega arith))),
        λ h. (is_zero_iff _).1 ((strncmp-zero_iff v.start w.start v.size m).1 (λ k a b c. h.1 k b)),
      )
]
