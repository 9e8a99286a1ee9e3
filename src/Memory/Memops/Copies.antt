-- ===== src/Memory/Memops/Copies.antt =====
-- What the byte routines leave in memory, the overlap of source and destination included.
use boreal_os.Base.{
  ℕ, zero, suc, ◌+◌, ◌-◌, ◌%◌, ◌^◌, ◌≤◌, ◌<◌, ◌≡◌, refl, sym, ◌∙◌, ap, ◌⊎◌, inl, inr, false, ◌&&◌,
  ltb, leb, ◌==◌, ==_iff, Bool-cases, if◌then◌else◌, u8, arith,
}
use native.Mathlib.Decide.{ℕ_discrete}
use boreal_os.Base.Store.{Store, store}
use boreal_os.Memory.Memops.{
  copy_up, copy_down, memcpy, memmove, set_loop, memset, Sign, below, same, above, compare_loop,
  memcmp,
}

-- The memory `m` with `n` bytes from `dest` on taken from `src` on, all at once.
abbrev pub moved : ℕ → ℕ → ℕ → Store → ℕ → ℕ
moved dest src n m a = if leb dest a && ltb a (dest + n) then m (src + (a - dest)) else m a

-- A rising loop reads a byte before it writes it if it writes below its reads, or apart from them.
copy_up_lem :
    (left i dest src a : ℕ) (m : Store)
    → (dest ≤ src) ⊎ (src + (i + left) ≤ dest)
    → copy_up left i dest src m a
      ≡ (if leb (dest + i) a && ltb a (dest + (i + left)) then m (src + (a - dest)) else m a)
unfolding copy_up
copy_up_lem zero i dest src a m clear =
    let outside : (leb (dest + i) a && ltb a (dest + (i + 0))) ≡ false = ground arith in
    rw outside refl
copy_up_lem (suc left) i dest src a m clear =
    copy_up_lem left (i + 1) dest src a (store m (dest + i) (m (src + i))) (omega arith)
    ∙ unfold store in
      elim (ℕ_discrete a (dest + i)) [
        | yes here ↦ let index : src + (a - dest) ≡ src + i = omega arith in rw index (ground arith)
        | no ne ↦ ground arith
      ]

copy_down_lem :
    (i dest src a : ℕ) (m : Store) → src ≤ dest → copy_down i dest src m a ≡ moved dest src i m a
unfolding copy_down
copy_down_lem zero dest src a m h =
    let outside : (leb dest a && ltb a (dest + 0)) ≡ false = ground arith in rw outside refl
copy_down_lem (suc i) dest src a m h =
    copy_down_lem i dest src a (store m (dest + i) (m (src + i))) h
    ∙ unfold store in
      elim (ℕ_discrete a (dest + i)) [
        | yes here ↦ let index : src + (a - dest) ≡ src + i = omega arith in rw index (ground arith)
        | no ne ↦ ground arith
      ]

moved_self : (dest n a : ℕ) (m : Store) → moved dest dest n m a ≡ m a
moved_self dest n a m = elim (Bool-cases (leb dest a && ltb a (dest + n))) [
  | inl inside ↦ let index : dest + (a - dest) ≡ a = ground arith in rw inside (ap m index)
  | inr outside ↦ rw outside refl
]

-- `memmove` leaves at every address what was at the source before the call, however source and
-- destination overlap, and changes nothing outside the destination.
pub memmove_lem : (dest src n a : ℕ) (m : Store) → memmove dest src n m a ≡ moved dest src n m a
unfolding memmove
memmove_lem dest src n a m = elim (Bool-cases (ltb dest src)) [
  | inl up ↦
      let from : dest + 0 ≡ dest = omega arith in
      let length : dest + (0 + n) ≡ dest + n = omega arith in
      rw up (rw (from, length) at (copy_up_lem n 0 dest src a m (inl (ground arith))))
  | inr rest ↦ elim (Bool-cases (ltb src dest)) [
    | inl down ↦ rw (rest, down) (copy_down_lem n dest src a m (ground arith))
    | inr equal ↦
        let e : src ≡ dest = ground arith in rw (rest, equal) (rw e (sym (moved_self dest n a m)))
  ]
]

-- `memcpy` does what `memmove` does where the destination does not begin inside the source.
pub memcpy-memmove :
    (dest src n a : ℕ) (m : Store)
    → (dest ≤ src) ⊎ (src + n ≤ dest)
    → memcpy dest src n m a ≡ memmove dest src n m a
unfolding memcpy
memcpy-memmove dest src n a m clear =
    let from : dest + 0 ≡ dest = omega arith in
    let length : dest + (0 + n) ≡ dest + n = omega arith in
    rw (from, length) at (copy_up_lem n 0 dest src a m (omega arith))
    ∙ sym (memmove_lem dest src n a m)

set_loop_lem :
    (left i s c a : ℕ) (m : Store)
    → set_loop left i s c m a ≡ (if leb (s + i) a && ltb a (s + (i + left)) then u8 c else m a)
unfolding set_loop
set_loop_lem zero i s c a m =
    let outside : (leb (s + i) a && ltb a (s + (i + 0))) ≡ false = ground arith in rw outside refl
set_loop_lem (suc left) i s c a m =
    set_loop_lem left (i + 1) s c a (store m (s + i) (u8 c))
    ∙ unfold store in elim (ℕ_discrete a (s + i)) [ yes here ↦ ground arith | no ne ↦ ground arith ]

-- `memset` writes the low byte of its value to the `n` bytes, and nothing else.
pub memset_lem :
    (s c n a : ℕ) (m : Store)
    → memset s c n m a ≡ (if leb s a && ltb a (s + n) then c % 2 ^ 8 else m a)
unfolding memset
memset_lem s c n a m =
    let from : s + 0 ≡ s = omega arith in
    let length : s + (0 + n) ≡ s + n = omega arith in
    rw (from, length) at (set_loop_lem n 0 s c a m)

-- The bytes from index `i` up to index `k` are the same.
abbrev Agree : ℕ → ℕ → ℕ → ℕ → Store → Type 0
Agree i k s1 s2 m = (j : ℕ) → i ≤ j → j < k → m (s1 + j) ≡ m (s2 + j)

-- What a sign says of `n` bytes from index `i` on: they are the same, or the first that differs
-- decides.
abbrev pub Compared : Sign → ℕ → ℕ → ℕ → ℕ → Store → Type 0
Compared same i n s1 s2 m = Agree i (i + n) s1 s2 m
Compared below i n s1 s2 m =
    (k : ℕ) × (i ≤ k) × (k < i + n) × Agree i k s1 s2 m × (m (s1 + k) < m (s2 + k))
Compared above i n s1 s2 m =
    (k : ℕ) × (i ≤ k) × (k < i + n) × Agree i k s1 s2 m × (m (s2 + k) < m (s1 + k))

Agree-extend :
    (i k s1 s2 : ℕ) (m : Store)
    → m (s1 + i) ≡ m (s2 + i)
    → Agree (i + 1) k s1 s2 m
    → Agree i k s1 s2 m
Agree-extend i k s1 s2 m e later j a b = elim (ℕ_discrete j i) [
  | yes here ↦ rw here e
  | no ne ↦ later j (omega arith) b
]

Compared-extend :
    (sign : Sign) (i n s1 s2 : ℕ) (m : Store)
    → m (s1 + i) ≡ m (s2 + i)
    → Compared sign (i + 1) n s1 s2 m
    → Compared sign i (suc n) s1 s2 m
Compared-extend same i n s1 s2 m e later =
    Agree-extend i (i + suc n) s1 s2 m e (λ j a b. later j a (omega arith))
Compared-extend below i n s1 s2 m e (k, a, b, agree, less) =
    (k, omega arith, omega arith, Agree-extend i k s1 s2 m e agree, less)
Compared-extend above i n s1 s2 m e (k, a, b, agree, less) =
    (k, omega arith, omega arith, Agree-extend i k s1 s2 m e agree, less)

compare_loop-Compared :
    (left i s1 s2 : ℕ) (m : Store) → Compared (compare_loop left i s1 s2 m) i left s1 s2 m
unfolding compare_loop
compare_loop-Compared zero i s1 s2 m = λ j a b. absurd (omega arith)
compare_loop-Compared (suc left) i s1 s2 m = elim (Bool-cases (m (s1 + i) == m (s2 + i))) [
  | inl e ↦
      let equal = (==_iff _ _).0 e in
      rw (compare_loop, e)
        (Compared-extend (compare_loop left (i + 1) s1 s2 m) i left s1 s2 m equal
          (compare_loop-Compared left (i + 1) s1 s2 m))
  | inr ne ↦ elim (Bool-cases (ltb (m (s1 + i)) (m (s2 + i)))) [
    | inl less ↦
        rw (compare_loop, ne, less)
          (i, omega arith, omega arith, (λ j a b. absurd (omega arith)), ground arith)
    | inr more ↦
        rw (compare_loop, ne, more)
          (i, omega arith, omega arith, (λ j a b. absurd (omega arith)), ground arith)
  ]
]

-- `memcmp` is the lexicographic comparison of the two runs of bytes: 0 says that all are the same,
-- and otherwise the first byte that differs decides the sign.
pub memcmp-Compared : (s1 s2 n : ℕ) (m : Store) → Compared (memcmp s1 s2 n m) 0 n s1 s2 m
unfolding memcmp
memcmp-Compared s1 s2 n m = compare_loop-Compared n 0 s1 s2 m
