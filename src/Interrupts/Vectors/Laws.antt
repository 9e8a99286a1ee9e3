-- ===== src/Interrupts/Vectors/Laws.antt =====
-- What `AllocateVector` and `FreeVector` do to the set of vectors in use.
use boreal_os.Base.{
  ℕ, zero, suc, ◌+◌, ◌*◌, ◌/◌, ◌%◌, ◌^◌, ◌≤◌, ◌<◌, ◌≡◌, refl, sym, ◌∙◌, ap, ◌⊎◌, inl, inr, Bool,
  true, false, ◌==◌, ==_iff, Bool-cases, bit_or, arith,
}
use native.Mathlib.Decide.{ℕ_discrete, dec_lt}
use boreal_os.Base.Bits.{test_bit, set_bit, test_bit-full, full_of_bits}
use boreal_os.Base.Masks.{bit_or_fields, bit_and_low}
use boreal_os.Base.Store.{Store, store}
use boreal_os.Memory.Pmm.Bitmap.{page_bit, set_page, clear_page, IsBytes, clear_page-set_page}
use boreal_os.Interrupts.Vectors.{first_clear, allocate_loop, allocate_vector, free_vector}

-- Whether a vector is in use.
abbrev pub taken : ℕ → Store → Bool
taken vector vectors = page_bit 0 vector vectors

-- The lowest free vector is granted, and its bit is the only change.
pub record Granted (vectors : Store) (r : ℕ × Store) : Type 0 where
  pub small : r.0 < 256
  pub was_free : taken r.0 vectors ≡ false
  pub lowest : (q : ℕ) → q < r.0 → taken q vectors ≡ true
  pub after : r.1 ≡ set_page 0 r.0 vectors

pub clash : ¬ (true ≡ false)
clash e = cc

zero_left : (a : ℕ) → 0 + a ≡ a
zero_left a = omega arith

-- A byte other than 255 has a clear bit; the search stops at its lowest one.
record FirstClear (byte bit b : ℕ) : Type 0 where
  within : b ≤ 8
  before : (c : ℕ) → bit ≤ c → c < b → test_bit byte c ≡ true
  clear : (b < 8) → test_bit byte b ≡ false

first_clear_lem :
    (left bit byte : ℕ) → left + bit ≡ 8 → FirstClear byte bit (first_clear left bit byte)
unfolding first_clear
first_clear_lem zero bit byte e = record {
  within = omega arith;
  before = λ c h g. absurd (omega arith);
  clear = λ h. absurd (omega arith);
}
first_clear_lem (suc left) bit byte e = elim (Bool-cases (test_bit byte bit)) [
  | inl set ↦
      let r = first_clear_lem left (bit + 1) byte (omega arith) in
      rw set record {
        within = r.within;
        before = λ c h g. elim (ℕ_discrete c bit) [
          | yes same ↦ rw same set
          | no ne ↦ r.before c (omega arith) g
        ];
        clear = r.clear;
      }
  | inr free ↦
      rw free
        record { within = omega arith; before = λ c h g. absurd (omega arith); clear = λ h. free }
]

-- Every vector is in use, and nothing changes.
pub record Exhausted (vectors : Store) (r : ℕ × Store) : Type 0 where
  pub answer : r ≡ (0, vectors)
  pub full : (q : ℕ) → q < 256 → taken q vectors ≡ true

module _ (vectors : Store) (bytes : IsBytes vectors) where
  -- The byte that the loop stops at.
  module _ (i : ℕ) (small : i < 32) (not_full : (vectors i == 0xFF) ≡ false)
      (below : (q : ℕ) → q < 8 * i → taken q vectors ≡ true) where
    abbrev bit : ℕ
    bit = first_clear 8 0 (vectors i)

    found : FirstClear (vectors i) 0 bit
    found = first_clear_lem 8 0 (vectors i) refl

    bit-lt : bit < 8
    bit-lt = elim (dec_lt bit 8) [
      | yes h ↦ h
      | no h ↦
          let e : vectors i ≡ 255 =
            full_of_bits (vectors i) (bytes i)
              (λ b lt. found.before b (omega arith) (omega arith)) in
          ground (arith, not_full, e)
    ]

    vector-eq : bit_or (i * 2 ^ 3) bit ≡ i * 8 + bit
    vector-eq = bit_or_fields 3 i bit bit-lt

    bit_of : (q : ℕ) → q / 8 ≡ i → taken q vectors ≡ test_bit (vectors i) (q % 8)
    unfolding page_bit
    bit_of q e = rw (e, zero_left i) refl

    stop : Granted vectors (bit_or (i * 2 ^ 3) bit, store vectors i (set_bit (vectors i) bit))
    stop =
        let lt = bit-lt in
        rw vector-eq record {
          small = omega arith;
          was_free =
              bit_of (i * 8 + bit) (omega arith)
              ∙ ap (test_bit (vectors i)) (omega arith)
              ∙ found.clear lt;
          lowest = λ q h. elim (dec_lt q (8 * i)) [
            | yes g ↦ below q g
            | no g ↦ bit_of q (omega arith) ∙ found.before (q % 8) (omega arith) (omega arith)
          ];
          after = unfold set_page in rw (byte, place, zero_left i) refl;
        }
      where
        byte : (i * 8 + bit) / 8 ≡ i
        byte = omega (arith, bit-lt)

        place : (i * 8 + bit) % 8 ≡ bit
        place = omega (arith, bit-lt)

  allocate_loop_lem :
      (left i : ℕ)
      → left + i ≡ 32
      → ((q : ℕ) → q < 8 * i → taken q vectors ≡ true)
      → Granted vectors (allocate_loop left i vectors)
        ⊎ Exhausted vectors (allocate_loop left i vectors)
  unfolding allocate_loop
  allocate_loop_lem zero i e below =
      inr record { answer = refl; full = λ q h. below q (omega arith) }
  allocate_loop_lem (suc left) i e below = elim (Bool-cases (vectors i == 0xFF)) [
    | inl full ↦
        rw (allocate_loop, full)
          (allocate_loop_lem left (i + 1) (omega arith) (λ q h. elim (dec_lt q (8 * i)) [
            | yes g ↦ below q g
            | no g ↦
                unfold page_bit in
                ap (λ a. test_bit (vectors a) (q % 8)) (omega arith)
                ∙ ap (λ b. test_bit b (q % 8)) ((==_iff _ _).0 full)
                ∙ test_bit-full (q % 8) (omega arith)
          ]))
    | inr ne ↦ rw (allocate_loop, ne) (inl (stop i (omega arith) ne below))
  ]

  -- `AllocateVector` grants the lowest free vector and marks it as its only change; it answers 0 and
  -- changes nothing only if all 256 vectors are in use.
  pub allocate_vector_lem :
      Granted vectors (allocate_vector vectors) ⊎ Exhausted vectors (allocate_vector vectors)
  unfolding allocate_vector
  allocate_vector_lem = allocate_loop_lem 32 0 refl (λ q h. absurd (omega arith))

pub free_vector-eq : (v : ℕ) (vectors : Store) → free_vector v vectors ≡ clear_page 0 v vectors
unfolding free_vector clear_page
free_vector-eq v vectors = rw (bit_and_low 3 v, zero_left (v / 8)) refl

-- While a vector is free, `FreeVector` of the one that `AllocateVector` grants restores the set of vectors
-- in use.
pub free_vector-allocate_vector :
    (vectors : Store) (free : ℕ)
    → IsBytes vectors
    → free < 256
    → taken free vectors ≡ false
    → free_vector (allocate_vector vectors).0 (allocate_vector vectors).1 ≡ vectors
free_vector-allocate_vector vectors free bytes small unused =
    let v = (allocate_vector vectors).0 in
    elim (allocate_vector_lem vectors bytes) [
      | inr r ↦ absurd (clash (sym (r.full free small) ∙ unused))
      | inl g ↦
          ap (free_vector v) g.after
          ∙ free_vector-eq v (set_page 0 v vectors)
          ∙ clear_page-set_page 0 v vectors bytes g.was_free
    ]
