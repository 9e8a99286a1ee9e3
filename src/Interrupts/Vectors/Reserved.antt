-- ===== src/Interrupts/Vectors/Reserved.antt =====
-- The vectors that `Initialize` reserves are never granted, as long as nobody frees them.
use boreal_os.Base.{
  ℕ, ◌%◌, ◌≤◌, ◌<◌, ◌≡◌, sym, ◌∙◌, ap, subst, ◌⊎◌, inl, inr, true, arith, List, [], ◌∷◌,
}
use native.Mathlib.Decide.{dec_lt}
use boreal_os.Base.Bits.{test_bit, test_bit-full}
use boreal_os.Base.Store.{Store, store}
use boreal_os.Memory.Pmm.Bitmap.{
  page_bit, IsBytes, set_page-IsBytes, clear_page-IsBytes, page_bit-set_page, page_bit-clear_page,
}
use boreal_os.Interrupts.Vectors.{allocate_vector, free_vector, reserve_vectors}
use boreal_os.Interrupts.Vectors.Laws.{taken, clash, Exhausted, allocate_vector_lem, free_vector-eq}

-- What the drivers call.
pub data Call : Type 0 where
  allocate : Call
  free : (vector : ℕ) → Call

unfoldable pub after : List Call → Store → Store
after [] vectors = vectors
after (allocate ∷ calls) vectors = after calls (allocate_vector vectors).1
after (free vector ∷ calls) vectors = after calls (free_vector vector vectors)

-- Only vectors from 32 to 252 are freed.
abbrev pub FreesOwn : List Call → Type 0
FreesOwn [] = Unit
FreesOwn (allocate ∷ calls) = FreesOwn calls
FreesOwn (free vector ∷ calls) = ((32 ≤ vector) × (vector < 253)) × FreesOwn calls

-- The reserved vectors are in use.
record IsReserved (vectors : Store) : Type 0 where
  bytes : IsBytes vectors
  low : (q : ℕ) → q < 32 → taken q vectors ≡ true
  top : (q : ℕ) → 253 ≤ q → q < 256 → taken q vectors ≡ true

reserved_full : (q : ℕ) (vectors : Store) → q < 32 → taken q (reserve_vectors vectors) ≡ true
unfolding page_bit reserve_vectors store
reserved_full q vectors h = ground (arith, test_bit-full (q % 8) (omega arith))

reserved_top :
    (q : ℕ) (vectors : Store) → 253 ≤ q → q < 256 → taken q (reserve_vectors vectors) ≡ true
unfolding page_bit reserve_vectors store test_bit
reserved_top q vectors h g = let e : q ≡ 253 ⊎ (q ≡ 254 ⊎ q ≡ 255) = omega arith in ground arith

reserve_vectors-IsReserved :
    (vectors : Store) → IsBytes vectors → IsReserved (reserve_vectors vectors)
reserve_vectors-IsReserved vectors bytes = record {
  bytes = λ a. unfold reserve_vectors store in ground (arith, bytes a);
  low = λ q h. reserved_full q vectors h;
  top = λ q h g. reserved_top q vectors h g;
}

allocate-IsReserved :
    (vectors : Store) → IsReserved vectors → IsReserved (allocate_vector vectors).1
allocate-IsReserved vectors h = elim (allocate_vector_lem vectors h.bytes) [
  | inr r ↦ subst IsReserved (sym (ap (λ x. x.1) r.answer)) h
  | inl g ↦
      let v = (allocate_vector vectors).0 in
      subst IsReserved (sym g.after) record {
        bytes = set_page-IsBytes 0 v vectors h.bytes;
        low = λ q a. page_bit-set_page 0 v q vectors h.bytes ∙ ground (arith, h.low q a);
        top = λ q a b. page_bit-set_page 0 v q vectors h.bytes ∙ ground (arith, h.top q a b);
      }
]

free-IsReserved :
    (v : ℕ) (vectors : Store)
    → 32 ≤ v
    → v < 253
    → IsReserved vectors
    → IsReserved (free_vector v vectors)
free-IsReserved v vectors low high h = subst IsReserved (sym (free_vector-eq v vectors)) record {
  bytes = clear_page-IsBytes 0 v vectors h.bytes;
  low = λ q a. page_bit-clear_page 0 v q vectors h.bytes ∙ ground (arith, h.low q a);
  top = λ q a b. page_bit-clear_page 0 v q vectors h.bytes ∙ ground (arith, h.top q a b);
}

after-IsReserved :
    (calls : List Call) (vectors : Store)
    → FreesOwn calls
    → IsReserved vectors
    → IsReserved (after calls vectors)
unfolding after
after-IsReserved [] vectors own h = h
after-IsReserved (allocate ∷ calls) vectors own h =
    after-IsReserved calls (allocate_vector vectors).1 own (allocate-IsReserved vectors h)
after-IsReserved (free v ∷ calls) vectors ((low, high), own) h =
    after-IsReserved calls (free_vector v vectors) own (free-IsReserved v vectors low high h)

-- After the reservations of `Initialize` and any sequence of calls of `AllocateVector` and `FreeVector`
-- that frees vectors from 32 to 252 only, `AllocateVector` grants a vector from 32 to 252, or all the
-- vectors are in use.
pub reserve_vectors-apart :
    (vectors : Store) (calls : List Call)
    → IsBytes vectors
    → FreesOwn calls
    → let s = after calls (reserve_vectors vectors) in
      ((32 ≤ (allocate_vector s).0) × ((allocate_vector s).0 < 253))
      ⊎ Exhausted s (allocate_vector s)
reserve_vectors-apart vectors calls bytes own =
    let s = after calls (reserve_vectors vectors) in
    let r =
      after-IsReserved calls (reserve_vectors vectors) own
        (reserve_vectors-IsReserved vectors bytes) in
    let v = (allocate_vector s).0 in
    elim (allocate_vector_lem s r.bytes) [
      | inr full ↦ inr full
      | inl g ↦ inl (
        elim (dec_lt v 32) [
          | yes h ↦ absurd (clash (sym (r.low v h) ∙ g.was_free))
          | no h ↦ omega arith
        ],
        elim (dec_lt v 253) [
          | yes h ↦ h
          | no h ↦ absurd (clash (sym (r.top v (omega arith) g.small) ∙ g.was_free))
        ],
      )
    ]
