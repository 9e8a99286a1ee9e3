-- ===== src/Tests/Vectors.antt =====
-- The table of vectors as `Initialize` leaves it, over zeroed bytes.
use boreal_os.Base.{false, List, [], ◌∷◌, ◌≡◌, ◌≤◌, ◌<◌, refl, ◌⊎◌, arith}
use boreal_os.Base.Bits.{test_bit}
use boreal_os.Base.Store.{Store, store}
use boreal_os.Memory.Pmm.Bitmap.{IsBytes, page_bit}
use boreal_os.Interrupts.Vectors.{allocate_vector, free_vector, reserve_vectors}
use boreal_os.Interrupts.Vectors.Laws.{
  taken, Granted, Exhausted, allocate_vector_lem, free_vector-allocate_vector,
}
use boreal_os.Interrupts.Vectors.Reserved.{Call, allocate, free, after, reserve_vectors-apart}

abbrev zeroed : Store
zeroed a = 0

abbrev booted : Store
booted = reserve_vectors zeroed

booted-IsBytes : IsBytes booted
unfolding reserve_vectors store
booted-IsBytes a = ground arith

allocate_vector_example :
    Granted booted (allocate_vector booted) ⊎ Exhausted booted (allocate_vector booted)
allocate_vector_example = allocate_vector_lem booted booted-IsBytes

free_32 : taken 32 booted ≡ false
unfolding reserve_vectors store page_bit test_bit
free_32 = refl

free_vector_example : free_vector (allocate_vector booted).0 (allocate_vector booted).1 ≡ booted
free_vector_example = free_vector-allocate_vector booted 32 booted-IsBytes (omega arith) free_32

-- A driver takes two vectors and gives the first one back.
abbrev driver : List Call
driver = allocate ∷ allocate ∷ free 32 ∷ []

reserve_vectors_example :
    ((32 ≤ (allocate_vector (after driver booted)).0)
      × ((allocate_vector (after driver booted)).0 < 253))
    ⊎ Exhausted (after driver booted) (allocate_vector (after driver booted))
reserve_vectors_example =
    reserve_vectors-apart zeroed driver (λ a. omega arith) ((omega arith, omega arith), tt)
