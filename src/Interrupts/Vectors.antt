-- ===== src/Interrupts/Vectors.antt =====
-- kernel/Interrupts/IDT.cpp: `AllocateVector` and `FreeVector` over the 32 bytes `_allocatedVectors`,
-- one bit for each of the 256 vectors.
pub mod Laws
pub mod Reserved
use boreal_os.Base.{
  ℕ, zero, suc, ◌+◌, ◌*◌, ◌/◌, ◌^◌, Bool, true, false, ◌==◌, if◌then◌else◌, bit_or, bit_and,
}
use boreal_os.Base.Bits.{test_bit, set_bit, clear_bit}
use boreal_os.Base.Store.{Store, store}

-- `__builtin_ffs(~byte) - 1`: the lowest bit that is not set, looked for from `bit` on.
unfoldable pub first_clear : ℕ → ℕ → ℕ → ℕ
first_clear zero bit byte = bit
first_clear (suc left) bit byte = if test_bit byte bit then first_clear left (bit + 1) byte else bit

unfoldable pub allocate_loop : ℕ → ℕ → Store → ℕ × Store
allocate_loop zero i vectors = (0, vectors)
allocate_loop (suc left) i vectors = elim (vectors i == 0xFF) [
  | true ↦ allocate_loop left (i + 1) vectors
  | false ↦
      let bit = first_clear 8 0 (vectors i) in
      (bit_or (i * 2 ^ 3) bit, store vectors i (set_bit (vectors i) bit))
]

unfoldable pub allocate_vector : Store → ℕ × Store
allocate_vector vectors = allocate_loop 32 0 vectors

unfoldable pub free_vector : ℕ → Store → Store
free_vector vector vectors =
    let i = vector / 2 ^ 3 in
    let bit = bit_and vector 7 in store vectors i (clear_bit (vectors i) bit)

-- The reservations that `Initialize` makes: vectors 0 to 31, and 253 to 255.
unfoldable pub reserve_vectors : Store → Store
reserve_vectors vectors =
    store (store (store (store (store vectors 0 0xFF) 1 0xFF) 2 0xFF) 3 0xFF) 31 0xE0
