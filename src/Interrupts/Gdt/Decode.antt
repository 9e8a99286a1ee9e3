-- ===== src/Interrupts/Gdt/Decode.antt =====
-- The processor reads from a descriptor the base and the limit that were put in.
use boreal_os.Base.{
  ℕ, ◌+◌, ◌-◌, ◌*◌, ◌/◌, ◌%◌, ◌^◌, ◌<◌, ◌≡◌, ◌≢◌, refl, sym, ◌∙◌, ◌==◌, ==_self, ==_ne, false,
  bit_and, arith,
}
use boreal_os.Base.Masks.{bit_and_low, bit_and_high, zero-bit_or}
use boreal_os.Base.Fields.{field, or_above}
use boreal_os.Base.Store.{Store, store}
use boreal_os.Interrupts.Gdt.{
  slot, entry_word, make_entry, set_entry, tss_low, tss_high, set_tss_descriptor, tss_size,
  write_descriptors, initialize, initialize_task, cleared_task, get_tss_struct, table_size,
  Segments,
}

-- The layout of a segment descriptor: the base in bits 16 to 39 and 56 to 63, the limit in bits 0 to
-- 15 and 48 to 51.
abbrev pub base_of : ℕ → ℕ
base_of word = field 16 24 word + field 56 8 word * 2 ^ 24

abbrev pub limit_of : ℕ → ℕ
limit_of word = field 0 16 word + field 48 4 word * 2 ^ 16

tss_low-sum :
    (base limit : ℕ)
    → tss_low base limit
      ≡ limit % 2 ^ 16
        + base % 2 ^ 24 * 2 ^ 16
        + 0x89 * 2 ^ 40
        + limit / 2 ^ 16 % 2 ^ 4 * 2 ^ 48
        + base / 2 ^ 24 % 2 ^ 8 * 2 ^ 56
unfolding tss_low
tss_low-sum base limit =
    let a = limit % 2 ^ 16 in
    let b = base % 2 ^ 24 in
    let c = limit / 2 ^ 16 % 2 ^ 4 in
    let d = base / 2 ^ 24 % 2 ^ 8 in
    rw
      (
        bit_and_low 16 limit,
        bit_and_low 24 base,
        bit_and_low 4 (limit / 2 ^ 16),
        bit_and_low 8 (base / 2 ^ 24),
        zero-bit_or a,
        or_above 16 a b (omega arith) (omega arith),
        or_above 40 (a + b * 2 ^ 16) 0x89 (omega arith) (omega arith),
        or_above 48 (a + b * 2 ^ 16 + 0x89 * 2 ^ 40) c (omega arith) (omega arith),
        or_above 56 (a + b * 2 ^ 16 + 0x89 * 2 ^ 40 + c * 2 ^ 48) d (omega arith) (omega arith),
      )
      refl

make_entry-sum :
    (base limit access granularity : ℕ)
    → granularity < 256
    → entry_word (make_entry base limit access granularity)
      ≡ limit % 2 ^ 16
        + base % 2 ^ 16 * 2 ^ 16
        + base / 2 ^ 16 % 2 ^ 8 * 2 ^ 32
        + access * 2 ^ 40
        + (limit / 2 ^ 16 % 2 ^ 4 + granularity / 2 ^ 4 * 2 ^ 4) * 2 ^ 48
        + base / 2 ^ 24 % 2 ^ 8 * 2 ^ 56
unfolding entry_word make_entry
make_entry-sum base limit access granularity h =
    let c = limit / 2 ^ 16 % 2 ^ 4 in
    rw
      (
        bit_and_low 16 limit,
        bit_and_low 16 base,
        bit_and_low 8 (base / 2 ^ 16),
        bit_and_low 4 (limit / 2 ^ 16),
        bit_and_low 8 (base / 2 ^ 24),
        bit_and_high 4 4 granularity (omega arith),
        or_above 4 c (granularity / 2 ^ 4) (omega arith) (omega arith),
      )
      refl

-- A descriptor of a segment, as `SetEntry` packs it: the base, the limit, the access byte and the
-- upper half of the granularity byte are read back, for a base of 32 bits and a limit of 20.
pub make_entry_lem :
    (base limit access granularity : ℕ)
    → base < 2 ^ 32
    → limit < 2 ^ 20
    → access < 256
    → granularity < 256
    → (base_of (entry_word (make_entry base limit access granularity)) ≡ base)
      × (limit_of (entry_word (make_entry base limit access granularity)) ≡ limit)
      × (field 40 8 (entry_word (make_entry base limit access granularity)) ≡ access)
      × (field 52 4 (entry_word (make_entry base limit access granularity)) ≡ granularity / 2 ^ 4)
make_entry_lem base limit access granularity hb hl ha hg =
    let sum = make_entry-sum base limit access granularity hg in
    (omega (arith, sum), omega (arith, sum), omega (arith, sum), omega (arith, sum))

-- The task state's descriptor, as `SetTSSDescriptor` packs it into two words: the base of 64 bits,
-- the limit of 20 and the access byte 0x89 are read back.
pub tss_descriptor_lem :
    (base limit : ℕ)
    → base < 2 ^ 64
    → limit < 2 ^ 20
    → (base_of (tss_low base limit) + tss_high base * 2 ^ 32 ≡ base)
      × (limit_of (tss_low base limit) ≡ limit)
      × (field 40 8 (tss_low base limit) ≡ 0x89)
unfolding tss_high
tss_descriptor_lem base limit hb hl =
    let sum = tss_low-sum base limit in
    let high = zero-bit_or (bit_and (base / 2 ^ 32) 0xFFFFFFFF) ∙ bit_and_low 32 (base / 2 ^ 32) in
    (omega (arith, sum, high), omega (arith, sum), omega (arith, sum))

module _ (cpu tss_address : ℕ) (entries : Store) where
  write_descriptors-low :
      write_descriptors cpu tss_address entries (slot cpu 3) ≡ tss_low tss_address (tss_size - 1)
  unfolding write_descriptors set_entry set_tss_descriptor store
  write_descriptors-low = ground arith

  write_descriptors-high :
      write_descriptors cpu tss_address entries (slot cpu 4) ≡ tss_high tss_address
  unfolding write_descriptors set_entry set_tss_descriptor store
  write_descriptors-high = ground arith

  write_descriptors-others :
      (other index : ℕ)
      → other ≢ cpu
      → index < 8
      → write_descriptors cpu tss_address entries (slot other index) ≡ entries (slot other index)
  unfolding write_descriptors set_entry set_tss_descriptor store
  write_descriptors-others other index ne small = ground arith

base_of-write_descriptors :
    (cpu tss_address : ℕ) (entries : Store)
    → tss_address < 2 ^ 64
    → (base_of (write_descriptors cpu tss_address entries (slot cpu 3))
          + write_descriptors cpu tss_address entries (slot cpu 4) * 2 ^ 32
        ≡ tss_address)
      × (limit_of (write_descriptors cpu tss_address entries (slot cpu 3)) ≡ tss_size - 1)
      × ((other index : ℕ)
          → other ≢ cpu
          → index < 8
          → write_descriptors cpu tss_address entries (slot other index)
            ≡ entries (slot other index))
base_of-write_descriptors cpu tss_address entries h =
    let (at_base, at_limit, _) = tss_descriptor_lem tss_address (tss_size - 1) h (omega arith) in
    (
      rw
          (
            write_descriptors-low cpu tss_address entries,
            write_descriptors-high cpu tss_address entries,
          )
          at_base,
      rw (write_descriptors-low cpu tss_address entries) at_limit,
      write_descriptors-others cpu tss_address entries,
    )

-- After `Initialize` of a CPU, whose task state lies below 2^64, the descriptor in slots 3 and 4 of its table
-- leads to its task state, with the limit of it; that has the two stacks, and no map of ports behind it;
-- the pointer that the CPU loads covers its table; and the tables, task states and pointers of all other
-- CPUs are as before.
pub base_of-initialize :
    (tss_base entries_base cpu rsp0 ts1 : ℕ) (s : Segments)
    → get_tss_struct tss_base cpu < 2 ^ 64
    → let t = initialize tss_base entries_base cpu rsp0 ts1 s in
      (base_of (t.entries (slot cpu 3)) + t.entries (slot cpu 4) * 2 ^ 32
        ≡ get_tss_struct tss_base cpu)
      × (limit_of (t.entries (slot cpu 3)) ≡ tss_size - 1)
      × (t.tasks cpu ≡ record cleared_task { rsp0 = rsp0; ist1 = ts1; io_map_base = tss_size })
      × (t.gdtp cpu ≡ record { limit = 8 * 8 - 1; base = entries_base + 8 * slot cpu 0 })
      × ((other : ℕ)
          → other ≢ cpu
          → (t.tasks other ≡ s.tasks other)
            × (t.gdtp other ≡ s.gdtp other)
            × ((index : ℕ)
                → index < 8
                → t.entries (slot other index) ≡ s.entries (slot other index)))
unfolding initialize initialize_task
base_of-initialize tss_base entries_base cpu rsp0 ts1 s h =
    let (at_base, at_limit, others) =
      base_of-write_descriptors cpu (get_tss_struct tss_base cpu) s.entries h in
    let here = ==_self cpu in
    let same : entries_base + table_size * cpu ≡ entries_base + 8 * slot cpu 0 = omega arith in
    (
      at_base,
      at_limit,
      rw here refl,
      rw (here, same) refl,
      λ other ne.
          let apart : (cpu == other) ≡ false = ==_ne cpu other (λ e. ne (sym e)) in
          (rw apart refl, rw apart refl, λ index lt. others other index ne lt),
    )
