-- ===== src/Interrupts/Idt/Table.antt =====
-- The table that `Initialize` builds leads every vector to its stub.
use boreal_os.Base.{
  ℕ, zero, suc, ◌+◌, ◌*◌, ◌/◌, ◌%◌, ◌^◌, ◌<◌, ◌≡◌, ◌≢◌, refl, ◌⊎◌, inl, inr, Bool-cases, ◌∙◌, ap,
  Bool, true, false, ◌==◌, ◌||◌, leb, ltb, ◌&&◌, if◌then◌else◌, u8, arith,
}
use native.Mathlib.Decide.{ℕ_discrete}
use boreal_os.Base.Masks.{bit_and_low}
use boreal_os.Interrupts.Idt.{
  IdtEntry, put, make_entry, set_idt_entry, fill_loop, use_ist, build_table,
}

-- The address that the processor calls.
abbrev pub handler_of : IdtEntry → ℕ
handler_of e = e.offset_low + e.offset_middle * 2 ^ 16 + e.offset_high * 2 ^ 32

handler_of-make_entry : (isr flags : ℕ) → isr < 2 ^ 64 → handler_of (make_entry isr flags) ≡ isr
unfolding make_entry
handler_of-make_entry isr flags h =
    omega (arith, bit_and_low 16 isr, bit_and_low 16 (isr / 2 ^ 16), bit_and_low 32 (isr / 2 ^ 32))

module _ (vec : ℕ) where
  set_idt_entry-same :
      (isr : ℕ) (entries : ℕ → IdtEntry)
      → vec < 256
      → set_idt_entry (u8 vec) isr 0x8E entries vec ≡ make_entry isr 0x8E
  unfolding set_idt_entry put
  set_idt_entry-same isr entries h =
      let hit : (vec % 2 ^ 8 == vec) ≡ true = ground arith in rw hit refl

  set_idt_entry-other :
      (x isr : ℕ) (entries : ℕ → IdtEntry)
      → vec < 256
      → x ≢ vec
      → set_idt_entry (u8 vec) isr 0x8E entries x ≡ entries x
  unfolding set_idt_entry put
  set_idt_entry-other x isr entries h ne =
      let miss : (vec % 2 ^ 8 == x) ≡ false = ground arith in rw miss refl

fill_loop_lem :
    (left vec x : ℕ) (stubs : ℕ → ℕ) (entries : ℕ → IdtEntry)
    → left + vec ≡ 256
    → fill_loop left vec stubs entries x
      ≡ (if leb vec x && ltb x 256 then make_entry (stubs x) 0x8E else entries x)
unfolding fill_loop
fill_loop_lem zero vec x stubs entries e =
    let outside : (leb vec x && ltb x 256) ≡ false = ground arith in rw outside refl
fill_loop_lem (suc left) vec x stubs entries e =
    fill_loop_lem left (vec + 1) x stubs (set_idt_entry (u8 vec) (stubs vec) 0x8E entries)
      (omega arith)
    ∙ elim (ℕ_discrete x vec) [
      | yes here ↦
          let over : (leb (vec + 1) vec && ltb vec 256) ≡ false = ground arith in
          let now : (leb vec vec && ltb vec 256) ≡ true = ground arith in
          rw (here, over, now) (set_idt_entry-same vec (stubs vec) entries (omega arith))
      | no ne ↦
          let later : (leb (vec + 1) x && ltb x 256) ≡ (leb vec x && ltb x 256) = ground arith in
          rw (later, set_idt_entry-other vec x (stubs vec) entries (omega arith) ne) refl
    ]

-- A fault that runs on a stack of its own: double fault, general protection and page fault.
abbrev pub has_own_stack : ℕ → Bool
has_own_stack x = x == 8 || (x == 13 || x == 14)

use_ist-at :
    (vector x : ℕ) (entries : ℕ → IdtEntry)
    → use_ist vector entries x
      ≡ (if vector == x then record (entries vector) { ist = 1 } else entries x)
unfolding use_ist put
use_ist-at vector x entries = refl

module _ (stubs : ℕ → ℕ) (entries : ℕ → IdtEntry) where
  filled : (y : ℕ) → y < 256 → fill_loop 256 0 stubs entries y ≡ make_entry (stubs y) 0x8E
  filled y g =
      let inside : (leb 0 y && ltb y 256) ≡ true = ground arith in
      fill_loop_lem 256 0 y stubs entries refl ∙ rw inside refl

  abbrev expected : ℕ → IdtEntry
  expected x = record (make_entry (stubs x) 0x8E) { ist = if has_own_stack x then 1 else 0 }

  build_table-plain :
      (x : ℕ) → x < 256 → has_own_stack x ≡ false → build_table stubs entries x ≡ expected x
  unfolding build_table use_ist put make_entry
  build_table-plain x h plain =
      let t8 : (8 == x) ≡ false = ground arith in
      let t13 : (13 == x) ≡ false = ground arith in
      let t14 : (14 == x) ≡ false = ground arith in rw (t14, t13, t8, plain) (filled x h)

  abbrev with_stack : IdtEntry → IdtEntry
  with_stack e = record e { ist = 1 }

  build_table-own :
      (x : ℕ) → (x ≡ 8) ⊎ ((x ≡ 13) ⊎ (x ≡ 14)) → build_table stubs entries x ≡ expected x
  unfolding build_table use_ist put
  build_table-own x (inl e) = rw e (ap with_stack (filled 8 (omega arith)))
  build_table-own x (inr (inl e)) = rw e (ap with_stack (filled 13 (omega arith)))
  build_table-own x (inr (inr e)) = rw e (ap with_stack (filled 14 (omega arith)))

  build_table-at : (x : ℕ) → x < 256 → build_table stubs entries x ≡ expected x
  build_table-at x h = elim (Bool-cases (has_own_stack x)) [
    | inl own ↦ build_table-own x (ground arith)
    | inr plain ↦ build_table-plain x h plain
  ]

-- After `Initialize` the entry of every vector leads to the vector's stub, through the kernel's code
-- segment and as a present interrupt gate, and switches to stack 1 for vectors 8, 13 and 14 alone.
pub build_table_lem :
    (stubs : ℕ → ℕ) (entries : ℕ → IdtEntry) (x : ℕ)
    → x < 256
    → stubs x < 2 ^ 64
    → (handler_of (build_table stubs entries x) ≡ stubs x)
      × ((build_table stubs entries x).selector ≡ 0x08)
      × ((build_table stubs entries x).type_attribute ≡ 0x8E)
      × ((build_table stubs entries x).ist ≡ (if has_own_stack x then 1 else 0))
unfolding make_entry
build_table_lem stubs entries x h small =
    rw (build_table-at stubs entries x h)
      (handler_of-make_entry (stubs x) 0x8E small, refl, refl, refl)
