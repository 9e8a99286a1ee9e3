-- ===== src/Interrupts/Ioapic/Manager/Overrides.antt =====
-- The last override that the firmware lists for an interrupt decides where it goes.
use boreal_os.Base.{
  ℕ, zero, suc, ◌+◌, ◌≤◌, ◌<◌, ◌≡◌, ◌≢◌, refl, sym, ◌∙◌, ap, subst, ◌⊎◌, inl, inr, Bool, true,
  false, not, ◌&&◌, ltb, ◌==◌, ==_ne, ==_self, Bool-cases, arith, Option, none, some,
}
use native.Mathlib.Decide.{ℕ_discrete}
use boreal_os.Base.Store.{Store}
use boreal_os.Firmware.Acpi.{read_u32, madt_size, find_madt_entry, find_madt_entry_count}
use boreal_os.Firmware.Acpi.Tables.{read_u16}
use boreal_os.Firmware.Acpi.Entries.{EntryAt, find_madt_entry_lem}
use boreal_os.Interrupts.Ioapic.Manager.{
  IrqMapping, Mappings, irq_src_override_type, set_mapping, identity_loop, apply_override,
  override_loop, build_mappings,
}

abbrev pub identity : ℕ → IrqMapping
identity irq = record { gsi = irq; iso_flags = 0 }

set_mapping_self : (i : ℕ) (a : IrqMapping) (irqs : Mappings) → set_mapping i a irqs i ≡ a
unfolding set_mapping
set_mapping_self i a irqs = rw (==_self i) refl

set_mapping_ne :
    (i j : ℕ) (a : IrqMapping) (irqs : Mappings) → i ≢ j → set_mapping i a irqs j ≡ irqs j
unfolding set_mapping
set_mapping_ne i j a irqs ne = rw (==_ne i j ne) refl

identity_loop-below :
    (left i irq : ℕ) (irqs : Mappings) → irq < i → identity_loop left i irqs irq ≡ irqs irq
unfolding identity_loop
identity_loop-below zero i irq irqs lt = refl
identity_loop-below (suc left) i irq irqs lt =
    identity_loop-below left (i + 1) irq _ (omega arith)
    ∙ set_mapping_ne i irq (identity i) irqs (omega arith)

identity_loop_lem :
    (left i irq : ℕ) (irqs : Mappings)
    → i ≤ irq
    → irq < i + left
    → identity_loop left i irqs irq ≡ identity irq
unfolding identity_loop
identity_loop_lem zero i irq irqs a b = absurd (omega arith)
identity_loop_lem (suc left) i irq irqs a b = elim (ℕ_discrete irq i) [
  | yes here ↦
      rw here
        (identity_loop-below left (i + 1) i _ (omega arith) ∙ set_mapping_self i (identity i) irqs)
  | no ne ↦ identity_loop_lem left (i + 1) irq _ (omega arith) (omega arith)
]

abbrev pub entry_of : Option ℕ → ℕ
entry_of none = 0
entry_of (some a) = a

-- The entry of an override, and whether it is there and names an interrupt.
abbrev pub override_at : ℕ → ℕ → Store → ℕ → ℕ
override_at fuel madt m j = entry_of (find_madt_entry fuel madt irq_src_override_type j m)

abbrev pub names_irq : Store → ℕ → ℕ → Bool
names_irq m entry irq = not (entry == 0) && m (entry + 3) == irq

-- The mapping of an interrupt is that of the last override from `first` up to `last` that names it, or
-- what it was before.
abbrev pub IsOverridden : ℕ → ℕ → Store → ℕ → ℕ → ℕ → IrqMapping → IrqMapping → Type 0
IsOverridden fuel madt m first last irq before r =
    ((k : ℕ) × (first ≤ k)
      × (k < last)
      × (names_irq m (override_at fuel madt m k) irq ≡ true)
      × ((j : ℕ) → k < j → j < last → names_irq m (override_at fuel madt m j) irq ≡ false)
      × (r ≡ record {
        gsi = read_u32 (override_at fuel madt m k + 4) m;
        iso_flags = read_u16 (override_at fuel madt m k + 8) m;
      }))
    ⊎ ((r ≡ before)
        × ((j : ℕ) → first ≤ j → j < last → names_irq m (override_at fuel madt m j) irq ≡ false))

apply-named :
    (entry irq : ℕ) (m : Store) (irqs : Mappings)
    → irq < 16
    → names_irq m entry irq ≡ true
    → apply_override entry m irqs irq
      ≡ record { gsi = read_u32 (entry + 4) m; iso_flags = read_u16 (entry + 8) m }
unfolding apply_override
apply-named entry irq m irqs small e =
    let there : (entry == 0) ≡ false = ground arith in
    let source : m (entry + 3) ≡ irq = ground arith in
    let old : ltb irq 16 ≡ true = ground arith in
    rw (there, source, old) (set_mapping_self irq _ irqs)

apply-other :
    (entry irq : ℕ) (m : Store) (irqs : Mappings)
    → names_irq m entry irq ≡ false
    → apply_override entry m irqs irq ≡ irqs irq
unfolding apply_override
apply-other entry irq m irqs e = elim (Bool-cases (entry == 0)) [
  | inl gone ↦ rw gone refl
  | inr there ↦ elim (Bool-cases (ltb (m (entry + 3)) 16)) [
    | inr high ↦ rw (there, high) refl
    | inl old ↦
        rw (there, old) (set_mapping_ne (m (entry + 3)) irq _ irqs (ground (arith, e, there)))
  ]
]

module _ (fuel madt : ℕ) (m : Store) where
  override_loop-step :
      (left i entry : ℕ) (irqs : Mappings)
      → find_madt_entry fuel madt irq_src_override_type i m ≡ some entry
      → override_loop fuel (suc left) i madt m irqs
        ≡ override_loop fuel left (i + 1) madt m (apply_override entry m irqs)
  unfolding override_loop
  override_loop-step left i entry irqs e = rw (override_loop, e) refl

  IsOverridden-later :
      (i left irq : ℕ) (irqs : Mappings) (r : IrqMapping)
      → irq < 16
      → IsOverridden fuel madt m
          (i + 1)
          (i + 1 + left)
          irq
          (apply_override (override_at fuel madt m i) m irqs irq)
          r
      → IsOverridden fuel madt m i (i + suc left) irq (irqs irq) r
  IsOverridden-later i left irq irqs r small (inl (k, a, b, named, after, same)) =
      inl (k, omega arith, omega arith, named, (λ j c d. after j c (omega arith)), same)
  IsOverridden-later i left irq irqs r small (inr (same, after)) =
      elim (Bool-cases (names_irq m (override_at fuel madt m i) irq)) [
        | inl named ↦ inl (
          i,
          omega arith,
          omega arith,
          named,
          (λ j c d. after j (omega arith) (omega arith)),
          same ∙ apply-named (override_at fuel madt m i) irq m irqs small named,
        )
        | inr other ↦ inr (
          same ∙ apply-other (override_at fuel madt m i) irq m irqs other,
          λ j c d. elim (ℕ_discrete j i) [
            | yes here ↦ rw here other
            | no ne ↦ after j (omega arith) (omega arith)
          ],
        )
      ]

  override_loop_lem :
      (left i : ℕ) (irqs : Mappings)
      → ((j : ℕ)
          → j < i + left
          → find_madt_entry fuel madt irq_src_override_type j m ≡ some (override_at fuel madt m j))
      → (t : Mappings) × (override_loop fuel left i madt m irqs ≡ some t)
        × ((irq : ℕ) → irq < 16 → IsOverridden fuel madt m i (i + left) irq (irqs irq) (t irq))
  override_loop_lem zero i irqs total =
      (irqs, unfold override_loop in refl, λ irq lt. inr (refl, λ j a b. absurd (omega arith)))
  override_loop_lem (suc left) i irqs total =
      let (t, e, h) =
        override_loop_lem left (i + 1) (apply_override (override_at fuel madt m i) m irqs)
          (λ j lt. total j (omega arith)) in
      (
        t,
        override_loop-step left i _ irqs (total i (omega arith)) ∙ e,
        λ irq lt. IsOverridden-later i left irq irqs (t irq) lt (h irq lt),
      )

-- For a table in which no entry has length 0, and given fuel for its length and one round more,
-- `Initialize` finishes the mapping of the old interrupts: each of the 16 goes where the last override
-- that names it says, with its flags, or to the interrupt of its own number.
pub build_mappings_lem :
    (fuel madt : ℕ) (m : Store) (irqs : Mappings)
    → ((a : ℕ) → EntryAt m (madt + madt_size) a → a < madt + read_u32 (madt + 4) m → 0 < m (a + 1))
    → read_u32 (madt + 4) m < fuel
    → (n : ℕ) × (t : Mappings) × (find_madt_entry_count fuel madt irq_src_override_type m ≡ some n)
      × (build_mappings fuel madt m irqs ≡ some t)
      × ((irq : ℕ) → irq < 16 → IsOverridden fuel madt m 0 n irq (identity irq) (t irq))
unfolding build_mappings
build_mappings_lem fuel madt m irqs advance enough =
    let walks = find_madt_entry_lem fuel madt irq_src_override_type m advance enough in
    let n = walks.found in
    let bound : 0 + n ≡ n = omega arith in
    let counted = walks.counted ∙ ap some bound in
    let (t, e, h) = override_loop_lem fuel madt m n 0 (identity_loop 16 0 irqs) (λ j lt.
      let (a, found, _, _, _) = walks.inside j (omega arith) in
      found ∙ ap some (sym (ap entry_of found))) in
    (
      n,
      t,
      counted,
      rw (build_mappings, counted) e,
      λ irq lt.
          subst (λ b. IsOverridden fuel madt m 0 n irq b (t irq))
            (identity_loop_lem 16 0 irq irqs (omega arith) (omega arith))
            (subst (λ k. IsOverridden fuel madt m 0 k irq (identity_loop 16 0 irqs irq) (t irq))
              bound (h irq lt)),
    )
