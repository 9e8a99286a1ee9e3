-- ===== src/Firmware/Acpi/Tables/Nth.antt =====
-- `GetTable` finds the table of a signature and an index.
use boreal_os.Base.{
  ℕ, zero, suc, ◌+◌, ◌-◌, ◌≤◌, ◌<◌, ◌≡◌, refl, ◌∙◌, subst, Bool, true, false, ◌==◌, ◌⊎◌, inl, inr,
  Bool-cases, arith, if◌then◌else◌,
}
use boreal_os.Base.Store.{Store}
use boreal_os.Memory.Run.{count}
use boreal_os.Utility.Strings.{View, view_eq}
use boreal_os.Firmware.Acpi.Tables.{
  Acpi, Signatures, is_extended, has_signature, table_at, pointer_count, table_loop, get_table,
}

-- The table that a pointer leads to has the signature.
abbrev pub matches : ℕ → View → Bool → ℕ → Store → ℕ → Bool
matches higher_half signature extended table m i =
    has_signature signature m (table_at higher_half extended table i m)

-- The pointer to the table with the signature that has `index` of them before it, or 0 where there are
-- no more than `index` of them.
abbrev pub IsNth : ℕ → View → Bool → ℕ → Store → ℕ → ℕ → ℕ → ℕ → Type 0
IsNth higher_half signature extended table m first last index r =
    ((k : ℕ) × (first ≤ k)
      × (k < last)
      × (matches higher_half signature extended table m k ≡ true)
      × (count (matches higher_half signature extended table m) k
          ≡ count (matches higher_half signature extended table m) first + index)
      × (r ≡ table_at higher_half extended table k m))
    ⊎ ((count (matches higher_half signature extended table m) last
          ≤ count (matches higher_half signature extended table m) first + index)
        × (r ≡ 0))

module _ (higher_half : ℕ) (signature : View) (extended : Bool) (table : ℕ) (m : Store) where
  abbrev here : ℕ → Bool
  here = matches higher_half signature extended table m

  count-hit : (i : ℕ) → here i ≡ true → count here (i + 1) ≡ count here i + 1
  unfolding count
  count-hit i e = let next : i + 1 ≡ suc i = omega arith in rw (next, count, e) refl

  count-miss : (i : ℕ) → here i ≡ false → count here (i + 1) ≡ count here i
  unfolding count
  count-miss i e = let next : i + 1 ≡ suc i = omega arith in rw (next, count, e) (omega arith)

  table_loop-found :
      (left i : ℕ)
      → here i ≡ true
      → table_loop higher_half signature extended table (suc left) i 0 m
        ≡ table_at higher_half extended table i m
  unfolding table_loop
  table_loop-found left i e = rw (table_loop, e) refl

  table_loop-hit :
      (left i index : ℕ)
      → here i ≡ true
      → table_loop higher_half signature extended table (suc left) i (suc index) m
        ≡ table_loop higher_half signature extended table left (i + 1) index m
  unfolding table_loop
  table_loop-hit left i index e =
      let more : (suc index == 0) ≡ false = ground arith in
      let less : suc index - 1 ≡ index = omega arith in rw (table_loop, e, more, less) refl

  table_loop-miss :
      (left i index : ℕ)
      → here i ≡ false
      → table_loop higher_half signature extended table (suc left) i index m
        ≡ table_loop higher_half signature extended table left (i + 1) index m
  unfolding table_loop
  table_loop-miss left i index e = rw (table_loop, e) refl

  IsNth-later :
      (i left index less r r' : ℕ)
      → r ≡ r'
      → count here (i + 1) + less ≡ count here i + index
      → IsNth higher_half signature extended table m (i + 1) (i + 1 + left) less r'
      → IsNth higher_half signature extended table m i (i + suc left) index r
  IsNth-later i left index less r r' same e (inl (k, a, b, hit, nth, at_k)) =
      inl (k, omega arith, omega arith, hit, omega (arith, nth, e), same ∙ at_k)
  IsNth-later i left index less r r' same e (inr (few, null)) =
      let last : i + 1 + left ≡ i + suc left = omega arith in
      inr
        (subst (λ n. count here n ≤ count here i + index) last (omega (arith, few, e)), same ∙ null)

  table_loop_lem :
      (left i index : ℕ)
      → IsNth higher_half signature extended table m i
          (i + left)
          index
          (table_loop higher_half signature extended table left i index m)
  table_loop_lem zero i index =
      inr (let end : i + 0 ≡ i = omega arith in rw end (omega arith), unfold table_loop in refl)
  table_loop_lem (suc left) i zero = elim (Bool-cases (here i)) [
    | inl hit ↦ inl (i, omega arith, omega arith, hit, omega arith, table_loop-found left i hit)
    | inr miss ↦
        IsNth-later i left 0 0 _ _ (table_loop-miss left i 0 miss)
          (omega (arith, count-miss i miss)) (table_loop_lem left (i + 1) 0)
  ]
  table_loop_lem (suc left) i (suc index) = elim (Bool-cases (here i)) [
    | inl hit ↦
        IsNth-later i left (suc index) index _ _ (table_loop-hit left i index hit)
          (omega (arith, count-hit i hit)) (table_loop_lem left (i + 1) index)
    | inr miss ↦
        IsNth-later i left (suc index) (suc index) _ _ (table_loop-miss left i (suc index) miss)
          (omega (arith, count-miss i miss)) (table_loop_lem left (i + 1) (suc index))
  ]

-- `GetTable` of a signature other than the four that the class keeps a pointer to gives the table with
-- that signature which has `index` of them before it in the root table, the extended one where the
-- revision says so; or the null pointer, where there are no more than `index`.
pub get_table_lem :
    (higher_half : ℕ) (names : Signatures) (signature : View) (index : ℕ) (a : Acpi) (m : Store)
    → view_eq signature names.dsdt_name m ≡ false
    → view_eq signature names.facp_name m ≡ false
    → view_eq signature names.rsdt_name m ≡ false
    → view_eq signature names.xsdt_name m ≡ false
    → let extended = is_extended a.rsdp m in
      let root = if extended then a.xsdt else a.rsdt in
      IsNth higher_half signature extended root m 0
        (pointer_count extended root m)
        index
        (get_table higher_half names signature index a m)
unfolding get_table
get_table_lem higher_half names signature index a m d f r x =
    rw (d, f, r, x) (by_revision (is_extended a.rsdp m))
  where
    from_start :
        (extended : Bool) (root : ℕ)
        → IsNth higher_half signature extended root m 0 (pointer_count extended root m) index (
            table_loop higher_half signature extended root
              (pointer_count extended root m)
              0
              index
              m)
    from_start extended root =
        let bound : 0 + pointer_count extended root m ≡ pointer_count extended root m =
          omega arith in
        subst
          (λ n. IsNth higher_half signature extended root m 0 n index (
            table_loop higher_half signature extended root (pointer_count extended root m) 0 index
              m))
          bound
          (table_loop_lem higher_half signature extended root m (pointer_count extended root m) 0
            index)

    by_revision :
        (extended : Bool)
        → let root = if extended then a.xsdt else a.rsdt in
          IsNth higher_half signature extended root m 0 (pointer_count extended root m) index (
            if extended
            then table_loop higher_half signature true a.xsdt
                (pointer_count true a.xsdt m)
                0
                index
                m
            else table_loop higher_half signature false a.rsdt
                (pointer_count false a.rsdt m)
                0
                index
                m)
    by_revision true = from_start true a.xsdt
    by_revision false = from_start false a.rsdt
